-- ===== src/Imports.antt =====
-- crates/guestjs-core/src/imports: resolving specifiers, locating modules, and the requests for them.
pub mod Resolver
pub mod Bindings
pub mod Dispatch
