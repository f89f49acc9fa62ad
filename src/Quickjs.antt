-- ===== src/Quickjs.antt =====
-- crates/guestjs-quickjs: the engine behind a runtime.
pub mod Loans
pub mod Entries
