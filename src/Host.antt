-- ===== src/Host.antt =====
-- crates/guestjs-core/src/host/: what the host offers to a guest.
pub mod Shared
pub mod Modules
