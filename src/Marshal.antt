-- ===== src/Marshal.antt =====
-- crates/guestjs-core/src/marshal/: values between the host and a guest.
pub mod Args
pub mod Nullish
pub mod Describe
pub mod Integers
pub mod Collections
