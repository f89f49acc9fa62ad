-- ===== src/Driver.antt =====
-- crates/guestjs-core/src/driver/: the futures of the host that a guest awaits, the loop that runs
-- them beside the jobs of the engine, and the future of a promise of the guest.
pub mod HostFutures
pub mod EventLoop
pub mod Promise
