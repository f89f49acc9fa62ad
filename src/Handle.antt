-- ===== src/Handle.antt =====
-- The handles of crates/guestjs-core/src/handle that keep state of their own: the iterators of
-- handle/iter.rs, and the reader and the writer of handle/stream.rs.
pub mod Reader
pub mod Writer
pub mod Iter
pub mod Buffers
