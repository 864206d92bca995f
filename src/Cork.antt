-- ===== src/Cork.antt =====
-- src/cork.rs: the write buffer that batches small writes.
mod Defs
pub mod Laws
pub mod Slices
pub mod Run
pub use Defs.{CorkState, CorkBuffer, BatchWriter}
unfoldable pub use Defs.{with_capacity, cork, uncork, is_corked, has_data, pending_bytes, write}
unfoldable pub use Defs.{write_bytes, push_segment, fill_write_slices, get_write_slices, consume}
unfoldable pub use Defs.{take_buffer, buffer_mut, clear, chunk, batch_new, batch_drop}
