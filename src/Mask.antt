-- ===== src/Mask.antt =====
-- Masking of payload bytes: the portable paths of src/simd.rs (`apply_mask_blocks`,
-- `apply_mask_words`, `apply_mask_offset`) and the copying paths of src/frame.rs
-- (`encode_payload_masked_inline`, `copy_mask_long`, `copy_mask_words`, `copy_mask_block`).
-- A `[u8; 4]` is a `MaskKey`, a slice is a list of bytes, and a `u64` that is read with
-- `from_ne_bytes` and written back with `to_ne_bytes` is the list of its eight bytes: its
-- exclusive or works byte by byte. The address of a buffer enters only as `misalign`.
mod Defs
pub mod Laws
pub mod Apply
pub mod Copy
pub use Defs.{MaskKey, key_at, mask_bytes, mask_from, apply_mask}
unfoldable pub use Defs.{
  as_chunks, xor_word, mask_word, apply_mask_words, xor_prefix, rotated, apply_mask_blocks,
  apply_mask_offset, copy_mask_block, copy_mask_words, copy_mask_long, encode_payload_masked_inline,
}
