-- ===== src/Frame.antt =====
-- src/frame.rs: opcodes, frame headers, frames, and the encoders. The parser is `Parser`.
mod Defs
pub mod Encode
pub mod Bytes
pub mod Laws
pub use Defs.{OpCode, FrameHeader, Frame}
unfoldable pub use Defs.{to_u8, from_u8, is_control, is_data, header_size, be16, be64, put_u16}
unfoldable pub use Defs.{
  put_u64, put_mask, encode, frame_new, frame_text, frame_close, frame_is_control,
}
