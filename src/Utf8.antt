-- ===== src/Utf8.antt =====
-- src/utf8.rs: incremental validation of UTF-8.
pub mod Defs
pub mod Format
pub mod Places
pub mod Cut
pub mod Prefix
pub mod Push
pub mod Chunks
pub use Defs.{Utf8Stream, utf8_new}
