-- ===== src/Parser.antt =====
-- src/frame.rs: `FrameParser`, the incremental frame parser.
pub mod Types
pub mod Slow
pub mod Header
pub mod Fast
pub mod Small
pub mod Equal
pub mod Spec
pub mod Resume
pub mod Payload
pub mod Mask
pub mod Extended
pub mod Length
pub mod Arms
pub mod Waits
pub mod Start
pub mod Correct
pub mod Grow
pub mod Stream
pub mod Accepts
pub mod RoundTrip
