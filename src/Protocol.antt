-- ===== src/Protocol.antt =====
-- src/protocol.rs: messages, the protocol state, and raw message processing.
pub mod Types
pub mod Raw
pub mod Encode
pub mod Fragments
pub mod Reassembly
pub mod Closing
pub mod Deliver
pub mod Typed
pub mod Checked
pub mod TextFrames
pub mod Validates
pub mod Frames
pub mod Partial
pub mod Unvalidated
pub mod TypedLoop
pub mod Moves
pub mod Loop
pub mod Reads
pub mod Drains
pub mod Turns
pub mod Chunks
