-- ===== src/Lib.antt =====
-- A model of the core of the WebSocket library sockudo-ws, with the theorems that make it correct.
--
-- The program reads bytes from a transport into a buffer. `FrameParser` (src/frame.rs) takes frames
-- out of the buffer, unmasking their payloads with the routines of src/simd.rs. `Protocol`
-- (src/protocol.rs) joins the frames to messages and runs the closing handshake. The other way,
-- `Protocol` encodes messages with the encoders of src/frame.rs, and `CorkBuffer` (src/cork.rs)
-- collects what is to be written. `Heartbeat` (src/heartbeat.rs) decides when to send a Ping and
-- when a connection has timed out. `ReceiveWindow` (src/stream/receive_window.rs) makes room for the
-- next read, `SpscQueue` (src/queue.rs) hands items from one thread to another, and errors are those
-- of src/error.rs.
--
-- Which file models what:
--   Base, Base/*       numbers, tests, lists and bit operations that the other modules share
--   Mask, Mask/*       src/simd.rs, the portable masking routines, and the masking copy at the end of
--                      src/frame.rs; words of eight bytes are lists of eight bytes
--   Error, Error/*     src/error.rs in a build without the http2 and http3 features
--   Frame, Frame/*     opcodes, headers, frames and encoders of src/frame.rs
--   Parser/Types       the state of `FrameParser`; `header_buf[..header_len]` is a list
--   Parser/Slow, Header   `parse_slow`: an arm that sets another state calls the arm of that state
--   Parser/Fast        `parse` and its fast paths
--   Parser/Spec        the frame format as one function from bytes, with no parser state
--   Parser/Small, Equal   the fast paths against `parse_slow`
--   Parser/Resume to Parser/Correct   `parse_slow` against the format, arm by arm
--   Parser/Stream, RoundTrip   calls in sequence, and the encoders against the parser
--   Protocol, Protocol/*  src/protocol.rs: raw message handling, fragments, closing and encoding
--   Protocol/Loop, Reads to Chunks   the receive loop, the relation it implements, and the proof
--   Protocol/TypedLoop  the receive loop for typed messages
--   Protocol/Typed, Checked to Unvalidated   the typed handlers, and what they do besides the raw
--   Utf8, Utf8/*       src/utf8.rs: `Utf8Stream`; Utf8/Format is UTF-8 as RFC 3629 defines it
--   Heartbeat, Heartbeat/*   src/heartbeat.rs
--   Cork, Cork/*       src/cork.rs
--   Window, Window/*   src/stream/receive_window.rs; `BytesMut` is a parameter
--   Queue, Queue/*     `SpscQueue` of src/queue.rs, its two threads as turns in any order
--   Examples/*         concrete runs
--
-- A method that changes its object returns the changed record. A `Result` is `Outcome`, which also
-- has the Rust panic. Numbers are unbounded naturals; the sums and products that the source makes
-- with wrap-around or saturation have it written out. A `usize` has 64 bits.
--
-- Bounds and fuel: `as_chunks` runs on fuel, the number of bytes, which is enough because every chunk
-- has at least one. `process_raw_into` runs on one more than the bytes that the parser and the buffer
-- hold: after the first frame every frame takes a byte at least. All other loops are structural.
--
-- Parameters: `validate_utf8` is the simdutf8 library and `from_utf8` the standard library's; a
-- client's mask is the random value that `generate_mask` returns; the alignment of a buffer is an
-- argument of the masking routines; the counter of Ping nonces is passed in and returned; `BytesMut`
-- of the bytes library, where its capacity counts, is a record of operations and laws.
--
-- Not modelled: the vector variants of the masking for single targets; `process_next_with_activity`;
-- compression; publish and subscribe; the HTTP handshake; `MpmcQueue`; the async connections, servers
-- and HTTP/2 and HTTP/3. Of `process_into` there is the definition and a run, and no theorem.
pub mod Base
pub mod Mask
pub mod Error
pub mod Frame
pub mod Parser
pub mod Utf8
pub mod Protocol
pub mod Heartbeat
pub mod Cork
pub mod Queue
pub mod Window
pub mod Examples
