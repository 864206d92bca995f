-- ===== src/Parser/Types.antt =====
-- The state of `FrameParser` in src/frame.rs. The filled part `header_buf[..header_len]` of the
-- 14-byte array is the list `header_buf`, and `header_len` is its length.
use sockudo_ws.Base.{
  ℕ, ltb, if◌then◌else◌, Bool, true, false, Option, none, some, [], Bytes, Outcome,
}
use sockudo_ws.Error.{Error}
use sockudo_ws.Frame.{OpCode, FrameHeader, Frame}

pub data ParseState : Type 0 where
  header extended_len16 extended_len64 mask payload frame_too_large : ParseState

pub record FrameParser : Type 0 where
  pub state : ParseState
  pub header_buf : Bytes
  pub header : Option FrameHeader
  pub max_frame_size : ℕ
  pub expect_masked : Bool
  pub allow_rsv1 : Bool
  pub payload_ready : ℕ

pub record PendingPayload : Type 0 where
  pub opcode : OpCode
  pub fin : Bool
  pub rsv1 : Bool
  pub ready : ℕ
  pub total : ℕ

-- A call returns its result, and leaves the parser and the caller's buffer as given.
abbrev pub Parsed : Type 0
Parsed = Outcome Error (Option Frame) × FrameParser × Bytes

abbrev pub new : ℕ → Bool → FrameParser
new max_frame_size expect_masked = record {
  state = ParseState.header;
  header_buf = [];
  header = none;
  max_frame_size = max_frame_size;
  expect_masked = expect_masked;
  allow_rsv1 = false;
  payload_ready = 0;
}

abbrev pub with_compression : ℕ → Bool → FrameParser
with_compression max_frame_size expect_masked = record {
  state = ParseState.header;
  header_buf = [];
  header = none;
  max_frame_size = max_frame_size;
  expect_masked = expect_masked;
  allow_rsv1 = true;
  payload_ready = 0;
}

-- `self.state != ParseState::Payload`, then the `?` on the header
abbrev pub pending_in : ParseState → FrameParser → Option PendingPayload
pending_in ParseState.payload p = elim p.header [
  | none ↦ none
  | some h ↦ some (record {
    opcode = h.opcode;
    fin = h.fin;
    rsv1 = h.rsv1;
    ready = p.payload_ready;
    total = h.payload_len;
  })
]
pending_in _ p = none

abbrev pub pending_payload : FrameParser → Option PendingPayload
pending_payload p = pending_in p.state p

abbrev pub exceeds : Option FrameHeader → ℕ → Bool
exceeds none size = false
exceeds (some h) size = ltb size h.payload_len

unfoldable pub set_max_frame_size : FrameParser → ℕ → FrameParser
set_max_frame_size p size = record p {
  max_frame_size = size;
  state = if exceeds p.header size then ParseState.frame_too_large else p.state;
}

abbrev pub set_compression : FrameParser → Bool → FrameParser
set_compression p enabled = record p { allow_rsv1 = enabled }

abbrev pub reset : FrameParser → FrameParser
reset p = record p { state = ParseState.header; header_buf = []; header = none; payload_ready = 0 }
