-- ===== src/Protocol/Types.antt =====
-- The types of src/protocol.rs.
use sockudo_ws.Base.{ℕ, Bool, true, false, Option, none, [], Bytes, Outcome}
use sockudo_ws.Error.{Error, CloseReason}
use sockudo_ws.Frame.{OpCode}
use sockudo_ws.Parser.Types.{FrameParser, new}
use sockudo_ws.Utf8.{Utf8Stream, utf8_new}

pub data Role : Type 0 where
  client server : Role

pub data RawMessage : Type 0 where
  text : Bytes → RawMessage
  binary : Bytes → RawMessage
  ping : Bytes → RawMessage
  pong : Bytes → RawMessage
  close : Option CloseReason → RawMessage

abbrev pub opcode : RawMessage → OpCode
opcode (RawMessage.text b) = OpCode.text
opcode (RawMessage.binary b) = OpCode.binary
opcode (RawMessage.ping b) = OpCode.ping
opcode (RawMessage.pong b) = OpCode.pong
opcode (RawMessage.close r) = OpCode.close

abbrev pub as_bytes : RawMessage → Bytes
as_bytes (RawMessage.text b) = b
as_bytes (RawMessage.binary b) = b
as_bytes (RawMessage.ping b) = b
as_bytes (RawMessage.pong b) = b
as_bytes (RawMessage.close r) = []

pub data Message : Type 0 where
  text : Bytes → Message
  binary : Bytes → Message
  ping : Bytes → Message
  pong : Bytes → Message
  close : Option CloseReason → Message

pub data State : Type 0 where
  open_ close_sent close_received closed : State

pub record Protocol : Type 0 where
  pub validate_text_utf8 : Bool
  pub role : Role
  pub state : State
  pub parser : FrameParser
  pub fragment_buf : Bytes
  pub fragment_opcode : Option OpCode
  pub fragment_validated_len : ℕ
  pub max_message_size : ℕ
  pub pending_close : Option CloseReason
  pub utf8 : Utf8Stream
  pub partial_checked : ℕ

-- A method's result and the protocol that it leaves.
abbrev pub Handled : Type 0 → Type 0
Handled A = Outcome Error A × Protocol

abbrev pub is_server : Role → Bool
is_server Role.server = true
is_server Role.client = false

abbrev pub protocol_new : Role → ℕ → ℕ → Protocol
protocol_new role max_frame_size max_message_size = record {
  role = role;
  validate_text_utf8 = true;
  state = State.open_;
  parser = new max_frame_size (is_server role);
  fragment_buf = [];
  fragment_opcode = none;
  fragment_validated_len = 0;
  max_message_size = max_message_size;
  pending_close = none;
  utf8 = utf8_new;
  partial_checked = 0;
}

abbrev pub with_text_utf8_validation : Protocol → Bool → Protocol
with_text_utf8_validation p enabled = record p { validate_text_utf8 = enabled }

-- The reader and the writer
abbrev pub split : Protocol → ℕ → ℕ → Protocol × Protocol
split p max_frame_size max_message_size = (
  p,
  record (protocol_new p.role max_frame_size max_message_size) {
    state = p.state;
    pending_close = p.pending_close;
  },
)

abbrev pub is_closed_state : State → Bool
is_closed_state State.closed = true
is_closed_state _ = false

abbrev pub is_closed : Protocol → Bool
is_closed p = is_closed_state p.state

abbrev pub is_closing_state : State → Bool
is_closing_state State.close_sent = true
is_closing_state State.close_received = true
is_closing_state _ = false

abbrev pub is_closing : Protocol → Bool
is_closing p = is_closing_state p.state
