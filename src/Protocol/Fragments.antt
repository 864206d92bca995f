-- ===== src/Protocol/Fragments.antt =====
-- Reassembly of fragmented messages by the raw handlers of src/protocol.rs.
use sockudo_ws.Base.{
  ◌+◌, ◌≤◌, ltb, Bool, Option, none, some, [], ◌++◌, length, Bytes, Outcome, ok, err, panic, ◌≡◌,
  refl, arith, Bool-cases, inl, inr, le_of_ltb-false, length-append,
}
use sockudo_ws.Error.{Error, CloseReason}
use sockudo_ws.Frame.{OpCode, Frame}
use sockudo_ws.Protocol.Types.{RawMessage, State, Protocol}
use sockudo_ws.Protocol.Raw.{
  is_begun, complete_raw_fragment, start_raw_fragment, continued, handle_raw_continuation, raw_data,
  handle_raw_text, handle_raw_binary, on_close, close_reason, closed_with, handle_close, by_opcode,
  handle_raw_frame,
}

-- The reassembly buffer of a protocol: its bytes are within the message limit, the opcode of the
-- message is that of a data message, and with no message begun the buffer is empty.
abbrev pub IsOpen : Option OpCode → Bytes → Type 0
IsOpen none buf = buf ≡ []
IsOpen (some OpCode.text) buf = Unit
IsOpen (some OpCode.binary) buf = Unit
IsOpen (some o) buf = ⊥

abbrev pub IsValid : Protocol → Type 0
IsValid p = (length p.fragment_buf ≤ p.max_message_size) × IsOpen p.fragment_opcode p.fragment_buf

-- The three outcomes that a handler leaves valid.
complete-IsValid : (p : Protocol) (o : OpCode) → IsValid (complete_raw_fragment p o).1
unfolding complete_raw_fragment
complete-IsValid p OpCode.text = (omega arith, refl)
complete-IsValid p OpCode.binary = (omega arith, refl)
complete-IsValid p OpCode.continuation = (omega arith, refl)
complete-IsValid p OpCode.close = (omega arith, refl)
complete-IsValid p OpCode.ping = (omega arith, refl)
complete-IsValid p OpCode.pong = (omega arith, refl)

continued-IsValid :
    (o : Option OpCode) (p : Protocol) (f : Frame)
    → p.fragment_opcode ≡ o
    → IsValid p
    → IsValid (continued o p f).1
continued-IsValid none p f e v = v
continued-IsValid (some o) p f e v =
    elim (Bool-cases (ltb p.max_message_size (length p.fragment_buf + length f.payload))) [
      | inl big ↦ rw big v
      | inr fits ↦ elim (Bool-cases f.header.fin) [
        | inl last ↦
            rw (fits, last)
              (complete-IsValid (record p { fragment_buf = p.fragment_buf ++ f.payload }) o)
        | inr more ↦
            rw (fits, more)
              (
                omega (arith, length-append p.fragment_buf f.payload, le_of_ltb-false _ _ fits),
                kept p.fragment_opcode o p.fragment_buf (p.fragment_buf ++ f.payload) e v.1,
              )
      ]
    ]
  where
    kept : (m : Option OpCode) (o : OpCode) (a b : Bytes) → m ≡ some o → IsOpen m a → IsOpen m b
    kept none o a b e i = absurd (ground (arith, e))
    kept (some OpCode.text) o a b e i = i
    kept (some OpCode.binary) o a b e i = i
    kept (some OpCode.continuation) o a b e i = absurd i
    kept (some OpCode.close) o a b e i = absurd i
    kept (some OpCode.ping) o a b e i = absurd i
    kept (some OpCode.pong) o a b e i = absurd i

raw_data-IsValid :
    (m : Bytes → RawMessage) (o : OpCode) (p : Protocol) (f : Frame)
    → IsOpen (some o) f.payload
    → IsValid p
    → IsValid (raw_data m o p f).1
unfolding start_raw_fragment
raw_data-IsValid m o p f d v = elim (Bool-cases (is_begun p.fragment_opcode)) [
  | inl busy ↦ rw busy v
  | inr free ↦ elim (Bool-cases f.header.fin) [
    | inl whole ↦ elim (Bool-cases (ltb p.max_message_size (length f.payload))) [
      | inl big ↦ rw (free, whole, big) v
      | inr fits ↦ rw (free, whole, fits) v
    ]
    | inr part ↦ elim (Bool-cases (ltb p.max_message_size (length f.payload))) [
      | inl big ↦ rw (free, part, big) v
      | inr fits ↦ rw (free, part, fits) (le_of_ltb-false _ _ fits, d)
    ]
  ]
]

on_close-IsValid :
    (s : State) (r : Option CloseReason) (p : Protocol) → IsValid p → IsValid (on_close s r p)
on_close-IsValid State.open_ r p v = v
on_close-IsValid State.close_sent r p v = v
on_close-IsValid State.close_received r p v = v
on_close-IsValid State.closed r p v = v

module _ (validate_utf8 : Bytes → Bool) where
  closed_with-IsValid :
      (c : Outcome Error (Option CloseReason)) (p : Protocol)
      → IsValid p
      → IsValid (closed_with validate_utf8 c p).1
  closed_with-IsValid (ok r) p v = on_close-IsValid p.state r p v
  closed_with-IsValid (err e) p v = v
  closed_with-IsValid panic p v = v

  by_opcode-IsValid :
      (o : OpCode) (p : Protocol) (f : Frame)
      → IsValid p
      → IsValid (by_opcode validate_utf8 o p f).1
  unfolding handle_raw_continuation handle_raw_text handle_raw_binary handle_close
  by_opcode-IsValid OpCode.continuation p f v = continued-IsValid p.fragment_opcode p f refl v
  by_opcode-IsValid OpCode.text p f v = raw_data-IsValid RawMessage.text OpCode.text p f tt v
  by_opcode-IsValid OpCode.binary p f v = raw_data-IsValid RawMessage.binary OpCode.binary p f tt v
  by_opcode-IsValid OpCode.close p f v =
      closed_with-IsValid (close_reason validate_utf8 f.payload) p v
  by_opcode-IsValid OpCode.ping p f v = v
  by_opcode-IsValid OpCode.pong p f v = v

  -- Every frame, accepted or refused, leaves at most `max_message_size` bytes in the reassembly
  -- buffer, and leaves it empty when no message is begun.
  pub handle_raw_frame-IsValid :
      (p : Protocol) (f : Frame) → IsValid p → IsValid (handle_raw_frame validate_utf8 p f).1
  handle_raw_frame-IsValid p f v = by_opcode-IsValid f.header.opcode p f v
