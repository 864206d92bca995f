-- ===== src/Protocol/Unvalidated.antt =====
-- `handle_frame` of src/protocol.rs when text validation is disabled.
use sockudo_ws.Base.{
  ℕ, ltb, if◌then◌else◌, Bool, false, not, Option, none, some, length, Bytes, Outcome, ok, err,
  panic, ◌≡◌, refl, Bool-cases, inl, inr, ◌+◌, ◌++◌, ap, ◌∙◌,
}
use sockudo_ws.Error.{Error, CloseReason}
use sockudo_ws.Frame.{OpCode, Frame}
use sockudo_ws.Protocol.Types.{RawMessage, Message, Protocol, Handled}
use sockudo_ws.Protocol.Raw.{
  is_begun, start_raw_fragment, continued, handle_raw_continuation, handle_raw_text,
  handle_raw_binary, close_reason, closed_with, handle_close, by_opcode, handle_raw_frame,
  complete_raw_fragment,
}
use sockudo_ws.Protocol.Typed.{
  map_some, map_raw, complete_text_valid, complete_text, handle_complete_data, start_fragment,
  then_none_typed, handle_text, handle_binary, continued_typed, handle_continuation, typed_close,
  typed_by_opcode, handle_frame,
}
use sockudo_ws.Protocol.Checked.{typed}

abbrev typed_option : Option RawMessage → Option Message
typed_option none = none
typed_option (some m) = some (typed m)

abbrev pub unvalidated : Handled (Option RawMessage) → Handled (Option Message)
unvalidated (ok m, p) = (ok (typed_option m), p)
unvalidated (err e, p) = (err e, p)
unvalidated (panic, p) = (panic, p)

module _ (validate_utf8 from_utf8 : Bytes → Bool) (p : Protocol) (f : Frame) (pre : ℕ)
    (disabled : p.validate_text_utf8 ≡ false) where
  completed :
      (q : Protocol) (o : OpCode)
      → map_raw (complete_raw_fragment q o) ≡ unvalidated (complete_raw_fragment q o)
  unfolding complete_raw_fragment
  completed q OpCode.text = refl
  completed q OpCode.binary = refl
  completed q OpCode.continuation = refl
  completed q OpCode.close = refl
  completed q OpCode.ping = refl
  completed q OpCode.pong = refl

  continues : (o : Option OpCode) → map_raw (continued o p f) ≡ unvalidated (continued o p f)
  continues none = refl
  continues (some o) =
      elim (Bool-cases (ltb p.max_message_size (length p.fragment_buf + length f.payload))) [
        | inl big ↦ rw big refl
        | inr fits ↦ elim (Bool-cases f.header.fin) [
          | inl last ↦
              rw (fits, last)
                (completed (record p { fragment_buf = p.fragment_buf ++ f.payload }) o)
          | inr part ↦ rw (fits, part) refl
        ]
      ]

  abbrev text_disabled : Bool → Handled (Option Message)
  text_disabled enabled =
      let (result, p') =
        if is_begun p.fragment_opcode
        then (err (Error.protocol "expected continuation frame"), p)
        else if ltb p.max_message_size (length f.payload)
        then (err Error.message_too_large, p)
        else if enabled
        then complete_text p f.payload (complete_text_valid validate_utf8 from_utf8 p f.payload pre)
        else (ok (Message.text f.payload), p) in
      if f.header.fin
      then (map_some result, p')
      else if not enabled
      then map_raw (handle_raw_text p f)
      else if is_begun p.fragment_opcode
      then (err (Error.protocol "expected continuation frame"), p)
      else then_none_typed (start_fragment validate_utf8 from_utf8 p OpCode.text f.payload pre)

  texts : text_disabled false ≡ unvalidated (handle_raw_text p f)
  unfolding handle_raw_text start_raw_fragment
  texts = elim (Bool-cases (is_begun p.fragment_opcode)) [
    | inl busy ↦ elim (Bool-cases f.header.fin) [
      | inl whole ↦ rw (busy, whole) refl
      | inr part ↦ rw (busy, part) refl
    ]
    | inr free ↦ elim (Bool-cases (ltb p.max_message_size (length f.payload))) [
      | inl big ↦ elim (Bool-cases f.header.fin) [
        | inl whole ↦ rw (free, whole, big) refl
        | inr part ↦ rw (free, part, big) refl
      ]
      | inr fits ↦ elim (Bool-cases f.header.fin) [
        | inl whole ↦ rw (free, whole, fits) refl
        | inr part ↦ rw (free, part, fits) refl
      ]
    ]
  ]

  binaries : handle_binary validate_utf8 from_utf8 p f ≡ unvalidated (handle_raw_binary p f)
  unfolding handle_binary handle_raw_binary handle_complete_data start_fragment start_raw_fragment
  binaries = elim (Bool-cases (is_begun p.fragment_opcode)) [
    | inl busy ↦ elim (Bool-cases f.header.fin) [
      | inl whole ↦ rw (busy, whole) refl
      | inr part ↦ rw (busy, part) refl
    ]
    | inr free ↦ elim (Bool-cases (ltb p.max_message_size (length f.payload))) [
      | inl big ↦ elim (Bool-cases f.header.fin) [
        | inl whole ↦ rw (free, whole, big) refl
        | inr part ↦ rw (free, part, big) refl
      ]
      | inr fits ↦ elim (Bool-cases f.header.fin) [
        | inl whole ↦ rw (free, whole, fits) refl
        | inr part ↦ rw (free, part, fits) refl
      ]
    ]
  ]

  closes :
      (c : Outcome Error (Option CloseReason))
      → typed_close c p ≡ unvalidated (closed_with validate_utf8 c p)
  closes (ok reason) = refl
  closes (err e) = refl
  closes panic = refl

  by_kind :
      (o : OpCode)
      → typed_by_opcode validate_utf8 from_utf8 o p f pre
        ≡ unvalidated (by_opcode validate_utf8 o p f)
  unfolding handle_continuation handle_raw_continuation handle_close handle_text
      handle_complete_data
  by_kind OpCode.continuation =
      ap
        (λ b.
          if not b
          then map_raw (handle_raw_continuation p f)
          else continued_typed validate_utf8 from_utf8 p.fragment_opcode p f pre)
        disabled
      ∙ continues p.fragment_opcode
  by_kind OpCode.text = ap text_disabled disabled ∙ texts
  by_kind OpCode.binary = binaries
  by_kind OpCode.close = closes (close_reason validate_utf8 f.payload)
  by_kind OpCode.ping = refl
  by_kind OpCode.pong = refl

  -- With text validation disabled, the typed handler does exactly what the raw handler does: the same
  -- error or the same message under its typed name, and the same protocol; the `unreachable!` of the
  -- conversion is not reached.
  pub handle_frame-unvalidated :
      handle_frame validate_utf8 from_utf8 p f pre
      ≡ unvalidated (handle_raw_frame validate_utf8 p f)
  handle_frame-unvalidated = by_kind f.header.opcode
