-- ===== src/Protocol/Moves.antt =====
-- The raw handlers of src/protocol.rs do not read or change the parser, and do not panic.
use sockudo_ws.Base.{
  ◌+◌, ltb, Bool, Option, none, some, ◌++◌, length, Bytes, Outcome, ok, err, panic, ◌≡◌, refl, ap,
  Bool-cases, inl, inr, ◌∷◌, [],
}
use sockudo_ws.Error.{Error, CloseReason, is_valid_code}
use sockudo_ws.Frame.{OpCode, Frame, be16}
use sockudo_ws.Parser.Types.{FrameParser}
use sockudo_ws.Protocol.Types.{RawMessage, State, Protocol, Handled}
use sockudo_ws.Protocol.Raw.{
  is_begun, complete_raw_fragment, start_raw_fragment, continued, handle_raw_continuation, raw_data,
  handle_raw_text, handle_raw_binary, on_close, close_reason, closed_with, handle_close, by_opcode,
  handle_raw_frame,
}

abbrev pub moved : {A : Type 0} → FrameParser → Handled A → Handled A
moved q (o, p) = (o, record p { parser = q })

abbrev pub Returns {ℓ} : {A : Type ℓ} → Outcome Error A → Type 0
Returns panic = ⊥
Returns _ = Unit

module _ (q : FrameParser) where
  -- The result of a handler, and that of the same handler with `q` for the parser.
  abbrev Same : {A : Type 0} → Handled A → Handled A → Type 0
  Same h moved_h = (moved_h ≡ moved q h) × Returns h.0

  complete-Same :
      (p : Protocol) (o : OpCode)
      → Same (complete_raw_fragment p o) (complete_raw_fragment (record p { parser = q }) o)
  unfolding complete_raw_fragment
  complete-Same p OpCode.text = (refl, tt)
  complete-Same p OpCode.binary = (refl, tt)
  complete-Same p OpCode.continuation = (refl, tt)
  complete-Same p OpCode.close = (refl, tt)
  complete-Same p OpCode.ping = (refl, tt)
  complete-Same p OpCode.pong = (refl, tt)

  continued-Same :
      (o : Option OpCode) (p : Protocol) (f : Frame)
      → Same (continued o p f) (continued o (record p { parser = q }) f)
  continued-Same none p f = (refl, tt)
  continued-Same (some o) p f =
      elim (Bool-cases (ltb p.max_message_size (length p.fragment_buf + length f.payload))) [
        | inl big ↦ rw big (refl, tt)
        | inr fits ↦ elim (Bool-cases f.header.fin) [
          | inl last ↦
              rw (fits, last)
                (complete-Same (record p { fragment_buf = p.fragment_buf ++ f.payload }) o)
          | inr more ↦ rw (fits, more) (refl, tt)
        ]
      ]

  raw_data-Same :
      (m : Bytes → RawMessage) (o : OpCode) (p : Protocol) (f : Frame)
      → Same (raw_data m o p f) (raw_data m o (record p { parser = q }) f)
  unfolding start_raw_fragment
  raw_data-Same m o p f = elim (Bool-cases (is_begun p.fragment_opcode)) [
    | inl busy ↦ rw busy (refl, tt)
    | inr free ↦ elim (Bool-cases (ltb p.max_message_size (length f.payload))) [
      | inl big ↦ elim (Bool-cases f.header.fin) [
        | inl whole ↦ rw (free, whole, big) (refl, tt)
        | inr part ↦ rw (free, part, big) (refl, tt)
      ]
      | inr fits ↦ elim (Bool-cases f.header.fin) [
        | inl whole ↦ rw (free, whole, fits) (refl, tt)
        | inr part ↦ rw (free, part, fits) (refl, tt)
      ]
    ]
  ]

  on_close-moved :
      (s : State) (reason : Option CloseReason) (p : Protocol)
      → on_close s reason (record p { parser = q }) ≡ record (on_close s reason p) { parser = q }
  on_close-moved State.open_ reason p = refl
  on_close-moved State.close_sent reason p = refl
  on_close-moved State.close_received reason p = refl
  on_close-moved State.closed reason p = refl

  module _ (validate_utf8 : Bytes → Bool) where
    closed_with-Same :
        (c : Outcome Error (Option CloseReason)) (p : Protocol)
        → Returns c
        → Same
            (closed_with validate_utf8 c p)
            (closed_with validate_utf8 c (record p { parser = q }))
    closed_with-Same (ok reason) p n =
        (ap (λ z. (ok (some (RawMessage.close reason)), z)) (on_close-moved p.state reason p), tt)
    closed_with-Same (err e) p n = (refl, tt)
    closed_with-Same panic p n = absurd n

    close_reason-Returns : (b : Bytes) → Returns (close_reason validate_utf8 b)
    unfolding close_reason
    close_reason-Returns [] = tt
    close_reason-Returns (a ∷ []) = tt
    close_reason-Returns (a ∷ b ∷ []) = elim (Bool-cases (is_valid_code (be16 a b))) [
      | inl e ↦ rw e tt
      | inr e ↦ rw e tt
    ]
    close_reason-Returns (a ∷ b ∷ c ∷ t) = elim (Bool-cases (is_valid_code (be16 a b))) [
      | inl e ↦ elim (Bool-cases (validate_utf8 (c ∷ t))) [
        | inl u ↦ rw (e, u) tt
        | inr u ↦ rw (e, u) tt
      ]
      | inr e ↦ rw e tt
    ]

    by_opcode-Same :
        (o : OpCode) (p : Protocol) (f : Frame)
        → Same
            (by_opcode validate_utf8 o p f)
            (by_opcode validate_utf8 o (record p { parser = q }) f)
    unfolding handle_raw_continuation handle_raw_text handle_raw_binary handle_close
    by_opcode-Same OpCode.continuation p f = continued-Same p.fragment_opcode p f
    by_opcode-Same OpCode.text p f = raw_data-Same RawMessage.text OpCode.text p f
    by_opcode-Same OpCode.binary p f = raw_data-Same RawMessage.binary OpCode.binary p f
    by_opcode-Same OpCode.close p f =
        closed_with-Same (close_reason validate_utf8 f.payload) p (close_reason-Returns f.payload)
    by_opcode-Same OpCode.ping p f = (refl, tt)
    by_opcode-Same OpCode.pong p f = (refl, tt)

    pub handle_raw_frame-moved :
        (p : Protocol) (f : Frame)
        → handle_raw_frame validate_utf8 (record p { parser = q }) f
          ≡ moved q (handle_raw_frame validate_utf8 p f)
    handle_raw_frame-moved p f = (by_opcode-Same f.header.opcode p f).0

module _ (validate_utf8 : Bytes → Bool) where
  pub handle_raw_frame-Returns :
      (p : Protocol) (f : Frame) → Returns (handle_raw_frame validate_utf8 p f).0
  handle_raw_frame-Returns p f = (by_opcode-Same p.parser validate_utf8 f.header.opcode p f).1

  pub handle_raw_frame-parser :
      (p : Protocol) (f : Frame) → (handle_raw_frame validate_utf8 p f).1.parser ≡ p.parser
  handle_raw_frame-parser p f =
      ap (λ (h : Handled (Option RawMessage)). h.1.parser)
        (handle_raw_frame-moved p.parser validate_utf8 p f)
