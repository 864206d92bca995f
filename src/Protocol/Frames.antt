-- ===== src/Protocol/Frames.antt =====
-- `handle_frame` of src/protocol.rs is `handle_raw_frame` and a check of the text.
use sockudo_ws.Base.{
  ℕ, suc, min, ltb, ◌==◌, if◌then◌else◌, Bool, true, false, not, Option, none, some, [], length,
  take, drop, Bytes, Outcome, ok, err, panic, ◌≡◌, refl, sym, arith, Bool-cases, inl, inr, zero,
  ◌<◌,
}
use mathlib.Core.Path.{subst}
use sockudo_ws.Error.{Error, CloseReason}
use sockudo_ws.Frame.{OpCode, Frame}
use sockudo_ws.Utf8.Defs.{utf8_reset, push}
use sockudo_ws.Utf8.Format.{well_formed}
use sockudo_ws.Utf8.Push.{Pushed}
use sockudo_ws.Protocol.Types.{State, RawMessage, Message, Protocol, Handled}
use sockudo_ws.Protocol.Raw.{
  is_begun, start_raw_fragment, continued, handle_raw_continuation, handle_raw_text,
  handle_raw_binary, on_close, close_reason, closed_with, handle_close, by_opcode, handle_raw_frame,
}
use sockudo_ws.Protocol.Typed.{
  map_some, map_raw, complete_text_valid, complete_text, handle_complete_data, start_fragment,
  then_none_typed, handle_text, handle_binary, continued_typed, handle_continuation, typed_close,
  typed_by_opcode, handle_frame,
}
use sockudo_ws.Protocol.Checked.{
  typed, text_ok, checked, bare, IsSettled, Stands, IsChecked, Agrees, Behind, Partly, Ahead,
  push-rest, valid_whole,
}
use sockudo_ws.Protocol.Validates.{suc_not_zero, continued_data}
use sockudo_ws.Protocol.TextFrames.{whole_text, first_text}

-- The opcodes of the frames that carry a text.
abbrev is_data : OpCode → Bool
is_data OpCode.continuation = true
is_data OpCode.text = true
is_data _ = false

module _ (validate_utf8 from_utf8 : Bytes → Bool)
    (validates : (w : Bytes) → validate_utf8 w ≡ well_formed w)
    (checks : (w : Bytes) → from_utf8 w ≡ well_formed w) (p : Protocol) (f : Frame) (pre : ℕ)
    (enabled : p.validate_text_utf8 ≡ true) where
  abbrev IsAheadText : Type 0
  IsAheadText =
      Stands p.utf8
      × IsSettled p.fragment_opcode p.fragment_validated_len p.fragment_buf
      × (0 < pre → Behind (take pre f.payload) p.utf8)

  text_ahead : f.header.opcode ≡ OpCode.text → Ahead p f pre → IsAheadText
  text_ahead e a = by_count pre a
    where
      alone :
          (o : Option OpCode) (got : Bytes)
          → Partly OpCode.text o p.fragment_buf got p.utf8
          → Behind got p.utf8
      alone none got h = h
      alone (some o) got h = absurd h

      by_count :
          (pre : ℕ)
          → Ahead p f pre
          → Stands p.utf8
            × IsSettled p.fragment_opcode p.fragment_validated_len p.fragment_buf
            × (0 < pre → Behind (take pre f.payload) p.utf8)
      by_count zero (st, i) = (st, i, λ l. absurd (omega (arith, l)))
      by_count (suc n) (i, h) =
          let b = alone p.fragment_opcode (take (suc n) f.payload) (
            subst (λ a. Partly a p.fragment_opcode p.fragment_buf (take (suc n) f.payload) p.utf8) e
              h) in
          ((take (suc n) f.payload, b.0, b.1), i, λ _. b)

  first_push :
      (0 < pre → Behind (take pre f.payload) p.utf8)
      → Pushed f.payload (
          push validate_utf8 from_utf8
            (if pre == 0 then utf8_reset p.utf8 else p.utf8)
            (drop (min pre (length f.payload)) f.payload))
  first_push h =
      push-rest validate_utf8 from_utf8 validates checks [] f.payload pre
        (if pre == 0 then utf8_reset p.utf8 else p.utf8) (by_count pre h)
    where
      by_count :
          (pre : ℕ)
          → (0 < pre → Behind (take pre f.payload) p.utf8)
          → Behind (take pre f.payload) (if pre == 0 then utf8_reset p.utf8 else p.utf8)
      by_count zero h = ((tt, [], refl, refl), refl)
      by_count (suc n) h = rw (suc_not_zero n) (h (omega arith))

  -- `handle_text` for a policy of text validation
  abbrev text_when : Bool → Handled (Option Message)
  text_when validates_text =
      let (result, p') =
        if is_begun p.fragment_opcode
        then (err (Error.protocol "expected continuation frame"), p)
        else if ltb p.max_message_size (length f.payload)
        then (err Error.message_too_large, p)
        else if validates_text
        then complete_text p f.payload (complete_text_valid validate_utf8 from_utf8 p f.payload pre)
        else (ok (Message.text f.payload), p) in
      if f.header.fin
      then (map_some result, p')
      else if not validates_text
      then map_raw (handle_raw_text p f)
      else if is_begun p.fragment_opcode
      then (err (Error.protocol "expected continuation frame"), p)
      else then_none_typed (start_fragment validate_utf8 from_utf8 p OpCode.text f.payload pre)

  enabled_text : IsAheadText → Agrees (text_when true) (handle_raw_text p f)
  unfolding handle_raw_text start_fragment start_raw_fragment
  enabled_text (st, i, h) = elim (Bool-cases (is_begun p.fragment_opcode)) [
    | inl busy ↦ elim (Bool-cases f.header.fin) [
      | inl whole ↦ rw (busy, whole) (refl, λ m x. absurd (ground (arith, x)))
      | inr part ↦ rw (busy, part) (refl, λ m x. absurd (ground (arith, x)))
    ]
    | inr free ↦ elim (Bool-cases (ltb p.max_message_size (length f.payload))) [
      | inl big ↦ elim (Bool-cases f.header.fin) [
        | inl whole ↦ rw (free, whole, big) (refl, λ m x. absurd (ground (arith, x)))
        | inr part ↦ rw (free, part, big) (refl, λ m x. absurd (ground (arith, x)))
      ]
      | inr fits ↦ elim (Bool-cases f.header.fin) [
        | inl whole ↦
            let (e, k) =
              valid_whole validate_utf8 from_utf8 validates checks p f.payload pre st h in
            rw (free, whole, fits)
              (whole_text validate_utf8 from_utf8 validates checks p f pre
                (complete_text_valid validate_utf8 from_utf8 p f.payload pre) e k i)
        | inr part ↦
            rw (free, part, fits)
              (first_text validate_utf8 from_utf8 validates checks p f pre
                (push validate_utf8 from_utf8 (if pre == 0 then utf8_reset p.utf8 else p.utf8)
                  (drop (min pre (length f.payload)) f.payload))
                (first_push h))
      ]
    ]
  ]

  text_frame :
      IsAheadText → Agrees (handle_text validate_utf8 from_utf8 p f pre) (handle_raw_text p f)
  unfolding handle_text handle_complete_data
  text_frame h =
      subst (λ b. Agrees (text_when b) (handle_raw_text p f)) (sym enabled) (enabled_text h)

  abbrev IsAhead : Type 0
  IsAhead = Stands p.utf8 × IsSettled p.fragment_opcode p.fragment_validated_len p.fragment_buf

  -- A frame of a message that is whole in it, or an error.
  kept :
      (m : RawMessage)
      → text_ok m ≡ true
      → IsAhead
      → Agrees (ok (some (typed m)), p) (ok (some m), p)
  kept m t h = rw t (refl, λ n x. (refl, h))

  binary_frame :
      IsAhead → Agrees (handle_binary validate_utf8 from_utf8 p f) (handle_raw_binary p f)
  unfolding handle_binary handle_raw_binary handle_complete_data start_fragment start_raw_fragment
  binary_frame h = elim (Bool-cases (is_begun p.fragment_opcode)) [
    | inl busy ↦ elim (Bool-cases f.header.fin) [
      | inl whole ↦ rw (busy, whole) (refl, λ m x. absurd (ground (arith, x)))
      | inr part ↦ rw (busy, part) (refl, λ m x. absurd (ground (arith, x)))
    ]
    | inr free ↦ elim (Bool-cases (ltb p.max_message_size (length f.payload))) [
      | inl big ↦ elim (Bool-cases f.header.fin) [
        | inl whole ↦ rw (free, whole, big) (refl, λ m x. absurd (ground (arith, x)))
        | inr part ↦ rw (free, part, big) (refl, λ m x. absurd (ground (arith, x)))
      ]
      | inr fits ↦ elim (Bool-cases f.header.fin) [
        | inl whole ↦ rw (free, whole, fits) (refl, λ m x. (refl, h))
        | inr part ↦ rw (free, part, fits) (refl, λ m x. (refl, (h.0, tt)))
      ]
    ]
  ]

  close_frame :
      (c : Outcome Error (Option CloseReason))
      → IsAhead
      → Agrees (typed_close c p) (closed_with validate_utf8 c p)
  close_frame (err e) h = (refl, λ m x. absurd (ground (arith, x)))
  close_frame panic h = (refl, λ m x. absurd (ground (arith, x)))
  close_frame (ok reason) h = (refl, λ m x. (refl, closing p.state))
    where
      closing : (s : State) → IsChecked (on_close s reason p)
      closing State.open_ = h
      closing State.close_sent = h
      closing State.close_received = h
      closing State.closed = h

  -- With no part of a payload validated before, or with a text frame.
  is_ahead : (o : OpCode) → is_data o ≡ false → f.header.opcode ≡ o → Ahead p f pre → IsAhead
  is_ahead o d e a = by_count pre a
    where
      never :
          (o : OpCode) (q : Option OpCode) (got : Bytes)
          → is_data o ≡ false
          → Partly o q p.fragment_buf got p.utf8
          → ⊥
      never OpCode.text q got d h = ground (arith, d)
      never OpCode.continuation q got d h = ground (arith, d)
      never OpCode.binary q got d h = h
      never OpCode.close q got d h = h
      never OpCode.ping q got d h = h
      never OpCode.pong q got d h = h

      by_count :
          (pre : ℕ)
          → Ahead p f pre
          → Stands p.utf8 × IsSettled p.fragment_opcode p.fragment_validated_len p.fragment_buf
      by_count zero a = a
      by_count (suc n) (i, h) = absurd (
          never o p.fragment_opcode (take (suc n) f.payload) d (
            subst (λ a. Partly a p.fragment_opcode p.fragment_buf (take (suc n) f.payload) p.utf8) e
              h))

  by_kind :
      (o : OpCode)
      → f.header.opcode ≡ o
      → Ahead p f pre
      → Agrees (typed_by_opcode validate_utf8 from_utf8 o p f pre) (by_opcode validate_utf8 o p f)
  unfolding handle_continuation handle_raw_continuation handle_close
  by_kind OpCode.continuation e a =
      subst
        (λ b.
          Agrees
            (if not b
              then map_raw (handle_raw_continuation p f)
              else continued_typed validate_utf8 from_utf8 p.fragment_opcode p f pre)
            (continued p.fragment_opcode p f))
        (sym enabled)
        (continued_data validate_utf8 from_utf8 validates checks p f p.fragment_opcode pre e refl a)
  by_kind OpCode.text e a = text_frame (text_ahead e a)
  by_kind OpCode.binary e a = binary_frame (is_ahead OpCode.binary refl e a)
  by_kind OpCode.close e a =
      close_frame (close_reason validate_utf8 f.payload) (is_ahead OpCode.close refl e a)
  by_kind OpCode.ping e a = kept (RawMessage.ping f.payload) refl (is_ahead OpCode.ping refl e a)
  by_kind OpCode.pong e a = kept (RawMessage.pong f.payload) refl (is_ahead OpCode.pong refl e a)

  -- With text validation enabled, the typed handler does what the raw handler does and checks the text
  -- that is completed or goes on: invalid UTF-8 is refused as soon as the text received so far cannot
  -- go on to valid UTF-8, and at the end when it is not well-formed; all other results are the raw
  -- handler's. It does not matter how much of a text payload was validated before the frame was
  -- complete. Without an error the protocol left is the raw handler's besides the validation, and
  -- stands for the text received so far. The libraries' validators accept exactly well-formed UTF-8.
  pub handle_frame-handle_raw_frame :
      Ahead p f pre
      → ((handle_frame validate_utf8 from_utf8 p f pre).0
          ≡ checked (handle_raw_frame validate_utf8 p f))
        × ((m : Option Message)
            → (handle_frame validate_utf8 from_utf8 p f pre).0 ≡ ok m
            → (bare (handle_frame validate_utf8 from_utf8 p f pre).1
                ≡ bare (handle_raw_frame validate_utf8 p f).1)
              × IsChecked (handle_frame validate_utf8 from_utf8 p f pre).1)
  handle_frame-handle_raw_frame a = by_kind f.header.opcode refl a
