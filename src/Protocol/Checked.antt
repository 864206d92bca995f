-- ===== src/Protocol/Checked.antt =====
-- The typed handlers of src/protocol.rs against the raw ones: what they do besides is to check UTF-8.
use sockudo_ws.Base.{
  ℕ, suc, min, ◌==◌, if◌then◌else◌, Bool, true, false, Option, none, some, [], ◌++◌, length, take,
  drop, Bytes, Outcome, ok, err, panic, ◌≡◌, refl, sym, ap, ◌∙◌, arith, Bool-cases, inl, inr,
  take-append-drop, take_all, drop_all, zero, ◌<◌, leb, leb→le, lt_of_leb-false,
}
use mathlib.Core.Path.{ap₂, subst}
use sockudo_ws.Utf8.Format.{
  Place, more, bad, scan-bad, boundary, scan, is_possible, is_boundary, well_formed, scan-append,
}
use mathlib.Core.List.{append_assoc, append-nil}
use sockudo_ws.Error.{Error}
use sockudo_ws.Frame.{OpCode, Frame}
use sockudo_ws.Utf8.Defs.{Utf8Stream, utf8_new, push}
use sockudo_ws.Utf8.Push.{Carries, Pushed, push-Carries}
use sockudo_ws.Utf8.Chunks.{finish-well_formed}
use sockudo_ws.Protocol.Types.{RawMessage, Message, Protocol, Handled}
use sockudo_ws.Protocol.Raw.{complete_raw_fragment}
use sockudo_ws.Protocol.Typed.{complete_text_valid}

abbrev pub typed : RawMessage → Message
typed (RawMessage.text b) = Message.text b
typed (RawMessage.binary b) = Message.binary b
typed (RawMessage.ping b) = Message.ping b
typed (RawMessage.pong b) = Message.pong b
typed (RawMessage.close r) = Message.close r

abbrev pub text_ok : RawMessage → Bool
text_ok (RawMessage.text b) = well_formed b
text_ok _ = true

-- Whether the text that has been received in fragments so far may go on to valid UTF-8.
abbrev pub so_far : Option OpCode → Bytes → Bool
so_far (some OpCode.text) b = is_possible (scan boundary b)
so_far _ b = true

-- The result of the raw handler with the check of the text that it has completed or begun.
abbrev pub checked : Handled (Option RawMessage) → Outcome Error (Option Message)
checked (ok (some m), p) = if text_ok m then ok (some (typed m)) else err Error.invalid_utf8
checked (ok none, p) =
    if so_far p.fragment_opcode p.fragment_buf then ok none else err Error.invalid_utf8
checked (err e, p) = err e
checked (panic, p) = panic

-- A protocol without what only the validation reads.
abbrev pub bare : Protocol → Protocol
bare p = record p { utf8 = utf8_new; fragment_validated_len = 0 }

-- The validator stands behind some text that may go on, and of a text in fragments the validated part
-- is whole code points.
abbrev pub IsSettled : Option OpCode → ℕ → Bytes → Type 0
IsSettled (some OpCode.text) n b = scan boundary (take n b) ≡ boundary
IsSettled _ n b = Unit

abbrev pub Stands : Utf8Stream → Type 0
Stands s = (text : Bytes) × Carries text s × (is_possible (scan boundary text) ≡ true)

abbrev pub IsChecked : Protocol → Type 0
IsChecked p = Stands p.utf8 × IsSettled p.fragment_opcode p.fragment_validated_len p.fragment_buf

-- The typed result and protocol against the raw ones: the same result once the text is checked, and
-- without an error the same protocol besides the validation, which is checked again.
abbrev pub Agrees : Handled (Option Message) → Handled (Option RawMessage) → Type 0
Agrees t r =
    (t.0 ≡ checked r) × ((m : Option Message) → t.0 ≡ ok m → (bare t.1 ≡ bare r.1) × IsChecked t.1)

-- `handle_raw_continuation` for a message that is within the limit.
abbrev pub raw_extended : Protocol → OpCode → Frame → Handled (Option RawMessage)
raw_extended p o f =
    let p' = record p { fragment_buf = p.fragment_buf ++ f.payload } in
    if f.header.fin then complete_raw_fragment p' o else (ok none, p')

abbrev pub Behind : Bytes → Utf8Stream → Type 0
Behind text s = Carries text s × (is_possible (scan boundary text) ≡ true)

-- The validator stands behind the part of a text frame's payload that was validated before, and behind
-- the fragments before it.
abbrev pub Partly : OpCode → Option OpCode → Bytes → Bytes → Utf8Stream → Type 0
Partly OpCode.text none buf got s = Behind got s
Partly OpCode.continuation (some OpCode.text) buf got s = Behind (buf ++ got) s
Partly _ _ buf got s = ⊥

-- What holds of a protocol when `checked_len` bytes of the payload of a frame have been validated.
abbrev pub AheadOf : Protocol → OpCode → Bytes → ℕ → Type 0
AheadOf p o payload zero = IsChecked p
AheadOf p o payload (suc n) =
    IsSettled p.fragment_opcode p.fragment_validated_len p.fragment_buf
    × Partly o p.fragment_opcode p.fragment_buf (take (suc n) payload) p.utf8

abbrev pub Ahead : Protocol → Frame → ℕ → Type 0
Ahead p f checked_len = AheadOf p f.header.opcode f.payload checked_len

pub refuses :
    (e : Error) (p p' : Protocol) (r : Handled (Option RawMessage))
    → checked r ≡ err e
    → Agrees (err e, p) r
refuses e p p' r c = (sym c, λ m x. absurd (ground (arith, x)))

pub impossible :
    (u v : Bytes) → is_possible (scan boundary u) ≡ false → well_formed (u ++ v) ≡ false
impossible u v e = ap is_boundary (scan-append boundary u v) ∙ stays (scan boundary u) e
  where
    stays : (s : Place) → is_possible s ≡ false → is_boundary (scan s v) ≡ false
    stays boundary e = absurd (ground (arith, e))
    stays (more low high n) e = absurd (ground (arith, e))
    stays bad e = ap is_boundary (scan-bad v)

pub impossible_now : (u : Bytes) → is_possible (scan boundary u) ≡ false → well_formed u ≡ false
impossible_now u e = ap well_formed (sym (append-nil u)) ∙ impossible u [] e

pub still_impossible :
    (u v : Bytes)
    → is_possible (scan boundary u) ≡ false
    → is_possible (scan boundary (u ++ v)) ≡ false
still_impossible u v e = ap is_possible (scan-append boundary u v) ∙ stays (scan boundary u) e
  where
    stays : (s : Place) → is_possible s ≡ false → is_possible (scan s v) ≡ false
    stays boundary e = absurd (ground (arith, e))
    stays (more low high n) e = absurd (ground (arith, e))
    stays bad e = ap is_possible (scan-bad v)

pub possible_of : (w : Bytes) → well_formed w ≡ true → is_possible (scan boundary w) ≡ true
possible_of w e = at (scan boundary w) e
  where
    at : (s : Place) → is_boundary s ≡ true → is_possible s ≡ true
    at boundary e = refl
    at (more low high n) e = absurd (ground (arith, e))
    at bad e = absurd (ground (arith, e))

pub take-drop-min : (n : ℕ) (xs : Bytes) → take n xs ++ drop (min n (length xs)) xs ≡ xs
take-drop-min n xs = elim (Bool-cases (leb n (length xs))) [
  | inl e ↦ ap (λ m. take n xs ++ drop m xs) (omega (arith, leb→le _ _ e)) ∙ take-append-drop n xs
  | inr e ↦
      ap (λ m. take n xs ++ drop m xs) (omega (arith, lt_of_leb-false _ _ e))
      ∙ ap₂ ◌++◌ (take_all n xs (omega (arith, lt_of_leb-false _ _ e)))
          (drop_all (length xs) xs (omega arith))
      ∙ append-nil xs
]

module _ (validate_utf8 from_utf8 : Bytes → Bool)
    (validates : (w : Bytes) → validate_utf8 w ≡ well_formed w)
    (checks : (w : Bytes) → from_utf8 w ≡ well_formed w) where
  -- The rest of a payload is pushed behind the part that was validated.
  pub push-rest :
      (prior payload : Bytes) (n : ℕ) (s : Utf8Stream)
      → Behind (prior ++ take n payload) s
      → Pushed
          (prior ++ payload)
          (push validate_utf8 from_utf8 s (drop (min n (length payload)) payload))
  push-rest prior payload n s h =
      let rest = drop (min n (length payload)) payload in
      subst (λ t. Pushed t (push validate_utf8 from_utf8 s rest))
        (append_assoc prior (take n payload) rest ∙ ap (λ t. prior ++ t) (take-drop-min n payload))
        (push-Carries validate_utf8 from_utf8 validates checks (prior ++ take n payload) s rest h.0)

  pub valid_whole :
      (p : Protocol) (payload : Bytes) (n : ℕ)
      → Stands p.utf8
      → (0 < n → Behind (take n payload) p.utf8)
      → ((complete_text_valid validate_utf8 from_utf8 p payload n).0 ≡ well_formed payload)
        × ((complete_text_valid validate_utf8 from_utf8 p payload n).0 ≡ true
            → Stands (complete_text_valid validate_utf8 from_utf8 p payload n).1)
  valid_whole p payload zero st h = (validates payload, λ _. st)
  valid_whole p payload (suc n) st h =
      let r = push validate_utf8 from_utf8 p.utf8 (drop (min (suc n) (length payload)) payload) in
      let (e, k) = push-rest [] payload (suc n) p.utf8 (h (omega arith)) in
      rw (suc_not_zero n) (elim (Bool-cases r.0) [
        | inl o ↦
            let whole = finish-well_formed payload r.1 (k o) in
            (ground (arith, o, whole), λ _. (payload, k o, sym e ∙ o))
        | inr o ↦
            (rw o (sym (impossible_now payload (sym e ∙ o))), λ x. absurd (ground (arith, o, x)))
      ])
    where
      suc_not_zero : (n : ℕ) → (suc n == 0) ≡ false
      suc_not_zero n = ground arith
