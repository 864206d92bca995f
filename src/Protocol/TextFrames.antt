-- ===== src/Protocol/TextFrames.antt =====
-- The typed handlers of src/protocol.rs for a text, whole and in fragments.
use sockudo_ws.Base.{
  ℕ, ◌-◌, min, if◌then◌else◌, Bool, true, false, Option, none, some, ◌++◌, length, take, drop,
  Bytes, ok, err, ◌≡◌, refl, sym, ap, ◌∙◌, arith, Bool-cases, inl, inr,
}
use mathlib.Core.Path.{subst}
use sockudo_ws.Error.{Error}
use sockudo_ws.Frame.{OpCode, Frame}
use sockudo_ws.Utf8.Defs.{Utf8Stream, push, pending}
use sockudo_ws.Utf8.Format.{boundary, scan, is_possible, well_formed}
use sockudo_ws.Utf8.Push.{Carries, Pushed}
use sockudo_ws.Utf8.Chunks.{finish-well_formed, pending-boundary}
use sockudo_ws.Protocol.Types.{RawMessage, Message, Protocol, Handled}
use sockudo_ws.Protocol.Raw.{complete_raw_fragment, then_none}
use sockudo_ws.Protocol.Typed.{
  map_some, set_utf8, complete_fragment, complete_text, begun, start_text, then_none_typed,
  extended, pushed_text, resumed_text,
}
use sockudo_ws.Protocol.Checked.{
  so_far, checked, IsSettled, Stands, raw_extended, Agrees, Behind, refuses, impossible_now,
  still_impossible, push-rest,
}

module _ (validate_utf8 from_utf8 : Bytes → Bool)
    (validates : (w : Bytes) → validate_utf8 w ≡ well_formed w)
    (checks : (w : Bytes) → from_utf8 w ≡ well_formed w) (p : Protocol) (f : Frame) (pre : ℕ) where
  abbrev complete_data_of : Handled Message → Handled (Option Message)
  complete_data_of (result, p') = (map_some result, p')

  -- A whole text that has been checked.
  pub whole_text :
      (r : Bool × Utf8Stream)
      → r.0 ≡ well_formed f.payload
      → (r.0 ≡ true → Stands r.1)
      → IsSettled p.fragment_opcode p.fragment_validated_len p.fragment_buf
      → Agrees
          (complete_data_of (complete_text p f.payload r))
          (ok (some (RawMessage.text f.payload)), p)
  whole_text (true, s) e k i = (
    ap (λ b. if b then ok (some (Message.text f.payload)) else err Error.invalid_utf8) e,
    λ m x. (refl, (k refl, i)),
  )
  whole_text (false, s) e k i =
      refuses Error.invalid_utf8 (set_utf8 p s) p (ok (some (RawMessage.text f.payload)), p)
        (ap (λ b. if b then ok (some (Message.text f.payload)) else err Error.invalid_utf8) (sym e))

  -- The first fragment of a text that has been pushed.
  pub first_text :
      (r : Bool × Utf8Stream)
      → Pushed f.payload r
      → Agrees (then_none_typed (start_text p f.payload r)) (
          then_none (
            ok tt,
            record p {
              fragment_opcode = some OpCode.text;
              fragment_validated_len = 0;
              fragment_buf = f.payload;
            },
          ))
  first_text (true, s) (e, k) = (
    ap (λ b. if b then ok none else err Error.invalid_utf8) e,
    λ m x. (refl, ((f.payload, k refl, sym e), pending-boundary f.payload s (k refl))),
  )
  first_text (false, s) (e, k) =
      refuses Error.invalid_utf8 (set_utf8 p s) p (ok none, begun p OpCode.text f.payload 0)
        (ap (λ b. if b then ok none else err Error.invalid_utf8) (sym e))

  -- A text that goes on: the handling of a payload that has been pushed behind the fragments before.
  module _ (open_text : p.fragment_opcode ≡ some OpCode.text) where
    goes_on : (b : Bytes) → so_far p.fragment_opcode b ≡ is_possible (scan boundary b)
    goes_on b = ap (λ o. so_far o b) open_text

    raw_refused :
        is_possible (scan boundary (p.fragment_buf ++ f.payload)) ≡ false
        → checked (raw_extended p OpCode.text f) ≡ err Error.invalid_utf8
    unfolding complete_raw_fragment
    raw_refused e = elim (Bool-cases f.header.fin) [
      | inl last ↦ rw last (
          ap
            (λ b.
              if b
              then ok (some (Message.text (p.fragment_buf ++ f.payload)))
              else err Error.invalid_utf8)
            (impossible_now (p.fragment_buf ++ f.payload) e))
      | inr part ↦ rw part (
          ap (λ b. if b then ok none else err Error.invalid_utf8)
            (goes_on (p.fragment_buf ++ f.payload) ∙ e))
    ]

    accepted_text :
        (s : Utf8Stream)
        → Carries (p.fragment_buf ++ f.payload) s
        → is_possible (scan boundary (p.fragment_buf ++ f.payload)) ≡ true
        → Agrees (extended (set_utf8 p s) OpCode.text f) (raw_extended p OpCode.text f)
    unfolding complete_raw_fragment complete_fragment
    accepted_text s c e =
        let text = p.fragment_buf ++ f.payload in
        elim (Bool-cases f.header.fin) [
          | inl last ↦ elim (Bool-cases (well_formed text)) [
            | inl w ↦
                rw (last, finish-well_formed text s c, w) (refl, λ m x. (refl, ((text, c, e), tt)))
            | inr w ↦
                rw (last, finish-well_formed text s c, w) (refl, λ m x. absurd (ground (arith, x)))
          ]
          | inr part ↦ rw part (
            sym (ap (λ b. if b then ok none else err Error.invalid_utf8) (goes_on text ∙ e)),
            λ m x. (
              refl,
              (
                (text, c, e),
                subst (λ o. IsSettled o (length text - pending s) text) (sym open_text)
                    (pending-boundary text s c),
              ),
            ),
          )
        ]

    after_push :
        (r : Bool × Utf8Stream)
        → Pushed (p.fragment_buf ++ f.payload) r
        → Agrees (pushed_text p f r) (raw_extended p OpCode.text f)
    after_push (true, s) (e, k) = accepted_text s (k refl) (sym e)
    after_push (false, s) (e, k) =
        refuses Error.invalid_utf8 (set_utf8 p s) p (raw_extended p OpCode.text f)
          (raw_refused (sym e))

    pub after_resume :
        (r : Bool × Utf8Stream)
        → (r.0 ≡ false → is_possible (scan boundary p.fragment_buf) ≡ false)
        → (r.0 ≡ true → Behind (p.fragment_buf ++ take pre f.payload) r.1)
        → Agrees (resumed_text validate_utf8 from_utf8 p f pre r) (raw_extended p OpCode.text f)
    after_resume (true, s) n k =
        after_push (push validate_utf8 from_utf8 s (drop (min pre (length f.payload)) f.payload)) (
          push-rest validate_utf8 from_utf8 validates checks p.fragment_buf f.payload pre s
            (k refl))
    after_resume (false, s) n k =
        refuses Error.invalid_utf8 (set_utf8 p s) p (raw_extended p OpCode.text f)
          (raw_refused (still_impossible p.fragment_buf f.payload (n refl)))
