-- ===== src/Protocol/Partial.antt =====
-- `prevalidate_partial_text` of src/protocol.rs: the received part of a text frame that is not complete.
use sockudo_ws.Base.{
  ℕ, zero, suc, ◌≤◌, ◌<◌, min, leb, ◌==◌, if◌then◌else◌, Bool, true, false, not, ◌||◌, ◌&&◌, ltb,
  Option, none, some, [], ◌++◌, length, take, drop, Bytes, Outcome, ok, err, ◌≡◌, refl, sym, ap,
  ◌∙◌, arith, Bool-cases, inl, inr, length-take, take_all, lt_of_leb-false,
}
use mathlib.Core.Path.{ap₂, subst}
use mathlib.Core.List.{append-nil}
use sockudo_ws.Error.{Error}
use sockudo_ws.Frame.{OpCode}
use sockudo_ws.Parser.Types.{PendingPayload, pending_payload}
use sockudo_ws.Utf8.Defs.{Utf8Stream, utf8_reset, push, resume}
use sockudo_ws.Utf8.Format.{boundary, scan, is_possible, well_formed}
use sockudo_ws.Utf8.Push.{Pushed}
use sockudo_ws.Protocol.Types.{Protocol, Handled}
use sockudo_ws.Protocol.Raw.{is_begun}
use sockudo_ws.Protocol.Typed.{
  is_text_opcode, is_continuation, is_partial_text, start_partial, pushed_partial,
  prevalidate_pending, prevalidate_partial_text,
}
use sockudo_ws.Protocol.Checked.{IsSettled, Behind, Partly, AheadOf, still_impossible, push-rest}
use sockudo_ws.Protocol.Validates.{suc_not_zero, resumed}

-- The fragments before the frame whose payload is being received
abbrev pub received : OpCode → Protocol → Bytes
received OpCode.continuation p = p.fragment_buf
received _ p = []

-- A frame of a text message: the first one, or one that continues it
abbrev pub of_text : OpCode → Option OpCode → Bool
of_text OpCode.text none = true
of_text OpCode.continuation (some OpCode.text) = true
of_text _ _ = false

-- Whether a part of an uncompressed text has arrived that was not validated yet.
abbrev pub is_new_text : PendingPayload → Protocol → Bool
is_new_text q p = of_text q.opcode p.fragment_opcode && not q.rsv1 && ltb p.partial_checked q.ready

module _ (validate_utf8 from_utf8 : Bytes → Bool)
    (validates : (w : Bytes) → validate_utf8 w ≡ well_formed w)
    (checks : (w : Bytes) → from_utf8 w ≡ well_formed w) (p : Protocol) (o : OpCode)
    (payload : Bytes) (ready : ℕ) (size : length payload ≡ ready) where
  abbrev advanced : Utf8Stream → Protocol
  advanced s = record p { utf8 = s; partial_checked = ready }

  -- What is found out about a payload of which a part has been received: whether it is still a
  -- possible text, when there is something `new` to validate, and how far it is validated then.
  abbrev Validated : Bool → Handled (Unit {0}) → Type 0
  Validated new h =
      (h.0 ≡ (
        if new
        then if is_possible (scan boundary (received o p ++ payload))
          then ok tt
          else err Error.invalid_utf8
        else ok tt))
      × ((u : Unit {0})
          → h.0 ≡ ok u
          → (h.1.partial_checked ≡ (if new then ready else p.partial_checked))
            × AheadOf h.1 o payload h.1.partial_checked
            × (record h.1 { utf8 = p.utf8; partial_checked = p.partial_checked } ≡ p))

  abbrev verdict : Bool → Outcome Error (Unit {0})
  verdict possible = if possible then ok tt else err Error.invalid_utf8

  refused_part :
      (s : Utf8Stream)
      → is_possible (scan boundary (received o p ++ payload)) ≡ false
      → Validated true (err Error.invalid_utf8, record p { utf8 = s })
  refused_part s n = (ap verdict (sym n), λ u x. absurd (ground (arith, x)))

  unchanged : AheadOf p o payload p.partial_checked → Validated false (ok tt, p)
  unchanged a = (refl, λ u x. (refl, a, refl))

  -- The rest of what has been received is pushed behind what was validated.
  module _ (settled : IsSettled p.fragment_opcode p.fragment_validated_len p.fragment_buf)
      (partly : (s : Utf8Stream)
        → Behind (received o p ++ payload) s
        → Partly o p.fragment_opcode p.fragment_buf payload s)
      (more : p.partial_checked < ready) where
    pushed :
        (r : Bool × Utf8Stream)
        → Pushed (received o p ++ payload) r
        → Validated true (pushed_partial p ready r)
    pushed (false, s) (e, k) = refused_part s (sym e)
    pushed (true, s) (e, k) =
        (ap verdict e, λ u x. (refl, ahead ready (sym size) more (k refl, sym e), refl))
      where
        ahead :
            (n : ℕ)
            → n ≡ length payload
            → p.partial_checked < n
            → Behind (received o p ++ payload) s
            → AheadOf (advanced s) o payload n
        ahead zero z l h = absurd (omega (arith, l))
        ahead (suc n) z l h = (
          settled,
          subst (λ t. Partly o p.fragment_opcode p.fragment_buf t s)
              (sym (take_all (suc n) payload (omega (arith, z)))) (partly s h),
        )

    resumed_part :
        (r : Bool × Utf8Stream)
        → (r.0 ≡ false → is_possible (scan boundary (received o p)) ≡ false)
        → (r.0 ≡ true → Behind (received o p ++ take p.partial_checked payload) r.1)
        → Validated true (
            if r.0
            then pushed_partial p ready
                (push validate_utf8 from_utf8 r.1 (drop p.partial_checked payload))
            else (err Error.invalid_utf8, record p { utf8 = r.1 }))
    resumed_part (false, s) n k = refused_part s (still_impossible (received o p) payload (n refl))
    resumed_part (true, s) n k =
        pushed (push validate_utf8 from_utf8 s (drop p.partial_checked payload)) (
          subst
            (λ m.
              Pushed (received o p ++ payload) (push validate_utf8 from_utf8 s (drop m payload)))
            (omega (arith, more, size))
            (push-rest validate_utf8 from_utf8 validates checks (received o p) payload
              p.partial_checked s (k refl)))

-- A part of a text: the first frame of one, or a frame that continues one.
module _ (validate_utf8 from_utf8 : Bytes → Bool)
    (validates : (w : Bytes) → validate_utf8 w ≡ well_formed w)
    (checks : (w : Bytes) → from_utf8 w ≡ well_formed w) (p : Protocol) (buf : Bytes)
    (q : PendingPayload) (fits : q.ready ≤ length buf) where
  size : length (take q.ready buf) ≡ q.ready
  size = omega (arith, length-take q.ready buf, fits)

  -- `start_partial` for a number of checked bytes
  abbrev start_at : OpCode → ℕ → Bool × Utf8Stream
  start_at o n =
      if n == 0
      then if is_continuation o
        then resume validate_utf8 from_utf8 p.utf8 (drop p.fragment_validated_len p.fragment_buf)
        else (true, utf8_reset p.utf8)
      else (true, p.utf8)

  text_begun : (a : Option OpCode) → is_text_opcode a ≡ true → a ≡ some OpCode.text
  text_begun none t = absurd (ground (arith, t))
  text_begun (some OpCode.text) t = refl
  text_begun (some OpCode.binary) t = absurd (ground (arith, t))
  text_begun (some OpCode.continuation) t = absurd (ground (arith, t))
  text_begun (some OpCode.close) t = absurd (ground (arith, t))
  text_begun (some OpCode.ping) t = absurd (ground (arith, t))
  text_begun (some OpCode.pong) t = absurd (ground (arith, t))

  none_begun : (a : Option OpCode) → not (is_begun a) ≡ true → a ≡ none
  none_begun none t = refl
  none_begun (some o) t = absurd (ground (arith, t))

  started :
      (payload : Bytes) (o : OpCode) (n : ℕ)
      → is_partial_text o p ≡ true
      → AheadOf p o payload n
      → ((start_at o n).0 ≡ false → is_possible (scan boundary (received o p)) ≡ false)
        × ((start_at o n).0 ≡ true → Behind (received o p ++ take n payload) (start_at o n).1)
  started payload OpCode.continuation zero t (st, i) =
      let text = text_begun p.fragment_opcode t in
      let (e, k) =
        resumed validate_utf8 from_utf8 validates checks p st
          (subst (λ a. IsSettled a p.fragment_validated_len p.fragment_buf) text i) in
      (
        λ x. sym e ∙ x,
        λ x.
            subst (λ b. Behind b (start_at OpCode.continuation 0).1)
              (sym (append-nil p.fragment_buf)) (k x, sym e ∙ x),
      )
  started payload OpCode.continuation (suc n) t (i, h) = rw (suc_not_zero n) (
    λ x. absurd (ground (arith, x)),
    λ x.
        subst (λ a. Partly OpCode.continuation a p.fragment_buf (take (suc n) payload) p.utf8)
          (text_begun p.fragment_opcode t) h,
  )
  started payload OpCode.text zero t a =
      (λ x. absurd (ground (arith, x)), λ x. ((tt, [], refl, refl), refl))
  started payload OpCode.text (suc n) t (i, h) = rw (suc_not_zero n) (
    λ x. absurd (ground (arith, x)),
    λ x.
        subst (λ a. Partly OpCode.text a p.fragment_buf (take (suc n) payload) p.utf8)
          (none_begun p.fragment_opcode t) h,
  )
  started payload OpCode.binary n t a = absurd (ground (arith, t))
  started payload OpCode.close n t a = absurd (ground (arith, t))
  started payload OpCode.ping n t a = absurd (ground (arith, t))
  started payload OpCode.pong n t a = absurd (ground (arith, t))

  part_of :
      (o : OpCode) (payload : Bytes) (s : Utf8Stream)
      → is_partial_text o p ≡ true
      → Behind (received o p ++ payload) s
      → Partly o p.fragment_opcode p.fragment_buf payload s
  part_of OpCode.continuation payload s t h =
      subst (λ a. Partly OpCode.continuation a p.fragment_buf payload s)
        (sym (text_begun p.fragment_opcode t)) h
  part_of OpCode.text payload s t h =
      subst (λ a. Partly OpCode.text a p.fragment_buf payload s)
        (sym (none_begun p.fragment_opcode t)) h
  part_of OpCode.binary payload s t h = absurd (ground (arith, t))
  part_of OpCode.close payload s t h = absurd (ground (arith, t))
  part_of OpCode.ping payload s t h = absurd (ground (arith, t))
  part_of OpCode.pong payload s t h = absurd (ground (arith, t))

  AheadOf-IsSettled :
      (o : OpCode) (payload : Bytes) (n : ℕ)
      → AheadOf p o payload n
      → IsSettled p.fragment_opcode p.fragment_validated_len p.fragment_buf
  AheadOf-IsSettled o payload zero a = a.1
  AheadOf-IsSettled o payload (suc n) a = a.0

  is_partial_text-of_text : (o : OpCode) → is_partial_text o p ≡ of_text o p.fragment_opcode
  is_partial_text-of_text o = ground arith

  -- `prevalidate_pending` goes on exactly when there is something new to validate.
  ltb-leb : (x y : ℕ) → ltb x y ≡ not (leb y x)
  ltb-leb x y = ground arith

  tested :
      is_new_text q p
      ≡ (not (q.rsv1 || leb q.ready p.partial_checked) && is_partial_text q.opcode p)
  tested = ground (arith, ltb-leb p.partial_checked q.ready, is_partial_text-of_text q.opcode)

  nothing_new :
      is_new_text q p ≡ false
      → AheadOf p q.opcode (take q.ready buf) p.partial_checked
      → Validated validate_utf8 from_utf8 validates checks p q.opcode
          (take q.ready buf)
          q.ready
          size
          (is_new_text q p)
          (ok tt, p)
  nothing_new e a =
      subst
        (λ b.
          Validated validate_utf8 from_utf8 validates checks p q.opcode (take q.ready buf) q.ready
            size b (ok tt, p))
        (sym e)
        (unchanged validate_utf8 from_utf8 validates checks p q.opcode (take q.ready buf) q.ready
          size a)

  pending_part :
      AheadOf p q.opcode (take q.ready buf) p.partial_checked
      → Validated validate_utf8 from_utf8 validates checks p q.opcode
          (take q.ready buf)
          q.ready
          size
          (is_new_text q p)
          (prevalidate_pending validate_utf8 from_utf8 (some q) p buf)
  pending_part a = elim (Bool-cases (q.rsv1 || leb q.ready p.partial_checked)) [
    | inl skip ↦
        rw skip (nothing_new (tested ∙ ap (λ b. not b && is_partial_text q.opcode p) skip) a)
    | inr more ↦ elim (Bool-cases (is_partial_text q.opcode p)) [
      | inr other ↦ rw (more, other) (nothing_new (tested ∙ ap₂ (λ b t. not b && t) more other) a)
      | inl text ↦
          let whole : min q.ready (length buf) ≡ q.ready = omega (arith, fits) in
          let (n, k) = started (take q.ready buf) q.opcode p.partial_checked text a in
          rw (tested, more, text, whole)
            (resumed_part validate_utf8 from_utf8 validates checks p q.opcode (take q.ready buf)
              q.ready size (AheadOf-IsSettled q.opcode (take q.ready buf) p.partial_checked a)
              (λ s h. part_of q.opcode (take q.ready buf) s text h)
              (lt_of_leb-false _ _ (second q.rsv1 (leb q.ready p.partial_checked) more))
              (start_partial validate_utf8 from_utf8 p q.opcode) n k)
    ]
  ]
    where
      second : (x y : Bool) → (x || y) ≡ false → y ≡ false
      second x y e = ground (arith, e)

  -- With text validation enabled, `prevalidate_partial_text` fails fast and only then: when the part of
  -- an uncompressed text frame that has been received holds bytes that were not validated yet, the
  -- call returns an error, that of invalid UTF-8, exactly when the text so far cannot go on to valid
  -- UTF-8; otherwise all that has been received is validated. When there are no such bytes the call
  -- returns no error and validates none. When it returns no error, the validator is ahead by what it
  -- has checked as `handle_frame` expects it, and nothing else of the protocol has changed. The parser
  -- reports a payload of which the buffer holds the reported part. The libraries' validators accept
  -- exactly well-formed UTF-8.
  pub prevalidate_partial_text-AheadOf :
      p.validate_text_utf8 ≡ true
      → pending_payload p.parser ≡ some q
      → AheadOf p q.opcode (take q.ready buf) p.partial_checked
      → ((prevalidate_partial_text validate_utf8 from_utf8 p buf).0 ≡ (
          if is_new_text q p
          then if is_possible (scan boundary (received q.opcode p ++ take q.ready buf))
            then ok tt
            else err Error.invalid_utf8
          else ok tt))
        × ((u : Unit {0})
            → (prevalidate_partial_text validate_utf8 from_utf8 p buf).0 ≡ ok u
            → ((prevalidate_partial_text validate_utf8 from_utf8 p buf).1.partial_checked
                ≡ (if is_new_text q p then q.ready else p.partial_checked))
              × AheadOf
                  (prevalidate_partial_text validate_utf8 from_utf8 p buf).1
                  q.opcode
                  (take q.ready buf)
                  (prevalidate_partial_text validate_utf8 from_utf8 p buf).1.partial_checked
              × (record (prevalidate_partial_text validate_utf8 from_utf8 p buf).1 {
                utf8 = p.utf8;
                partial_checked = p.partial_checked;
              }
                  ≡ p))
  unfolding prevalidate_partial_text
  prevalidate_partial_text-AheadOf enabled pending a =
      subst
        (λ h.
          Validated validate_utf8 from_utf8 validates checks p q.opcode (take q.ready buf) q.ready
            size (is_new_text q p) h)
        (sym (
          ap
            (λ b.
              if not b
              then (ok tt, p)
              else prevalidate_pending validate_utf8 from_utf8 (pending_payload p.parser) p buf)
            enabled
          ∙ ap (λ r. prevalidate_pending validate_utf8 from_utf8 r p buf) pending))
        (pending_part a)
