-- ===== src/Protocol/Validates.antt =====
-- The typed handling of a continuation frame in src/protocol.rs against the raw one.
use sockudo_ws.Base.{
  ℕ, suc, ◌+◌, ltb, ◌==◌, if◌then◌else◌, Bool, true, false, Option, none, some, [], ◌++◌, length,
  take, drop, Bytes, ok, err, ◌≡◌, refl, sym, ap, ◌∙◌, arith, Bool-cases, inl, inr,
  take-append-drop, zero,
}
use mathlib.Core.Path.{subst}
use mathlib.Core.List.{append-nil}
use sockudo_ws.Error.{Error}
use sockudo_ws.Frame.{OpCode, Frame}
use sockudo_ws.Utf8.Defs.{resume}
use sockudo_ws.Utf8.Format.{boundary, scan, well_formed}
use sockudo_ws.Utf8.Push.{Pushed, behind-Pushed}
use sockudo_ws.Utf8.Chunks.{resume-Carries}
use sockudo_ws.Protocol.Types.{Protocol}
use sockudo_ws.Protocol.Raw.{complete_raw_fragment, continued}
use sockudo_ws.Protocol.Typed.{
  is_text, complete_fragment, extended, resumed_text, resume_unless, continue_typed,
  continued_typed,
}
use sockudo_ws.Protocol.Checked.{
  so_far, IsSettled, Stands, raw_extended, Agrees, Behind, Partly, Ahead, refuses,
}
use sockudo_ws.Protocol.TextFrames.{after_resume}

pub suc_not_zero : (n : ℕ) → (suc n == 0) ≡ false
suc_not_zero n = ground arith

module _ (validate_utf8 from_utf8 : Bytes → Bool)
    (validates : (w : Bytes) → validate_utf8 w ≡ well_formed w)
    (checks : (w : Bytes) → from_utf8 w ≡ well_formed w) where
  -- The suffix that was not validated, behind whole code points.
  pub resumed :
      (p : Protocol)
      → Stands p.utf8
      → scan boundary (take p.fragment_validated_len p.fragment_buf) ≡ boundary
      → Pushed p.fragment_buf (resume_unless validate_utf8 from_utf8 p 0)
  resumed p (text, c, o) b =
      let front = take p.fragment_validated_len p.fragment_buf in
      let suffix = drop p.fragment_validated_len p.fragment_buf in
      subst (λ t. Pushed t (resume validate_utf8 from_utf8 p.utf8 suffix))
        (take-append-drop p.fragment_validated_len p.fragment_buf)
        (behind-Pushed front front [] suffix (resume validate_utf8 from_utf8 p.utf8 suffix)
          (sym (append-nil front)) b
          (resume-Carries validate_utf8 from_utf8 validates checks text p.utf8 suffix c o))

  module _ (p : Protocol) (f : Frame) where
    continued_text :
        (pre : ℕ)
        → f.header.opcode ≡ OpCode.continuation
        → p.fragment_opcode ≡ some OpCode.text
        → Ahead p f pre
        → Agrees
            (continue_typed validate_utf8 from_utf8 OpCode.text p f pre)
            (raw_extended p OpCode.text f)
    continued_text zero c o (st, i) =
        let (e, k) =
          resumed p st (subst (λ q. IsSettled q p.fragment_validated_len p.fragment_buf) o i) in
        after_resume validate_utf8 from_utf8 validates checks p f 0 o
          (resume_unless validate_utf8 from_utf8 p 0) (λ n. sym e ∙ n)
          (λ y.
            subst (λ t. Behind t (resume_unless validate_utf8 from_utf8 p 0).1)
              (sym (append-nil p.fragment_buf)) (k y, sym e ∙ y))
    continued_text (suc n) c o (i, h) =
        subst
          (λ r.
            Agrees (resumed_text validate_utf8 from_utf8 p f (suc n) r)
              (raw_extended p OpCode.text f))
          (sym (
            ap
              (λ b.
                if b
                then resume validate_utf8 from_utf8 p.utf8
                    (drop p.fragment_validated_len p.fragment_buf)
                else (true, p.utf8))
              (suc_not_zero n)))
          (after_resume validate_utf8 from_utf8 validates checks p f (suc n) o (true, p.utf8)
            (λ x. absurd (ground (arith, x)))
            (λ _.
              subst
                (λ a. Partly OpCode.continuation a p.fragment_buf (take (suc n) f.payload) p.utf8) o
                (subst
                  (λ a. Partly a p.fragment_opcode p.fragment_buf (take (suc n) f.payload) p.utf8) c
                  h)))

    stands :
        (o : OpCode) (pre : ℕ)
        → is_text o ≡ false
        → f.header.opcode ≡ OpCode.continuation
        → p.fragment_opcode ≡ some o
        → Ahead p f pre
        → Stands p.utf8
    stands o zero t c e a = a.0
    stands o (suc n) t c e (i, h) = absurd (
        never o t (
          subst (λ a. Partly OpCode.continuation a p.fragment_buf (take (suc n) f.payload) p.utf8) e
            (subst (λ a. Partly a p.fragment_opcode p.fragment_buf (take (suc n) f.payload) p.utf8)
              c h)))
      where
        never :
            (o : OpCode)
            → is_text o ≡ false
            → Partly OpCode.continuation (some o) p.fragment_buf (take (suc n) f.payload) p.utf8
            → ⊥
        never OpCode.text t h = ground (arith, t)
        never OpCode.binary t h = h
        never OpCode.continuation t h = h
        never OpCode.close t h = h
        never OpCode.ping t h = h
        never OpCode.pong t h = h

    completed_other :
        (o : OpCode) (p' : Protocol)
        → is_text o ≡ false
        → Stands p'.utf8
        → Agrees (complete_fragment p' o) (complete_raw_fragment p' o)
    unfolding complete_fragment complete_raw_fragment
    completed_other OpCode.text p' t s = absurd (ground (arith, t))
    completed_other OpCode.binary p' t s = (refl, λ m x. (refl, (s, tt)))
    completed_other OpCode.continuation p' t s = (refl, λ m x. absurd (ground (arith, x)))
    completed_other OpCode.close p' t s = (refl, λ m x. absurd (ground (arith, x)))
    completed_other OpCode.ping p' t s = (refl, λ m x. absurd (ground (arith, x)))
    completed_other OpCode.pong p' t s = (refl, λ m x. absurd (ground (arith, x)))

    unchecked : (o : OpCode) (b : Bytes) → is_text o ≡ false → so_far (some o) b ≡ true
    unchecked OpCode.text b t = absurd (ground (arith, t))
    unchecked OpCode.binary b t = refl
    unchecked OpCode.continuation b t = refl
    unchecked OpCode.close b t = refl
    unchecked OpCode.ping b t = refl
    unchecked OpCode.pong b t = refl

    settled : (o : OpCode) (n : ℕ) (b : Bytes) → is_text o ≡ false → IsSettled (some o) n b
    settled OpCode.text n b t = absurd (ground (arith, t))
    settled OpCode.binary n b t = tt
    settled OpCode.continuation n b t = tt
    settled OpCode.close n b t = tt
    settled OpCode.ping n b t = tt
    settled OpCode.pong n b t = tt

    continued_other :
        (o : OpCode)
        → is_text o ≡ false
        → p.fragment_opcode ≡ some o
        → Stands p.utf8
        → Agrees (extended p o f) (raw_extended p o f)
    continued_other o t e s =
        let text = p.fragment_buf ++ f.payload in
        elim (Bool-cases f.header.fin) [
          | inl last ↦ rw last (completed_other o (record p { fragment_buf = text }) t s)
          | inr part ↦
              rw (part, t)
                (
                  sym (
                      ap (λ b. if b then ok none else err Error.invalid_utf8)
                        (ap (λ q. so_far q text) e ∙ unchecked o text t)),
                  λ m x. (
                    refl,
                    (
                      s,
                      subst (λ q. IsSettled q p.fragment_validated_len text) (sym e)
                          (settled o p.fragment_validated_len text t),
                    ),
                  ),
                )
        ]

    pub continued_data :
        (o : Option OpCode) (pre : ℕ)
        → f.header.opcode ≡ OpCode.continuation
        → p.fragment_opcode ≡ o
        → Ahead p f pre
        → Agrees (continued_typed validate_utf8 from_utf8 o p f pre) (continued o p f)
    continued_data none pre c e a =
        refuses (Error.protocol "unexpected continuation frame") p p
          (err (Error.protocol "unexpected continuation frame"), p) refl
    continued_data (some o) pre c e a =
        elim (Bool-cases (ltb p.max_message_size (length p.fragment_buf + length f.payload))) [
          | inl big ↦
              rw big (refuses Error.message_too_large p p (err Error.message_too_large, p) refl)
          | inr fits ↦ rw fits (within o e)
        ]
      where
        other :
            (o : OpCode)
            → is_text o ≡ false
            → p.fragment_opcode ≡ some o
            → Agrees (extended p o f) (raw_extended p o f)
        other o t e = continued_other o t e (stands o pre t c e a)

        within :
            (o : OpCode)
            → p.fragment_opcode ≡ some o
            → Agrees (continue_typed validate_utf8 from_utf8 o p f pre) (raw_extended p o f)
        within OpCode.text e = continued_text pre c e a
        within OpCode.binary e = other OpCode.binary refl e
        within OpCode.continuation e = other OpCode.continuation refl e
        within OpCode.close e = other OpCode.close refl e
        within OpCode.ping e = other OpCode.ping refl e
        within OpCode.pong e = other OpCode.pong refl e
