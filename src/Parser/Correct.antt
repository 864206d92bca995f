-- ===== src/Parser/Correct.antt =====
-- `parse_slow` agrees with the format from every state that it reaches.
use sockudo_ws.Base.{
  ℕ, suc, ◌<◌, bit_and, ltb, leb, ◌==◌, Bool-cases, le→ltb_false, if◌then◌else◌, true, none, [],
  ◌∷◌, ◌++◌, length, get_or, Bytes, ◌≡◌, ◌≢◌, refl, sym, ap, ◌∙◌, arith, inl, inr, Outcome, ok, err,
  panic, ==→eq,
}
use mathlib.Core.Path.{subst}
use sockudo_ws.Error.{Error}
use sockudo_ws.Frame.{OpCode, be16}
use sockudo_ws.Parser.Types.{ParseState, FrameParser, Parsed, reset}
use sockudo_ws.Parser.Slow.{check_base, check_opcode, check_len64, when_ok, be64_at}
use sockudo_ws.Parser.Header.{
  header_sized, header_len, header_from, parse_header, parse_in, parse_slow, wait_for_len,
}
use sockudo_ws.Parser.Spec.{
  need, failed, checked, decode, decode_len, decode_sized, meaning, meaning_in,
}
use sockudo_ws.Parser.Resume.{AgreesAt, Inv, InvIn}
use sockudo_ws.Parser.Payload.{parse_payload-Agrees}
use sockudo_ws.Parser.Mask.{parse_mask-Agrees}
use sockudo_ws.Parser.Arms.{
  check_len64-ne-panic, is_tail16, is_tail64, tail_short16, tail_short64, tail_full64, sized64,
}
use sockudo_ws.Parser.Waits.{extended_len16-Agrees, extended_len64-Agrees}
use sockudo_ws.Parser.Start.{header_sized-Agrees}

check_base-reset : (p : FrameParser) (b0 b1 : ℕ) → check_base p b0 b1 ≡ check_base (reset p) b0 b1
unfolding check_base check_opcode
check_base-reset p b0 b1 = refl

check_base-ne-panic : (p : FrameParser) (b0 b1 : ℕ) → check_base p b0 b1 ≢ panic
unfolding check_base check_opcode
check_base-ne-panic p b0 b1 h = ground arith

module _ (p : FrameParser) (st : p.state ≡ ParseState.header) (fresh : p.payload_ready ≡ 0) where
  at_header : (x : Bytes) → meaning p x ≡ decode (reset p) x
  at_header x = ap (λ s. meaning_in s p x) st

  module _ (b0 b1 : ℕ) (o : OpCode) (base : check_base (reset p) b0 b1 ≡ ok o) where
    decode-len : (w : Bytes) → decode (reset p) (b0 ∷ b1 ∷ w) ≡ decode_len (reset p) b0 b1 o w
    decode-len w = ap (λ c. checked c (λ k. decode_len (reset p) b0 b1 k w)) base

    is_small :
        leb (bit_and b1 0x7F) 125 ≡ true
        → (y : Bytes)
        → decode_len (reset p) b0 b1 o y ≡ decode_sized (reset p) b0 b1 o (bit_and b1 0x7F) y
    unfolding decode_len
    is_small l y = rw l

    small :
        (w : Bytes)
        → leb (bit_and b1 0x7F) 125 ≡ true
        → AgreesAt p (b0 ∷ b1 ∷ w) (header_sized p (b0 ∷ b1 ∷ w) o (bit_and b1 0x7F) 2)
    small w l =
        header_sized-Agrees p st fresh b0 b1 [] w o (bit_and b1 0x7F) 2 refl (ground arith)
          (λ y. decode-len y ∙ is_small l y)

    wait16 :
        (w : Bytes)
        → bit_and b1 0x7F ≡ 126
        → length w < 2
        → AgreesAt p (b0 ∷ b1 ∷ w) (wait_for_len ParseState.extended_len16 p (b0 ∷ b1 ∷ w))
    wait16 w e l = (
      at_header (b0 ∷ b1 ∷ w)
          ∙ decode-len w
          ∙ is_tail16 (reset p) b0 b1 o e w
          ∙ tail_short16 (reset p) b0 b1 o w l,
      (
        record {
          b0 = b0;
          b1 = b1;
          t = [];
          o = o;
          stored = refl;
          base = base;
          len_byte = e;
          short = omega arith;
        },
        fresh,
      ),
      refl,
      λ x. sym (at_header (b0 ∷ b1 ∷ (w ++ x))),
    )

    wait64 :
        (w : Bytes)
        → 126 < bit_and b1 0x7F
        → length w < 8
        → AgreesAt p (b0 ∷ b1 ∷ w) (wait_for_len ParseState.extended_len64 p (b0 ∷ b1 ∷ w))
    wait64 w e l = (
      at_header (b0 ∷ b1 ∷ w)
          ∙ decode-len w
          ∙ is_tail64 (reset p) b0 b1 o e w
          ∙ tail_short64 (reset p) b0 b1 o w l,
      (
        record {
          b0 = b0;
          b1 = b1;
          t = [];
          o = o;
          stored = refl;
          base = base;
          len_byte = e;
          short = omega arith;
        },
        fresh,
      ),
      refl,
      λ x. sym (at_header (b0 ∷ b1 ∷ (w ++ x))),
    )

    abbrev then16 : ℕ → Bytes → Parsed
    then16 len buf =
        if ltb len 126
        then (err (Error.protocol "payload length not minimal"), p, buf)
        else header_sized p buf o len 4

    full16 :
        (x y : ℕ) (w : Bytes)
        → bit_and b1 0x7F ≡ 126
        → AgreesAt p (b0 ∷ b1 ∷ x ∷ y ∷ w) (then16 (be16 x y) (b0 ∷ b1 ∷ x ∷ y ∷ w))
    full16 x y w e = elim (Bool-cases (ltb (be16 x y) 126)) [
      | inl low ↦ rw low (
          at_header (b0 ∷ b1 ∷ x ∷ y ∷ w)
          ∙ decode-len (x ∷ y ∷ w)
          ∙ is_tail16 (reset p) b0 b1 o e (x ∷ y ∷ w)
          ∙ ap
              (λ c.
                if c
                then failed (Error.protocol "payload length not minimal")
                else decode_sized (reset p) b0 b1 o (be16 x y) w)
              low)
      | inr fine ↦ rw fine (
          header_sized-Agrees p st fresh b0 b1 (x ∷ y ∷ []) w o (be16 x y) 4 refl (ground arith)
            (λ z.
              decode-len (x ∷ y ∷ z)
              ∙ is_tail16 (reset p) b0 b1 o e (x ∷ y ∷ z)
              ∙ ap
                  (λ c.
                    if c
                    then failed (Error.protocol "payload length not minimal")
                    else decode_sized (reset p) b0 b1 o (be16 x y) z)
                  fine))
    ]

    module _ (e8 w : Bytes) (l : length e8 ≡ 8) (e : 126 < bit_and b1 0x7F) where
      reads64 :
          (z : Bytes)
          → decode (reset p) (b0 ∷ b1 ∷ (e8 ++ z))
            ≡ checked
                (check_len64 (be64_at e8 0))
                (λ _. decode_sized (reset p) b0 b1 o (be64_at e8 0) z)
      reads64 z =
          decode-len (e8 ++ z)
          ∙ is_tail64 (reset p) b0 b1 o e (e8 ++ z)
          ∙ tail_full64 (reset p) b0 b1 o e8 z l

      full64 :
          (c : Outcome Error (Unit {0}))
          → check_len64 (be64_at e8 0) ≡ c
          → AgreesAt p (b0 ∷ b1 ∷ (e8 ++ w)) (
              when_ok c p
                (b0 ∷ b1 ∷ (e8 ++ w))
                (header_sized p (b0 ∷ b1 ∷ (e8 ++ w)) o (be64_at e8 0) 10))
      full64 (ok tt) k =
          header_sized-Agrees p st fresh b0 b1 e8 w o (be64_at e8 0) 10 (omega (arith, l))
            (omega (arith, sized64 e8 l k))
            (λ z.
              reads64 z
              ∙ ap (λ c. checked c (λ _. decode_sized (reset p) b0 b1 o (be64_at e8 0) z)) k)
      full64 (err x) k =
          at_header (b0 ∷ b1 ∷ (e8 ++ w))
          ∙ reads64 w
          ∙ ap (λ c. checked c (λ _. decode_sized (reset p) b0 b1 o (be64_at e8 0) w)) k
      full64 panic k = absurd (check_len64-ne-panic (be64_at e8 0) k)

    by_len16 :
        (w : Bytes)
        → bit_and b1 0x7F ≡ 126
        → AgreesAt p (b0 ∷ b1 ∷ w) (
            if ltb (suc (suc (length w))) 4
            then wait_for_len ParseState.extended_len16 p (b0 ∷ b1 ∷ w)
            else then16 (be16 (get_or w 0 0) (get_or w 1 0)) (b0 ∷ b1 ∷ w))
    by_len16 [] e = wait16 [] e (omega arith)
    by_len16 (x ∷ []) e = wait16 (x ∷ []) e (omega arith)
    by_len16 (x ∷ y ∷ w) e =
        rw (le→ltb_false (suc (suc (suc (suc (length w))))) 4 (omega arith)) (full16 x y w e)

    by_len64 :
        (w : Bytes)
        → 126 < bit_and b1 0x7F
        → AgreesAt p (b0 ∷ b1 ∷ w) (
            if ltb (suc (suc (length w))) 10
            then wait_for_len ParseState.extended_len64 p (b0 ∷ b1 ∷ w)
            else when_ok
                (check_len64 (be64_at w 0))
                p
                (b0 ∷ b1 ∷ w)
                (header_sized p (b0 ∷ b1 ∷ w) o (be64_at w 0) 10))
    by_len64 (a ∷ b ∷ c ∷ d ∷ f ∷ g ∷ h ∷ i ∷ w) e =
        rw (le→ltb_false (length (b0 ∷ b1 ∷ a ∷ b ∷ c ∷ d ∷ f ∷ g ∷ h ∷ i ∷ w)) 10 (omega arith)) (
          full64 (a ∷ b ∷ c ∷ d ∷ f ∷ g ∷ h ∷ i ∷ []) w refl e
            (check_len64 (be64_at (a ∷ b ∷ c ∷ d ∷ f ∷ g ∷ h ∷ i ∷ []) 0)) refl)
    by_len64 w e = wait64 w e (omega arith)

    header_len-Agrees : (w : Bytes) → AgreesAt p (b0 ∷ b1 ∷ w) (header_len p (b0 ∷ b1 ∷ w) o)
    unfolding header_len
    header_len-Agrees w = elim (Bool-cases (leb (bit_and b1 0x7F) 125)) [
      | inl l ↦ rw l (small w l)
      | inr more ↦ elim (Bool-cases (bit_and b1 0x7F == 126)) [
        | inl e ↦ rw (more, e) (by_len16 w (==→eq _ _ e))
        | inr n ↦ rw (more, n) (by_len64 w (ground arith))
      ]
    ]

  by_base :
      (b0 b1 : ℕ) (w : Bytes) (c : Outcome Error OpCode)
      → check_base (reset p) b0 b1 ≡ c
      → AgreesAt p (b0 ∷ b1 ∷ w) (header_from c p (b0 ∷ b1 ∷ w))
  by_base b0 b1 w (ok o) e = header_len-Agrees b0 b1 o e w
  by_base b0 b1 w (err x) e =
      at_header (b0 ∷ b1 ∷ w) ∙ ap (λ c. checked c (λ k. decode_len (reset p) b0 b1 k w)) e
  by_base b0 b1 w panic e = absurd (check_base-ne-panic (reset p) b0 b1 e)

  nothing : (b : Bytes) → meaning p b ≡ need → AgreesAt p b (ok none, p, b)
  nothing b m = (m, subst (λ s. InvIn s p b) (sym st) fresh, refl, λ x. refl)

  parse_header-Agrees : (b : Bytes) → AgreesAt p b (parse_header p b)
  unfolding parse_header
  parse_header-Agrees [] = nothing [] (at_header [])
  parse_header-Agrees (a ∷ []) = nothing (a ∷ []) (at_header (a ∷ []))
  parse_header-Agrees (b0 ∷ b1 ∷ w) = rw (le→ltb_false (suc (suc (length w))) 2 (omega arith)) (
      subst (λ c. AgreesAt p (b0 ∷ b1 ∷ w) (header_from c p (b0 ∷ b1 ∷ w)))
        (sym (check_base-reset p b0 b1)) (by_base b0 b1 w (check_base (reset p) b0 b1) refl))

-- A call in a state that satisfies the invariant.
by_state :
    (p : FrameParser) (b : Bytes) (s : ParseState)
    → p.state ≡ s
    → InvIn s p b
    → AgreesAt p b (parse_in s p b)
by_state p b ParseState.header e i = parse_header-Agrees p e i b
by_state p b ParseState.extended_len16 e (m, fresh) = extended_len16-Agrees p b fresh e m
by_state p b ParseState.extended_len64 e (m, fresh) = extended_len64-Agrees p b fresh e m
by_state p b ParseState.mask e m = parse_mask-Agrees p b e m
by_state p b ParseState.payload e m = parse_payload-Agrees p m.h b e m.header_is m.ready_le
by_state p b ParseState.frame_too_large e i = ap (λ s. meaning_in s p b) e

-- From a state that satisfies the invariant, a call of `parse_slow` returns what the bytes mean.
pub parse_slow-Agrees : (p : FrameParser) (b : Bytes) → Inv p b → AgreesAt p b (parse_slow p b)
parse_slow-Agrees p b i = by_state p b p.state refl i
