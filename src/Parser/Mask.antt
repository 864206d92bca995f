-- ===== src/Parser/Mask.antt =====
-- The Mask arm of `parse_slow`: the four bytes of the key may arrive one by one.
use sockudo_ws.Base.{
  ℕ, suc, ◌+◌, ◌-◌, ◌<◌, ◌≤◌, ltb, Bool-cases, le_of_ltb-false, ltb→lt, lt→ltb, le→ltb_false, none,
  some, [], ◌∷◌, ◌++◌, length, get_or, take, drop, Bytes, ◌≡◌, refl, sym, ap, ◌∙◌, arith, inl, inr,
  length-append, length-take, take-append-drop, ok, panic,
}
use mathlib.Core.Path.{subst}
use mathlib.Core.List.{append_assoc}
use native.Mathlib.Nat.{add-zero}
use sockudo_ws.Mask.{MaskKey}
use sockudo_ws.Frame.{FrameHeader}
use sockudo_ws.Parser.Types.{ParseState, FrameParser, reset}
use sockudo_ws.Parser.Slow.{header_base, mask_at, with_header, mask_with, parse_mask, parse_payload}
use sockudo_ws.Parser.Spec.{need, decode, decode_mask, decode_payload, meaning, meaning_in}
use sockudo_ws.Parser.Resume.{AgreesAt, Agrees-trans, InMask, InvIn}
use sockudo_ws.Parser.Payload.{parse_payload-Agrees}

pub get_or-append : (pre w : Bytes) (i : ℕ) → get_or (pre ++ w) (length pre + i) 0 ≡ get_or w i 0
get_or-append [] w i = ap (λ j. get_or w j 0) (omega arith)
get_or-append (x ∷ pre) w i =
    let step : suc (length pre) + i ≡ suc (length pre + i) = omega arith in
    ap (λ j. get_or (x ∷ (pre ++ w)) j 0) step ∙ get_or-append pre w i

-- The key is read right behind the base header.
pub mask_at-append : (pre w : Bytes) (n : ℕ) → length pre ≡ n → mask_at (pre ++ w) n ≡ mask_at w 0
mask_at-append pre w n e = rw (← e) (λ i. record {
  m0 = (ap (λ j. get_or (pre ++ w) j 0) (sym (add-zero (length pre))) ∙ get_or-append pre w 0) i;
  m1 = get_or-append pre w 1 i;
  m2 = get_or-append pre w 2 i;
  m3 = get_or-append pre w 3 i;
})

pub decode_mask_short : (h : FrameHeader) (w : Bytes) → length w < 4 → decode_mask h w ≡ need
decode_mask_short h [] l = refl
decode_mask_short h (a ∷ []) l = refl
decode_mask_short h (a ∷ b ∷ []) l = refl
decode_mask_short h (a ∷ b ∷ c ∷ []) l = refl
decode_mask_short h (a ∷ b ∷ c ∷ d ∷ w) l = absurd (omega arith)

pub decode_mask_full :
    (h : FrameHeader) (w y : Bytes)
    → length w ≡ 4
    → decode_mask h (w ++ y) ≡ decode_payload (record h { mask = some (mask_at w 0) }) 0 y
decode_mask_full h (a ∷ b ∷ c ∷ d ∷ []) y l = refl
decode_mask_full h (a ∷ b ∷ c ∷ d ∷ e ∷ w) y l = absurd (omega arith)
decode_mask_full h [] y l = absurd (omega arith)
decode_mask_full h (a ∷ []) y l = absurd (omega arith)
decode_mask_full h (a ∷ b ∷ []) y l = absurd (omega arith)
decode_mask_full h (a ∷ b ∷ c ∷ []) y l = absurd (omega arith)

pub meaning_mask :
    (p : FrameParser) (x : Bytes)
    → p.state ≡ ParseState.mask
    → meaning p x ≡ decode (reset p) (p.header_buf ++ x)
meaning_mask p x st = ap (λ s. meaning_in s p x) st

-- What the stored bytes and the buffer mean, by the key's bytes.
module _ (p : FrameParser) (m : InMask p) (st : p.state ≡ ParseState.mask) where
  meaning-decode_mask : (x : Bytes) → meaning p x ≡ decode_mask m.h (m.t ++ x)
  meaning-decode_mask x =
      meaning_mask p x st
      ∙ ap (λ b. decode (reset p) (b ++ x)) m.stored
      ∙ ap (decode (reset p)) (append_assoc m.pre m.t x)
      ∙ m.reads (m.t ++ x)

  stored_size : length p.header_buf ≡ header_base m.h.payload_len + length m.t
  stored_size = ap length m.stored ∙ length-append m.pre m.t ∙ ap (λ n. n + length m.t) m.size

  mask_short :
      (b : Bytes)
      → length m.t + length b < 4
      → AgreesAt p b (ok none, record p { header_buf = p.header_buf ++ b }, [])
  mask_short b l = (
    meaning-decode_mask b ∙ decode_mask_short m.h (m.t ++ b) (omega (arith, length-append m.t b)),
    subst (λ s. InvIn s (record p { header_buf = p.header_buf ++ b }) []) (sym st)
        (record {
          h = m.h;
          pre = m.pre;
          t = m.t ++ b;
          header_is = m.header_is;
          stored = ap (λ c. c ++ b) m.stored ∙ append_assoc m.pre m.t b;
          size = m.size;
          short = omega (arith, length-append m.t b);
          reads = m.reads;
          fresh = m.fresh;
        }),
    refl,
    λ x.
        meaning_mask (record p { header_buf = p.header_buf ++ b }) x st
        ∙ ap (decode (reset p)) (append_assoc p.header_buf b x)
        ∙ sym (meaning_mask p (b ++ x) st),
  )

  -- The key and the header with it, once the buffer holds the rest of the key.
  module _ (b : Bytes) (l : 4 ≤ length m.t + length b) where
    abbrev needed : ℕ
    needed = header_base m.h.payload_len + 4 - length p.header_buf

    abbrev four : Bytes
    four = m.t ++ take needed b

    filled-four : p.header_buf ++ take needed b ≡ m.pre ++ four
    filled-four = ap (λ c. c ++ take needed b) m.stored ∙ append_assoc m.pre m.t (take needed b)

    needed-t : needed + length m.t ≡ 4
    needed-t = omega (arith, stored_size, m.short)

    length-four : length four ≡ 4
    length-four = omega (arith, length-append m.t (take needed b), length-take needed b, needed-t)

    keyed : FrameHeader
    keyed = record m.h {
      mask = some (mask_at (p.header_buf ++ take needed b) (header_base m.h.payload_len));
    }

    with_mask : FrameParser
    with_mask = record p {
      header_buf = p.header_buf ++ take needed b;
      header = some keyed;
      state = ParseState.payload;
    }

    keyed-four : keyed ≡ record m.h { mask = some (mask_at four 0) }
    unfolding keyed
    keyed-four =
        ap (λ (k : MaskKey). record m.h { mask = some k })
          (ap (λ c. mask_at c (header_base m.h.payload_len)) filled-four
            ∙ mask_at-append m.pre four (header_base m.h.payload_len) m.size)

    meaning_full : (x : Bytes) → meaning with_mask (drop needed b ++ x) ≡ meaning p (b ++ x)
    unfolding with_mask
    meaning_full x =
        ap (λ r. decode_payload keyed r (drop needed b ++ x)) m.fresh
        ∙ ap (λ h. decode_payload h 0 (drop needed b ++ x)) keyed-four
        ∙ sym (decode_mask_full m.h four (drop needed b ++ x) length-four)
        ∙ ap (decode_mask m.h) (
            append_assoc m.t (take needed b) (drop needed b ++ x)
            ∙ ap (λ c. m.t ++ c)
                (sym (append_assoc (take needed b) (drop needed b) x)
                  ∙ ap (λ c. c ++ x) (take-append-drop needed b)))
        ∙ sym (meaning-decode_mask (b ++ x))

    mask_with_full : mask_with m.h p b ≡ parse_payload with_mask (drop needed b)
    unfolding mask_with with_mask keyed
    mask_with_full = rw (le→ltb_false (length b) needed (omega (arith, stored_size, m.short)))

    mask_full : AgreesAt p b (mask_with m.h p b)
    unfolding with_mask
    mask_full = subst (AgreesAt p b) (sym mask_with_full) (
        Agrees-trans p with_mask b (drop needed b) (parse_payload with_mask (drop needed b)) refl
          meaning_full
          (parse_payload-Agrees with_mask keyed (drop needed b) refl refl (omega (arith, m.fresh))))

  mask_with_short :
      (b : Bytes)
      → length m.t + length b < 4
      → mask_with m.h p b ≡ (ok none, record p { header_buf = p.header_buf ++ b }, [])
  unfolding mask_with
  mask_with_short b l = rw (
      lt→ltb (length b) (header_base m.h.payload_len + 4 - length p.header_buf)
        (omega (arith, stored_size, l)))

pub parse_mask-Agrees :
    (p : FrameParser) (b : Bytes)
    → p.state ≡ ParseState.mask
    → InMask p
    → AgreesAt p b (parse_mask p b)
unfolding parse_mask
parse_mask-Agrees p b st m =
    subst (λ o. AgreesAt p b (with_header o (panic, p, b) (λ g. mask_with g p b))) (sym m.header_is)
      (elim (Bool-cases (ltb (length m.t + length b) 4)) [
        | inl short ↦
            subst (AgreesAt p b) (sym (mask_with_short p m st b (ltb→lt _ _ short)))
              (mask_short p m st b (ltb→lt _ _ short))
        | inr full ↦ mask_full p m st b (le_of_ltb-false _ _ full)
      ])
