-- ===== src/Parser/Arms.antt =====
-- The arms ExtendedLen16 and ExtendedLen64 of `parse_slow` against the format.
use sockudo_ws.Base.{
  ℕ, suc, ◌+◌, ◌-◌, ◌<◌, ◌≤◌, bit_and, ltb, Bool-cases, lt→ltb, le→ltb_false, if◌then◌else◌, [],
  ◌∷◌, ◌++◌, length, get_or, take, drop, Bytes, ◌≡◌, ◌≢◌, refl, arith, inl, inr, Outcome, ok, err,
  panic,
}
use sockudo_ws.Error.{Error}
use sockudo_ws.Frame.{OpCode, be16}
use sockudo_ws.Parser.Types.{FrameParser}
use sockudo_ws.Parser.Slow.{
  header_base, check_len64, continue_with_len, when_ok, save_all, extended_len16_with,
  extended_len64_with, be64_at,
}
use sockudo_ws.Parser.Spec.{need, checked, decode16, decode64, decode_len, decode_sized}

-- What the 16-bit length is, and the check on it.
abbrev pub value16 : Bytes → ℕ
value16 w = be16 (get_or w 0 0) (get_or w 1 0)

abbrev pub check16 : Bytes → Outcome Error (Unit {0})
check16 w = if ltb (value16 w) 126 then err (Error.protocol "payload length not minimal") else ok tt

abbrev pub value64 : Bytes → ℕ
value64 w = be64_at w 0

abbrev pub check64 : Bytes → Outcome Error (Unit {0})
check64 w = check_len64 (value64 w)

pub check16-ne-panic : (w : Bytes) → check16 w ≢ panic
check16-ne-panic w h = ground arith

pub check_len64-ne-panic : (len : ℕ) → check_len64 len ≢ panic
unfolding check_len64
check_len64-ne-panic len h = ground arith

module _ (q : FrameParser) (b0 b1 : ℕ) (o : OpCode) where
  pub is_tail16 :
      bit_and b1 0x7F ≡ 126 → (w : Bytes) → decode_len q b0 b1 o w ≡ decode16 q b0 b1 o w
  unfolding decode_len
  is_tail16 e w = rw e

  pub is_tail64 :
      126 < bit_and b1 0x7F → (w : Bytes) → decode_len q b0 b1 o w ≡ decode64 q b0 b1 o w
  unfolding decode_len
  is_tail64 l w = ground arith

  pub tail_short16 : (w : Bytes) → length w < 2 → decode16 q b0 b1 o w ≡ need
  tail_short16 [] l = refl
  tail_short16 (a ∷ []) l = refl
  tail_short16 (a ∷ b ∷ w) l = absurd (omega arith)

  pub tail_full16 :
      (w z : Bytes)
      → length w ≡ 2
      → decode16 q b0 b1 o (w ++ z)
        ≡ checked (check16 w) (λ _. decode_sized q b0 b1 o (value16 w) z)
  tail_full16 [] z l = absurd (omega arith)
  tail_full16 (a ∷ []) z l = absurd (omega arith)
  tail_full16 (a ∷ b ∷ []) z l = elim (Bool-cases (ltb (be16 a b) 126)) [
    | inl e ↦ rw e
    | inr e ↦ rw e
  ]
  tail_full16 (a ∷ b ∷ c ∷ w) z l = absurd (omega arith)

  pub tail_short64 : (w : Bytes) → length w < 8 → decode64 q b0 b1 o w ≡ need
  tail_short64 (s ∷ t ∷ u ∷ v ∷ x ∷ y ∷ z ∷ a ∷ w) l = absurd (omega arith)
  tail_short64 _ l = refl

  pub tail_full64 :
      (w z : Bytes)
      → length w ≡ 8
      → decode64 q b0 b1 o (w ++ z)
        ≡ checked (check64 w) (λ _. decode_sized q b0 b1 o (value64 w) z)
  tail_full64 (s ∷ t ∷ u ∷ v ∷ x ∷ y ∷ c ∷ a ∷ []) z l = refl
  tail_full64 _ z l = absurd (omega arith)

pub sized16 : (w : Bytes) → length w ≡ 2 → check16 w ≡ ok tt → 2 + 2 ≡ header_base (value16 w)
sized16 w l e = ground arith

pub sized64 : (w : Bytes) → length w ≡ 8 → check64 w ≡ ok tt → 2 + 8 ≡ header_base (value64 w)
unfolding check_len64
sized64 w l e = ground arith

-- The code's arm once the bytes are there, in the form of `len_full`.
pub extended_len16_full :
    (b0 b1 : ℕ) (t : Bytes) (p : FrameParser) (b : Bytes)
    → length t < 2
    → 2 ≤ length t + length b
    → extended_len16_with (b0 ∷ b1 ∷ t) p b
      ≡ when_ok
          (check16 (t ++ take (2 - length t) b))
          (record p { header_buf = b0 ∷ b1 ∷ (t ++ take (2 - length t) b) })
          (drop (2 - length t) b)
          (continue_with_len
            (record p { header_buf = b0 ∷ b1 ∷ (t ++ take (2 - length t) b) })
            (value16 (t ++ take (2 - length t) b))
            (drop (2 - length t) b))
unfolding extended_len16_with
extended_len16_full b0 b1 t p b few l =
    let n : 4 - suc (suc (length t)) ≡ 2 - length t = omega arith in
    rw n (
      rw (le→ltb_false (length b) (2 - length t) (omega arith))
        (elim (Bool-cases (ltb (value16 (t ++ take (2 - length t) b)) 126)) [
          | inl e ↦ rw e
          | inr e ↦ rw e
        ]))

pub extended_len64_full :
    (b0 b1 : ℕ) (t : Bytes) (p : FrameParser) (b : Bytes)
    → length t < 8
    → 8 ≤ length t + length b
    → extended_len64_with (b0 ∷ b1 ∷ t) p b
      ≡ when_ok
          (check64 (t ++ take (8 - length t) b))
          (record p { header_buf = b0 ∷ b1 ∷ (t ++ take (8 - length t) b) })
          (drop (8 - length t) b)
          (continue_with_len
            (record p { header_buf = b0 ∷ b1 ∷ (t ++ take (8 - length t) b) })
            (value64 (t ++ take (8 - length t) b))
            (drop (8 - length t) b))
unfolding extended_len64_with
extended_len64_full b0 b1 t p b few l =
    let n : 10 - suc (suc (length t)) ≡ 8 - length t = omega arith in
    rw n (rw (le→ltb_false (length b) (8 - length t) (omega arith)))

pub extended_len16_short :
    (b0 b1 : ℕ) (t : Bytes) (p : FrameParser) (b : Bytes)
    → length t + length b < 2
    → extended_len16_with (b0 ∷ b1 ∷ t) p b ≡ save_all p b
unfolding extended_len16_with
extended_len16_short b0 b1 t p b l = rw (lt→ltb (length b) (4 - suc (suc (length t))) (omega arith))

pub extended_len64_short :
    (b0 b1 : ℕ) (t : Bytes) (p : FrameParser) (b : Bytes)
    → length t + length b < 8
    → extended_len64_with (b0 ∷ b1 ∷ t) p b ≡ save_all p b
unfolding extended_len64_with
extended_len64_short b0 b1 t p b l =
    rw (lt→ltb (length b) (10 - suc (suc (length t))) (omega arith))
