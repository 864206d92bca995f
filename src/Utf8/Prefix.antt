-- ===== src/Utf8/Prefix.antt =====
-- Incomplete prefixes of src/utf8.rs against the automaton of UTF-8.
use sockudo_ws.Base.{
  ℕ, zero, suc, ◌+◌, ◌≤◌, ◌<◌, true, false, some, [], ◌∷◌, length, Bytes, ◌≡◌, inl, inr, refl, sym,
  ap, ◌∙◌, arith, Bool-cases,
}
use sockudo_ws.Utf8.Defs.{
  utf8_sequence_width, contains, all_continue, rest_may_be_valid, incomplete_prefix_may_be_valid,
}
use sockudo_ws.Utf8.Format.{
  Place, boundary, more, bad, lead_byte, after_tail, scan, is_boundary, is_possible, wants,
  scan-bad,
}
use sockudo_ws.Utf8.Places.{lead_byte-second_range, wants-bad}

continue-tail :
    (rest : Bytes) (n : ℕ)
    → length rest ≤ n
    → all_continue rest ≡ is_possible (scan (after_tail n) rest)
continue-tail [] zero l = refl
continue-tail [] (suc n) l = refl
continue-tail (b ∷ rest) zero l = absurd (omega (arith, l))
continue-tail (b ∷ rest) (suc n) l = elim (Bool-cases (contains 0x80 0xBF b)) [
  | inl e ↦ rw e (continue-tail rest n (omega (arith, l)))
  | inr e ↦ rw e (sym (ap is_possible (scan-bad rest)))
]

in_second :
    (low high n : ℕ) (rest : Bytes)
    → length rest ≤ n + 1
    → rest_may_be_valid (some (low, high)) rest ≡ is_possible (scan (more low high n) rest)
in_second low high n [] l = refl
in_second low high n (b ∷ rest) l = elim (Bool-cases (contains low high b)) [
  | inl e ↦ rw e (continue-tail rest n (omega (arith, l)))
  | inr e ↦ rw e (sym (ap is_possible (scan-bad rest)))
]

-- A prefix shorter than its code point may be valid when the automaton has not refused it.
pub may_be_valid :
    (b : ℕ) (rest : Bytes)
    → length (b ∷ rest) < utf8_sequence_width b
    → incomplete_prefix_may_be_valid (b ∷ rest) ≡ is_possible (scan boundary (b ∷ rest))
may_be_valid b rest l = elim (lead_byte-second_range b (omega (arith, l))) [
  | inl (s, z) ↦
      ap (λ r. rest_may_be_valid r rest) s
      ∙ sym (ap (λ z. is_possible (scan z rest)) z ∙ ap is_possible (scan-bad rest))
  | inr (low, high, n, s, z, w) ↦
      ap (λ r. rest_may_be_valid r rest) s
      ∙ in_second low high n rest (omega (arith, w, l))
      ∙ sym (ap (λ z. is_possible (scan z rest)) z)
]

wants-exact : (q : Bytes) (s : Place) → length q ≡ wants s → wants (scan s q) ≡ 0
wants-exact [] s e = sym e
wants-exact (b ∷ q) boundary e = absurd (omega (arith, e))
wants-exact (b ∷ q) bad e = absurd (omega (arith, e))
wants-exact (b ∷ q) (more low high n) e = elim (Bool-cases (contains low high b)) [
  | inl i ↦ rw i (wants-exact q (after_tail n) (omega (arith, e) ∙ wants-tail n))
  | inr i ↦ rw i (ap wants (scan-bad q))
]
  where
    wants-tail : (n : ℕ) → n ≡ wants (after_tail n)
    wants-tail zero = refl
    wants-tail (suc n) = refl

-- A code point of full width is not left unfinished.
pub wants-full :
    (b : ℕ) (q : Bytes)
    → 1 < utf8_sequence_width b
    → length (b ∷ q) ≡ utf8_sequence_width b
    → wants (scan boundary (b ∷ q)) ≡ 0
wants-full b q l e = elim (lead_byte-second_range b l) [
  | inl (s, z) ↦ wants-bad (lead_byte b) q z
  | inr (low, high, n, s, z, w) ↦
      wants-exact q (lead_byte b) (omega (arith, e, w) ∙ sym (ap wants z))
]

pub is_bad : (s : Place) → wants s ≡ 0 → is_boundary s ≡ false → s ≡ bad
is_bad boundary w n = absurd (ground (arith, n))
is_bad (more low high m) w n = absurd (omega (arith, w))
is_bad bad w n = refl

pub at_boundary : (s : Place) → is_boundary s ≡ true → s ≡ boundary
at_boundary boundary e = refl
at_boundary (more low high n) e = absurd (ground (arith, e))
at_boundary bad e = absurd (ground (arith, e))
