-- ===== src/Utf8/Cut.antt =====
-- Where `complete_prefix_len` of src/utf8.rs cuts a chunk: before a code point that is not all there.
use sockudo_ws.Base.{
  ℕ, zero, suc, ◌+◌, ◌-◌, ◌≤◌, ◌<◌, ltb, leb, [], ◌∷◌, ◌++◌, length, All, Bytes, ◌≡◌, inl, inr,
  refl, sym, ap, ◌∙◌, arith, Bool-cases, length-append, le_of_ltb-false, ltb→lt,
}
use mathlib.Core.List.{reverse, reverse_aux, reverse_aux-eq, reverse-reverse, append-nil}
use mathlib.Core.Path.{subst}
use sockudo_ws.Utf8.Defs.{utf8_sequence_width, complete_from, complete_prefix_len}
use sockudo_ws.Utf8.Format.{boundary, Place, scan, wants, scan-append}
use sockudo_ws.Utf8.Places.{IsTail, Within, scan-Within, wants-tails, wants-ascii, wants-lead}

-- A first byte with fewer continuation bytes than it wants.
abbrev pub Unfinished : Bytes → Type 0
Unfinished [] = Unit
Unfinished (b ∷ t) = (length (b ∷ t) < utf8_sequence_width b) × All IsTail t

-- `w` cut at `n`: an unfinished code point behind the cut, and none at the end of `w` without one.
pub record Cut (w : Bytes) (n : ℕ) : Type 0 where
  pub u : Bytes
  pub t : Bytes
  pub whole : w ≡ u ++ t
  pub at : n ≡ length u
  pub unfinished : Unfinished t
  pub settled : t ≡ [] → wants (scan boundary w) ≡ 0

uncut : (w : Bytes) (n : ℕ) → n ≡ length w → wants (scan boundary w) ≡ 0 → Cut w n
uncut w n e z = record {
  u = w;
  t = [];
  whole = sym (append-nil w);
  at = e;
  unfinished = tt;
  settled = λ _. z;
}

reverse-Within : (r : Bytes) → Within (scan boundary (reverse r))
reverse-Within r = scan-Within (reverse r) boundary tt

scan-reverse_aux :
    (r t : Bytes) → scan boundary (reverse_aux r t) ≡ scan (scan boundary (reverse r)) t
scan-reverse_aux r t = ap (scan boundary) (reverse_aux-eq r t) ∙ scan-append boundary (reverse r) t

wants_few : (s : Place) → Within s → wants s ≤ 3
wants_few Place.boundary w = omega arith
wants_few (Place.more low high n) w = omega (arith, w.2)
wants_few Place.bad w = omega arith

three_tails :
    (r t : Bytes) → All IsTail t → length t ≡ 3 → wants (scan boundary (reverse_aux r t)) ≡ 0
three_tails r t h e =
    ap wants (scan-reverse_aux r t) ∙ elim (wants-tails t (scan boundary (reverse r)) h) [
      | inl z ↦ z
      | inr l ↦ omega (arith, l, e, wants_few (scan boundary (reverse r)) (reverse-Within r))
    ]

only_tails : (t : Bytes) → All IsTail t → wants (scan boundary t) ≡ 0
only_tails t h = elim (wants-tails t boundary h) [ inl z ↦ z | inr l ↦ omega (arith, l) ]

before-Cut :
    (b : ℕ) (r t : Bytes) (n : ℕ)
    → n ≡ length (reverse_aux (b ∷ r) t)
    → Unfinished (b ∷ t)
    → Cut (reverse_aux (b ∷ r) t) (n - (length t + 1))
before-Cut b r t n e h =
    let w : reverse_aux r (b ∷ t) ≡ reverse r ++ (b ∷ t) = reverse_aux-eq r (b ∷ t) in
    record {
      u = reverse r;
      t = b ∷ t;
      whole = w;
      at = omega (arith, e, ap length w, length-append (reverse r) (b ∷ t));
      unfinished = h;
      settled = λ x. absurd (ground (arith, x));
    }

walk :
    (left : ℕ) (r t : Bytes) (n back : ℕ)
    → n ≡ length (reverse_aux r t)
    → All IsTail t
    → length t + left ≡ 3
    → back ≡ length t + 1
    → Cut (reverse_aux r t) (complete_from n left back r)
walk zero r t n back e h l k = uncut (reverse_aux r t) n e (three_tails r t h (omega (arith, l)))
walk (suc left) [] t n back e h l k = uncut t n e (only_tails t h)
walk (suc left) (b ∷ r) t n back e h l k = elim (Bool-cases (ltb b 0x80)) [
  | inl low ↦ rw low (
      uncut (reverse_aux r (b ∷ t)) n e (
        ap wants (scan-reverse_aux r (b ∷ t))
        ∙ wants-ascii (scan boundary (reverse r)) b t (reverse-Within r) (ltb→lt _ _ low) h))
  | inr over ↦ elim (Bool-cases (leb 0xC0 b)) [
    | inl lead ↦ elim (Bool-cases (ltb back (utf8_sequence_width b))) [
      | inl short ↦
          rw (over, lead, short)
            (subst (λ m. Cut (reverse_aux (b ∷ r) t) (n - m)) (sym k)
              (before-Cut b r t n e (omega (arith, ltb→lt _ _ short, k), h)))
      | inr full ↦
          rw (over, lead, full)
            (uncut (reverse_aux r (b ∷ t)) n e (
              ap wants (scan-reverse_aux r (b ∷ t))
              ∙ wants-lead (scan boundary (reverse r)) b t (reverse-Within r) (ground (arith, lead))
                  h (omega (arith, le_of_ltb-false _ _ full, k))))
    ]
    | inr tail ↦
        rw (over, tail)
          (walk left r (b ∷ t) n (suc back) e ((ground (arith, over), ground (arith, tail)), h)
            (omega (arith, l)) (omega (arith, k)))
  ]
]

pub complete_prefix_len-Cut : (w : Bytes) → Cut w (complete_prefix_len w)
unfolding complete_prefix_len
complete_prefix_len-Cut w =
    subst (λ z. Cut z (complete_from (length w) 3 1 (reverse w))) (reverse-reverse w)
      (walk 3 (reverse w) [] (length w) 1 (ap length (sym (reverse-reverse w))) tt refl refl)
