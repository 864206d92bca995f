-- ===== src/Mask/Laws.antt =====
-- Every masking function is the bytewise loop `mask_from`, whatever the length and the alignment.
use sockudo_ws.Base.{
  ℕ, zero, suc, ◌+◌, ◌%◌, ◌≤◌, ◌<◌, ltb, ltb_iff, le_of_ltb-false, Bool-cases, bit_xor, [], ◌∷◌,
  ◌++◌, length, take, drop, length-take, length-drop, take-append-drop, Bytes, ◌≡◌, refl, sym, ap,
  ◌∙◌, inl, inr, arith,
}
use sockudo_ws.Base.Bits.{bit_xor_twice}
use sockudo_ws.Mask.Defs.{MaskKey, key_at, mask_from, as_chunks_loop, as_chunks, concat_map}
use mathlib.Core.List.{append-nil, append_assoc}
use native.Mathlib.Nat.{mod-eq-sub-mod, mod-eq_of_lt}

pub mask_from-append :
    (k : MaskKey) (i : ℕ) (xs ys : Bytes)
    → mask_from k i (xs ++ ys) ≡ mask_from k i xs ++ mask_from k (i + length xs) ys
mask_from-append k i [] ys = ap (λ j. mask_from k j ys) (omega arith)
mask_from-append k i (x ∷ xs) ys = ap (◌∷◌ (bit_xor x (key_at k i))) (
    mask_from-append k (i + 1) xs ys
    ∙ ap (λ j. mask_from k (i + 1) xs ++ mask_from k j ys) (omega arith))

key_at-mod : (k : MaskKey) (i j : ℕ) → i % 4 ≡ j % 4 → key_at k i ≡ key_at k j
key_at-mod k i j h = rw h

-- Only the position modulo four counts.
pub mask_from-mod :
    (k : MaskKey) (i j : ℕ) (xs : Bytes) → i % 4 ≡ j % 4 → mask_from k i xs ≡ mask_from k j xs
mask_from-mod k i j [] h = refl
mask_from-mod k i j (x ∷ xs) h =
    rw (key_at-mod k i j h)
      (ap (◌∷◌ (bit_xor x (key_at k j))) (mask_from-mod k (i + 1) (j + 1) xs (omega arith)))

pub length-mask_from : (k : MaskKey) (i : ℕ) (xs : Bytes) → length (mask_from k i xs) ≡ length xs
length-mask_from k i [] = refl
length-mask_from k i (x ∷ xs) = ap suc (length-mask_from k (i + 1) xs)

-- Masking twice with the same key from the same position gives the bytes back.
pub mask_from_twice : (k : MaskKey) (i : ℕ) (xs : Bytes) → mask_from k i (mask_from k i xs) ≡ xs
mask_from_twice k i [] = refl
mask_from_twice k i (x ∷ xs) = rw (bit_xor_twice, mask_from_twice k (i + 1) xs)

eq-nil-of_length : (xs : Bytes) → length xs ≡ 0 → xs ≡ []
eq-nil-of_length [] h = refl
eq-nil-of_length (x ∷ xs) h = absurd (omega arith)

-- What is left over by `as_chunks` is the length modulo the chunk size.
length-as_chunks_loop :
    (fuel n : ℕ) (xs : Bytes)
    → 0 < n
    → length xs ≤ fuel
    → length (as_chunks_loop fuel n xs).1 ≡ length xs % n
unfolding as_chunks_loop
length-as_chunks_loop zero n [] p h = (ground (arith, mod-eq_of_lt {n = 0} {m = n} p))
length-as_chunks_loop zero n (x ∷ xs) p h = absurd (omega arith)
length-as_chunks_loop (suc f) n xs p h = elim (Bool-cases (ltb (length xs) n)) [
  | inl short ↦ rw short (sym (mod-eq_of_lt ((ltb_iff _ _).0 short)))
  | inr long ↦ rw long (
      length-as_chunks_loop f n (drop n xs) p (omega (arith, length-drop n xs))
      ∙ ap (λ m. m % n) (length-drop n xs)
      ∙ sym (mod-eq-sub-mod (le_of_ltb-false _ _ long)))
]

-- A loop over chunks whose size is a multiple of four.
module _ (k : MaskKey) (f : Bytes → Bytes) (n : ℕ) (pos : 0 < n) (four : n % 4 ≡ 0)
    (body : (c : Bytes) → length c ≡ n → f c ≡ mask_from k 0 c) where
  -- One chunk in front of the rest.
  pub mask_front :
      (xs : Bytes) → n ≤ length xs → f (take n xs) ++ mask_from k 0 (drop n xs) ≡ mask_from k 0 xs
  mask_front xs h =
      let long : length (take n xs) ≡ n = length-take n xs ∙ omega arith in
      rw (body (take n xs) long) (
        rw (mask_from-mod k 0 (0 + length (take n xs)) (drop n xs) (rw long (omega arith))) (
          sym (mask_from-append k 0 (take n xs) (drop n xs))
          ∙ ap (mask_from k 0) (take-append-drop n xs)))

  mask-as_chunks_loop :
      (fuel : ℕ) (xs : Bytes)
      → length xs ≤ fuel
      → concat_map f (as_chunks_loop fuel n xs).0 ++ mask_from k 0 (as_chunks_loop fuel n xs).1
        ≡ mask_from k 0 xs
  unfolding as_chunks_loop
  mask-as_chunks_loop zero xs h = refl
  mask-as_chunks_loop (suc fuel) xs h = elim (Bool-cases (ltb (length xs) n)) [
    | inl short ↦ rw short
    | inr long ↦ rw long (
        append_assoc (f (take n xs)) _ _
        ∙ ap (◌++◌ (f (take n xs)))
            (mask-as_chunks_loop fuel (drop n xs) (omega (arith, length-drop n xs)))
        ∙ mask_front xs (le_of_ltb-false _ _ long))
  ]

  pub mask-as_chunks :
      (xs : Bytes)
      → concat_map f (as_chunks n xs).0 ++ mask_from k 0 (as_chunks n xs).1 ≡ mask_from k 0 xs
  unfolding as_chunks
  mask-as_chunks xs = mask-as_chunks_loop (length xs) xs (omega arith)

  -- A length that the chunk size divides leaves nothing over.
  pub mask-as_chunks_whole :
      (xs : Bytes) → length xs % n ≡ 0 → concat_map f (as_chunks n xs).0 ≡ mask_from k 0 xs
  unfolding as_chunks
  mask-as_chunks_whole xs h =
      let none_left : (as_chunks n xs).1 ≡ [] =
        eq-nil-of_length _ (length-as_chunks_loop (length xs) n xs pos (omega arith) ∙ h) in
      sym (append-nil _)
      ∙ ap (λ r. concat_map f (as_chunks n xs).0 ++ mask_from k 0 r) (sym none_left)
      ∙ mask-as_chunks xs
