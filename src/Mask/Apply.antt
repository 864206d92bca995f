-- ===== src/Mask/Apply.antt =====
-- `apply_mask_words`, `apply_mask_blocks` and `apply_mask_offset` of src/simd.rs against the
-- bytewise loop.
use sockudo_ws.Base.{
  ℕ, zero, suc, bit_xor, ◌+◌, ◌%◌, ◌≤◌, ltb, ◌==◌, Bool-cases, [], ◌∷◌, ◌++◌, length, take, drop,
  take-append-drop, length-take, ==→eq, Bytes, ◌≡◌, refl, sym, ap, ◌∙◌, inl, inr, arith,
}
use sockudo_ws.Mask.Defs.{
  MaskKey, key_at, mask_bytes, mask_from, as_chunks, xor_word, mask_word, concat_map,
  copy_mask_block, apply_mask_words, rotated, xor_prefix, apply_mask_blocks, apply_mask,
  apply_mask_offset,
}
use sockudo_ws.Mask.Laws.{mask_from-append, mask_from-mod, mask-as_chunks, mask-as_chunks_whole}

-- The key repeated from position `i` on, for `n` bytes.
abbrev stream : MaskKey → ℕ → ℕ → Bytes
stream k i zero = []
stream k i (suc n) = key_at k i ∷ stream k (i + 1) n

xor_word-stream :
    (k : MaskKey) (i n : ℕ) (xs : Bytes)
    → length xs ≤ n
    → xor_word xs (stream k i n) ≡ mask_from k i xs
unfolding xor_word
xor_word-stream k i n [] h = refl
xor_word-stream k i zero (x ∷ xs) h = absurd (omega arith)
xor_word-stream k i (suc n) (x ∷ xs) h =
    ap (◌∷◌ (bit_xor x (key_at k i))) (xor_word-stream k (i + 1) n xs (omega arith))

pub xor_word-mask_word :
    (k : MaskKey) (c : Bytes) → length c ≡ 8 → xor_word c (mask_word k) ≡ mask_from k 0 c
unfolding mask_word
xor_word-mask_word k c h = xor_word-stream k 0 8 c (omega arith)

pub xor_word-mask_bytes :
    (k : MaskKey) (c : Bytes) → length c ≡ 4 → xor_word c (mask_bytes k) ≡ mask_from k 0 c
xor_word-mask_bytes k c h = xor_word-stream k 0 4 c (omega arith)

-- A block of whole words is masked like its bytes.
pub copy_mask_block_lem :
    (k : MaskKey) (c : Bytes) → length c % 8 ≡ 0 → copy_mask_block k c ≡ mask_from k 0 c
unfolding copy_mask_block
copy_mask_block_lem k c h =
    mask-as_chunks_whole k (λ w. xor_word w (mask_word k)) 8 (omega arith) refl
      (xor_word-mask_word k) c h

pub apply_mask_words_lem : (xs : Bytes) (k : MaskKey) → apply_mask_words xs k ≡ mask_from k 0 xs
unfolding apply_mask_words
apply_mask_words_lem xs k =
    ap (◌++◌ (concat_map (copy_mask_block k) (as_chunks 64 xs).0)) (
      mask-as_chunks k (λ w. xor_word w (mask_word k)) 8 (omega arith) refl (xor_word-mask_word k)
        (as_chunks 64 xs).1)
    ∙ mask-as_chunks k (copy_mask_block k) 64 (omega arith) refl
        (λ c h. copy_mask_block_lem k c (omega arith)) xs

-- A rotated key starts at a later position of the key.
key_at-rotated : (k : MaskKey) (p i : ℕ) → key_at (rotated k p) i ≡ key_at k (p + i)
unfolding rotated
key_at-rotated k p i = ground arith

pub mask_from-rotated :
    (k : MaskKey) (p i : ℕ) (xs : Bytes) → mask_from (rotated k p) i xs ≡ mask_from k (p + i) xs
mask_from-rotated k p i [] = refl
mask_from-rotated k p i (x ∷ xs) = rw (key_at-rotated k p i) (
    ap (◌∷◌ (bit_xor x (key_at k (p + i))))
      (mask_from-rotated k p (i + 1) xs ∙ ap (λ j. mask_from k j xs) (omega arith)))

xor_prefix-le : (misalign : ℕ) (xs : Bytes) → xor_prefix misalign xs ≤ length xs
unfolding xor_prefix
xor_prefix-le misalign xs = ground arith

words_after_prefix :
    (xs : Bytes) (k : MaskKey) (p : ℕ)
    → p ≤ length xs
    → mask_from k 0 (take p xs) ++ apply_mask_words (drop p xs) (rotated k p) ≡ mask_from k 0 xs
words_after_prefix xs k p h =
    let long : length (take p xs) ≡ p = length-take p xs ∙ omega arith in
    ap (◌++◌ (mask_from k 0 (take p xs))) (
      apply_mask_words_lem (drop p xs) (rotated k p)
      ∙ mask_from-rotated k p 0 (drop p xs)
      ∙ ap (λ j. mask_from k j (drop p xs)) (omega (arith, long)))
    ∙ sym (mask_from-append k 0 (take p xs) (drop p xs))
    ∙ ap (mask_from k 0) (take-append-drop p xs)

apply_mask_blocks_lem :
    (misalign : ℕ) (xs : Bytes) (k : MaskKey) → apply_mask_blocks misalign xs k ≡ mask_from k 0 xs
unfolding apply_mask_blocks
apply_mask_blocks_lem misalign xs k = elim (Bool-cases (ltb (length xs) 2048)) [
  | inl short ↦ rw short (apply_mask_words_lem xs k)
  | inr long ↦
      rw long (words_after_prefix xs k (xor_prefix misalign xs) (xor_prefix-le misalign xs))
]

-- `apply_mask` is the bytewise exclusive or with the repeated key, for every length and for every
-- alignment of the buffer.
pub apply_mask-mask_from :
    (misalign : ℕ) (xs : Bytes) (k : MaskKey) → apply_mask misalign xs k ≡ mask_from k 0 xs
apply_mask-mask_from misalign [] k = refl
apply_mask-mask_from misalign (x ∷ xs) k = apply_mask_blocks_lem misalign (x ∷ xs) k

-- With an offset the mask starts at that position.
pub apply_mask_offset-mask_from :
    (misalign : ℕ) (xs : Bytes) (k : MaskKey) (offset : ℕ)
    → apply_mask_offset misalign xs k offset ≡ mask_from k offset xs
unfolding apply_mask_offset
apply_mask_offset-mask_from misalign xs k offset = elim (Bool-cases (offset == 0)) [
  | inl start ↦
      rw start
        (apply_mask-mask_from misalign xs k ∙ ap (λ i. mask_from k i xs) (sym (==→eq _ _ start)))
  | inr later ↦ rw later (
      apply_mask-mask_from misalign xs (rotated k (offset % 4))
      ∙ mask_from-rotated k (offset % 4) 0 xs
      ∙ mask_from-mod k (offset % 4 + 0) offset xs (omega arith))
]
