-- ===== src/Mask/Copy.antt =====
-- The copying mask loops of src/frame.rs against the bytewise loop.
use sockudo_ws.Base.{
  ℕ, ◌%◌, ◌<◌, ltb, leb, Bool-cases, ◌++◌, length, le_of_ltb-false, Bytes, ◌≡◌, refl, ap, ◌∙◌, inl,
  inr, arith,
}
use sockudo_ws.Mask.Defs.{
  MaskKey, mask_bytes, mask_from, as_chunks, xor_word, concat_map, copy_mask_block, copy_chunk,
  copy_mask_words, copy_mask_long, encode_payload_masked_inline,
}
use sockudo_ws.Mask.Laws.{mask-as_chunks, mask_front}
use sockudo_ws.Mask.Apply.{copy_mask_block_lem, xor_word-mask_bytes}

-- One chunk of whole words in front of the rest, or nothing.
copy_chunk_lem :
    (k : MaskKey) (n : ℕ) (xs : Bytes)
    → 0 < n
    → n % 8 ≡ 0
    → (copy_chunk k n xs).0 ++ mask_from k 0 (copy_chunk k n xs).1 ≡ mask_from k 0 xs
unfolding copy_chunk
copy_chunk_lem k n xs pos whole = elim (Bool-cases (ltb (length xs) n)) [
  | inl short ↦ rw short
  | inr long ↦ rw long (
      mask_front k (copy_mask_block k) n pos (omega arith)
        (λ c h. copy_mask_block_lem k c (rw h whole)) xs (le_of_ltb-false _ _ long))
]

copy_mask_words_lem : (src : Bytes) (k : MaskKey) → copy_mask_words src k ≡ mask_from k 0 src
unfolding copy_mask_words
copy_mask_words_lem src k =
    let tail = (as_chunks 64 src).1 in
    let tail32 = (copy_chunk k 32 tail).1 in
    let tail16 = (copy_chunk k 16 tail32).1 in
    let tail8 = (copy_chunk k 8 tail16).1 in
    ap (◌++◌ (concat_map (copy_mask_block k) (as_chunks 64 src).0)) (
      ap (◌++◌ (copy_chunk k 32 tail).0) (
        ap (◌++◌ (copy_chunk k 16 tail32).0) (
          ap (◌++◌ (copy_chunk k 8 tail16).0) (
            mask-as_chunks k (λ w. xor_word w (mask_bytes k)) 4 (omega arith) refl
              (xor_word-mask_bytes k) tail8)
          ∙ copy_chunk_lem k 8 tail16 (omega arith) refl)
        ∙ copy_chunk_lem k 16 tail32 (omega arith) refl)
      ∙ copy_chunk_lem k 32 tail (omega arith) refl)
    ∙ mask-as_chunks k (copy_mask_block k) 64 (omega arith) refl
        (λ c h. copy_mask_block_lem k c (omega arith)) src

copy_mask_long_lem : (src : Bytes) (k : MaskKey) → copy_mask_long src k ≡ mask_from k 0 src
unfolding copy_mask_long
copy_mask_long_lem src k =
    ap (◌++◌ (concat_map (copy_mask_block k) (as_chunks 256 src).0))
      (copy_mask_words_lem (as_chunks 256 src).1 k)
    ∙ mask-as_chunks k (copy_mask_block k) 256 (omega arith) refl
        (λ c h. copy_mask_block_lem k c (omega arith)) src

-- The copy into the output buffer masks like the bytewise loop, at every length.
pub encode_payload_masked_inline-mask_from :
    (src : Bytes) (k : MaskKey) → encode_payload_masked_inline src k ≡ mask_from k 0 src
unfolding encode_payload_masked_inline
encode_payload_masked_inline-mask_from src k = elim (Bool-cases (leb 256 (length src))) [
  | inl long ↦ rw long (copy_mask_long_lem src k)
  | inr short ↦ rw short (copy_mask_words_lem src k)
]
