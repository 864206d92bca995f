-- ===== src/Mask/Defs.antt =====
-- The masking functions of src/simd.rs and src/frame.rs, loop by loop.
use sockudo_ws.Base.{
  ℕ, zero, suc, ◌+◌, ◌-◌, ◌%◌, min, bit_xor, ltb, leb, ◌==◌, if◌then◌else◌, List, [], ◌∷◌, ◌++◌,
  length, take, drop, Bytes,
}

-- `[u8; 4]`
pub record MaskKey : Type 0 where
  pub m0 : ℕ
  pub m1 : ℕ
  pub m2 : ℕ
  pub m3 : ℕ

-- `mask[i & 3]`
abbrev pub key_at : MaskKey → ℕ → ℕ
key_at k i =
    let r = i % 4 in if r == 0 then k.m0 else if r == 1 then k.m1 else if r == 2 then k.m2 else k.m3

abbrev pub mask_bytes : MaskKey → Bytes
mask_bytes k = k.m0 ∷ k.m1 ∷ k.m2 ∷ k.m3 ∷ []

-- The bytewise loop `for (i, byte) in … { *byte ^= mask[i & 3] }`, from position `i` of the mask.
abbrev pub mask_from : MaskKey → ℕ → Bytes → Bytes
mask_from k i [] = []
mask_from k i (x ∷ xs) = bit_xor x (key_at k i) ∷ mask_from k (i + 1) xs

-- `as_chunks::<n>`: the whole chunks, and what is left. There are at most as many as bytes.
unfoldable pub as_chunks_loop : ℕ → ℕ → Bytes → List Bytes × Bytes
as_chunks_loop zero n xs = ([], xs)
as_chunks_loop (suc fuel) n xs =
    let rest = as_chunks_loop fuel n (drop n xs) in
    if ltb (length xs) n then ([], xs) else (take n xs ∷ rest.0, rest.1)

unfoldable pub as_chunks : ℕ → Bytes → List Bytes × Bytes
unfolding as_chunks_loop
as_chunks n xs = as_chunks_loop (length xs) n xs

-- `word ^ mask_u64`, on the eight bytes of each
unfoldable pub xor_word : Bytes → Bytes → Bytes
xor_word [] ms = []
xor_word (x ∷ xs) [] = x ∷ xs
xor_word (x ∷ xs) (m ∷ ms) = bit_xor x m ∷ xor_word xs ms

-- `mask_u64`
unfoldable pub mask_word : MaskKey → Bytes
mask_word k = mask_bytes k ++ mask_bytes k

abbrev pub concat_map : (Bytes → Bytes) → List Bytes → Bytes
concat_map f [] = []
concat_map f (c ∷ cs) = f c ++ concat_map f cs

-- The inner loop over the words of one block.
unfoldable pub copy_mask_block : MaskKey → Bytes → Bytes
copy_mask_block k block = concat_map (λ w. xor_word w (mask_word k)) (as_chunks 8 block).0

unfoldable pub apply_mask_words : Bytes → MaskKey → Bytes
apply_mask_words xs k =
    let (blocks, rest) = as_chunks 64 xs in
    let (words, tail) = as_chunks 8 rest in
    concat_map (copy_mask_block k) blocks
    ++ (concat_map (λ w. xor_word w (mask_word k)) words ++ mask_from k 0 tail)

-- `[mask[p & 3], mask[(p + 1) & 3], mask[(p + 2) & 3], mask[(p + 3) & 3]]`
unfoldable pub rotated : MaskKey → ℕ → MaskKey
rotated k p = record {
  m0 = key_at k p;
  m1 = key_at k (p + 1);
  m2 = key_at k (p + 2);
  m3 = key_at k (p + 3);
}

-- The length of the prefix before the next multiple of 16; `misalign` is the address modulo 16.
unfoldable pub xor_prefix : ℕ → Bytes → ℕ
xor_prefix misalign xs = if misalign == 0 then 0 else min (16 - misalign) (length xs)

unfoldable pub apply_mask_blocks : ℕ → Bytes → MaskKey → Bytes
apply_mask_blocks misalign xs k =
    let prefix_len = xor_prefix misalign xs in
    if ltb (length xs) 2048
    then apply_mask_words xs k
    else mask_from k 0 (take prefix_len xs)
      ++ apply_mask_words (drop prefix_len xs) (rotated k prefix_len)

-- The build for targets without a vector path of their own, and for aarch64.
abbrev pub apply_mask : ℕ → Bytes → MaskKey → Bytes
apply_mask misalign [] k = []
apply_mask misalign (x ∷ xs) k = apply_mask_blocks misalign (x ∷ xs) k

-- `u32::from_le_bytes(mask).rotate_right(8 * (offset & 3)).to_le_bytes()` turns the four bytes; its
-- value is written as the array of `rotated`.
unfoldable pub apply_mask_offset : ℕ → Bytes → MaskKey → ℕ → Bytes
apply_mask_offset misalign xs k offset =
    if offset == 0
    then apply_mask misalign xs k
    else apply_mask misalign xs (rotated k (offset % 4))

-- One `split_first_chunk::<n>` step: the chunk goes through the word loop.
unfoldable pub copy_chunk : MaskKey → ℕ → Bytes → Bytes × Bytes
copy_chunk k n xs =
    if ltb (length xs) n then ([], xs) else (copy_mask_block k (take n xs), drop n xs)

unfoldable pub copy_mask_words : Bytes → MaskKey → Bytes
copy_mask_words src k =
    let (blocks, tail) = as_chunks 64 src in
    let (half, tail32) = copy_chunk k 32 tail in
    let (quarter, tail16) = copy_chunk k 16 tail32 in
    let (word, tail8) = copy_chunk k 8 tail16 in
    let (words, tail4) = as_chunks 4 tail8 in
    concat_map (copy_mask_block k) blocks
    ++ (half
        ++ (quarter
            ++ (word
                ++ (concat_map (λ w. xor_word w (mask_bytes k)) words ++ mask_from k 0 tail4))))

unfoldable pub copy_mask_long : Bytes → MaskKey → Bytes
copy_mask_long src k =
    let (blocks, tail) = as_chunks 256 src in
    concat_map (copy_mask_block k) blocks ++ copy_mask_words tail k

unfoldable pub encode_payload_masked_inline : Bytes → MaskKey → Bytes
encode_payload_masked_inline src k =
    if leb 256 (length src) then copy_mask_long src k else copy_mask_words src k
