-- ===== src/Parser/Equal.antt =====
-- The fast paths of src/frame.rs give what `parse_slow` gives.
use sockudo_ws.Base.{
  ◌⊎◌, length-take, ℕ, ◌+◌, ◌<◌, ◌≤◌, bit_and, ltb, ◌==◌, if◌then◌else◌, false, not, ◌||◌, Option,
  none, some, length, get_or, take, drop, Bytes, ok, ◌≡◌, sym, ap, ◌∙◌, arith, le→leb, length-drop,
  le→ltb_false, Option-cases, Bool-cases, inl, inr,
}
use native.Mathlib.Nat.{add-zero}
use sockudo_ws.Base.Bits.{top_bit, low_seven}
use sockudo_ws.Frame.{OpCode, FrameHeader, from_u8, be16}
use sockudo_ws.Parser.Types.{ParseState, FrameParser}
use sockudo_ws.Parser.Slow.{has_flag, header_of, check_base, check_opcode, check_size}
use sockudo_ws.Parser.Header.{parse_slow, parse_header, header_len, header_sized}
use sockudo_ws.Parser.Fast.{
  in_header, try_parse_complete_unmasked_data, complete_lengths, complete_frame, parse,
}
use sockudo_ws.Parser.Small.{header_complete_lem, parse_slow_header, miss-parse_slow}

-- The first byte of a complete data frame, with its opcode.
abbrev IsData : ℕ → OpCode → Type 0
IsData b0 o = ((b0 ≡ 0x81) × (o ≡ OpCode.text)) ⊎ ((b0 ≡ 0x82) × (o ≡ OpCode.binary))

no_mask_flag : (b : ℕ) → b < 128 → has_flag 0x80 b ≡ false
no_mask_flag b h = ground (arith, top_bit b)

low_small : (b : ℕ) → b < 128 → bit_and b 0x7F ≡ b
low_small b h = low_seven b (omega arith) ∙ omega arith

-- A final unmasked data frame passes the base checks.
check_base-IsData :
    (p : FrameParser) (b0 b1 : ℕ) (o : OpCode)
    → IsData b0 o
    → p.expect_masked ≡ false
    → b1 < 128
    → check_base p b0 b1 ≡ ok o
unfolding check_base check_opcode from_u8
check_base-IsData p b0 b1 o (inl (e, f)) m h = rw (e, f) (ground (arith, no_mask_flag b1 h))
check_base-IsData p b0 b1 o (inr (e, f)) m h = rw (e, f) (ground (arith, no_mask_flag b1 h))

header_of-IsData :
    (b0 b1 : ℕ) (o : OpCode) (payload : Bytes) (len : ℕ)
    → IsData b0 o
    → b1 < 128
    → len ≡ length payload
    → header_of b0 b1 o len none ≡ (complete_frame o payload).header
header_of-IsData b0 b1 o payload len (inl (e, f)) h l = rw (e, f, l, no_mask_flag b1 h)
header_of-IsData b0 b1 o payload len (inr (e, f)) h l = rw (e, f, l, no_mask_flag b1 h)

check_size-IsData :
    (p : FrameParser) (b0 : ℕ) (o : OpCode) (len : ℕ)
    → IsData b0 o
    → len ≤ p.max_frame_size
    → check_size p o len ≡ ok tt
unfolding check_size
check_size-IsData p b0 o len (inl (e, f)) h = rw f (ground arith)
check_size-IsData p b0 o len (inr (e, f)) h = rw f (ground arith)

module _ (p : FrameParser) (buf : Bytes) (o : OpCode) (len size : ℕ) (d : IsData (get_or buf 0 0) o)
    (plain : get_or buf 1 0 < 128) (fits : len ≤ p.max_frame_size)
    (there : size + len ≤ length buf) where
  sized-IsData :
      header_sized p buf o len size
      ≡ (ok (some (complete_frame o (take len (drop size buf)))), p, drop len (drop size buf))
  unfolding header_sized
  sized-IsData =
      rw (check_size-IsData p (get_or buf 0 0) o len d fits, header_sized)
        (rw (no_mask_flag _ plain) (
          rw (add-zero size) (
            rw (le→ltb_false (length buf) size (omega arith)) (
              header_complete_lem p _ (drop size buf) (omega (arith, length-drop size buf))
              ∙ ap
                  (λ (h : FrameHeader). (
                    ok (some (record { header = h; payload = take len (drop size buf) })),
                    p,
                    drop len (drop size buf),
                  ))
                  data_header))))
    where
      data_header :
          record {
            fin = has_flag 0x80 (get_or buf 0 0);
            rsv1 = has_flag 0x40 (get_or buf 0 0);
            rsv2 = has_flag 0x20 (get_or buf 0 0);
            rsv3 = has_flag 0x10 (get_or buf 0 0);
            opcode = o;
            masked = false;
            payload_len = len;
            mask = none;
          }
          ≡ (complete_frame o (take len (drop size buf))).header
      data_header = rw (no_mask_flag _ plain) at (
          header_of-IsData (get_or buf 0 0) (get_or buf 1 0) o (take len (drop size buf)) len d
            plain (omega (arith, length-take len (drop size buf), length-drop size buf)))

-- The guard of the complete-data path, and what its lengths say.
complete_facts :
    (p : FrameParser) (b0 n : ℕ)
    → (not (in_header p.state) || p.expect_masked || ltb n 2 || not (b0 == 0x81 || b0 == 0x82))
      ≡ false
    → (p.state ≡ ParseState.header)
      × (p.expect_masked ≡ false)
      × (2 ≤ n)
      × IsData b0 (if b0 == 0x81 then OpCode.text else OpCode.binary)
complete_facts p b0 n h = ground arith

complete_lengths_facts :
    (buf : Bytes) (size len : ℕ)
    → complete_lengths buf ≡ some (size, len)
    → ((size ≡ 2) × (len ≡ get_or buf 1 0) × (get_or buf 1 0 ≤ 125))
      ⊎ ((size ≡ 4)
          × (len ≡ be16 (get_or buf 2 0) (get_or buf 3 0))
          × (get_or buf 1 0 ≡ 126)
          × (4 ≤ length buf)
          × (126 ≤ len))
unfolding complete_lengths
complete_lengths_facts buf size len h = ground arith

-- The slow path reads the same length.
module _ (p : FrameParser) (buf : Bytes) (o : OpCode) where
  header_len_small :
      get_or buf 1 0 ≤ 125 → header_len p buf o ≡ header_sized p buf o (get_or buf 1 0) 2
  unfolding header_len
  header_len_small h = rw (low_small (get_or buf 1 0) (omega arith)) (rw (le→leb _ _ h))

  header_len16 :
      get_or buf 1 0 ≡ 126
      → 4 ≤ length buf
      → 126 ≤ be16 (get_or buf 2 0) (get_or buf 3 0)
      → header_len p buf o ≡ header_sized p buf o (be16 (get_or buf 2 0) (get_or buf 3 0)) 4
  unfolding header_len
  header_len16 h n m = rw h (rw (le→ltb_false (length buf) 4 n) (rw (le→ltb_false _ _ m)))

header_slow :
    (p : FrameParser) (buf : Bytes) (o : OpCode)
    → p.state ≡ ParseState.header
    → p.expect_masked ≡ false
    → 2 ≤ length buf
    → IsData (get_or buf 0 0) o
    → get_or buf 1 0 < 128
    → parse_slow p buf ≡ header_len p buf o
unfolding parse_header
header_slow p buf o st m n d h =
    parse_slow_header p buf st
    ∙ rw (le→ltb_false (length buf) 2 n)
        (rw (check_base-IsData p (get_or buf 0 0) (get_or buf 1 0) o d m h))

-- A complete data frame, for both header lengths.
complete_at :
    (p : FrameParser) (buf : Bytes) (o : OpCode) (size len : ℕ)
    → p.state ≡ ParseState.header
    → p.expect_masked ≡ false
    → 2 ≤ length buf
    → IsData (get_or buf 0 0) o
    → complete_lengths buf ≡ some (size, len)
    → len ≤ p.max_frame_size
    → size + len ≤ length buf
    → parse_slow p buf
      ≡ (ok (some (complete_frame o (take len (drop size buf)))), p, drop len (drop size buf))
complete_at p buf o size len st m n d c fits there = elim (complete_lengths_facts buf size len c) [
  | inl (e, f, g) ↦
      rw (e, f)
        (header_slow p buf o st m n d (omega arith)
          ∙ header_len_small p buf o g
          ∙ sized-IsData p buf o (get_or buf 1 0) 2 d (omega arith) (omega arith) (omega arith))
  | inr (e, f, g, four, l) ↦
      rw (e, f)
        (header_slow p buf o st m n d (omega arith)
          ∙ header_len16 p buf o g four (omega arith)
          ∙ sized-IsData p buf o _ 4 d (omega arith) (omega arith) (omega arith))
]

-- What the path returns once its lengths are known.
abbrev complete_result : FrameParser → Bytes → ℕ → ℕ → Option (OpCode × Bytes × Bytes)
complete_result p buf size len =
    if ltb p.max_frame_size len || ltb (length buf) (size + len)
    then none
    else some (
      (if get_or buf 0 0 == 0x81 then OpCode.text else OpCode.binary),
      take len (drop size buf),
      drop len (drop size buf),
    )

complete_result_facts :
    (p : FrameParser) (buf : Bytes) (size len : ℕ) {o : OpCode} {payload rest : Bytes}
    → complete_result p buf size len ≡ some (o, payload, rest)
    → (len ≤ p.max_frame_size)
      × (size + len ≤ length buf)
      × (o ≡ (if get_or buf 0 0 == 0x81 then OpCode.text else OpCode.binary))
      × (payload ≡ take len (drop size buf))
      × (rest ≡ drop len (drop size buf))
complete_result_facts p buf size len h = ground arith

complete_slow :
    (p : FrameParser) (buf : Bytes) (o : OpCode) (payload rest : Bytes)
    → try_parse_complete_unmasked_data p buf ≡ some (o, payload, rest)
    → parse_slow p buf ≡ (ok (some (complete_frame o payload)), p, rest)
unfolding try_parse_complete_unmasked_data
complete_slow p buf o payload rest h =
    elim (Bool-cases (
      not (in_header p.state)
      || p.expect_masked
      || ltb (length buf) 2
      || not (get_or buf 0 0 == 0x81 || get_or buf 0 0 == 0x82))) [
        | inl out ↦ cc (rw (out, try_parse_complete_unmasked_data) at h)
        | inr in_path ↦ elim (Option-cases (complete_lengths buf)) [
          | inl e ↦ cc (rw (in_path, e, try_parse_complete_unmasked_data) at h)
          | inr ((size, len), e) ↦
              let (st, m, n, d) = complete_facts p _ _ in_path in
              let (fits, there, eo, ep, er) =
                complete_result_facts p buf size len
                  (rw (in_path, e, try_parse_complete_unmasked_data) at h) in
              complete_at p buf _ size len st m n d e fits there ∙ cc (eo, ep, er)
        ]
      ]

-- `parse` with all its fast paths returns what the state machine of `parse_slow` returns, in every
-- state, and leaves the same parser and the same buffer.
pub parse-parse_slow : (p : FrameParser) (buf : Bytes) → parse p buf ≡ parse_slow p buf
unfolding parse
parse-parse_slow p buf = elim (Option-cases (try_parse_complete_unmasked_data p buf)) [
  | inl e ↦ rw (e, parse) (miss-parse_slow p buf)
  | inr ((o, payload, rest), e) ↦ rw (e, parse) (sym (complete_slow p buf o payload rest e))
]
