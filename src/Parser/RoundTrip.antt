-- ===== src/Parser/RoundTrip.antt =====
-- The encoder against the frame format: what `encode_frame_with_rsv` writes is read back.
use sockudo_ws.Base.{
  ℕ, ◌%◌, ◌/◌, ◌<◌, bit_or, leb, Bool-cases, leb→le, lt_of_leb-false, le→ltb_false, if◌then◌else◌,
  Bool, true, false, Option, none, some, [], ◌∷◌, ◌++◌, length, take, drop, Bytes, ◌≡◌, sym, ap,
  ◌∙◌, arith, inl, inr, take-length-append, drop-length-append, length-append, ok,
}
use mathlib.Core.Path.{ap₂}
use mathlib.Core.List.{append_assoc}
use sockudo_ws.Mask.{MaskKey}
use sockudo_ws.Frame.{OpCode, FrameHeader, Frame, to_u8, from_u8, be16, put_u16, put_u64, put_mask}
use sockudo_ws.Frame.Encode.{is_some, header_with_rsv, put_payload, encode_frame_with_rsv}
use sockudo_ws.Frame.Laws.{masked_payload, put_payload-put_mask, len_part}
use sockudo_ws.Frame.Bytes.{
  to_u8-lt, from_u8-to_u8, first_byte, first-opcode, first-fin, first-rsv1, first-rsv2, first-rsv3,
  second-len, second-masked, be16-put_u16, be64-put_u64,
}
use sockudo_ws.Parser.Types.{ParseState, FrameParser, reset}
use sockudo_ws.Parser.Slow.{has_flag, check_base, check_size, check_len64, header_of}
use sockudo_ws.Parser.Fast.{parse}
use sockudo_ws.Parser.Spec.{
  got, checked, decode, decode_len, decode_sized, decode_key, decode_mask, decode_payload,
  unmask_from,
}
use sockudo_ws.Parser.Stream.{seen, parse-decode}
use sockudo_ws.Parser.Accepts.{
  Accepts, has_flag-bit_of, length-masked_payload, unmask_from-masked_payload, check_base-ok,
}

module _ (q : FrameParser) (o : OpCode) (payload : Bytes) (fin : Bool) (mask : Option MaskKey)
    (rsv1 : Bool) (a : Accepts q o (length payload) fin mask rsv1) (rest : Bytes) where
  abbrev b0 : ℕ
  b0 = first_byte fin rsv1 (to_u8 o)

  abbrev b1 : ℕ → ℕ
  b1 l = bit_or (if is_some mask then 0x80 else 0x00) l

  has_fin : has_flag 0x80 b0 ≡ fin
  has_fin =
      has_flag-bit_of fin 0x80 b0 (λ e. omega arith) (first-fin fin rsv1 (to_u8 o) (to_u8-lt o))

  has_rsv1 : has_flag 0x40 b0 ≡ rsv1
  has_rsv1 =
      has_flag-bit_of rsv1 0x40 b0 (λ e. omega arith) (first-rsv1 fin rsv1 (to_u8 o) (to_u8-lt o))

  has_rsv2 : has_flag 0x20 b0 ≡ false
  has_rsv2 = rw (first-rsv2 fin rsv1 (to_u8 o) (to_u8-lt o))

  has_rsv3 : has_flag 0x10 b0 ≡ false
  has_rsv3 = rw (first-rsv3 fin rsv1 (to_u8 o) (to_u8-lt o))

  module _ (l : ℕ) (small : l < 128) where
    has_mask : has_flag 0x80 (b1 l) ≡ is_some mask
    has_mask =
        has_flag-bit_of (is_some mask) 0x80 (b1 l) (λ e. omega arith)
          (second-masked (is_some mask) l small)

    header_is :
        (n : ℕ)
        → header_of b0 (b1 l) o n none ≡ record (header_with_rsv o n fin mask rsv1) { mask = none }
    header_is n i = record {
      fin = has_fin i;
      rsv1 = has_rsv1 i;
      rsv2 = has_rsv2 i;
      rsv3 = has_rsv3 i;
      opcode = o;
      masked = has_mask i;
      payload_len = n;
      mask = none;
    }

    base_ok : check_base q b0 (b1 l) ≡ ok o
    base_ok =
        check_base-ok q b0 (b1 l) o (length payload) fin mask rsv1 a has_fin has_rsv1 has_rsv2
          has_rsv3 has_mask
          (ap from_u8 (first-opcode fin rsv1 (to_u8 o) (to_u8-lt o)) ∙ from_u8-to_u8 o)

  abbrev plain_header : FrameHeader
  plain_header = record (header_with_rsv o (length payload) fin mask rsv1) { mask = none }

  abbrev frame : Frame
  frame = record { header = header_with_rsv o (length payload) fin mask rsv1; payload = payload }

  size_ok : check_size q o (length payload) ≡ ok tt
  unfolding check_size
  size_ok = ground (arith, a.control_whole, a.within)

  payload_ok :
      (m : Option MaskKey)
      → decode_payload
          (header_with_rsv o (length payload) fin m rsv1)
          0
          (masked_payload m payload ++ rest)
        ≡ got
            (record { header = header_with_rsv o (length payload) fin m rsv1; payload = payload })
            rest
  unfolding decode_payload
  payload_ok m =
      let whole : length (masked_payload m payload) ≡ length payload =
        length-masked_payload m payload in
      rw
        (le→ltb_false (length (masked_payload m payload ++ rest)) (length payload)
          (omega (arith, length-append (masked_payload m payload) rest, whole)))
        (ap₂
            (λ (y r : Bytes).
              got
                (record {
                  header = header_with_rsv o (length payload) fin m rsv1;
                  payload = unmask_from m 0 y;
                })
                r)
            (ap (λ k. take k (masked_payload m payload ++ rest)) (sym whole)
              ∙ take-length-append (masked_payload m payload) rest)
            (ap (λ k. drop k (masked_payload m payload ++ rest)) (sym whole)
              ∙ drop-length-append (masked_payload m payload) rest)
          ∙ ap
              (λ (y : Bytes).
                got (record { header = header_with_rsv o (length payload) fin m rsv1; payload = y })
                  rest)
              (unmask_from-masked_payload m payload))

  keyed :
      (m : Option MaskKey)
      → (if is_some m
          then decode_mask
              (record (header_with_rsv o (length payload) fin m rsv1) { mask = none })
              ((put_mask m ++ masked_payload m payload) ++ rest)
          else decode_payload
              (record (header_with_rsv o (length payload) fin m rsv1) { mask = none })
              0
              ((put_mask m ++ masked_payload m payload) ++ rest))
        ≡ got
            (record { header = header_with_rsv o (length payload) fin m rsv1; payload = payload })
            rest
  keyed none = payload_ok none
  keyed (some k) = payload_ok (some k)

  key_ok : decode_key plain_header (put_payload payload mask ++ rest) ≡ got frame rest
  unfolding decode_key
  key_ok =
      ap
        (λ c.
          if is_some mask
          then decode_mask plain_header (c ++ rest)
          else decode_payload plain_header 0 (c ++ rest))
        (put_payload-put_mask payload mask)
      ∙ keyed mask

  sized_ok :
      (l : ℕ)
      → l < 128
      → decode_sized q b0 (b1 l) o (length payload) (put_payload payload mask ++ rest)
        ≡ got frame rest
  sized_ok l small =
      ap
        (λ c. checked c (λ _.
          decode_key (header_of b0 (b1 l) o (length payload) none)
            (put_payload payload mask ++ rest)))
        size_ok
      ∙ ap (λ h. decode_key h (put_payload payload mask ++ rest))
          (header_is l small (length payload))
      ∙ key_ok

  abbrev n : ℕ
  n = length payload

  abbrev tail : Bytes
  tail = put_payload payload mask ++ rest

  with_base :
      (l : ℕ) (w : Bytes)
      → l < 128
      → decode_len q b0 (b1 l) o w ≡ got frame rest
      → decode q (b0 ∷ b1 l ∷ w) ≡ got frame rest
  with_base l w small e =
      ap (λ c. checked c (λ k. decode_len q b0 (b1 l) k w)) (base_ok l small) ∙ e

  read7 : leb n 125 ≡ true → decode_len q b0 (b1 n) o tail ≡ got frame rest
  unfolding decode_len
  read7 s =
      let small : n < 128 = omega (arith, leb→le _ _ s) in
      rw (second-len (is_some mask) n small, s) (sized_ok n small)

  read16 :
      leb n 125 ≡ false
      → leb n 65535 ≡ true
      → decode_len q b0 (b1 126) o (put_u16 (n % 65536) ++ tail) ≡ got frame rest
  unfolding decode_len
  read16 s t =
      let is_n : be16 (n % 65536 / 256 % 256) (n % 65536 % 256) ≡ n =
        omega (arith, be16-put_u16 (n % 65536) (omega arith), leb→le _ _ t) in
      rw
        (
          second-len (is_some mask) 126 (omega arith),
          is_n,
          le→ltb_false n 126 (omega (arith, lt_of_leb-false _ _ s)),
        )
        (sized_ok 126 (omega arith))

  read64 : leb n 65535 ≡ false → decode_len q b0 (b1 127) o (put_u64 n ++ tail) ≡ got frame rest
  unfolding decode_len put_u64 check_len64
  read64 t =
      let fine : check_len64 n ≡ ok tt = ground (arith, a.fits, t) in
      rw (second-len (is_some mask) 127 (omega arith), be64-put_u64 n (omega (arith, a.fits)), fine)
        (sized_ok 127 (omega arith))

  joined :
      (len : Bytes)
      → decode q (b0 ∷ (len ++ tail)) ≡ got frame rest
      → decode q ((b0 ∷ (len ++ put_payload payload mask)) ++ rest) ≡ got frame rest
  joined len e = ap (λ c. decode q (b0 ∷ c)) (append_assoc len (put_payload payload mask) rest) ∙ e

  -- What `encode_frame_with_rsv` writes, with any bytes behind it, is read as the frame that was
  -- written, with those bytes left over.
  pub decode-encode_frame_with_rsv :
      decode q (encode_frame_with_rsv [] o payload fin mask rsv1 ++ rest) ≡ got frame rest
  unfolding encode_frame_with_rsv
  decode-encode_frame_with_rsv =
      joined (len_part (if is_some mask then 0x80 else 0x00) n) (elim (Bool-cases (leb n 125)) [
        | inl s ↦
            let same : n % 256 ≡ n = omega (arith, leb→le _ _ s) in
            rw (s, same) (with_base n tail (omega (arith, leb→le _ _ s)) (read7 s))
        | inr s ↦ elim (Bool-cases (leb n 65535)) [
          | inl t ↦
              rw (s, t) (with_base 126 (put_u16 (n % 65536) ++ tail) (omega arith) (read16 s t))
          | inr t ↦ rw (s, t) (with_base 127 (put_u64 n ++ tail) (omega arith) (read64 t))
        ]
      ])

-- A parser at the start of a frame, whose limits and modes accept the frame, returns from the bytes
-- of `encode_frame_with_rsv`, with any bytes behind them, the frame that was encoded: its flags,
-- opcode, mask and unmasked payload, and leaves those bytes in the buffer.
pub parse-encode_frame_with_rsv :
    (p : FrameParser) (o : OpCode) (payload : Bytes) (fin : Bool) (mask : Option MaskKey)
    (rsv1 : Bool) (rest : Bytes)
    → p.state ≡ ParseState.header
    → p.payload_ready ≡ 0
    → Accepts p o (length payload) fin mask rsv1
    → seen (parse p (encode_frame_with_rsv [] o payload fin mask rsv1 ++ rest))
      ≡ got
          (record { header = header_with_rsv o (length payload) fin mask rsv1; payload = payload })
          rest
parse-encode_frame_with_rsv p o payload fin mask rsv1 rest st z a =
    parse-decode p (encode_frame_with_rsv [] o payload fin mask rsv1 ++ rest) st z
    ∙ decode-encode_frame_with_rsv (reset p) o payload fin mask rsv1
        (record {
          masks = a.masks;
          compressed = a.compressed;
          control_whole = a.control_whole;
          within = a.within;
          fits = a.fits;
        })
        rest
