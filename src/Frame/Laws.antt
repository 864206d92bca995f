-- ===== src/Frame/Laws.antt =====
-- The two encoders of src/frame.rs write the same bytes, as many as they reserve.
use sockudo_ws.Base.{
  ℕ, ◌+◌, ◌%◌, bit_or, ltb, leb, if◌then◌else◌, Bool, Option, none, some, [], ◌∷◌, ◌++◌, length,
  Bytes, ◌≡◌, refl, sym, ap, ◌∙◌, arith, length-append,
}
use mathlib.Core.List.{append_assoc}
use sockudo_ws.Mask.{MaskKey, mask_bytes, mask_from}
use sockudo_ws.Mask.Laws.{length-mask_from}
use sockudo_ws.Mask.Copy.{encode_payload_masked_inline-mask_from}
use sockudo_ws.Frame.Defs.{OpCode, to_u8, put_u16, put_u64, put_mask, set_flag, encode}
use sockudo_ws.Frame.Encode.{
  is_some, encode_frame_header_with_rsv, total_size, put_payload, encode_frame_with_rsv,
}

-- The payload as it stands on the wire.
abbrev pub masked_payload : Option MaskKey → Bytes → Bytes
masked_payload none payload = payload
masked_payload (some k) payload = mask_from k 0 payload

pub put_payload-put_mask :
    (payload : Bytes) (mask : Option MaskKey)
    → put_payload payload mask ≡ put_mask mask ++ masked_payload mask payload
unfolding put_payload
put_payload-put_mask payload none = refl
put_payload-put_mask payload (some k) =
    ap (λ c. mask_bytes k ++ c) (encode_payload_masked_inline-mask_from payload k)

-- The length byte and what follows it, by the mask bit.
abbrev pub len_part : ℕ → ℕ → Bytes
len_part mask_bit n =
    if leb n 125
    then bit_or mask_bit (n % 256) ∷ []
    else if leb n 65535
    then bit_or mask_bit 126 ∷ put_u16 (n % 65536)
    else bit_or mask_bit 127 ∷ put_u64 n

-- The one-pass encoder writes the bytes of the header encoder followed by the payload, masked from
-- its first byte on when there is a mask.
pub encode_frame_with_rsv-encode_frame_header_with_rsv :
    (buf : Bytes) (o : OpCode) (payload : Bytes) (fin : Bool) (mask : Option MaskKey) (rsv1 : Bool)
    → encode_frame_with_rsv buf o payload fin mask rsv1
      ≡ encode_frame_header_with_rsv buf o (length payload) fin mask rsv1
        ++ masked_payload mask payload
unfolding encode_frame_with_rsv encode_frame_header_with_rsv encode
encode_frame_with_rsv-encode_frame_header_with_rsv buf o payload fin mask rsv1 =
    let b0 = set_flag rsv1 0x40 (set_flag fin 0x80 (to_u8 o)) in
    let len = len_part (if is_some mask then 0x80 else 0x00) (length payload) in
    ap (λ c. buf ++ (b0 ∷ (len ++ c))) (put_payload-put_mask payload mask)
    ∙ ap (λ c. buf ++ (b0 ∷ c))
        (sym (append_assoc len (put_mask mask) (masked_payload mask payload)))
    ∙ sym (append_assoc buf (b0 ∷ (len ++ put_mask mask)) (masked_payload mask payload))

length-len_part :
    (m n : ℕ) → length (len_part m n) ≡ 1 + (if ltb 65535 n then 8 else if ltb 125 n then 2 else 0)
unfolding put_u64
length-len_part m n = ground arith

length-put_payload :
    (payload : Bytes) (mask : Option MaskKey)
    → length (put_payload payload mask) ≡ (if is_some mask then 4 else 0) + length payload
length-put_payload payload none = omega (arith, ap length (put_payload-put_mask payload none))
length-put_payload payload (some k) =
    omega (arith, ap length (put_payload-put_mask payload (some k)), length-mask_from k 0 payload)

-- The one-pass encoder appends exactly as many bytes as it reserves in front of its unchecked
-- writes.
pub length-encode_frame_with_rsv :
    (buf : Bytes) (o : OpCode) (payload : Bytes) (fin : Bool) (mask : Option MaskKey) (rsv1 : Bool)
    → length (encode_frame_with_rsv buf o payload fin mask rsv1)
      ≡ length buf + total_size (length payload) mask
unfolding encode_frame_with_rsv total_size
length-encode_frame_with_rsv buf o payload fin mask rsv1 =
    let b0 = set_flag rsv1 0x40 (set_flag fin 0x80 (to_u8 o)) in
    let len = len_part (if is_some mask then 0x80 else 0x00) (length payload) in
    omega (
      arith,
      length-append buf (b0 ∷ (len ++ put_payload payload mask)),
      length-append len (put_payload payload mask),
      length-len_part (if is_some mask then 0x80 else 0x00) (length payload),
      length-put_payload payload mask,
    )
