-- ===== src/Frame/Encode.antt =====
-- The frame encoders of src/frame.rs: `encode_frame_header_with_rsv`, `encode_frame_with_rsv` and
-- `encode_frame`.
use sockudo_ws.Base.{
  ℕ, ◌+◌, ◌%◌, bit_or, ltb, leb, if◌then◌else◌, Bool, true, false, Option, none, some, [], ◌∷◌,
  ◌++◌, length, Bytes,
}
use sockudo_ws.Mask.{MaskKey, mask_bytes, encode_payload_masked_inline}
use sockudo_ws.Frame.Defs.{OpCode, FrameHeader, to_u8, put_u16, put_u64, set_flag, encode}

abbrev pub is_some {ℓ} : {A : Type ℓ} → Option A → Bool
is_some none = false
is_some (some a) = true

-- The header that `encode_frame_header_with_rsv` builds.
abbrev pub header_with_rsv : OpCode → ℕ → Bool → Option MaskKey → Bool → FrameHeader
header_with_rsv o payload_len fin mask rsv1 = record {
  fin = fin;
  rsv1 = rsv1;
  rsv2 = false;
  rsv3 = false;
  opcode = o;
  masked = is_some mask;
  payload_len = payload_len;
  mask = mask;
}

unfoldable pub encode_frame_header_with_rsv :
    Bytes → OpCode → ℕ → Bool → Option MaskKey → Bool → Bytes
unfolding encode
encode_frame_header_with_rsv buf o payload_len fin mask rsv1 =
    encode (header_with_rsv o payload_len fin mask rsv1) buf

-- `total_size`, the space that is reserved before the unchecked writes
unfoldable pub total_size : ℕ → Option MaskKey → ℕ
total_size payload_len mask =
    let ext_len_size : ℕ =
      if ltb 65535 payload_len then 8 else if ltb 125 payload_len then 2 else 0 in
    let mask_size : ℕ = if is_some mask then 4 else 0 in 2 + ext_len_size + mask_size + payload_len

-- `Some(m)`: the mask, then the payload copied and masked; `None`: the payload copied
unfoldable pub put_payload : Bytes → Option MaskKey → Bytes
put_payload payload none = payload
put_payload payload (some k) = mask_bytes k ++ encode_payload_masked_inline payload k

-- What the unchecked writes put behind `buf`, in the order of the writes.
unfoldable pub encode_frame_with_rsv : Bytes → OpCode → Bytes → Bool → Option MaskKey → Bool → Bytes
unfolding put_u64 put_payload
encode_frame_with_rsv buf o payload fin mask rsv1 =
    let payload_len = length payload in
    let b0 : ℕ = set_flag rsv1 0x40 (set_flag fin 0x80 (to_u8 o)) in
    let mask_bit : ℕ = if is_some mask then 0x80 else 0x00 in
    let len_bytes : Bytes =
      if leb payload_len 125
      then bit_or mask_bit (payload_len % 256) ∷ []
      else if leb payload_len 65535
      then bit_or mask_bit 126 ∷ put_u16 (payload_len % 65536)
      else bit_or mask_bit 127 ∷ put_u64 payload_len in
    buf ++ (b0 ∷ (len_bytes ++ put_payload payload mask))

unfoldable pub encode_frame : Bytes → OpCode → Bytes → Bool → Option MaskKey → Bytes
unfolding encode_frame_with_rsv
encode_frame buf o payload fin mask = encode_frame_with_rsv buf o payload fin mask false
