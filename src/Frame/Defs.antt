-- ===== src/Frame/Defs.antt =====
-- The types of src/frame.rs and the header encoder.
use sockudo_ws.Base.{
  ℕ, ◌+◌, ◌*◌, ◌/◌, ◌%◌, ◌^◌, bit_or, ltb, leb, ◌==◌, if◌then◌else◌, Bool, true, false, Option,
  none, some, [], ◌∷◌, ◌++◌, length, Bytes,
}
use sockudo_ws.Mask.{MaskKey, mask_bytes}

pub data OpCode : Type 0 where
  continuation text binary close ping pong : OpCode

-- `opcode as u8`
abbrev pub to_u8 : OpCode → ℕ
to_u8 OpCode.continuation = 0x0
to_u8 OpCode.text = 0x1
to_u8 OpCode.binary = 0x2
to_u8 OpCode.close = 0x8
to_u8 OpCode.ping = 0x9
to_u8 OpCode.pong = 0xA

unfoldable pub from_u8 : ℕ → Option OpCode
from_u8 b =
    if b == 0x0
    then some OpCode.continuation
    else if b == 0x1
    then some OpCode.text
    else if b == 0x2
    then some OpCode.binary
    else if b == 0x8
    then some OpCode.close
    else if b == 0x9
    then some OpCode.ping
    else if b == 0xA
    then some OpCode.pong
    else none

abbrev pub is_control : OpCode → Bool
is_control o = leb 0x8 (to_u8 o)

abbrev pub is_data : OpCode → Bool
is_data o = leb (to_u8 o) 0x2

pub record FrameHeader : Type 0 where
  pub fin : Bool
  pub rsv1 : Bool
  pub rsv2 : Bool
  pub rsv3 : Bool
  pub opcode : OpCode
  pub masked : Bool
  pub payload_len : ℕ
  pub mask : Option MaskKey

pub record Frame : Type 0 where
  pub header : FrameHeader
  pub payload : Bytes

unfoldable pub header_size : FrameHeader → ℕ
header_size h =
    2
    + (if ltb 65535 h.payload_len then 8 else if ltb 125 h.payload_len then 2 else 0)
    + (if h.masked then 4 else 0)

-- `u16::from_be_bytes` and `put_u16`, `u64::from_be_bytes` and `put_u64`
abbrev pub be16 : ℕ → ℕ → ℕ
be16 a b = (a * 256 + b) % 2 ^ 16

unfoldable pub be64 : ℕ → ℕ → ℕ → ℕ → ℕ → ℕ → ℕ → ℕ → ℕ
be64 a b c d e f g h =
    (((((((a * 256 + b) * 256 + c) * 256 + d) * 256 + e) * 256 + f) * 256 + g) * 256 + h) % 2 ^ 64

abbrev pub put_u16 : ℕ → Bytes
put_u16 v = (v / 256 % 256) ∷ (v % 256) ∷ []

unfoldable pub put_u64 : ℕ → Bytes
put_u64 v =
    (v / 2 ^ 56 % 256)
    ∷ (v / 2 ^ 48 % 256)
    ∷ (v / 2 ^ 40 % 256)
    ∷ (v / 2 ^ 32 % 256)
    ∷ (v / 2 ^ 24 % 256)
    ∷ (v / 2 ^ 16 % 256)
    ∷ (v / 2 ^ 8 % 256)
    ∷ (v % 256)
    ∷ []

-- `if flag { b |= bit }`
abbrev pub set_flag : Bool → ℕ → ℕ → ℕ
set_flag flag bit b = if flag then bit_or b bit else b

-- `put_slice(&mask)` if there is one
abbrev pub put_mask : Option MaskKey → Bytes
put_mask none = []
put_mask (some k) = mask_bytes k

unfoldable pub encode : FrameHeader → Bytes → Bytes
unfolding put_u64
encode h buf =
    let b0 : ℕ =
      set_flag h.rsv3 0x10
        (set_flag h.rsv2 0x20 (set_flag h.rsv1 0x40 (set_flag h.fin 0x80 (to_u8 h.opcode)))) in
    let mask_bit : ℕ = if h.masked then 0x80 else 0x00 in
    let len_bytes : Bytes =
      if leb h.payload_len 125
      then bit_or mask_bit (h.payload_len % 256) ∷ []
      else if leb h.payload_len 65535
      then bit_or mask_bit 126 ∷ put_u16 (h.payload_len % 65536)
      else bit_or mask_bit 127 ∷ put_u64 h.payload_len in
    buf ++ (b0 ∷ (len_bytes ++ put_mask h.mask))

-- `Frame::new`, `Frame::text`, `Frame::close`
unfoldable pub frame_new : OpCode → Bytes → Bool → Frame
frame_new o payload fin = record {
  header = record {
    fin = fin;
    rsv1 = false;
    rsv2 = false;
    rsv3 = false;
    opcode = o;
    masked = false;
    payload_len = length payload;
    mask = none;
  };
  payload = payload;
}

unfoldable pub frame_text : Bytes → Frame
unfolding frame_new
frame_text payload = frame_new OpCode.text payload true

unfoldable pub frame_close : ℕ → Bytes → Frame
unfolding frame_new
frame_close code reason = frame_new OpCode.close (put_u16 code ++ reason) true

abbrev pub frame_is_control : Frame → Bool
frame_is_control f = is_control f.header.opcode
