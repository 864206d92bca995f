-- ===== src/Parser/Accepts.antt =====
-- What the parser of src/frame.rs takes from a peer, and the checks that such a frame passes.
use sockudo_ws.Base.{
  ℕ, ◌^◌, ◌<◌, ◌≤◌, bit_and, Bool, true, false, Option, none, some, length, Bytes, ◌≡◌, ◌≢◌, refl,
  arith, ok,
}
use sockudo_ws.Mask.{MaskKey}
use sockudo_ws.Mask.Laws.{mask_from_twice, length-mask_from}
use sockudo_ws.Frame.{OpCode, from_u8, is_control}
use sockudo_ws.Frame.Encode.{is_some}
use sockudo_ws.Frame.Laws.{masked_payload}
use sockudo_ws.Frame.Bytes.{bit_of}
use sockudo_ws.Parser.Types.{FrameParser}
use sockudo_ws.Parser.Slow.{has_flag, is_message, check_opcode, check_base}
use sockudo_ws.Parser.Spec.{unmask_from}

-- What a parser with these limits takes from a peer.
pub record Accepts (q : FrameParser) (o : OpCode) (n : ℕ) (fin : Bool) (mask : Option MaskKey)
    (rsv1 : Bool) : Type 0 where
  pub masks : q.expect_masked ≡ is_some mask
  pub compressed : rsv1 ≡ true → (q.allow_rsv1 ≡ true) × (is_message o ≡ true)
  pub control_whole : is_control o ≡ true → (fin ≡ true) × n ≤ 125
  pub within : n ≤ q.max_frame_size
  pub fits : n < 2 ^ 63

pub has_flag-bit_of :
    (flag : Bool) (bit b : ℕ) → bit ≢ 0 → bit_and b bit ≡ bit_of flag bit → has_flag bit b ≡ flag
has_flag-bit_of false bit b z e = rw e
has_flag-bit_of true bit b z e = ground (arith, e, z)

pub length-masked_payload :
    (m : Option MaskKey) (xs : Bytes) → length (masked_payload m xs) ≡ length xs
length-masked_payload none xs = refl
length-masked_payload (some k) xs = length-mask_from k 0 xs

pub unmask_from-masked_payload :
    (m : Option MaskKey) (xs : Bytes) → unmask_from m 0 (masked_payload m xs) ≡ xs
unmask_from-masked_payload none xs = refl
unmask_from-masked_payload (some k) xs = mask_from_twice k 0 xs

-- The checks on the base bytes, passed by what the flags are.
pub check_base-ok :
    (q : FrameParser) (b0 b1 : ℕ) (o : OpCode) (n : ℕ) (fin : Bool) (mask : Option MaskKey)
    (rsv1 : Bool)
    → Accepts q o n fin mask rsv1
    → has_flag 0x80 b0 ≡ fin
    → has_flag 0x40 b0 ≡ rsv1
    → has_flag 0x20 b0 ≡ false
    → has_flag 0x10 b0 ≡ false
    → has_flag 0x80 b1 ≡ is_some mask
    → from_u8 (bit_and b0 0x0F) ≡ some o
    → check_base q b0 b1 ≡ ok o
unfolding check_base check_opcode
check_base-ok q b0 b1 o n fin mask rsv1 a f r1 r2 r3 m e =
    ground (arith, a.masks, a.compressed, a.control_whole, f, r1, r2, r3, m, e)
