-- ===== src/Frame/Bytes.antt =====
-- The bytes that the encoders write, read back: the flag bits of the two base bytes and the
-- big-endian lengths.
use sockudo_ws.Base.{
  ℕ, ◌/◌, ◌%◌, ◌^◌, ◌<◌, bit_and, bit_or, if◌then◌else◌, Bool, true, false, some, ◌≡◌, refl, arith,
}
use sockudo_ws.Base.Bits.{table}
use sockudo_ws.Frame.Defs.{OpCode, to_u8, from_u8, set_flag, be16, be64}

pub to_u8-lt : (o : OpCode) → to_u8 o < 16
to_u8-lt OpCode.continuation = omega arith
to_u8-lt OpCode.text = omega arith
to_u8-lt OpCode.binary = omega arith
to_u8-lt OpCode.close = omega arith
to_u8-lt OpCode.ping = omega arith
to_u8-lt OpCode.pong = omega arith

-- The opcode that an opcode's number stands for is the opcode itself.
pub from_u8-to_u8 : (o : OpCode) → from_u8 (to_u8 o) ≡ some o
unfolding from_u8
from_u8-to_u8 OpCode.continuation = refl
from_u8-to_u8 OpCode.text = refl
from_u8-to_u8 OpCode.binary = refl
from_u8-to_u8 OpCode.close = refl
from_u8-to_u8 OpCode.ping = refl
from_u8-to_u8 OpCode.pong = refl

-- The first byte.
abbrev pub first_byte : Bool → Bool → ℕ → ℕ
first_byte fin rsv1 x = set_flag rsv1 0x40 (set_flag fin 0x80 x)

abbrev pub bit_of : Bool → ℕ → ℕ
bit_of flag bit = if flag then bit else 0

-- The bits of the first byte, for an opcode `x` of four bits.
pub first-opcode : (fin rsv1 : Bool) (x : ℕ) → x < 16 → bit_and (first_byte fin rsv1 x) 0x0F ≡ x
first-opcode false false = table _ _ 16 refl
first-opcode false true = table _ _ 16 refl
first-opcode true false = table _ _ 16 refl
first-opcode true true = table _ _ 16 refl

pub first-fin :
    (fin rsv1 : Bool) (x : ℕ) → x < 16 → bit_and (first_byte fin rsv1 x) 0x80 ≡ bit_of fin 0x80
first-fin false false = table _ _ 16 refl
first-fin false true = table _ _ 16 refl
first-fin true false = table _ _ 16 refl
first-fin true true = table _ _ 16 refl

pub first-rsv1 :
    (fin rsv1 : Bool) (x : ℕ) → x < 16 → bit_and (first_byte fin rsv1 x) 0x40 ≡ bit_of rsv1 0x40
first-rsv1 false false = table _ _ 16 refl
first-rsv1 false true = table _ _ 16 refl
first-rsv1 true false = table _ _ 16 refl
first-rsv1 true true = table _ _ 16 refl

pub first-rsv2 : (fin rsv1 : Bool) (x : ℕ) → x < 16 → bit_and (first_byte fin rsv1 x) 0x20 ≡ 0
first-rsv2 false false = table _ _ 16 refl
first-rsv2 false true = table _ _ 16 refl
first-rsv2 true false = table _ _ 16 refl
first-rsv2 true true = table _ _ 16 refl

pub first-rsv3 : (fin rsv1 : Bool) (x : ℕ) → x < 16 → bit_and (first_byte fin rsv1 x) 0x10 ≡ 0
first-rsv3 false false = table _ _ 16 refl
first-rsv3 false true = table _ _ 16 refl
first-rsv3 true false = table _ _ 16 refl
first-rsv3 true true = table _ _ 16 refl

-- The bits of the second byte, for seven bits `l` of length.
pub second-len :
    (masked : Bool) (l : ℕ) → l < 128 → bit_and (bit_or (if masked then 0x80 else 0x00) l) 0x7F ≡ l
second-len false = table _ _ 128 refl
second-len true = table _ _ 128 refl

pub second-masked :
    (masked : Bool) (l : ℕ)
    → l < 128
    → bit_and (bit_or (if masked then 0x80 else 0x00) l) 0x80 ≡ bit_of masked 0x80
second-masked false = table _ _ 128 refl
second-masked true = table _ _ 128 refl

-- The two bytes of a 16-bit length and the eight of a 64-bit length give the length back.
pub be16-put_u16 : (v : ℕ) → v < 65536 → be16 (v / 256 % 256) (v % 256) ≡ v
be16-put_u16 v l = omega arith

pub be64-put_u64 :
    (v : ℕ)
    → v < 2 ^ 64
    → be64
        (v / 2 ^ 56 % 256)
        (v / 2 ^ 48 % 256)
        (v / 2 ^ 40 % 256)
        (v / 2 ^ 32 % 256)
        (v / 2 ^ 24 % 256)
        (v / 2 ^ 16 % 256)
        (v / 2 ^ 8 % 256)
        (v % 256)
      ≡ v
unfolding be64
be64-put_u64 v l = omega arith
