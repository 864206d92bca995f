-- ===== src/Utf8/Defs.antt =====
-- `Utf8Stream` of src/utf8.rs. `carry` is `carry[..carry_len]`, the incomplete code point at the end of
-- what was pushed. `validate_utf8` asks the simdutf8 library and `from_utf8` is that of the standard
-- library: parameters. In `push` the carry is no longer than the width of its first byte, so that
-- `width - have` does not go below zero.
use sockudo_ws.Base.{
  ℕ, zero, suc, ◌-◌, min, ltb, leb, ◌==◌, if◌then◌else◌, Bool, true, false, ◌&&◌, Option, none,
  some, [], ◌∷◌, ◌++◌, length, take, drop, Bytes,
}
use mathlib.Core.List.{reverse}

pub record Utf8Stream : Type 0 where
  pub carry : Bytes

abbrev pub utf8_new : Utf8Stream
utf8_new = record { carry = [] }

abbrev pub utf8_reset : Utf8Stream → Utf8Stream
utf8_reset s = record { carry = [] }

abbrev pub contains : ℕ → ℕ → ℕ → Bool
contains low high b = leb low b && leb b high

unfoldable pub utf8_sequence_width : ℕ → ℕ
utf8_sequence_width lead =
    if leb lead 0x7F
    then 1
    else if contains 0xC0 0xDF lead
    then 2
    else if contains 0xE0 0xEF lead
    then 3
    else if contains 0xF0 0xF7 lead
    then 4
    else 0

-- `match lead`, where `none` is `return false`
unfoldable pub second_range : ℕ → Option (ℕ × ℕ)
second_range lead =
    if contains 0xC2 0xDF lead
    then some (0x80, 0xBF)
    else if lead == 0xE0
    then some (0xA0, 0xBF)
    else if contains 0xE1 0xEC lead
    then some (0x80, 0xBF)
    else if contains 0xEE 0xEF lead
    then some (0x80, 0xBF)
    else if lead == 0xED
    then some (0x80, 0x9F)
    else if lead == 0xF0
    then some (0x90, 0xBF)
    else if contains 0xF1 0xF3 lead
    then some (0x80, 0xBF)
    else if lead == 0xF4
    then some (0x80, 0x8F)
    else none

-- `prefix.iter().skip(2).all(…)`
abbrev pub all_continue : Bytes → Bool
all_continue [] = true
all_continue (b ∷ rest) = contains 0x80 0xBF b && all_continue rest

-- The bytes behind the first one
abbrev pub rest_may_be_valid : Option (ℕ × ℕ) → Bytes → Bool
rest_may_be_valid none rest = false
rest_may_be_valid (some (low, high)) [] = true
rest_may_be_valid (some (low, high)) (second ∷ rest) =
    if contains low high second then all_continue rest else false

abbrev pub incomplete_prefix_may_be_valid : Bytes → Bool
incomplete_prefix_may_be_valid [] = true
incomplete_prefix_may_be_valid (lead ∷ rest) = rest_may_be_valid (second_range lead) rest

-- `for back in 1..=n.min(3)`: the bytes from the last one backwards, `left` of them at most
abbrev pub complete_from : ℕ → ℕ → ℕ → Bytes → ℕ
complete_from n zero back bytes = n
complete_from n (suc left) back [] = n
complete_from n (suc left) back (b ∷ bytes) =
    let further = complete_from n left (suc back) bytes in
    if ltb b 0x80
    then n
    else if leb 0xC0 b
    then if ltb back (utf8_sequence_width b) then n - back else n
    else further

unfoldable pub complete_prefix_len : Bytes → ℕ
complete_prefix_len chunk = complete_from (length chunk) 3 1 (reverse chunk)

abbrev pub finish : Utf8Stream → Bool
finish s = length s.carry == 0

abbrev pub pending : Utf8Stream → ℕ
pending s = length s.carry

abbrev pub same_bytes : Bytes → Bytes → Bool
same_bytes [] [] = true
same_bytes (a ∷ x) (b ∷ y) = a == b && same_bytes x y
same_bytes _ _ = false

module _ (validate_utf8 from_utf8 : Bytes → Bool) where
  -- `push` from where nothing is carried
  unfoldable pub push_chunk : Bytes → Bool × Utf8Stream
  push_chunk chunk =
      let complete = complete_prefix_len chunk in
      let tail = drop complete chunk in
      if validate_utf8 (take complete chunk)
      then (incomplete_prefix_may_be_valid tail, record { carry = tail })
      else (false, record { carry = [] })

  -- The carry has been filled up as far as the chunk goes.
  abbrev pub push_filled : ℕ → Bytes → Bytes → Bool × Utf8Stream
  push_filled width carry chunk =
      if ltb (length carry) width
      then (incomplete_prefix_may_be_valid carry, record { carry = carry })
      else if from_utf8 (take width carry)
      then push_chunk chunk
      else (false, record { carry = carry })

  abbrev pub push_carried : Bytes → Bytes → Bool × Utf8Stream
  push_carried [] chunk = push_chunk chunk
  push_carried (lead ∷ held) chunk =
      let width = utf8_sequence_width lead in
      let taken = min (width - length (lead ∷ held)) (length chunk) in
      push_filled width ((lead ∷ held) ++ take taken chunk) (drop taken chunk)

  abbrev pub push : Utf8Stream → Bytes → Bool × Utf8Stream
  push s chunk = push_carried s.carry chunk

  unfoldable pub resume : Utf8Stream → Bytes → Bool × Utf8Stream
  resume s suffix = if same_bytes suffix s.carry then (true, s) else push (utf8_reset s) suffix
