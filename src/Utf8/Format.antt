-- ===== src/Utf8/Format.antt =====
-- UTF-8 as RFC 3629 defines it, as an automaton on bytes.
use sockudo_ws.Base.{
  ℕ, zero, suc, ltb, leb, ◌==◌, if◌then◌else◌, Bool, true, false, ◌&&◌, [], ◌∷◌, ◌++◌, Bytes, ◌≡◌,
  refl,
}

-- `more low high n`: the next byte is to be from `low` to `high`, and `n` continuation bytes follow.
pub data Place : Type 0 where
  boundary : Place
  more : ℕ → ℕ → ℕ → Place
  bad : Place

-- The first byte of a code point
unfoldable pub lead_byte : ℕ → Place
lead_byte b =
    if ltb b 0x80
    then boundary
    else if ltb b 0xC2
    then bad
    else if ltb b 0xE0
    then more 0x80 0xBF 0
    else if b == 0xE0
    then more 0xA0 0xBF 1
    else if b == 0xED
    then more 0x80 0x9F 1
    else if ltb b 0xF0
    then more 0x80 0xBF 1
    else if b == 0xF0
    then more 0x90 0xBF 2
    else if ltb b 0xF4
    then more 0x80 0xBF 2
    else if b == 0xF4
    then more 0x80 0x8F 2
    else bad

abbrev pub after_tail : ℕ → Place
after_tail zero = boundary
after_tail (suc n) = more 0x80 0xBF n

abbrev pub step : Place → ℕ → Place
step boundary b = lead_byte b
step (more low high n) b = if leb low b && leb b high then after_tail n else bad
step bad b = bad

abbrev pub scan : Place → Bytes → Place
scan s [] = s
scan s (b ∷ w) = scan (step s b) w

abbrev pub is_boundary : Place → Bool
is_boundary boundary = true
is_boundary _ = false

abbrev pub is_possible : Place → Bool
is_possible bad = false
is_possible _ = true

-- Whether bytes are well-formed UTF-8
abbrev pub well_formed : Bytes → Bool
well_formed w = is_boundary (scan boundary w)

-- How many bytes the code point still wants
abbrev pub wants : Place → ℕ
wants (more low high n) = suc n
wants _ = 0

pub scan-append : (s : Place) (u v : Bytes) → scan s (u ++ v) ≡ scan (scan s u) v
scan-append s [] v = refl
scan-append s (b ∷ u) v = scan-append (step s b) u v

pub scan-bad : (w : Bytes) → scan bad w ≡ bad
scan-bad [] = refl
scan-bad (b ∷ w) = scan-bad w
