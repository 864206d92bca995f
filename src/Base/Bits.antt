-- ===== src/Base/Bits.antt =====
-- Laws of the native bit operations: exclusive or is its own inverse, and masks on a byte as
-- arithmetic.
use Prim.Native.Nat.{
  ℕ, zero, suc, ◌+◌, ◌*◌, ◌/◌, ◌%◌, ◌≤◌, ◌<◌, bit_and, bit_or, bit_xor, digits, differ,
  bit_xor-bitwise,
}
use mathlib.Core.Path.{◌≡◌, refl, sym, subst}
use mathlib.Core.Bool.{Bool, true, ◌&&◌}
use native.Mathlib.Omega.{arith}
use native.Mathlib.Nat.{le_refl}
use sockudo_ws.Base.Tests.{◌==◌, ==→eq, Bool-cases}
use mathlib.Core.Logic.{inl, inr}

-- The exclusive or of the native numbers, on a given number of digits at most.
abbrev xor_digits : ℕ → ℕ → ℕ → ℕ
xor_digits = digits (λ y. y) differ

-- One binary digit twice gives back the first, and a digit differs from itself in nothing.
record Undone (r s : ℕ) : Type 0 where
  back : differ (differ r s) s ≡ r
  digit : differ r s < 2
  self : differ s s ≡ 0

undone : (r s : ℕ) → r < 2 → s < 2 → Undone r s
undone zero zero x y = record { back = refl; digit = x; self = refl }
undone zero (suc zero) x y = record { back = refl; digit = y; self = refl }
undone (suc zero) zero x y = record { back = refl; digit = x; self = refl }
undone (suc zero) (suc zero) x y = record { back = refl; digit = omega arith; self = refl }
undone (suc (suc r)) s x y = absurd (omega (arith, x))
undone zero (suc (suc s)) x y = absurd (omega (arith, y))
undone (suc zero) (suc (suc s)) x y = absurd (omega (arith, y))

none_left : (k b : ℕ) → b ≤ k → xor_digits k b b ≡ 0
none_left zero zero l = refl
none_left zero (suc b) l = absurd (omega (arith, l))
none_left (suc k) zero l = refl
none_left (suc k) (suc b) l =
    let one = undone (suc b % 2) (suc b % 2) (omega arith) (omega arith) in
    omega (arith, none_left k (suc b / 2) (omega (arith, l)), one.self)

nothing_left :
    (h d a b : ℕ)
    → 0 ≡ h * 2 + d
    → ((j : ℕ) → h ≤ j → xor_digits j h (b / 2) ≡ a / 2)
    → differ d (b % 2) ≡ a % 2
    → b ≡ a
nothing_left h d a b e up low =
    let no_half : h ≡ 0 = omega (arith, e) in
    let no_digit : d ≡ 0 = omega (arith, e) in
    let halves : b / 2 ≡ a / 2 =
      subst (λ q. xor_digits 0 q (b / 2) ≡ a / 2) no_half (up 0 (omega (arith, no_half))) in
    let lasts : b % 2 ≡ a % 2 = subst (λ q. differ q (b % 2) ≡ a % 2) no_digit low in
    omega (arith, halves, lasts)

-- The exclusive or that the recursion leaves, written as its half and its last digit, undoes itself
-- when its half does.
again :
    (k v h d a b : ℕ)
    → v ≡ h * 2 + d
    → d < 2
    → v ≤ k
    → ((j : ℕ) → h ≤ j → xor_digits j h (b / 2) ≡ a / 2)
    → differ d (b % 2) ≡ a % 2
    → xor_digits k v b ≡ a
again zero zero h d a b e small l up low = nothing_left h d a b e up low
again zero (suc v) h d a b e small l up low = absurd (omega (arith, l))
again (suc k) zero h d a b e small l up low = nothing_left h d a b e up low
again (suc k) (suc v) h d a b e small l up low =
    let half : suc v / 2 ≡ h = omega (arith, e, small) in
    let last : suc v % 2 ≡ d = omega (arith, e, small) in
    let upper : xor_digits k (suc v / 2) (b / 2) ≡ a / 2 =
      subst (λ q. xor_digits k q (b / 2) ≡ a / 2) (sym half) (up k (omega (arith, e, l))) in
    let lower : differ (suc v % 2) (b % 2) ≡ a % 2 =
      subst (λ q. differ q (b % 2) ≡ a % 2) (sym last) low in
    omega (arith, upper, lower)

xor_back : (n k a b : ℕ) → a ≤ n → xor_digits n a b ≤ k → xor_digits k (xor_digits n a b) b ≡ a
xor_back zero k zero b l m = none_left k b m
xor_back zero k (suc a) b l m = absurd (omega (arith, l))
xor_back (suc n) k zero b l m = none_left k b m
xor_back (suc n) k (suc a) b l m =
    let one = undone (suc a % 2) (b % 2) (omega arith) (omega arith) in
    again k (xor_digits (suc n) (suc a) b) (xor_digits n (suc a / 2) (b / 2))
      (differ (suc a % 2) (b % 2)) (suc a) b refl one.digit m
      (λ j h. xor_back n j (suc a / 2) (b / 2) (omega (arith, l)) h) one.back

-- Exclusive or with one value twice gives back what there was.
pub bit_xor_twice : (a m : ℕ) → bit_xor (bit_xor a m) m ≡ a
bit_xor_twice a m =
    simp bit_xor-bitwise
      (xor_back a (xor_digits a a m) a m (le_refl a) (le_refl (xor_digits a a m)))

-- Whether two functions have the same values below a bound, by computing them all.
abbrev pub agree : (ℕ → ℕ) → (ℕ → ℕ) → ℕ → Bool
agree f g zero = true
agree f g (suc bound) = agree f g bound && f bound == g bound

left_true : (x y : Bool) → (x && y) ≡ true → x ≡ true
left_true x y e = ground (arith, e)

right_true : (x y : Bool) → (x && y) ≡ true → y ≡ true
right_true x y e = ground (arith, e)

pub table : (f g : ℕ → ℕ) (bound : ℕ) → agree f g bound ≡ true → (v : ℕ) → v < bound → f v ≡ g v
table f g zero same v below = absurd (omega (arith, below))
table f g (suc bound) same v below = elim (Bool-cases (v == bound)) [
  | inl here ↦
      subst (λ q. f q ≡ g q) (sym (==→eq v bound here))
        (==→eq (f bound) (g bound) (right_true (agree f g bound) (f bound == g bound) same))
  | inr before ↦
      table f g bound (left_true (agree f g bound) (f bound == g bound) same) v
        (ground (arith, before, below))
]

pub low_seven : (b : ℕ) → b < 256 → bit_and b 0x7f ≡ b % 128
low_seven = table _ _ 256 refl

pub top_bit : (b : ℕ) → b < 256 → bit_and b 0x80 ≡ b / 128 * 128
top_bit = table _ _ 256 refl

pub set_top_bit : (b : ℕ) → b < 128 → bit_or 0x80 b ≡ 128 + b
set_top_bit = table _ _ 128 refl

pub set_no_bit : (b : ℕ) → b < 128 → bit_or 0x00 b ≡ b
set_no_bit = table _ _ 128 refl
