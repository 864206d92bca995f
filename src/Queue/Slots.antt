-- ===== src/Queue/Slots.antt =====
-- The slots of src/queue.rs: the mask of a power of two is the remainder, and indices that are less
-- than the capacity apart have different slots.
use sockudo_ws.Base.{
  ℕ, zero, suc, ◌+◌, ◌-◌, ◌*◌, ◌/◌, ◌%◌, ◌^◌, ◌≤◌, ◌<◌, min, bit_and, ◌≡◌, ◌≢◌, refl, sym, ap, ◌∙◌,
  arith, Bool-cases, leb, leb→le, lt_of_leb-false, inl, inr,
}
use sockudo_ws.Queue.Spsc.{slot, wrapping_add, wrapping_sub}
use Prim.Native.Nat.{◌∣◌, digits, bit_and-bitwise}
use mathlib.Core.Path.{subst}
use native.Mathlib.Nat.{
  dvd-mul_right, mul-le-mul_left, mod-mod_of_dvd, mul-suc, add-mul, zero-mod, le_refl,
  mul-add-mod_self_left, mod-eq_of_lt, div-add-mod, mod-lt,
}

-- `2 ^ j` and the mask of as many ones
abbrev pub power : ℕ → ℕ
power zero = 1
power (suc j) = power j + power j

abbrev and_digits : ℕ → ℕ → ℕ → ℕ
and_digits = digits (λ _. 0) min

power_pos : (j : ℕ) → 0 < power j
power_pos zero = omega arith
power_pos (suc j) = omega (arith, power_pos j)

doubled : (p q r : ℕ) → 0 < p → r < 2 → (q * 2 + r) % (p + p) ≡ (q % p) * 2 + r
doubled p q r pos small =
    let below : q % p < p = mod-lt q pos in
    let whole : q * 2 + r ≡ (p + p) * (q / p) + ((q % p) * 2 + r) =
      omega (arith, div-add-mod q p, add-mul p p (q / p)) in
    ap (λ n. n % (p + p)) whole
    ∙ mul-add-mod_self_left (p + p) (q / p) ((q % p) * 2 + r)
    ∙ mod-eq_of_lt (omega (arith, below, small))

no_digits : (n a : ℕ) → a ≤ n → and_digits n a 0 ≡ 0
no_digits zero a l = refl
no_digits (suc n) zero l = refl
no_digits (suc n) (suc a) l = omega (arith, no_digits n (suc a / 2) (omega (arith, l)))

masked : (j n a : ℕ) → a ≤ n → and_digits n a (power j - 1) ≡ a % power j
masked zero n a l = no_digits n a l ∙ omega arith
masked (suc j) zero zero l = sym (zero-mod (power (suc j)))
masked (suc j) zero (suc a) l = absurd (omega (arith, l))
masked (suc j) (suc n) zero l = sym (zero-mod (power (suc j)))
masked (suc j) (suc n) (suc a) l =
    let pos = power_pos j in
    let half : (power j + power j - 1) / 2 ≡ power j - 1 = omega (arith, pos) in
    let odd : (power j + power j - 1) % 2 ≡ 1 = omega (arith, pos) in
    let upper : and_digits n (suc a / 2) ((power j + power j - 1) / 2) ≡ (suc a / 2) % power j =
      ap (and_digits n (suc a / 2)) half ∙ masked j n (suc a / 2) (omega (arith, l)) in
    let lower : min (suc a % 2) ((power j + power j - 1) % 2) ≡ suc a % 2 = omega (arith, odd) in
    let parts : (suc a / 2) * 2 + suc a % 2 ≡ suc a = omega arith in
    omega (arith, upper, lower)
    ∙ sym (doubled (power j) (suc a / 2) (suc a % 2) pos (omega arith))
    ∙ ap (λ m. m % (power j + power j)) parts

-- The mask of a power of two is the remainder.
pub bit_and-power : (j a : ℕ) → bit_and a (power j - 1) ≡ a % power j
bit_and-power j a = (λ i. bit_and-bitwise a (power j - 1) i) ∙ masked j a a (le_refl a)

module _ (N : ℕ) (pos : 0 < N) where
  -- Different indices that are less than `N` apart leave different remainders.
  pub apart : (i j : ℕ) → i < j → j < i + N → j % N ≢ i % N
  apart i j l u e =
      let a = div-add-mod i N in
      let b = div-add-mod j N in
      elim (Bool-cases (leb (j / N) (i / N))) [
        | inl k ↦
            omega (arith, a, b, e, l, mul-le-mul_left {m = j / N} {n = i / N} N (leb→le _ _ k))
        | inr k ↦ omega (
          arith,
          a,
          b,
          e,
          u,
          mul-le-mul_left {m = suc (i / N)} {n = j / N} N (lt_of_leb-false _ _ k),
          mul-suc N (i / N),
        )
      ]

power-add : (i j : ℕ) → power (i + j) ≡ power i * power j
power-add zero j = ap power (zero_add j) ∙ omega arith
  where
    zero_add : (j : ℕ) → 0 + j ≡ j
    zero_add j = omega arith
power-add (suc i) j =
    ap power (suc_add i j) ∙ omega (arith, power-add i j, add-mul (power i) (power i) (power j))
  where
    suc_add : (i j : ℕ) → suc i + j ≡ suc (i + j)
    suc_add i j = omega arith

-- 2 ^ 64 by the bits of the capacity and the others
power-split : (i j : ℕ) → i + j ≡ 64 → 2 ^ 64 ≡ power i * power j
power-split i j e = sym (ap power e) ∙ power-add i j

-- The capacity is a power of two, and an array is shorter than the address space.
pub record IsCapacity (N : ℕ) : Type 0 where
  pub bits : ℕ
  pub small : bits < 64
  pub power_of : N ≡ power bits

module _ (N : ℕ) (c : IsCapacity N) where
  pub capacity_pos : 0 < N
  capacity_pos = subst (λ n. 0 < n) (sym c.power_of) (power_pos c.bits)

  divides : N ∣ 2 ^ 64
  divides =
      subst (λ n. n ∣ 2 ^ 64) (sym c.power_of)
        (subst (λ n. power c.bits ∣ n)
          (sym (power-split c.bits (64 - c.bits) (omega (arith, c.small))))
          (dvd-mul_right (power c.bits) (power (64 - c.bits))))

  pub capacity_small : N < 2 ^ 64
  capacity_small =
      let rest = power (63 - c.bits) in
      let whole = power-split (suc c.bits) (63 - c.bits) (omega (arith, c.small)) in
      let more =
        mul-le-mul_left {m = 1} {n = rest} (power c.bits + power c.bits)
          (power_pos (63 - c.bits)) in
      omega (arith, whole, more, c.power_of, power_pos c.bits)

  -- The slot of a wrapped count is the count's remainder.
  pub slot-wrapped : (n : ℕ) → slot N (n % 2 ^ 64) ≡ n % N
  slot-wrapped n =
      subst (λ m. bit_and (n % 2 ^ 64) (m - 1) ≡ n % 2 ^ 64 % m) (sym c.power_of)
        (bit_and-power c.bits (n % 2 ^ 64))
      ∙ mod-mod_of_dvd N n divides

  pub wrapping_sub-counts :
      (h k : ℕ) → k ≤ h → h ≤ k + N → wrapping_sub (h % 2 ^ 64) (k % 2 ^ 64) ≡ h - k
  wrapping_sub-counts h k l u = omega (arith, l, u, capacity_small)

pub wrapping_add-count : (h : ℕ) → wrapping_add (h % 2 ^ 64) 1 ≡ (h + 1) % 2 ^ 64
wrapping_add-count h = omega arith
