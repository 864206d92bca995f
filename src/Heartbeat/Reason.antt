-- ===== src/Heartbeat/Reason.antt =====
-- `bounded_close_reason` of src/heartbeat.rs. A string is its bytes in UTF-8.
use sockudo_ws.Base.{
  ℕ, zero, suc, ◌≤◌, ltb, leb, ◌==◌, ◌||◌, ◌&&◌, if◌then◌else◌, Bool, true, false, length, get_or,
  take, Bytes, ◌≡◌, ◌≢◌, refl, sym, ap, ◌∙◌, arith, Bool-cases, inl, inr, length-take, take_all,
  ==→eq, leb→le,
}
use native.Mathlib.Nat.{le_refl}

-- `str::is_char_boundary`: the start and the end of the string, and each byte between them that does
-- not continue a character.
unfoldable pub is_char_boundary : Bytes → ℕ → Bool
is_char_boundary s i =
    i == 0
    || i == length s
    || (ltb i (length s) && (ltb (get_or s i 0) 0x80 || leb 0xC0 (get_or s i 0)))

-- `while !reason.is_char_boundary(end) { end -= 1; }`
pub last_boundary : Bytes → ℕ → ℕ
last_boundary s zero = zero
last_boundary s (suc e) =
    let rest = last_boundary s e in if is_char_boundary s (suc e) then suc e else rest

unfoldable pub bounded_close_reason : Bytes → Bytes
bounded_close_reason reason =
    if leb (length reason) 123 then reason else take (last_boundary reason 123) reason

true-ne-false : true ≢ false
true-ne-false e = ground (arith, e)

boundary_start : (s : Bytes) → is_char_boundary s 0 ≡ true
unfolding is_char_boundary
boundary_start s = refl

boundary_end : (s : Bytes) → is_char_boundary s (length s) ≡ true
unfolding is_char_boundary
boundary_end s = ground arith

last_boundary_lem :
    (s : Bytes) (e : ℕ)
    → (last_boundary s e ≤ e)
      × (is_char_boundary s (last_boundary s e) ≡ true)
      × ((i : ℕ) → i ≤ e → is_char_boundary s i ≡ true → i ≤ last_boundary s e)
unfolding last_boundary
last_boundary_lem s zero = (le_refl _, boundary_start s, λ i a b. a)
last_boundary_lem s (suc e) =
    let ih = last_boundary_lem s e in
    elim (Bool-cases (is_char_boundary s (suc e))) [
      | inl y ↦ rw y (le_refl _, y, λ i a b. a)
      | inr n ↦ rw n (omega (arith, ih.0), ih.1, λ i a b. ih.2 i (below i a b n) b)
    ]
  where
    below :
        (i : ℕ)
        → i ≤ suc e
        → is_char_boundary s i ≡ true
        → is_char_boundary s (suc e) ≡ false
        → i ≤ e
    below i a b n = elim (Bool-cases (i == suc e)) [
      | inl q ↦ absurd (true-ne-false (sym b ∙ ap (is_char_boundary s) (==→eq _ _ q) ∙ n))
      | inr q ↦ ground arith
    ]

-- The bounded reason is a prefix of the reason, of at most 123 bytes, that ends between two
-- characters.
pub bounded_close_reason-prefix :
    (reason : Bytes)
    → (n : ℕ) × (bounded_close_reason reason ≡ take n reason)
      × (n ≤ 123)
      × (is_char_boundary reason n ≡ true)
unfolding bounded_close_reason
bounded_close_reason-prefix reason = elim (Bool-cases (leb (length reason) 123)) [
  | inl l ↦ rw l (
    length reason,
    sym (take_all (length reason) reason (le_refl _)),
    leb→le _ _ l,
    boundary_end reason,
  )
  | inr m ↦ let r = last_boundary_lem reason 123 in rw m (last_boundary reason 123, refl, r.0, r.1)
]

-- No prefix that ends between two characters and has at most 123 bytes is longer.
pub bounded_close_reason-longest :
    (reason : Bytes) (i : ℕ)
    → i ≤ 123
    → i ≤ length reason
    → is_char_boundary reason i ≡ true
    → i ≤ length (bounded_close_reason reason)
unfolding bounded_close_reason
bounded_close_reason-longest reason i a b c = elim (Bool-cases (leb (length reason) 123)) [
  | inl l ↦ rw l b
  | inr m ↦ rw m (
      omega (
        arith,
        length-take (last_boundary reason 123) reason,
        (last_boundary_lem reason 123).2 i a c,
      ))
]
