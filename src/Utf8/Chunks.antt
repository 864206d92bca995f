-- ===== src/Utf8/Chunks.antt =====
-- A text pushed in chunks into the validator of src/utf8.rs.
use sockudo_ws.Base.{
  ℕ, zero, suc, ◌<◌, ◌==◌, if◌then◌else◌, Bool, true, false, ◌&&◌, List, [], ◌∷◌, ◌++◌, length,
  Bytes, ◌≡◌, inl, inr, refl, sym, ap, ◌∙◌, arith, Bool-cases, ==→eq, take, ◌-◌, take-length-append,
  length-append,
}
use mathlib.Core.Path.{ap₂}
use mathlib.Core.List.{append_assoc, append-nil}
use sockudo_ws.Utf8.Defs.{
  Utf8Stream, utf8_new, utf8_reset, utf8_sequence_width, contains, finish, same_bytes, push, resume,
  pending,
}
use sockudo_ws.Utf8.Format.{
  Place, boundary, more, bad, after_tail, scan, is_boundary, is_possible, well_formed, wants,
  scan-append, scan-bad,
}
use sockudo_ws.Utf8.Places.{lead_byte-second_range}
use sockudo_ws.Utf8.Push.{IsHeld, Pushed, Carries, scan-behind, push-Carries}

inside : (q : Bytes) (s : Place) → length q < wants s → is_boundary (scan s q) ≡ false
inside [] boundary l = absurd (omega (arith, l))
inside [] (more low high n) l = refl
inside [] bad l = refl
inside (b ∷ q) boundary l = absurd (omega (arith, l))
inside (b ∷ q) bad l = absurd (omega (arith, l))
inside (b ∷ q) (more low high n) l = elim (Bool-cases (contains low high b)) [
  | inl i ↦ rw i (inside q (after_tail n) (fewer n (omega (arith, l))))
  | inr i ↦ rw i (ap is_boundary (scan-bad q))
]
  where
    fewer : (n : ℕ) → length q < n → length q < wants (after_tail n)
    fewer zero l = absurd (omega (arith, l))
    fewer (suc n) l = l

held_inside :
    (b : ℕ) (held : Bytes)
    → length (b ∷ held) < utf8_sequence_width b
    → is_boundary (scan boundary (b ∷ held)) ≡ false
held_inside b held l = elim (lead_byte-second_range b (omega (arith, l))) [
  | inl (s, z) ↦ ap (λ p. is_boundary (scan p held)) z ∙ ap is_boundary (scan-bad held)
  | inr (low, high, n, s, z, w) ↦
      ap (λ p. is_boundary (scan p held)) z ∙ inside held (more low high n) (omega (arith, l, w))
]

-- A validator that stands behind a text may finish when the text is well-formed.
pub finish-well_formed :
    (text : Bytes) (s : Utf8Stream) → Carries text s → finish s ≡ well_formed text
finish-well_formed text s (h, u, e, b) =
    by_carry s.carry h ∙ ap is_boundary (sym (scan-behind text u s.carry e b))
  where
    by_carry : (c : Bytes) → IsHeld c → (length c == 0) ≡ is_boundary (scan boundary c)
    by_carry [] h = refl
    by_carry (b ∷ held) h = ground (arith, held_inside b held h)

-- What is before the pending bytes is whole code points.
pub pending-boundary :
    (text : Bytes) (s : Utf8Stream)
    → Carries text s
    → scan boundary (take (length text - pending s) text) ≡ boundary
pending-boundary text s (h, u, e, b) =
    ap (λ t. scan boundary (take (length t - pending s) t)) e
    ∙ ap (λ n. scan boundary (take n (u ++ s.carry))) (omega (arith, length-append u s.carry))
    ∙ ap (scan boundary) (take-length-append u s.carry)
    ∙ b

same_bytes→eq : (x y : Bytes) → same_bytes x y ≡ true → x ≡ y
same_bytes→eq [] [] e = refl
same_bytes→eq [] (b ∷ y) e = absurd (ground (arith, e))
same_bytes→eq (a ∷ x) [] e = absurd (ground (arith, e))
same_bytes→eq (a ∷ x) (b ∷ y) e =
    ap₂ ◌∷◌ (==→eq a b (ground (arith, e))) (same_bytes→eq x y (ground (arith, e)))

impossible : (s : Place) (w : Bytes) → is_possible s ≡ false → is_boundary (scan s w) ≡ false
impossible boundary w e = absurd (ground (arith, e))
impossible (more low high n) w e = absurd (ground (arith, e))
impossible bad w e = ap is_boundary (scan-bad w)

module _ (validate_utf8 from_utf8 : Bytes → Bool) where
  -- A message validated chunk by chunk, until one is refused
  abbrev pub push_all : Utf8Stream → List Bytes → Bool × Utf8Stream
  push_all s [] = (true, s)
  push_all s (chunk ∷ chunks) =
      let (ok, s') = push validate_utf8 from_utf8 s chunk in
      let rest = push_all s' chunks in if ok then rest else (false, s')

  abbrev pub valid_in_chunks : List Bytes → Bool
  valid_in_chunks chunks = let (ok, s) = push_all utf8_new chunks in ok && finish s

abbrev pub join : List Bytes → Bytes
join [] = []
join (chunk ∷ chunks) = chunk ++ join chunks

module _ (validate_utf8 from_utf8 : Bytes → Bool)
    (validates : (w : Bytes) → validate_utf8 w ≡ well_formed w)
    (checks : (w : Bytes) → from_utf8 w ≡ well_formed w) where
  from_here :
      (text : Bytes) (s : Utf8Stream) (chunks : List Bytes)
      → Carries text s
      → ((push_all validate_utf8 from_utf8 s chunks).0
          && finish (push_all validate_utf8 from_utf8 s chunks).1)
        ≡ well_formed (text ++ join chunks)
  from_here text s [] h = finish-well_formed text s h ∙ ap well_formed (sym (append-nil text))
  from_here text s (chunk ∷ chunks) h =
      let p = push-Carries validate_utf8 from_utf8 validates checks text s chunk h in
      let r = push validate_utf8 from_utf8 s chunk in
      let along : well_formed (text ++ (chunk ++ join chunks))
          ≡ well_formed ((text ++ chunk) ++ join chunks) =
        ap well_formed (sym (append_assoc text chunk (join chunks))) in
      elim (Bool-cases r.0) [
        | inl o ↦ rw o (from_here (text ++ chunk) r.1 chunks (p.1 o) ∙ sym along)
        | inr n ↦ rw n (
            sym (
              along
              ∙ ap is_boundary (scan-append boundary (text ++ chunk) (join chunks))
              ∙ impossible (scan boundary (text ++ chunk)) (join chunks) (sym p.0 ∙ n)))
      ]

  -- However a text is cut into chunks, pushing them one after another into a new validator and asking
  -- it to finish accepts exactly the well-formed texts, when the libraries' validators do.
  pub valid_in_chunks-well_formed :
      (chunks : List Bytes)
      → valid_in_chunks validate_utf8 from_utf8 chunks ≡ well_formed (join chunks)
  valid_in_chunks-well_formed chunks = from_here [] utf8_new chunks (tt, [], refl, refl)

  -- `resume` does what a reset and a push of the suffix do, whatever valid text the validator stands
  -- behind: it returns whether the suffix may go on to valid UTF-8, and when it may, the validator
  -- stands behind the suffix. The libraries' validators accept exactly well-formed UTF-8.
  pub resume-Carries :
      (text : Bytes) (s : Utf8Stream) (suffix : Bytes)
      → Carries text s
      → is_possible (scan boundary text) ≡ true
      → Pushed suffix (resume validate_utf8 from_utf8 s suffix)
  unfolding resume
  resume-Carries text s suffix (h, u, w, b) o = elim (Bool-cases (same_bytes suffix s.carry)) [
    | inl e ↦
        let same : suffix ≡ s.carry = same_bytes→eq suffix s.carry e in
        rw e (
          sym (
              ap (λ t. is_possible (scan boundary t)) same
              ∙ ap is_possible (sym (scan-behind text u s.carry w b))
              ∙ o),
          λ _. (h, [], same, refl),
        )
    | inr e ↦ rw e (
        push-Carries validate_utf8 from_utf8 validates checks [] (utf8_reset s) suffix
          (tt, [], refl, refl))
  ]
