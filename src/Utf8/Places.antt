-- ===== src/Utf8/Places.antt =====
-- The automaton of UTF-8 against the tables of src/utf8.rs.
use sockudo_ws.Base.{
  ℕ, zero, suc, ◌+◌, ◌≤◌, ◌<◌, leb, ◌&&◌, none, some, [], ◌∷◌, length, All, Bytes, ◌≡◌, ◌⊎◌, inl,
  inr, refl, ap, ◌∙◌, arith, Bool-cases,
}
use sockudo_ws.Utf8.Defs.{utf8_sequence_width, second_range}
use sockudo_ws.Utf8.Format.{
  Place, boundary, more, bad, lead_byte, after_tail, step, scan, wants, scan-bad,
}

wants-lead_byte :
    (b : ℕ) → (wants (lead_byte b) ≡ 0) ⊎ (wants (lead_byte b) + 1 ≡ utf8_sequence_width b)
unfolding lead_byte utf8_sequence_width
wants-lead_byte b = ground arith

-- A lead byte that no byte of a code point can follow is refused; otherwise the second byte is within
-- the range of the table.
pub lead_byte-second_range :
    (b : ℕ)
    → 1 < utf8_sequence_width b
    → ((second_range b ≡ none) × (lead_byte b ≡ bad))
      ⊎ ((low high n : ℕ) × (second_range b ≡ some (low, high))
          × (lead_byte b ≡ more low high n)
          × (n + 2 ≡ utf8_sequence_width b))
unfolding lead_byte utf8_sequence_width second_range
lead_byte-second_range b l = ground arith

abbrev pub IsTail : ℕ → Type 0
IsTail b = (0x80 ≤ b) × (b ≤ 0xBF)

-- A range for the next byte lies within that of the continuation bytes, and at most three are wanted.
abbrev pub Within : Place → Type 0
Within (more low high n) = (0x80 ≤ low) × (high ≤ 0xBF) × (n ≤ 2)
Within _ = Unit

lead_byte-Within : (b : ℕ) → Within (lead_byte b)
unfolding lead_byte
lead_byte-Within b = ground arith

tail-Within : (n : ℕ) → n ≤ 2 → Within (after_tail n)
tail-Within zero l = tt
tail-Within (suc n) l = (omega arith, omega arith, omega (arith, l))

step-Within : (s : Place) (b : ℕ) → Within s → Within (step s b)
step-Within boundary b w = lead_byte-Within b
step-Within (more low high n) b w = elim (Bool-cases (leb low b && leb b high)) [
  | inl e ↦ rw e (tail-Within n w.2)
  | inr e ↦ rw e tt
]
step-Within bad b w = tt

pub scan-Within : (w : Bytes) (s : Place) → Within s → Within (scan s w)
scan-Within [] s h = h
scan-Within (b ∷ w) s h = scan-Within w (step s b) (step-Within s b h)

-- A continuation byte takes one from what is wanted, or nothing more is wanted.
step-tail : (s : Place) (b : ℕ) → IsTail b → (step s b ≡ bad) ⊎ (wants (step s b) + 1 ≡ wants s)
unfolding lead_byte
step-tail boundary b t = ground (arith, t.0, t.1)
step-tail (more low high zero) b t = ground arith
step-tail (more low high (suc n)) b t = ground arith
step-tail bad b t = inl refl

pub wants-bad : (s : Place) (t : Bytes) → s ≡ bad → wants (scan s t) ≡ 0
wants-bad s t e = ap (λ z. wants (scan z t)) e ∙ ap wants (scan-bad t)

pub wants-tails :
    (t : Bytes) (s : Place)
    → All IsTail t
    → (wants (scan s t) ≡ 0) ⊎ (wants (scan s t) + length t ≡ wants s)
wants-tails [] s h = inr (omega arith)
wants-tails (b ∷ t) s h = elim (step-tail s b h.0) [
  | inl e ↦ inl (wants-bad (step s b) t e)
  | inr e ↦ elim (wants-tails t (step s b) h.1) [
    | inl z ↦ inl z
    | inr l ↦ inr (omega (arith, e, l))
  ]
]

-- A byte that is no continuation byte ends a code point or starts one.
step-other :
    (s : Place) (b : ℕ)
    → Within s
    → (b < 0x80) ⊎ (0xBF < b)
    → (step s b ≡ bad) ⊎ (step s b ≡ lead_byte b)
step-other boundary b w o = inr refl
step-other (more low high n) b w o = inl (ground (arith, w.0, w.1, o))
step-other bad b w o = inl refl

-- Bytes that end with an ASCII byte and continuation bytes want no more.
pub wants-ascii :
    (s : Place) (b : ℕ) (t : Bytes)
    → Within s
    → b < 0x80
    → All IsTail t
    → wants (scan (step s b) t) ≡ 0
unfolding lead_byte
wants-ascii s b t w l h = elim (step-other s b w (inl l)) [
  | inl e ↦ wants-bad (step s b) t e
  | inr e ↦
      let z : wants (step s b) ≡ 0 = ap wants e ∙ ground (arith, l) in
      elim (wants-tails t (step s b) h) [ inl a ↦ a | inr a ↦ omega (arith, a, z) ]
]

-- Bytes that end with a lead byte and as many continuation bytes as it wants at least want no more.
pub wants-lead :
    (s : Place) (b : ℕ) (t : Bytes)
    → Within s
    → 0xBF < b
    → All IsTail t
    → utf8_sequence_width b ≤ length t + 1
    → wants (scan (step s b) t) ≡ 0
wants-lead s b t w l h enough = elim (step-other s b w (inr l)) [
  | inl e ↦ wants-bad (step s b) t e
  | inr e ↦
      let same : wants (step s b) ≡ wants (lead_byte b) = ap wants e in
      elim (wants-tails t (step s b) h) [
        | inl a ↦ a
        | inr a ↦ elim (wants-lead_byte b) [
          | inl z ↦ omega (arith, a, z, same)
          | inr z ↦ omega (arith, a, z, same, enough)
        ]
      ]
]
