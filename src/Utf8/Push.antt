-- ===== src/Utf8/Push.antt =====
-- `push` of src/utf8.rs against the automaton of UTF-8.
use sockudo_ws.Base.{
  ℕ, ◌-◌, ◌≤◌, ◌<◌, min, ltb, if◌then◌else◌, Bool, true, false, [], ◌∷◌, ◌++◌, length, take, drop,
  Bytes, ◌≡◌, inl, inr, refl, sym, ap, ◌∙◌, arith, Bool-cases, length-append, length-take,
  le_of_ltb-false, ltb→lt, take-length-append, drop-length-append, take_all, drop_all,
  take-append-drop,
}
use mathlib.Core.List.{append-nil, append_assoc}
use mathlib.Core.Path.{subst}
use sockudo_ws.Utf8.Defs.{
  Utf8Stream, utf8_sequence_width, incomplete_prefix_may_be_valid, complete_prefix_len, push_chunk,
  push_filled, push_carried, push,
}
use sockudo_ws.Utf8.Format.{
  Place, boundary, more, bad, step, scan, is_boundary, is_possible, well_formed, wants, scan-append,
  scan-bad,
}
use sockudo_ws.Utf8.Places.{Within, scan-Within}
use sockudo_ws.Utf8.Cut.{Cut, Unfinished, complete_prefix_len-Cut}
use sockudo_ws.Utf8.Prefix.{may_be_valid, wants-full, is_bad, at_boundary}

-- What is carried is shorter than the code point that its first byte starts.
abbrev pub IsHeld : Bytes → Type 0
IsHeld [] = Unit
IsHeld (b ∷ held) = length (b ∷ held) < utf8_sequence_width b

-- The validator stands behind the text: it carries the end of the text, and what is before that is
-- whole code points.
abbrev pub Carries : Bytes → Utf8Stream → Type 0
Carries text s = IsHeld s.carry × (u : Bytes) × (text ≡ u ++ s.carry) × (scan boundary u ≡ boundary)

-- The result of a push that makes `text` of what was before: whether it may go on to valid UTF-8.
abbrev pub Pushed : Bytes → Bool × Utf8Stream → Type 0
Pushed text r = (r.0 ≡ is_possible (scan boundary text)) × (r.0 ≡ true → Carries text r.1)

Unfinished-IsHeld : (t : Bytes) → Unfinished t → IsHeld t
Unfinished-IsHeld [] h = tt
Unfinished-IsHeld (b ∷ t) h = h.0

possible_tail :
    (t : Bytes) → IsHeld t → incomplete_prefix_may_be_valid t ≡ is_possible (scan boundary t)
possible_tail [] h = refl
possible_tail (b ∷ t) h = may_be_valid b t h

refused : (text : Bytes) (st : Utf8Stream) → scan boundary text ≡ bad → Pushed text (false, st)
refused text st e = (sym (ap is_possible e), λ x. absurd (ground (arith, x)))

-- Whole code points before a text make no difference to the place behind it.
pub scan-behind :
    (text u c : Bytes)
    → text ≡ u ++ c
    → scan boundary u ≡ boundary
    → scan boundary text ≡ scan boundary c
scan-behind text u c e b = ap (scan boundary) e ∙ scan-append boundary u c ∙ ap (λ s. scan s c) b

-- A text whose carried end goes on is the text that goes on.
pub behind-Pushed :
    (text u c chunk : Bytes) (r : Bool × Utf8Stream)
    → text ≡ u ++ c
    → scan boundary u ≡ boundary
    → Pushed (c ++ chunk) r
    → Pushed (text ++ chunk) r
behind-Pushed text u c chunk r e b (p, k) =
    let whole : text ++ chunk ≡ u ++ (c ++ chunk) =
      ap (λ t. t ++ chunk) e ∙ append_assoc u c chunk in
    (
      p ∙ ap is_possible (sym (scan-behind (text ++ chunk) u (c ++ chunk) whole b)),
      λ o.
          let (h, v, s, z) = k o in
          (
            h,
            u ++ v,
            whole ∙ ap (λ t. u ++ t) s ∙ sym (append_assoc u v r.1.carry),
            scan-append boundary u v ∙ ap (λ q. scan q v) b ∙ z,
          ),
    )

is_lead : (b : ℕ) → 1 < utf8_sequence_width b → 0xBF < b
unfolding utf8_sequence_width
is_lead b l = ground (arith, l)

-- Behind bytes that end within a code point no first byte can follow.
broken :
    (s : Place) (t : Bytes)
    → Within s
    → is_boundary s ≡ false
    → Unfinished t
    → (t ≡ [] → wants s ≡ 0)
    → scan s t ≡ bad
broken s [] w n h z = is_bad s (z refl) n
broken boundary (b ∷ t) w n h z = absurd (ground (arith, n))
broken bad (b ∷ t) w n h z = scan-bad t
broken (more low high m) (b ∷ t) w n h z =
    ap (λ p. scan p t) (outside low high m b w (is_lead b (omega (arith, h.0)))) ∙ scan-bad t
  where
    outside :
        (low high m b : ℕ) → Within (more low high m) → 0xBF < b → step (more low high m) b ≡ bad
    outside low high m b w l = ground (arith, w.1, l)

module _ (validate_utf8 from_utf8 : Bytes → Bool)
    (validates : (w : Bytes) → validate_utf8 w ≡ well_formed w)
    (checks : (w : Bytes) → from_utf8 w ≡ well_formed w) where
  Cut-Pushed :
      (x : Bytes) (n : ℕ)
      → Cut x n
      → Pushed x (
          if validate_utf8 (take n x)
          then (incomplete_prefix_may_be_valid (drop n x), record { carry = drop n x })
          else (false, record { carry = [] }))
  Cut-Pushed x n c =
      let taken : take n x ≡ c.u =
        ap (λ m. take m x) c.at ∙ ap (take (length c.u)) c.whole ∙ take-length-append c.u c.t in
      let dropped : drop n x ≡ c.t =
        ap (λ m. drop m x) c.at ∙ ap (drop (length c.u)) c.whole ∙ drop-length-append c.u c.t in
      let along : scan boundary x ≡ scan (scan boundary c.u) c.t =
        ap (scan boundary) c.whole ∙ scan-append boundary c.u c.t in
      let valid : validate_utf8 (take n x) ≡ well_formed c.u =
        ap validate_utf8 taken ∙ validates c.u in
      elim (Bool-cases (well_formed c.u)) [
        | inl e ↦
            let b : scan boundary c.u ≡ boundary = at_boundary (scan boundary c.u) e in
            rw (valid, e, dropped)
              (
                possible_tail c.t (Unfinished-IsHeld c.t c.unfinished)
                    ∙ ap is_possible (sym (scan-behind x c.u c.t c.whole b)),
                λ _. (Unfinished-IsHeld c.t c.unfinished, c.u, c.whole, b),
              )
        | inr e ↦
            rw (valid, e)
              (refused x (record { carry = [] })
                (along
                  ∙ broken (scan boundary c.u) c.t (scan-Within c.u boundary tt) e c.unfinished
                      (λ t.
                        ap wants (sym (along ∙ ap (scan (scan boundary c.u)) t)) ∙ c.settled t)))
      ]

  push_chunk-Pushed : (x : Bytes) → Pushed x (push_chunk validate_utf8 from_utf8 x)
  unfolding push_chunk
  push_chunk-Pushed x = Cut-Pushed x (complete_prefix_len x) (complete_prefix_len-Cut x)

  -- The carry has been filled up to its code point's width, or with all of the chunk.
  filled-Pushed :
      (text : Bytes) (b : ℕ) (held rest : Bytes)
      → 1 < utf8_sequence_width b
      → length (b ∷ held) ≤ utf8_sequence_width b
      → (length (b ∷ held) < utf8_sequence_width b → rest ≡ [])
      → text ≡ (b ∷ held) ++ rest
      → Pushed text (push_filled validate_utf8 from_utf8 (utf8_sequence_width b) (b ∷ held) rest)
  filled-Pushed text b held rest l n z e =
      elim (Bool-cases (ltb (length (b ∷ held)) (utf8_sequence_width b))) [
        | inl short ↦
            let h : IsHeld (b ∷ held) = ltb→lt _ _ short in
            let same : text ≡ b ∷ held =
              e ∙ ap (λ r. (b ∷ held) ++ r) (z h) ∙ append-nil (b ∷ held) in
            rw short (
              may_be_valid b held h ∙ ap (λ t. is_possible (scan boundary t)) (sym same),
              λ _. (h, [], same, refl),
            )
        | inr full ↦
            let width : utf8_sequence_width b ≡ length (b ∷ held) =
              omega (arith, n, le_of_ltb-false _ _ full) in
            let valid : from_utf8 (take (utf8_sequence_width b) (b ∷ held))
                ≡ well_formed (b ∷ held) =
              ap from_utf8 (take_all (utf8_sequence_width b) (b ∷ held) n) ∙ checks (b ∷ held) in
            elim (Bool-cases (well_formed (b ∷ held))) [
              | inl i ↦
                  rw (full, valid, i)
                    (subst (λ t. Pushed t (push_chunk validate_utf8 from_utf8 rest)) (sym e)
                      (behind-Pushed (b ∷ held) (b ∷ held) [] rest
                        (push_chunk validate_utf8 from_utf8 rest) (sym (append-nil (b ∷ held)))
                        (at_boundary (scan boundary (b ∷ held)) i) (push_chunk-Pushed rest)))
              | inr i ↦
                  rw (full, valid, i)
                    (refused text (record { carry = b ∷ held })
                      (ap (scan boundary) e
                        ∙ scan-append boundary (b ∷ held) rest
                        ∙ ap (λ p. scan p rest)
                            (is_bad (scan boundary (b ∷ held)) (wants-full b held l (sym width)) i)
                        ∙ scan-bad rest))
            ]
      ]

  carried-Pushed :
      (carry chunk : Bytes)
      → IsHeld carry
      → Pushed (carry ++ chunk) (push_carried validate_utf8 from_utf8 carry chunk)
  carried-Pushed [] chunk h = push_chunk-Pushed chunk
  carried-Pushed (b ∷ held) chunk h =
      let width = utf8_sequence_width b in
      let k = min (width - length (b ∷ held)) (length chunk) in
      filled-Pushed ((b ∷ held) ++ chunk) b (held ++ take k chunk) (drop k chunk) (omega (arith, h))
        (omega (arith, h, length-append held (take k chunk), length-take k chunk))
        (λ short.
          drop_all k chunk
            (omega (arith, h, short, length-append held (take k chunk), length-take k chunk)))
        (ap (λ t. (b ∷ held) ++ t) (sym (take-append-drop k chunk))
          ∙ sym (append_assoc (b ∷ held) (take k chunk) (drop k chunk)))

  -- A validator that stands behind a text and is pushed a chunk returns whether the text with the chunk
  -- may go on to valid UTF-8, and when it may, stands behind the text with the chunk. The libraries'
  -- validators accept exactly well-formed UTF-8.
  pub push-Carries :
      (text : Bytes) (s : Utf8Stream) (chunk : Bytes)
      → Carries text s
      → Pushed (text ++ chunk) (push validate_utf8 from_utf8 s chunk)
  push-Carries text s chunk (h, u, e, b) =
      behind-Pushed text u s.carry chunk (push validate_utf8 from_utf8 s chunk) e b
        (carried-Pushed s.carry chunk h)
