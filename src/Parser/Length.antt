-- ===== src/Parser/Length.antt =====
-- The two ExtendedLen arms by one argument: `n` bytes of length are awaited, `check` judges their
-- value and `value` is the length.
use sockudo_ws.Base.{
  ℕ, ◌+◌, ◌-◌, ◌<◌, ◌≤◌, [], ◌∷◌, ◌++◌, length, take, drop, Bytes, ◌≡◌, ◌≢◌, refl, sym, ap, ◌∙◌,
  arith, length-append, length-take, take-append-drop, Outcome, ok, err, panic,
}
use mathlib.Core.List.{append_assoc}
use sockudo_ws.Error.{Error}
use sockudo_ws.Frame.{OpCode}
use sockudo_ws.Parser.Types.{FrameParser, reset}
use sockudo_ws.Parser.Slow.{header_base, check_base, continue_with_len, when_ok, save_all}
use sockudo_ws.Parser.Spec.{Decoded, need, checked, decode, decode_len, decode_sized, meaning}
use sockudo_ws.Parser.Resume.{AgreesAt, Agrees-trans, Inv}
use sockudo_ws.Parser.Extended.{continue-Agrees}

module _ (p : FrameParser) (b0 b1 : ℕ) (t : Bytes) (o : OpCode) (n : ℕ)
    (decode_tail : Bytes → Decoded) (check : Bytes → Outcome Error (Unit {0})) (value : Bytes → ℕ)
    (stored : p.header_buf ≡ b0 ∷ b1 ∷ t) (base : check_base (reset p) b0 b1 ≡ ok o)
    (few : length t < n) (fresh : p.payload_ready ≡ 0)
    (is_tail : (w : Bytes) → decode_len (reset p) b0 b1 o w ≡ decode_tail w)
    (tail_short : (w : Bytes) → length w < n → decode_tail w ≡ need)
    (tail_full : (w z : Bytes)
      → length w ≡ n
      → decode_tail (w ++ z) ≡ checked (check w) (λ _. decode_sized (reset p) b0 b1 o (value w) z))
    (sized : (w : Bytes) → length w ≡ n → check w ≡ ok tt → 2 + n ≡ header_base (value w))
    (meaning_is : (hb x : Bytes)
      → meaning (record p { header_buf = hb }) x ≡ decode (reset p) (hb ++ x)) where
  decode-tail : (x : Bytes) → decode (reset p) (b0 ∷ b1 ∷ x) ≡ decode_tail x
  decode-tail x = ap (λ c. checked c (λ k. decode_len (reset p) b0 b1 k x)) base ∙ is_tail x

  meaning-tail : (x : Bytes) → meaning p x ≡ decode_tail (t ++ x)
  meaning-tail x =
      meaning_is p.header_buf x
      ∙ ap (λ hb. decode (reset p) (hb ++ x)) stored
      ∙ decode-tail (t ++ x)

  -- All that is there is stored, and still not enough.
  pub len_short :
      (b : Bytes)
      → length t + length b < n
      → (Inv (record p { header_buf = p.header_buf ++ b }) [])
      → AgreesAt p b (save_all p b)
  len_short b l inv = (
    meaning-tail b ∙ tail_short (t ++ b) (omega (arith, length-append t b)),
    inv,
    refl,
    λ x.
        meaning_is (p.header_buf ++ b) x
        ∙ ap (decode (reset p)) (append_assoc p.header_buf b x)
        ∙ sym (meaning_is p.header_buf (b ++ x)),
  )

  module _ (b : Bytes) (l : n ≤ length t + length b) where
    abbrev needed : ℕ
    needed = n - length t

    abbrev word : Bytes
    word = t ++ take needed b

    abbrev filled : FrameParser
    filled = record p { header_buf = b0 ∷ b1 ∷ word }

    length-word : length word ≡ n
    length-word = omega (arith, length-append t (take needed b), length-take needed b, few)

    same : (x : Bytes) → meaning filled (drop needed b ++ x) ≡ meaning p (b ++ x)
    same x =
        meaning_is (b0 ∷ b1 ∷ word) (drop needed b ++ x)
        ∙ ap (λ c. decode (reset p) (b0 ∷ b1 ∷ c))
            (append_assoc t (take needed b) (drop needed b ++ x)
              ∙ ap (λ c. t ++ c)
                  (sym (append_assoc (take needed b) (drop needed b) x)
                    ∙ ap (λ c. c ++ x) (take-append-drop needed b)))
        ∙ ap (λ hb. decode (reset p) (hb ++ (b ++ x))) (sym stored)
        ∙ sym (meaning_is p.header_buf (b ++ x))

    by_check :
        (c : Outcome Error (Unit {0}))
        → check word ≡ c
        → c ≢ panic
        → AgreesAt filled (drop needed b) (
            when_ok c filled
              (drop needed b)
              (continue_with_len filled (value word) (drop needed b)))
    by_check (ok u) e np =
        continue-Agrees filled b0 b1 word (drop needed b) o (value word) refl base
          (omega (arith, length-word, sized word length-word e)) fresh
          (λ x.
            decode-tail (word ++ x)
            ∙ tail_full word x length-word
            ∙ ap (λ c. checked c (λ _. decode_sized (reset p) b0 b1 o (value word) x)) e)
          (meaning_is (b0 ∷ b1 ∷ word))
    by_check (err x) e np =
        meaning_is (b0 ∷ b1 ∷ word) (drop needed b)
        ∙ decode-tail (word ++ drop needed b)
        ∙ tail_full word (drop needed b) length-word
        ∙ ap (λ c. checked c (λ _. decode_sized (reset p) b0 b1 o (value word) (drop needed b))) e
    by_check panic e np = np refl

    pub len_full :
        check word ≢ panic
        → AgreesAt p b (
            when_ok
              (check word)
              filled
              (drop needed b)
              (continue_with_len filled (value word) (drop needed b)))
    len_full np =
        Agrees-trans p filled b (drop needed b) _ refl same (by_check (check word) refl np)
