-- ===== src/Parser/Grow.antt =====
-- The frame format as more bytes arrive: what is read stays as it is, and a frame takes bytes.
use sockudo_ws.Base.{
  ℕ, ◌+◌, ◌≤◌, ltb, leb, ◌==◌, if◌then◌else◌, Bool-cases, inl, inr, le→ltb_false, Option, none,
  some, [], ◌∷◌, ◌++◌, length, Bytes, ◌≡◌, ◌≢◌, refl, sym, arith, Outcome, ok, err, panic,
  length-append, length-drop, take-append, drop-append, le_of_ltb-false, bit_and,
}
use mathlib.Core.Path.{ap₂, subst}
use mathlib.Core.List.{append_assoc}
use sockudo_ws.Error.{Error}
use sockudo_ws.Frame.{OpCode, FrameHeader, Frame, be16, be64}
use sockudo_ws.Parser.Types.{ParseState, FrameParser, reset}
use sockudo_ws.Parser.Slow.{check_base, check_size, check_len64, header_of}
use sockudo_ws.Parser.Spec.{
  Decoded, need, failed, crashed, got, checked, unmask_from, with_key, decode_payload, decode_mask,
  decode_key, decode_sized, decode16, decode64, decode_len, decode, meaning, meaning_in,
  meaning_with,
}

-- What is read of `w` is read of `w ++ x` too, with `x` behind the bytes that are left; the bytes
-- left are at most `n`.
abbrev pub Extends : Decoded → Bytes → Decoded → Type 0
Extends need x d = Unit
Extends (failed e) x d = d ≡ failed e
Extends crashed x d = d ≡ crashed
Extends (got f r) x d = d ≡ got f (r ++ x)

abbrev pub Leaves : Decoded → ℕ → Type 0
Leaves (got f r) n = length r ≤ n
Leaves _ n = Unit

pub need-ne-got : (f : Frame) (r : Bytes) → need ≢ got f r
need-ne-got f r e = ground (arith, e)

Leaves-le : (d : Decoded) (m n : ℕ) → m ≤ n → Leaves d m → Leaves d n
Leaves-le need m n l v = tt
Leaves-le (failed e) m n l v = tt
Leaves-le crashed m n l v = tt
Leaves-le (got f r) m n l v = omega (arith, l, v)

module _ (x : Bytes) where
  checked-Extends {ℓ} :
      {A : Type ℓ} (c : Outcome Error A) (f g : A → Decoded)
      → ((a : A) → Extends (f a) x (g a))
      → Extends (checked c f) x (checked c g)
  checked-Extends (ok a) f g h = h a
  checked-Extends (err e) f g h = refl
  checked-Extends panic f g h = refl

  decode_payload-Extends :
      (h : FrameHeader) (ready : ℕ) (w : Bytes)
      → Extends (decode_payload h ready w) x (decode_payload h ready (w ++ x))
  unfolding decode_payload
  decode_payload-Extends h ready w = elim (Bool-cases (ltb (length w) h.payload_len)) [
    | inl short ↦ rw short tt
    | inr full ↦
        let l : h.payload_len ≤ length w = le_of_ltb-false _ _ full in
        rw
          (full, le→ltb_false (length (w ++ x)) h.payload_len (omega (arith, l, length-append w x)))
          (ap₂
            (λ (y r : Bytes). got (record { header = h; payload = unmask_from h.mask ready y }) r)
            (take-append h.payload_len w x l) (drop-append h.payload_len w x l))
  ]

  decode_mask-Extends :
      (h : FrameHeader) (w : Bytes) → Extends (decode_mask h w) x (decode_mask h (w ++ x))
  decode_mask-Extends h [] = tt
  decode_mask-Extends h (a ∷ []) = tt
  decode_mask-Extends h (a ∷ b ∷ []) = tt
  decode_mask-Extends h (a ∷ b ∷ c ∷ []) = tt
  decode_mask-Extends h (a ∷ b ∷ c ∷ d ∷ w) = decode_payload-Extends (with_key h a b c d) 0 w

  decode_key-Extends :
      (h : FrameHeader) (w : Bytes) → Extends (decode_key h w) x (decode_key h (w ++ x))
  unfolding decode_key
  decode_key-Extends h w = elim (Bool-cases h.masked) [
    | inl m ↦
        subst
          (λ b.
            Extends (if b then decode_mask h w else decode_payload h 0 w) x
              (if b then decode_mask h (w ++ x) else decode_payload h 0 (w ++ x)))
          (sym m) (decode_mask-Extends h w)
    | inr m ↦
        subst
          (λ b.
            Extends (if b then decode_mask h w else decode_payload h 0 w) x
              (if b then decode_mask h (w ++ x) else decode_payload h 0 (w ++ x)))
          (sym m) (decode_payload-Extends h 0 w)
  ]

  module _ (q : FrameParser) (b0 b1 : ℕ) (o : OpCode) where
    decode_sized-Extends :
        (len : ℕ) (w : Bytes)
        → Extends (decode_sized q b0 b1 o len w) x (decode_sized q b0 b1 o len (w ++ x))
    decode_sized-Extends len w =
        checked-Extends (check_size q o len) (λ _. decode_key (header_of b0 b1 o len none) w)
          (λ _. decode_key (header_of b0 b1 o len none) (w ++ x))
          (λ _. decode_key-Extends (header_of b0 b1 o len none) w)

    decode16-Extends : (w : Bytes) → Extends (decode16 q b0 b1 o w) x (decode16 q b0 b1 o (w ++ x))
    decode16-Extends [] = tt
    decode16-Extends (a ∷ []) = tt
    decode16-Extends (a ∷ b ∷ w) = elim (Bool-cases (ltb (be16 a b) 126)) [
      | inl e ↦ rw e
      | inr e ↦ rw e (decode_sized-Extends (be16 a b) w)
    ]

    decode64-Extends : (w : Bytes) → Extends (decode64 q b0 b1 o w) x (decode64 q b0 b1 o (w ++ x))
    decode64-Extends (s ∷ t ∷ u ∷ v ∷ a ∷ b ∷ c ∷ d ∷ w) =
        let n = be64 s t u v a b c d in
        checked-Extends (check_len64 n) (λ _. decode_sized q b0 b1 o n w)
          (λ _. decode_sized q b0 b1 o n (w ++ x)) (λ _. decode_sized-Extends n w)
    decode64-Extends _ = tt

    decode_len-Extends :
        (w : Bytes) → Extends (decode_len q b0 b1 o w) x (decode_len q b0 b1 o (w ++ x))
    unfolding decode_len
    decode_len-Extends w = elim (Bool-cases (leb (bit_and b1 0x7F) 125)) [
      | inl l ↦ rw l (decode_sized-Extends (bit_and b1 0x7F) w)
      | inr m ↦ elim (Bool-cases (bit_and b1 0x7F == 126)) [
        | inl e ↦ rw (m, e) (decode16-Extends w)
        | inr e ↦ rw (m, e) (decode64-Extends w)
      ]
    ]

  decode-Extends : (q : FrameParser) (w : Bytes) → Extends (decode q w) x (decode q (w ++ x))
  decode-Extends q [] = tt
  decode-Extends q (a ∷ []) = tt
  decode-Extends q (b0 ∷ b1 ∷ w) =
      checked-Extends (check_base q b0 b1) (λ o. decode_len q b0 b1 o w)
        (λ o. decode_len q b0 b1 o (w ++ x)) (λ o. decode_len-Extends q b0 b1 o w)

stored :
    (p : FrameParser) (b x : Bytes)
    → Extends (decode (reset p) (p.header_buf ++ b)) x (decode (reset p) (p.header_buf ++ (b ++ x)))
stored p b x =
    subst (λ w. Extends (decode (reset p) (p.header_buf ++ b)) x (decode (reset p) w))
      (append_assoc p.header_buf b x) (decode-Extends x (reset p) (p.header_buf ++ b))

by_state :
    (s : ParseState) (p : FrameParser) (b x : Bytes)
    → Extends (meaning_in s p b) x (meaning_in s p (b ++ x))
by_state ParseState.header p b x = decode-Extends x (reset p) b
by_state ParseState.extended_len16 p b x = stored p b x
by_state ParseState.extended_len64 p b x = stored p b x
by_state ParseState.mask p b x = stored p b x
by_state ParseState.payload p b x = held p.header
  where
    held : (m : Option FrameHeader) → Extends (meaning_with m p b) x (meaning_with m p (b ++ x))
    held none = refl
    held (some h) = decode_payload-Extends x h p.payload_ready b
by_state ParseState.frame_too_large p b x = refl

-- What a parser and its buffer mean stays what it is when more bytes arrive behind them.
pub meaning-Extends : (p : FrameParser) (b x : Bytes) → Extends (meaning p b) x (meaning p (b ++ x))
meaning-Extends p b x = by_state p.state p b x

checked-Leaves {ℓ} :
    {A : Type ℓ} (c : Outcome Error A) (f : A → Decoded) (n : ℕ)
    → ((a : A) → Leaves (f a) n)
    → Leaves (checked c f) n
checked-Leaves (ok a) f n h = h a
checked-Leaves (err e) f n h = tt
checked-Leaves panic f n h = tt

decode_payload-Leaves :
    (h : FrameHeader) (ready : ℕ) (w : Bytes) → Leaves (decode_payload h ready w) (length w)
unfolding decode_payload
decode_payload-Leaves h ready w = elim (Bool-cases (ltb (length w) h.payload_len)) [
  | inl short ↦ rw short tt
  | inr full ↦ rw full (omega (arith, length-drop h.payload_len w))
]

decode_mask-Leaves : (h : FrameHeader) (w : Bytes) → Leaves (decode_mask h w) (length w)
decode_mask-Leaves h [] = tt
decode_mask-Leaves h (a ∷ []) = tt
decode_mask-Leaves h (a ∷ b ∷ []) = tt
decode_mask-Leaves h (a ∷ b ∷ c ∷ []) = tt
decode_mask-Leaves h (a ∷ b ∷ c ∷ d ∷ w) =
    Leaves-le (decode_payload (with_key h a b c d) 0 w) (length w) (length (a ∷ b ∷ c ∷ d ∷ w))
      (omega arith) (decode_payload-Leaves (with_key h a b c d) 0 w)

decode_key-Leaves : (h : FrameHeader) (w : Bytes) → Leaves (decode_key h w) (length w)
unfolding decode_key
decode_key-Leaves h w = elim (Bool-cases h.masked) [
  | inl m ↦
      subst (λ b. Leaves (if b then decode_mask h w else decode_payload h 0 w) (length w)) (sym m)
        (decode_mask-Leaves h w)
  | inr m ↦
      subst (λ b. Leaves (if b then decode_mask h w else decode_payload h 0 w) (length w)) (sym m)
        (decode_payload-Leaves h 0 w)
]

module _ (q : FrameParser) (b0 b1 : ℕ) (o : OpCode) where
  decode_sized-Leaves :
      (len : ℕ) (w : Bytes) (n : ℕ) → length w ≤ n → Leaves (decode_sized q b0 b1 o len w) n
  decode_sized-Leaves len w n l =
      checked-Leaves (check_size q o len) (λ _. decode_key (header_of b0 b1 o len none) w) n
        (λ _.
          Leaves-le (decode_key (header_of b0 b1 o len none) w) (length w) n l
            (decode_key-Leaves (header_of b0 b1 o len none) w))

  decode16-Leaves : (w : Bytes) → Leaves (decode16 q b0 b1 o w) (length w)
  decode16-Leaves [] = tt
  decode16-Leaves (a ∷ []) = tt
  decode16-Leaves (a ∷ b ∷ w) = elim (Bool-cases (ltb (be16 a b) 126)) [
    | inl e ↦ rw e tt
    | inr e ↦ rw e (decode_sized-Leaves (be16 a b) w (length (a ∷ b ∷ w)) (omega arith))
  ]

  decode64-Leaves : (w : Bytes) → Leaves (decode64 q b0 b1 o w) (length w)
  decode64-Leaves (s ∷ t ∷ u ∷ v ∷ a ∷ b ∷ c ∷ d ∷ w) =
      let n = be64 s t u v a b c d in
      checked-Leaves (check_len64 n) (λ _. decode_sized q b0 b1 o n w)
        (length (s ∷ t ∷ u ∷ v ∷ a ∷ b ∷ c ∷ d ∷ w))
        (λ _. decode_sized-Leaves n w (length (s ∷ t ∷ u ∷ v ∷ a ∷ b ∷ c ∷ d ∷ w)) (omega arith))
  decode64-Leaves _ = tt

  decode_len-Leaves : (w : Bytes) → Leaves (decode_len q b0 b1 o w) (length w)
  unfolding decode_len
  decode_len-Leaves w = elim (Bool-cases (leb (bit_and b1 0x7F) 125)) [
    | inl l ↦ rw l (decode_sized-Leaves (bit_and b1 0x7F) w (length w) (omega arith))
    | inr m ↦ elim (Bool-cases (bit_and b1 0x7F == 126)) [
      | inl e ↦ rw (m, e) (decode16-Leaves w)
      | inr e ↦ rw (m, e) (decode64-Leaves w)
    ]
  ]

-- A frame takes at least its two base bytes.
pub decode-Leaves :
    (q : FrameParser) (w : Bytes) (f : Frame) (r : Bytes)
    → decode q w ≡ got f r
    → length r + 2 ≤ length w
decode-Leaves q [] f r e = absurd (need-ne-got f r e)
decode-Leaves q (a ∷ []) f r e = absurd (need-ne-got f r e)
decode-Leaves q (b0 ∷ b1 ∷ w) f r e =
    let l : Leaves (got f r) (length w) =
      subst (λ d. Leaves d (length w)) e
        (checked-Leaves (check_base q b0 b1) (λ o. decode_len q b0 b1 o w) (length w)
          (λ o. decode_len-Leaves q b0 b1 o w)) in
    omega (arith, l)

Leaves-of :
    (d : Decoded) (n : ℕ) → ((f : Frame) (r : Bytes) → d ≡ got f r → length r ≤ n) → Leaves d n
Leaves-of need n h = tt
Leaves-of (failed e) n h = tt
Leaves-of crashed n h = tt
Leaves-of (got f r) n h = h f r refl

-- Behind a frame that starts at a byte, at most the bytes after that one are left.
pub decode-cons-Leaves :
    (q : FrameParser) (b : ℕ) (w : Bytes) → Leaves (decode q (b ∷ w)) (length w)
decode-cons-Leaves q b w =
    Leaves-of (decode q (b ∷ w)) (length w) (λ f r e. omega (arith, decode-Leaves q (b ∷ w) f r e))

stored-Leaves :
    (p : FrameParser) (b : Bytes)
    → Leaves (decode (reset p) (p.header_buf ++ b)) (length p.header_buf + length b)
stored-Leaves p b =
    Leaves-of (decode (reset p) (p.header_buf ++ b)) (length p.header_buf + length b) (λ f r e.
      omega
        (arith, decode-Leaves (reset p) (p.header_buf ++ b) f r e, length-append p.header_buf b))

Leaves-in :
    (s : ParseState) (p : FrameParser) (b : Bytes)
    → Leaves (meaning_in s p b) (length p.header_buf + length b)
Leaves-in ParseState.header p b =
    Leaves-of (decode (reset p) b) (length p.header_buf + length b)
      (λ f r e. omega (arith, decode-Leaves (reset p) b f r e))
Leaves-in ParseState.extended_len16 p b = stored-Leaves p b
Leaves-in ParseState.extended_len64 p b = stored-Leaves p b
Leaves-in ParseState.mask p b = stored-Leaves p b
Leaves-in ParseState.payload p b = held p.header
  where
    held : (m : Option FrameHeader) → Leaves (meaning_with m p b) (length p.header_buf + length b)
    held none = tt
    held (some h) =
        Leaves-le (decode_payload h p.payload_ready b) (length b) (length p.header_buf + length b)
          (omega arith) (decode_payload-Leaves h p.payload_ready b)
Leaves-in ParseState.frame_too_large p b = tt

-- A frame takes at most what the parser has stored of it and the buffer.
pub meaning-Leaves :
    (p : FrameParser) (b : Bytes) → Leaves (meaning p b) (length p.header_buf + length b)
meaning-Leaves p b = Leaves-in p.state p b
