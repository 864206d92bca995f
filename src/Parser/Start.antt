-- ===== src/Parser/Start.antt =====
-- The Header arm of `parse_slow` agrees with the format.
use sockudo_ws.Base.{
  ℕ, ◌+◌, ◌-◌, ◌<◌, ◌≤◌, min, ltb, leb, Bool-cases, le_of_ltb-false, ltb→lt, le→ltb_false, leb→le,
  if◌then◌else◌, Bool, true, false, Option, none, some, [], ◌∷◌, ◌++◌, length, take, drop, Bytes,
  ◌≡◌, refl, sym, ap, ◌∙◌, arith, inl, inr, length-append, length-take, take_all, drop_all,
  take-append-drop, drop-length-append, drop-append_ge, Outcome, ok, err, panic,
}
use mathlib.Core.Path.{ap₂, subst}
use mathlib.Core.List.{append_assoc, append-nil}
use sockudo_ws.Error.{Error}
use sockudo_ws.Mask.{MaskKey}
use sockudo_ws.Mask.Apply.{apply_mask-mask_from}
use sockudo_ws.Frame.{OpCode, FrameHeader}
use sockudo_ws.Parser.Types.{ParseState, FrameParser, Parsed, reset}
use sockudo_ws.Parser.Slow.{
  header_base, header_of, has_flag, mask_at, check_size, when_ok, parse_payload,
}
use sockudo_ws.Parser.Header.{header_complete, header_sized, apply_mask_if, mask_if}
use sockudo_ws.Parser.Spec.{
  got, checked, unmask_from, decode, decode_mask, decode_key, decode_payload, decode_sized, meaning,
  meaning_in,
}
use sockudo_ws.Parser.Resume.{AgreesAt, Agrees-trans}
use native.Mathlib.Nat.{add-zero}
use sockudo_ws.Parser.Extended.{check_size-reset, check_size-ne-panic}
use sockudo_ws.Parser.Payload.{parse_payload-Agrees}
use sockudo_ws.Parser.Mask.{mask_at-append, decode_mask_short, decode_mask_full}

apply_mask_if-unmask_from :
    (m : Option MaskKey) (xs : Bytes) → apply_mask_if m xs ≡ unmask_from m 0 xs
apply_mask_if-unmask_from none xs = refl
apply_mask_if-unmask_from (some k) xs = apply_mask-mask_from 0 xs k

decode_payload_complete :
    (h : FrameHeader) (b : Bytes)
    → h.payload_len ≤ length b
    → decode_payload h 0 b
      ≡ got
          (record { header = h; payload = apply_mask_if h.mask (take h.payload_len b) })
          (drop h.payload_len b)
unfolding decode_payload
decode_payload_complete h b l = rw (le→ltb_false _ _ l) (
    ap (λ (y : Bytes). got (record { header = h; payload = y }) (drop h.payload_len b))
      (sym (apply_mask_if-unmask_from h.mask (take h.payload_len b))))

mask_at-take : (z : Bytes) → 4 ≤ length z → mask_at (take 4 z) 0 ≡ mask_at z 0
mask_at-take (a ∷ b ∷ c ∷ d ∷ z) l = refl
mask_at-take [] l = absurd (omega arith)
mask_at-take (a ∷ []) l = absurd (omega arith)
mask_at-take (a ∷ b ∷ []) l = absurd (omega arith)
mask_at-take (a ∷ b ∷ c ∷ []) l = absurd (omega arith)

module _ (p : FrameParser) (st : p.state ≡ ParseState.header) (fresh : p.payload_ready ≡ 0) where
  -- The header is complete, and the rest of the buffer is its payload.
  header_complete-Agrees :
      (h : FrameHeader) (buf rest : Bytes)
      → ((x : Bytes) → meaning p (buf ++ x) ≡ decode_payload h 0 (rest ++ x))
      → AgreesAt p buf (header_complete p h rest)
  unfolding header_complete
  header_complete-Agrees h buf rest m = elim (Bool-cases (leb h.payload_len (length rest))) [
    | inl full ↦ rw full (
      ap (meaning p) (sym (append-nil buf))
          ∙ m []
          ∙ ap (decode_payload h 0) (append-nil rest)
          ∙ decode_payload_complete h rest (leb→le _ _ full),
      st,
      fresh,
      refl,
    )
    | inr part ↦ rw part (
        let p1 = record p { header = some h; state = ParseState.payload } in
        Agrees-trans p p1 buf rest (parse_payload p1 rest) refl
          (λ x. ap (λ r. decode_payload h r (rest ++ x)) fresh ∙ sym (m x))
          (parse_payload-Agrees p1 h rest refl refl (omega (arith, fresh))))
  ]

  -- From the payload length on.
  module _ (b0 b1 : ℕ) (ext z : Bytes) (o : OpCode) (len size : ℕ) (sized : 2 + length ext ≡ size)
      (base : size ≡ header_base len)
      (reads : (y : Bytes)
        → decode (reset p) (b0 ∷ b1 ∷ (ext ++ y)) ≡ decode_sized (reset p) b0 b1 o len y) where
    abbrev h : FrameHeader
    h = header_of b0 b1 o len none

    abbrev pre : Bytes
    pre = b0 ∷ b1 ∷ ext

    abbrev buf : Bytes
    buf = b0 ∷ b1 ∷ (ext ++ z)

    pre_size : length pre ≡ size
    pre_size = omega (arith, sized)

    behind : drop size buf ≡ z
    behind = ap (λ n. drop n buf) (sym pre_size) ∙ drop-length-append pre z

    meaning_keyed :
        check_size (reset p) o len ≡ ok tt
        → (y : Bytes) → meaning p (b0 ∷ b1 ∷ (ext ++ y)) ≡ decode_key h y
    meaning_keyed fine y =
        ap (λ s. meaning_in s p (b0 ∷ b1 ∷ (ext ++ y))) st
        ∙ reads y
        ∙ ap (λ c. checked c (λ _. decode_key h y)) fine

    plain-Agrees :
        check_size (reset p) o len ≡ ok tt
        → has_flag 0x80 b1 ≡ false
        → AgreesAt p buf (header_complete p (header_of b0 b1 o len none) (drop size buf))
    unfolding decode_key
    plain-Agrees fine flag =
        header_complete-Agrees (header_of b0 b1 o len none) buf (drop size buf) (λ x.
          ap (meaning p) (append_assoc pre z x)
          ∙ meaning_keyed fine (z ++ x)
          ∙ ap (λ m. if m then decode_mask h (z ++ x) else decode_payload h 0 (z ++ x)) flag
          ∙ ap (λ c. decode_payload h 0 (c ++ x)) (sym behind))

    meaning_masked :
        check_size (reset p) o len ≡ ok tt
        → has_flag 0x80 b1 ≡ true
        → (y : Bytes) → decode (reset p) (pre ++ y) ≡ decode_mask h y
    unfolding decode_key
    meaning_masked fine flag y =
        reads y
        ∙ ap (λ c. checked c (λ _. decode_key h y)) fine
        ∙ ap (λ m. if m then decode_mask h y else decode_payload h 0 y) flag

    at_header : (x : Bytes) → meaning p x ≡ decode (reset p) x
    at_header x = ap (λ s. meaning_in s p x) st

    all_copied : length z < 4 → length buf ≤ min (length buf) 14
    all_copied l = ground (arith, length-append pre z, pre_size, base)

    masked_wait :
        check_size (reset p) o len ≡ ok tt
        → has_flag 0x80 b1 ≡ true
        → length z < 4
        → AgreesAt p buf (
          ok none,
          record p {
            header_buf = take (min (length buf) 14) buf;
            header = some h;
            state = ParseState.mask;
          },
          drop (min (length buf) 14) buf,
        )
    masked_wait fine flag l =
        subst
          (λ c. AgreesAt p buf (
            ok none,
            record p { header_buf = c; header = some h; state = ParseState.mask },
            drop (min (length buf) 14) buf,
          ))
          (sym (take_all (min (length buf) 14) buf (all_copied l)))
          (subst
            (λ c.
              AgreesAt p buf (
                ok none,
                record p { header_buf = buf; header = some h; state = ParseState.mask },
                c,
              ))
            (sym (drop_all (min (length buf) 14) buf (all_copied l)))
            (
              at_header buf ∙ meaning_masked fine flag z ∙ decode_mask_short h z l,
              record {
                h = h;
                pre = pre;
                t = z;
                header_is = refl;
                stored = refl;
                size = pre_size ∙ base;
                short = l;
                reads = meaning_masked fine flag;
                fresh = fresh;
              },
              refl,
              λ x. sym (at_header (buf ++ x)),
            ))

    masked-Agrees :
        check_size (reset p) o len ≡ ok tt
        → has_flag 0x80 b1 ≡ true
        → 4 ≤ length z
        → AgreesAt p buf (
            header_complete p
              (header_of b0 b1 o len (some (mask_at buf size)))
              (drop (size + 4) buf))
    masked-Agrees fine flag l =
        header_complete-Agrees (header_of b0 b1 o len (some (mask_at buf size))) buf
          (drop (size + 4) buf)
          (λ x.
            ap (meaning p) (append_assoc pre z x)
            ∙ at_header (pre ++ (z ++ x))
            ∙ meaning_masked fine flag (z ++ x)
            ∙ ap (λ c. decode_mask h (c ++ x)) (sym (take-append-drop 4 z))
            ∙ ap (decode_mask h) (append_assoc (take 4 z) (drop 4 z) x)
            ∙ decode_mask_full h (take 4 z) (drop 4 z ++ x) (omega (arith, length-take 4 z))
            ∙ ap₂ (λ k c. decode_payload (header_of b0 b1 o len (some k)) 0 (c ++ x)) same_key
                same_rest)
      where
        same_key : mask_at (take 4 z) 0 ≡ mask_at buf size
        same_key = mask_at-take z l ∙ sym (mask_at-append pre z size pre_size)

        four : 4 ≡ size + 4 - length pre
        four = omega (arith, pre_size)

        same_rest : drop 4 z ≡ drop (size + 4) buf
        same_rest =
            ap (λ n. drop n z) four
            ∙ sym (drop-append_ge (size + 4) pre z (omega (arith, pre_size)))

    abbrev after : Bool → Parsed
    after masked =
        if ltb (length buf) (size + (if masked then 4 else 0))
        then (
          ok none,
          record p {
            header_buf = take (min (length buf) 14) buf;
            header = some h;
            state = ParseState.mask;
          },
          drop (min (length buf) 14) buf,
        )
        else header_complete p (header_of b0 b1 o len (mask_if masked buf size))
            (drop (size + (if masked then 4 else 0)) buf)

    buf_size : length buf ≡ size + length z
    buf_size = omega (arith, length-append pre z, pre_size)

    sized_plain :
        check_size (reset p) o len ≡ ok tt → has_flag 0x80 b1 ≡ false → AgreesAt p buf (after false)
    sized_plain fine flag = rw (le→ltb_false (length buf) (size + 0) (omega (arith, buf_size))) (
        subst (λ n. AgreesAt p buf (header_complete p (header_of b0 b1 o len none) (drop n buf)))
          (sym (add-zero size)) (plain-Agrees fine flag))

    sized_masked :
        check_size (reset p) o len ≡ ok tt → has_flag 0x80 b1 ≡ true → AgreesAt p buf (after true)
    sized_masked fine flag = elim (Bool-cases (ltb (length buf) (size + 4))) [
      | inl short ↦ rw short (masked_wait fine flag (omega (arith, buf_size, ltb→lt _ _ short)))
      | inr full ↦
          rw full (masked-Agrees fine flag (omega (arith, buf_size, le_of_ltb-false _ _ full)))
    ]

    by_size :
        (c : Outcome Error (Unit {0}))
        → check_size (reset p) o len ≡ c
        → AgreesAt p buf (when_ok c p buf (after (has_flag 0x80 b1)))
    by_size (ok tt) e = elim (Bool-cases (has_flag 0x80 b1)) [
      | inl flag ↦ subst (λ m. AgreesAt p buf (after m)) (sym flag) (sized_masked e flag)
      | inr flag ↦ subst (λ m. AgreesAt p buf (after m)) (sym flag) (sized_plain e flag)
    ]
    by_size (err x) e = at_header buf ∙ reads z ∙ ap (λ c. checked c (λ _. decode_key h z)) e
    by_size panic e = absurd (check_size-ne-panic (reset p) o len e)

    pub header_sized-Agrees : AgreesAt p buf (header_sized p buf o len size)
    unfolding header_sized
    header_sized-Agrees =
        subst (λ c. AgreesAt p buf (when_ok c p buf (after (has_flag 0x80 b1))))
          (sym (check_size-reset p o len)) (by_size (check_size (reset p) o len) refl)
