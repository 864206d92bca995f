-- ===== src/Parser/Extended.antt =====
-- The ExtendedLen arms of `parse_slow`: the bytes of the length may arrive one by one.
use sockudo_ws.Base.{
  ℕ, ◌+◌, bit_and, Bool-cases, if◌then◌else◌, true, false, none, some, [], ◌∷◌, ◌++◌, length, Bytes,
  ◌≡◌, ◌≢◌, refl, sym, ap, ◌∙◌, arith, inl, inr, Outcome, ok, err, panic,
}
use mathlib.Core.Path.{subst}
use mathlib.Core.List.{append-nil}
use sockudo_ws.Error.{Error}
use sockudo_ws.Frame.{OpCode, FrameHeader, from_u8}
use sockudo_ws.Parser.Types.{ParseState, FrameParser, reset}
use sockudo_ws.Parser.Slow.{
  header_base, header_of, check_base, check_opcode, check_size, header_if_sized,
  parse_header_with_len, continue_with, continue_with_len, parse_mask, parse_payload, has_flag,
}
use sockudo_ws.Parser.Spec.{
  checked, decode, decode_mask, decode_key, decode_sized, decode_payload, meaning,
}
use sockudo_ws.Parser.Resume.{AgreesAt, Agrees-trans}
use sockudo_ws.Parser.Payload.{parse_payload-Agrees}
use sockudo_ws.Parser.Mask.{parse_mask-Agrees}

pub check_base-opcode :
    (p : FrameParser) (b0 b1 : ℕ) (o : OpCode)
    → check_base p b0 b1 ≡ ok o
    → from_u8 (bit_and b0 0x0F) ≡ some o
unfolding check_base check_opcode
check_base-opcode p b0 b1 o h = ground arith

pub check_size-reset :
    (p : FrameParser) (o : OpCode) (len : ℕ) → check_size p o len ≡ check_size (reset p) o len
unfolding check_size
check_size-reset p o len = refl

pub check_size-ne-panic : (p : FrameParser) (o : OpCode) (len : ℕ) → check_size p o len ≢ panic
unfolding check_size
check_size-ne-panic p o len h = ground arith

-- The length is complete: what follows agrees with the format.
module _ (p : FrameParser) (b0 b1 : ℕ) (t b : Bytes) (o : OpCode) (len : ℕ)
    (stored : p.header_buf ≡ b0 ∷ b1 ∷ t) (base : check_base (reset p) b0 b1 ≡ ok o)
    (size : 2 + length t ≡ header_base len) (fresh : p.payload_ready ≡ 0)
    (reads : (x : Bytes)
      → decode (reset p) (p.header_buf ++ x) ≡ decode_sized (reset p) b0 b1 o len x)
    (here : (x : Bytes) → meaning p x ≡ decode (reset p) (p.header_buf ++ x)) where
  abbrev h : FrameHeader
  h = header_of b0 b1 o len none

  parse_header_with_len_lem :
      parse_header_with_len p len ≡ header_if_sized b0 b1 o len (check_size (reset p) o len)
  unfolding parse_header_with_len
  parse_header_with_len_lem =
      ground (arith, stored, check_base-opcode (reset p) b0 b1 o base, check_size-reset p o len)

  sized_key :
      check_size (reset p) o len ≡ ok tt
      → (x : Bytes) → decode (reset p) (p.header_buf ++ x) ≡ decode_key h x
  sized_key fine x = reads x ∙ ap (λ c. checked c (λ _. decode_key h x)) fine

  abbrev in_mask : FrameParser
  in_mask = record p { header = some h; state = ParseState.mask }

  abbrev in_payload : FrameParser
  in_payload = record p { header = some h; state = ParseState.payload }

  masked_on :
      check_size (reset p) o len ≡ ok tt
      → has_flag 0x80 b1 ≡ true
      → AgreesAt p b (parse_mask in_mask b)
  unfolding decode_key
  masked_on fine flag =
      Agrees-trans p in_mask b b (parse_mask in_mask b) refl (λ x. sym (here (b ++ x)))
        (parse_mask-Agrees in_mask b refl (record {
          h = h;
          pre = p.header_buf;
          t = [];
          header_is = refl;
          stored = sym (append-nil p.header_buf);
          size = ap length stored ∙ omega (arith, size);
          short = omega arith;
          reads = λ x.
              sized_key fine x ∙ ap (λ m. if m then decode_mask h x else decode_payload h 0 x) flag;
          fresh = fresh;
        }))

  plain_on :
      check_size (reset p) o len ≡ ok tt
      → has_flag 0x80 b1 ≡ false
      → AgreesAt p b (parse_payload in_payload b)
  unfolding decode_key
  plain_on fine flag =
      Agrees-trans p in_payload b b (parse_payload in_payload b) refl
        (λ x.
          ap (λ r. decode_payload h r (b ++ x)) fresh
          ∙ sym (
              here (b ++ x)
              ∙ sized_key fine (b ++ x)
              ∙ ap (λ m. if m then decode_mask h (b ++ x) else decode_payload h 0 (b ++ x)) flag))
        (parse_payload-Agrees in_payload h b refl refl (omega (arith, fresh)))

  -- Both ways on, by the mask flag.
  continue_sized : check_size (reset p) o len ≡ ok tt → AgreesAt p b (continue_with (ok h) p b)
  continue_sized fine = elim (Bool-cases (has_flag 0x80 b1)) [
    | inl masked ↦
        subst (λ m. AgreesAt p b (if m then parse_mask in_mask b else parse_payload in_payload b))
          (sym masked) (masked_on fine masked)
    | inr plain ↦
        subst (λ m. AgreesAt p b (if m then parse_mask in_mask b else parse_payload in_payload b))
          (sym plain) (plain_on fine plain)
  ]

  by_size :
      (c : Outcome Error (Unit {0}))
      → check_size (reset p) o len ≡ c
      → AgreesAt p b (continue_with (header_if_sized b0 b1 o len c) p b)
  by_size (ok tt) e = continue_sized e
  by_size (err x) e = here b ∙ reads b ∙ ap (λ c. checked c (λ _. decode_key h b)) e
  by_size panic e = check_size-ne-panic (reset p) o len e

  pub continue-Agrees : AgreesAt p b (continue_with_len p len b)
  continue-Agrees =
      subst (λ r. AgreesAt p b (continue_with r p b)) (sym parse_header_with_len_lem)
        (by_size (check_size (reset p) o len) refl)
