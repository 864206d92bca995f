-- ===== src/Parser/Waits.antt =====
-- The arms ExtendedLen16 and ExtendedLen64 of `parse_slow` agree with the format.
use sockudo_ws.Base.{
  ◌+◌, ◌-◌, ◌<◌, ltb, Bool-cases, le_of_ltb-false, ltb→lt, [], ◌++◌, length, take, Bytes, ◌≡◌, sym,
  ap, arith, inl, inr, length-append,
}
use mathlib.Core.Path.{subst}
use sockudo_ws.Parser.Types.{ParseState, FrameParser, reset}
use sockudo_ws.Parser.Slow.{
  extended_len16_with, extended_len64_with, parse_extended_len16, parse_extended_len64,
}
use sockudo_ws.Parser.Spec.{decode16, decode64, meaning_in}
use sockudo_ws.Parser.Resume.{AgreesAt, InLen, InvIn}
use sockudo_ws.Parser.Length.{len_short, len_full}
use sockudo_ws.Parser.Arms.{
  value16, check16, value64, check64, check16-ne-panic, check_len64-ne-panic, is_tail16, is_tail64,
  tail_short16, tail_full16, tail_short64, tail_full64, sized16, sized64, extended_len16_full,
  extended_len64_full, extended_len16_short, extended_len64_short,
}

module _ (p : FrameParser) (b : Bytes) (fresh : p.payload_ready ≡ 0) where
  pub extended_len16-Agrees :
      p.state ≡ ParseState.extended_len16
      → InLen p 2 (λ l. l ≡ 126)
      → AgreesAt p b (parse_extended_len16 p b)
  extended_len16-Agrees st m =
      subst (λ hb. AgreesAt p b (extended_len16_with hb p b)) (sym m.stored)
        (elim (Bool-cases (ltb (length m.t + length b) 2)) [
          | inl short ↦
              subst (AgreesAt p b) (sym (extended_len16_short m.b0 m.b1 m.t p b (ltb→lt _ _ short)))
                (len_short p m.b0 m.b1 m.t m.o 2 (decode16 (reset p) m.b0 m.b1 m.o) check16 value16
                  m.stored m.base m.short fresh (is_tail16 (reset p) m.b0 m.b1 m.o m.len_byte)
                  (tail_short16 (reset p) m.b0 m.b1 m.o) (tail_full16 (reset p) m.b0 m.b1 m.o)
                  sized16 (λ hb x. ap (λ s. meaning_in s (record p { header_buf = hb }) x) st) b
                  (ltb→lt _ _ short)
                  (subst (λ s. InvIn s (record p { header_buf = p.header_buf ++ b }) []) (sym st)
                    (
                      record {
                        b0 = m.b0;
                        b1 = m.b1;
                        t = m.t ++ b;
                        o = m.o;
                        stored = ap (λ c. c ++ b) m.stored;
                        base = m.base;
                        len_byte = m.len_byte;
                        short = omega (arith, length-append m.t b, ltb→lt _ _ short);
                      },
                      fresh,
                    )))
          | inr full ↦
              subst (AgreesAt p b)
                (sym (extended_len16_full m.b0 m.b1 m.t p b m.short (le_of_ltb-false _ _ full)))
                (len_full p m.b0 m.b1 m.t m.o 2 (decode16 (reset p) m.b0 m.b1 m.o) check16 value16
                  m.stored m.base m.short fresh (is_tail16 (reset p) m.b0 m.b1 m.o m.len_byte)
                  (tail_short16 (reset p) m.b0 m.b1 m.o) (tail_full16 (reset p) m.b0 m.b1 m.o)
                  sized16 (λ hb x. ap (λ s. meaning_in s (record p { header_buf = hb }) x) st) b
                  (le_of_ltb-false _ _ full) (check16-ne-panic (m.t ++ take (2 - length m.t) b)))
        ])

  pub extended_len64-Agrees :
      p.state ≡ ParseState.extended_len64
      → InLen p 8 (λ l. 126 < l)
      → AgreesAt p b (parse_extended_len64 p b)
  extended_len64-Agrees st m =
      subst (λ hb. AgreesAt p b (extended_len64_with hb p b)) (sym m.stored)
        (elim (Bool-cases (ltb (length m.t + length b) 8)) [
          | inl short ↦
              subst (AgreesAt p b) (sym (extended_len64_short m.b0 m.b1 m.t p b (ltb→lt _ _ short)))
                (len_short p m.b0 m.b1 m.t m.o 8 (decode64 (reset p) m.b0 m.b1 m.o) check64 value64
                  m.stored m.base m.short fresh (is_tail64 (reset p) m.b0 m.b1 m.o m.len_byte)
                  (tail_short64 (reset p) m.b0 m.b1 m.o) (tail_full64 (reset p) m.b0 m.b1 m.o)
                  sized64 (λ hb x. ap (λ s. meaning_in s (record p { header_buf = hb }) x) st) b
                  (ltb→lt _ _ short)
                  (subst (λ s. InvIn s (record p { header_buf = p.header_buf ++ b }) []) (sym st)
                    (
                      record {
                        b0 = m.b0;
                        b1 = m.b1;
                        t = m.t ++ b;
                        o = m.o;
                        stored = ap (λ c. c ++ b) m.stored;
                        base = m.base;
                        len_byte = m.len_byte;
                        short = omega (arith, length-append m.t b, ltb→lt _ _ short);
                      },
                      fresh,
                    )))
          | inr full ↦
              subst (AgreesAt p b)
                (sym (extended_len64_full m.b0 m.b1 m.t p b m.short (le_of_ltb-false _ _ full)))
                (len_full p m.b0 m.b1 m.t m.o 8 (decode64 (reset p) m.b0 m.b1 m.o) check64 value64
                  m.stored m.base m.short fresh (is_tail64 (reset p) m.b0 m.b1 m.o m.len_byte)
                  (tail_short64 (reset p) m.b0 m.b1 m.o) (tail_full64 (reset p) m.b0 m.b1 m.o)
                  sized64 (λ hb x. ap (λ s. meaning_in s (record p { header_buf = hb }) x) st) b
                  (le_of_ltb-false _ _ full)
                  (check_len64-ne-panic (value64 (m.t ++ take (8 - length m.t) b))))
        ])
