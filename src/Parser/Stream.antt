-- ===== src/Parser/Stream.antt =====
-- `FrameParser::parse` of src/frame.rs call by call: what it returns, and that the chunks in which
-- the bytes arrive make no difference.
use sockudo_ws.Base.{
  Option, none, some, ◌++◌, Bytes, ◌≡◌, ◌≢◌, sym, ap, ◌∙◌, arith, ok, err, panic, length-append,
}
use mathlib.Core.Path.{subst}
use sockudo_ws.Frame.{Frame}
use sockudo_ws.Parser.Types.{ParseState, FrameParser, Parsed, reset}
use sockudo_ws.Parser.Fast.{parse}
use sockudo_ws.Parser.Equal.{parse-parse_slow}
use sockudo_ws.Parser.Spec.{Decoded, need, failed, crashed, got, meaning, meaning_in, decode}
use sockudo_ws.Parser.Resume.{Agrees, AgreesAt, Inv, InvIn}
use sockudo_ws.Parser.Correct.{parse_slow-Agrees}

-- The result of a call as the reading of the buffer that it is.
abbrev pub seen : Parsed → Decoded
seen (ok none, p, b) = need
seen (ok (some f), p, b) = got f b
seen (err e, p, b) = failed e
seen (panic, p, b) = crashed

pub parse-Agrees : (p : FrameParser) (b : Bytes) → Inv p b → AgreesAt p b (parse p b)
parse-Agrees p b i = subst (AgreesAt p b) (sym (parse-parse_slow p b)) (parse_slow-Agrees p b i)

seen-Agrees : (p : FrameParser) (b : Bytes) (r : Parsed) → AgreesAt p b r → seen r ≡ meaning p b
seen-Agrees p b (ok none, p', b') a = sym a.0
seen-Agrees p b (ok (some f), p', b') a = sym a.0
seen-Agrees p b (err e, p', b') a = sym a
seen-Agrees p b (panic, p', b') a = absurd a

parse-seen : (p : FrameParser) (b : Bytes) → Inv p b → seen (parse p b) ≡ meaning p b
parse-seen p b i = seen-Agrees p b (parse p b) (parse-Agrees p b i)

result-ne-panic : (p : FrameParser) (b : Bytes) (r : Parsed) → AgreesAt p b r → r.0 ≢ panic
result-ne-panic p b (ok none, p', b') a e = ground (arith, e)
result-ne-panic p b (ok (some f), p', b') a e = ground (arith, e)
result-ne-panic p b (err x, p', b') a e = ground (arith, e)
result-ne-panic p b (panic, p', b') a e = a

-- A parser that satisfies the invariant returns what the bytes that it stored and the buffer mean
-- in the frame format: a frame with the bytes behind it left in the buffer, the format's error, or
-- nothing when the frame is not complete. It does not panic.
pub parse-meaning :
    (p : FrameParser) (b : Bytes)
    → Inv p b
    → (seen (parse p b) ≡ meaning p b) × ((parse p b).0 ≢ panic)
parse-meaning p b i = (parse-seen p b i, result-ne-panic p b (parse p b) (parse-Agrees p b i))

-- A parser that stands at the start of a frame reads the buffer as the frame format says.
pub parse-decode :
    (p : FrameParser) (b : Bytes)
    → p.state ≡ ParseState.header
    → p.payload_ready ≡ 0
    → seen (parse p b) ≡ decode (reset p) b
parse-decode p b st z =
    parse-seen p b (subst (λ s. InvIn s p b) (sym st) z) ∙ ap (λ s. meaning_in s p b) st

Agrees-Inv :
    (p : FrameParser) (b : Bytes) (o : Option Frame) (p' : FrameParser) (b' : Bytes)
    → Agrees p b (ok o) p' b'
    → Inv p' b' × (reset p' ≡ reset p)
Agrees-Inv p b none p' b' (m, i, c, f) = (i, c)
Agrees-Inv p b (some f) p' b' (m, st, z, c) = (subst (λ s. InvIn s p' b') (sym st) z, c)

at_result :
    (p : FrameParser) (b : Bytes) (o : Option Frame) (r : Parsed)
    → r.0 ≡ ok o
    → AgreesAt p b r
    → Inv r.1 r.2 × (reset r.1 ≡ reset p)
at_result p b o (x, p', b') e a = Agrees-Inv p b o p' b' (subst (λ y. Agrees p b y p' b') e a)

-- A call that returns no error leaves a parser that satisfies the invariant with the buffer that it
-- leaves, and the frame limit, the mask mode and the RSV1 mode as they were.
pub parse-Inv :
    (p : FrameParser) (b : Bytes) (o : Option Frame)
    → Inv p b
    → (parse p b).0 ≡ ok o
    → Inv (parse p b).1 (parse p b).2 × (reset (parse p b).1 ≡ reset p)
parse-Inv p b o i e = at_result p b o (parse p b) e (parse-Agrees p b i)

pub InvIn-append :
    (s : ParseState) (p : FrameParser) (b x : Bytes) → InvIn s p b → InvIn s p (b ++ x)
InvIn-append ParseState.header p b x i = i
InvIn-append ParseState.extended_len16 p b x i = i
InvIn-append ParseState.extended_len64 p b x i = i
InvIn-append ParseState.mask p b x i = i
InvIn-append ParseState.payload p b x i = record {
  h = i.h;
  header_is = i.header_is;
  ready_le = omega (arith, i.ready_le, length-append b x);
}
InvIn-append ParseState.frame_too_large p b x i = i

waits :
    (p : FrameParser) (b : Bytes) (r : Parsed)
    → r.0 ≡ ok none
    → AgreesAt p b r
    → (x : Bytes) → meaning r.1 (r.2 ++ x) ≡ meaning p (b ++ x)
waits p b (y, p', b') e a x = (subst (λ z. Agrees p b z p' b') e a).3 x

-- The chunks in which the bytes arrive make no difference: when a call returns no frame yet, and
-- more bytes are appended to the buffer that it leaves, the next call returns what one call on all
-- the bytes at once returns, the same frame or error, and leaves the same bytes behind a frame.
pub parse-append :
    (p : FrameParser) (b x : Bytes)
    → Inv p b
    → (parse p b).0 ≡ ok none
    → seen (parse (parse p b).1 ((parse p b).2 ++ x)) ≡ seen (parse p (b ++ x))
parse-append p b x i e =
    parse-seen (parse p b).1 ((parse p b).2 ++ x)
      (InvIn-append (parse p b).1.state (parse p b).1 (parse p b).2 x (parse-Inv p b none i e).0)
    ∙ waits p b (parse p b) e (parse-Agrees p b i) x
    ∙ sym (parse-seen p (b ++ x) (InvIn-append p.state p b x i))
