-- ===== src/Parser/Resume.antt =====
-- `parse_slow` against the frame format, from every state that it reaches.
use sockudo_ws.Base.{
  ℕ, ◌<◌, ◌≤◌, bit_and, Option, none, some, [], ◌∷◌, ◌++◌, length, Bytes, Outcome, ok, err, panic,
  ◌≡◌, sym, ap, ◌∙◌,
}
use mathlib.Core.List.{append-nil}
use sockudo_ws.Error.{Error}
use sockudo_ws.Frame.{OpCode, FrameHeader, Frame}
use sockudo_ws.Parser.Types.{ParseState, FrameParser, Parsed, reset}
use sockudo_ws.Parser.Slow.{check_base, header_base}
use sockudo_ws.Parser.Spec.{need, failed, got, decode, decode_mask, meaning}

-- What a parser in the middle of a frame has stored.
pub record InLen (p : FrameParser) (more : ℕ) (IsLen : ℕ → Type 0) : Type 0 where
  pub b0 : ℕ
  pub b1 : ℕ
  pub t : Bytes
  pub o : OpCode
  pub stored : p.header_buf ≡ b0 ∷ b1 ∷ t
  pub base : check_base (reset p) b0 b1 ≡ ok o
  pub len_byte : IsLen (bit_and b1 0x7F)
  pub short : length t < more

pub record InMask (p : FrameParser) : Type 0 where
  pub h : FrameHeader
  pub pre : Bytes
  pub t : Bytes
  pub header_is : p.header ≡ some h
  pub stored : p.header_buf ≡ pre ++ t
  pub size : length pre ≡ header_base h.payload_len
  pub short : length t < 4
  pub reads : (x : Bytes) → decode (reset p) (pre ++ x) ≡ decode_mask h x
  pub fresh : p.payload_ready ≡ 0

pub record InPayload (p : FrameParser) (b : Bytes) : Type 0 where
  pub h : FrameHeader
  pub header_is : p.header ≡ some h
  pub ready_le : p.payload_ready ≤ length b

abbrev pub InvIn : ParseState → FrameParser → Bytes → Type 0
InvIn ParseState.header p b = p.payload_ready ≡ 0
InvIn ParseState.extended_len16 p b = InLen p 2 (λ l. l ≡ 126) × (p.payload_ready ≡ 0)
InvIn ParseState.extended_len64 p b = InLen p 8 (λ l. 126 < l) × (p.payload_ready ≡ 0)
InvIn ParseState.mask p b = InMask p
InvIn ParseState.payload p b = InPayload p b
InvIn ParseState.frame_too_large p b = Unit

-- The invariant of a parser and the buffer that it is called with.
abbrev pub Inv : FrameParser → Bytes → Type 0
Inv p b = InvIn p.state p b

-- The result of a call at `p` and `b`, with `p'` and `b'` left behind: a frame or an error is what
-- the bytes mean. With no result the bytes mean an unfinished frame, and go on meaning the same
-- whatever comes next.
abbrev pub Agrees :
    FrameParser → Bytes → Outcome Error (Option Frame) → FrameParser → Bytes → Type 0
Agrees p b (ok (some f)) p' b' =
    (meaning p b ≡ got f b')
    × (p'.state ≡ ParseState.header)
    × (p'.payload_ready ≡ 0)
    × (reset p' ≡ reset p)
Agrees p b (ok none) p' b' =
    (meaning p b ≡ need)
    × Inv p' b'
    × (reset p' ≡ reset p)
    × ((x : Bytes) → meaning p' (b' ++ x) ≡ meaning p (b ++ x))
Agrees p b (err e) p' b' = meaning p b ≡ failed e
Agrees p b panic p' b' = ⊥

abbrev pub AgreesAt : FrameParser → Bytes → Parsed → Type 0
AgreesAt p b r = Agrees p b r.0 r.1 r.2

same_now :
    (p p1 : FrameParser) (b b1 : Bytes)
    → ((x : Bytes) → meaning p1 (b1 ++ x) ≡ meaning p (b ++ x))
    → meaning p1 b1 ≡ meaning p b
same_now p p1 b b1 s = ap (meaning p1) (sym (append-nil b1)) ∙ s [] ∙ ap (meaning p) (append-nil b)

-- A call that goes on at `p1` and `b1`, which mean the same, agrees with `p` and `b` too.
pub Agrees-trans :
    (p p1 : FrameParser) (b b1 : Bytes) (r : Parsed)
    → reset p1 ≡ reset p
    → ((x : Bytes) → meaning p1 (b1 ++ x) ≡ meaning p (b ++ x))
    → AgreesAt p1 b1 r
    → AgreesAt p b r
Agrees-trans p p1 b b1 (ok (some f), p', b') q s (m, st, z, c) =
    (sym (same_now p p1 b b1 s) ∙ m, st, z, c ∙ q)
Agrees-trans p p1 b b1 (ok none, p', b') q s (m, i, c, f) =
    (sym (same_now p p1 b b1 s) ∙ m, i, c ∙ q, λ x. f x ∙ s x)
Agrees-trans p p1 b b1 (err e, p', b') q s m = sym (same_now p p1 b b1 s) ∙ m
Agrees-trans p p1 b b1 (panic, p', b') q s m = m
