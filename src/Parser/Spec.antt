-- ===== src/Parser/Spec.antt =====
-- The frame format as one function from the bytes on the wire, with no parser state: what a buffer
-- that starts at a frame boundary holds. `meaning` is the same for a parser in the middle of a frame.
use sockudo_ws.Base.{
  ℕ, bit_and, ltb, leb, ◌==◌, if◌then◌else◌, Option, none, some, ◌∷◌, ◌++◌, length, take, drop,
  Bytes, Outcome, ok, err, panic,
}
use sockudo_ws.Mask.{MaskKey, mask_from}
use sockudo_ws.Error.{Error}
use sockudo_ws.Frame.{OpCode, FrameHeader, Frame, be16, be64}
use sockudo_ws.Parser.Types.{ParseState, FrameParser, reset}
use sockudo_ws.Parser.Slow.{check_base, check_size, check_len64, header_of}

-- `need`: the frame is not all there. `crashed`: the parser would panic.
pub data Decoded : Type 0 where
  need : Decoded
  failed : Error → Decoded
  crashed : Decoded
  got : Frame → Bytes → Decoded

abbrev pub checked {ℓ} : {A : Type ℓ} → Outcome Error A → (A → Decoded) → Decoded
checked (ok a) f = f a
checked (err e) f = failed e
checked panic f = crashed

-- The payload with its mask taken off behind the first `ready` bytes.
abbrev pub unmask_from : Option MaskKey → ℕ → Bytes → Bytes
unmask_from none ready xs = xs
unmask_from (some k) ready xs = take ready xs ++ mask_from k ready (drop ready xs)

unfoldable pub decode_payload : FrameHeader → ℕ → Bytes → Decoded
decode_payload h ready w =
    if ltb (length w) h.payload_len
    then need
    else got (record { header = h; payload = unmask_from h.mask ready (take h.payload_len w) })
        (drop h.payload_len w)

abbrev pub with_key : FrameHeader → ℕ → ℕ → ℕ → ℕ → FrameHeader
with_key h a b c d = record h { mask = some (record { m0 = a; m1 = b; m2 = c; m3 = d }) }

abbrev pub decode_mask : FrameHeader → Bytes → Decoded
decode_mask h (a ∷ b ∷ c ∷ d ∷ w) = decode_payload (with_key h a b c d) 0 w
decode_mask h _ = need

unfoldable pub decode_key : FrameHeader → Bytes → Decoded
decode_key h w = if h.masked then decode_mask h w else decode_payload h 0 w

abbrev pub decode_sized : FrameParser → ℕ → ℕ → OpCode → ℕ → Bytes → Decoded
decode_sized q b0 b1 o len w =
    checked (check_size q o len) (λ _. decode_key (header_of b0 b1 o len none) w)

abbrev pub decode16 : FrameParser → ℕ → ℕ → OpCode → Bytes → Decoded
decode16 q b0 b1 o (x ∷ y ∷ w) =
    if ltb (be16 x y) 126
    then failed (Error.protocol "payload length not minimal")
    else decode_sized q b0 b1 o (be16 x y) w
decode16 q b0 b1 o _ = need

abbrev pub decode64 : FrameParser → ℕ → ℕ → OpCode → Bytes → Decoded
decode64 q b0 b1 o (s ∷ t ∷ u ∷ v ∷ x ∷ y ∷ z ∷ a ∷ w) =
    checked (check_len64 (be64 s t u v x y z a))
      (λ _. decode_sized q b0 b1 o (be64 s t u v x y z a) w)
decode64 q b0 b1 o _ = need

unfoldable pub decode_len : FrameParser → ℕ → ℕ → OpCode → Bytes → Decoded
decode_len q b0 b1 o w =
    if leb (bit_and b1 0x7F) 125
    then decode_sized q b0 b1 o (bit_and b1 0x7F) w
    else if bit_and b1 0x7F == 126
    then decode16 q b0 b1 o w
    else decode64 q b0 b1 o w

-- One frame from its first byte on; of the parser only the limits and the mode count.
abbrev pub decode : FrameParser → Bytes → Decoded
decode q (b0 ∷ b1 ∷ w) = checked (check_base q b0 b1) (λ o. decode_len q b0 b1 o w)
decode q _ = need

abbrev pub meaning_with : Option FrameHeader → FrameParser → Bytes → Decoded
meaning_with none p b = crashed
meaning_with (some h) p b = decode_payload h p.payload_ready b

abbrev pub meaning_in : ParseState → FrameParser → Bytes → Decoded
meaning_in ParseState.header p b = decode (reset p) b
meaning_in ParseState.extended_len16 p b = decode (reset p) (p.header_buf ++ b)
meaning_in ParseState.extended_len64 p b = decode (reset p) (p.header_buf ++ b)
meaning_in ParseState.mask p b = decode (reset p) (p.header_buf ++ b)
meaning_in ParseState.payload p b = meaning_with p.header p b
meaning_in ParseState.frame_too_large p b = failed Error.frame_too_large

-- What the bytes that the parser has taken and the buffer mean together.
abbrev pub meaning : FrameParser → Bytes → Decoded
meaning p b = meaning_in p.state p b
