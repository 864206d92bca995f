-- ===== src/Parser/Header.antt =====
-- The Header arm of `FrameParser::parse_slow` in src/frame.rs, and the match on the state.
use sockudo_ws.Base.{
  ℕ, ◌+◌, bit_and, min, ltb, leb, ◌==◌, if◌then◌else◌, Bool, Option, none, some, [], ◌∷◌, length,
  get_or, take, drop, Bytes, Outcome, ok, err, panic,
}
use sockudo_ws.Mask.{MaskKey, apply_mask}
use sockudo_ws.Error.{Error}
use sockudo_ws.Frame.{OpCode, FrameHeader, be16}
use sockudo_ws.Parser.Types.{ParseState, FrameParser, Parsed}
use sockudo_ws.Parser.Slow.{
  mask_at, has_flag, check_base, check_size, check_len64, header_of, be64_at, when_ok,
  parse_payload, parse_mask, parse_extended_len16, parse_extended_len64,
}

-- `self.header_buf[0] = b0; self.header_buf[1] = b1; self.header_len = 2; buf.advance(2)`
abbrev pub wait_for_len : ParseState → FrameParser → Bytes → Parsed
wait_for_len s p buf =
    (ok none, record p { header_buf = get_or buf 0 0 ∷ get_or buf 1 0 ∷ []; state = s }, drop 2 buf)

abbrev pub apply_mask_if : Option MaskKey → Bytes → Bytes
apply_mask_if none payload = payload
apply_mask_if (some k) payload = apply_mask 0 payload k

-- The complete header was consumed: a complete frame, or the state Payload.
unfoldable pub header_complete : FrameParser → FrameHeader → Bytes → Parsed
header_complete p h buf =
    if leb h.payload_len (length buf)
    then (
      ok (some (record { header = h; payload = apply_mask_if h.mask (take h.payload_len buf) })),
      p,
      drop h.payload_len buf,
    )
    else parse_payload (record p { header = some h; state = ParseState.payload }) buf

abbrev pub mask_if : Bool → Bytes → ℕ → Option MaskKey
mask_if masked buf i = if masked then some (mask_at buf i) else none

-- From the payload length on: the size checks, then the mask if there is one.
unfoldable pub header_sized : FrameParser → Bytes → OpCode → ℕ → ℕ → Parsed
header_sized p buf o payload_len header_size =
    let b0 = get_or buf 0 0 in
    let b1 = get_or buf 1 0 in
    let masked = has_flag 0x80 b1 in
    let total_header = header_size + (if masked then 4 else 0) in
    let to_copy = min (length buf) 14 in
    when_ok (check_size p o payload_len) p buf (
      if ltb (length buf) total_header
      then (
        ok none,
        record p {
          header_buf = take to_copy buf;
          header = some (header_of b0 b1 o payload_len none);
          state = ParseState.mask;
        },
        drop to_copy buf,
      )
      else header_complete p (header_of b0 b1 o payload_len (mask_if masked buf header_size))
          (drop total_header buf))

-- The payload length by its seven bits.
unfoldable pub header_len : FrameParser → Bytes → OpCode → Parsed
header_len p buf o =
    let len_byte = bit_and (get_or buf 1 0) 0x7F in
    let len16 = be16 (get_or buf 2 0) (get_or buf 3 0) in
    let len64 = be64_at buf 2 in
    if leb len_byte 125
    then header_sized p buf o len_byte 2
    else if len_byte == 126
    then if ltb (length buf) 4
      then wait_for_len ParseState.extended_len16 p buf
      else if ltb len16 126
      then (err (Error.protocol "payload length not minimal"), p, buf)
      else header_sized p buf o len16 4
    else if ltb (length buf) 10
    then wait_for_len ParseState.extended_len64 p buf
    else when_ok (check_len64 len64) p buf (header_sized p buf o len64 10)

abbrev pub header_from : Outcome Error OpCode → FrameParser → Bytes → Parsed
header_from (ok o) p buf = header_len p buf o
header_from (err e) p buf = (err e, p, buf)
header_from panic p buf = (panic, p, buf)

-- `ParseState::Header`
unfoldable pub parse_header : FrameParser → Bytes → Parsed
parse_header p buf =
    if ltb (length buf) 2
    then (ok none, p, buf)
    else header_from (check_base p (get_or buf 0 0) (get_or buf 1 0)) p buf

abbrev pub parse_in : ParseState → FrameParser → Bytes → Parsed
parse_in ParseState.frame_too_large p buf = (err Error.frame_too_large, p, buf)
parse_in ParseState.header p buf = parse_header p buf
parse_in ParseState.extended_len16 p buf = parse_extended_len16 p buf
parse_in ParseState.extended_len64 p buf = parse_extended_len64 p buf
parse_in ParseState.mask p buf = parse_mask p buf
parse_in ParseState.payload p buf = parse_payload p buf

abbrev pub parse_slow : FrameParser → Bytes → Parsed
parse_slow p buf = parse_in p.state p buf
