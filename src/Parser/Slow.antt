-- ===== src/Parser/Slow.antt =====
-- `FrameParser::parse_slow` and `parse_header_with_len` of src/frame.rs. The loop goes round by
-- setting `self.state` and matching on it again; here an arm that does not return calls the arm of
-- the state that it sets, so that no fuel is needed: Header leads to Payload, the two ExtendedLen
-- states to Mask or Payload, and Mask to Payload.
use sockudo_ws.Base.{
  ℕ, ◌+◌, ◌-◌, ◌/◌, ◌^◌, bit_and, ltb, leb, ◌==◌, if◌then◌else◌, Bool, true, false, not, ◌&&◌, ◌||◌,
  Option, none, some, [], ◌++◌, length, get_or, take, drop, Bytes, Outcome, ok, err, panic,
}
use sockudo_ws.Mask.{MaskKey, apply_mask_offset}
use sockudo_ws.Error.{Error}
use sockudo_ws.Frame.{OpCode, FrameHeader, from_u8, is_control, be16, be64}
use sockudo_ws.Parser.Types.{ParseState, FrameParser, Parsed, reset}

-- `b & bit != 0`
abbrev pub has_flag : ℕ → ℕ → Bool
has_flag bit b = not (bit_and b bit == 0)

-- `matches!(opcode, OpCode::Text | OpCode::Binary)`
abbrev pub is_message : OpCode → Bool
is_message OpCode.text = true
is_message OpCode.binary = true
is_message _ = false

abbrev pub mask_at : Bytes → ℕ → MaskKey
mask_at xs i = record {
  m0 = get_or xs i 0;
  m1 = get_or xs (i + 1) 0;
  m2 = get_or xs (i + 2) 0;
  m3 = get_or xs (i + 3) 0;
}

-- The checks that follow the opcode: RSV1 on it, fragmentation, and the mask flag.
unfoldable pub check_opcode : FrameParser → ℕ → ℕ → Option OpCode → Outcome Error OpCode
check_opcode p b0 b1 none = err (Error.invalid_frame "invalid opcode")
check_opcode p b0 b1 (some o) =
    if has_flag 0x40 b0 && not (is_message o)
    then err (Error.protocol "RSV1 on control or continuation frame")
    else if is_control o && not (has_flag 0x80 b0)
    then err (Error.protocol "control frame must not be fragmented")
    else if p.expect_masked && not (has_flag 0x80 b1)
    then err (Error.protocol "client frames must be masked")
    else if not p.expect_masked && has_flag 0x80 b1
    then err (Error.protocol "server frames must not be masked")
    else ok o

-- The checks on the two base bytes, up to the mask flag.
unfoldable pub check_base : FrameParser → ℕ → ℕ → Outcome Error OpCode
unfolding check_opcode
check_base p b0 b1 =
    if has_flag 0x40 b0 && not p.allow_rsv1
    then err (Error.protocol "RSV1 must be 0 (compression not negotiated)")
    else if has_flag 0x20 b0 || has_flag 0x10 b0
    then err (Error.protocol "RSV2 and RSV3 must be 0")
    else check_opcode p b0 b1 (from_u8 (bit_and b0 0x0F))

-- Unmask what arrived behind the `ready` bytes that were unmasked before.
unfoldable pub unmask_tail : Option MaskKey → ℕ → Bytes → Bytes
unmask_tail none ready buf = buf
unmask_tail (some k) ready buf = take ready buf ++ apply_mask_offset 0 (drop ready buf) k ready

-- `if let Some(mask) = mask && ready < payload_len`
unfoldable pub unmask_payload : Option MaskKey → ℕ → ℕ → Bytes → Bytes
unfolding unmask_tail
unmask_payload m ready payload_len payload =
    if ltb ready payload_len then unmask_tail m ready payload else payload

unfoldable pub payload_with : FrameHeader → FrameParser → Bytes → Parsed
payload_with h p buf =
    if ltb (length buf) h.payload_len
    then if ltb p.payload_ready (length buf)
      then (
        ok none,
        record p { payload_ready = length buf },
        unmask_tail h.mask p.payload_ready buf,
      )
      else (ok none, p, buf)
    else (
      ok (
          some (record {
            header = h;
            payload = unmask_payload h.mask p.payload_ready h.payload_len (take h.payload_len buf);
          })),
      reset p,
      drop h.payload_len buf,
    )

-- `self.header.as_ref().unwrap()` panics with no header.
abbrev pub with_header : Option FrameHeader → Parsed → (FrameHeader → Parsed) → Parsed
with_header none r f = r
with_header (some h) r f = f h

-- `ParseState::Payload`
unfoldable pub parse_payload : FrameParser → Bytes → Parsed
parse_payload p buf = with_header p.header (panic, p, buf) (λ h. payload_with h p buf)

-- `check?; …`: an error returns at once.
abbrev pub when_ok : Outcome Error (Unit {0}) → FrameParser → Bytes → Parsed → Parsed
when_ok (ok u) p buf r = r
when_ok (err e) p buf r = (err e, p, buf)
when_ok panic p buf r = (panic, p, buf)

-- The size of the header before the mask.
abbrev pub header_base : ℕ → ℕ
header_base payload_len = if ltb 65535 payload_len then 10 else if ltb 125 payload_len then 4 else 2

-- Not enough bytes: all are copied to `header_buf`.
abbrev pub save_all : FrameParser → Bytes → Parsed
save_all p buf = (ok none, record p { header_buf = p.header_buf ++ buf }, [])

unfoldable pub mask_with : FrameHeader → FrameParser → Bytes → Parsed
mask_with h p buf =
    let base = header_base h.payload_len in
    let needed = base + 4 - length p.header_buf in
    let filled = p.header_buf ++ take needed buf in
    let masked = record h { mask = some (mask_at filled base) } in
    if ltb (length buf) needed
    then save_all p buf
    else parse_payload
        (record p { header_buf = filled; header = some masked; state = ParseState.payload })
        (drop needed buf)

-- `ParseState::Mask`
unfoldable pub parse_mask : FrameParser → Bytes → Parsed
parse_mask p buf = with_header p.header (panic, p, buf) (λ h. mask_with h p buf)

abbrev pub header_of : ℕ → ℕ → OpCode → ℕ → Option MaskKey → FrameHeader
header_of b0 b1 o payload_len m = record {
  fin = has_flag 0x80 b0;
  rsv1 = has_flag 0x40 b0;
  rsv2 = has_flag 0x20 b0;
  rsv3 = has_flag 0x10 b0;
  opcode = o;
  masked = has_flag 0x80 b1;
  payload_len = payload_len;
  mask = m;
}

-- The control length check and the frame size check.
unfoldable pub check_size : FrameParser → OpCode → ℕ → Outcome Error (Unit {0})
check_size p o payload_len =
    if is_control o && ltb 125 payload_len
    then err (Error.protocol "control frame too large")
    else if ltb p.max_frame_size payload_len
    then err Error.frame_too_large
    else ok tt

abbrev pub header_if_sized :
    ℕ → ℕ → OpCode → ℕ → Outcome Error (Unit {0}) → Outcome Error FrameHeader
header_if_sized b0 b1 o payload_len (ok u) = ok (header_of b0 b1 o payload_len none)
header_if_sized b0 b1 o payload_len (err e) = err e
header_if_sized b0 b1 o payload_len panic = panic

abbrev pub header_with : FrameParser → ℕ → Option OpCode → Outcome Error FrameHeader
header_with p payload_len none = err (Error.invalid_frame "invalid opcode")
header_with p payload_len (some o) =
    header_if_sized (get_or p.header_buf 0 0) (get_or p.header_buf 1 0) o payload_len
      (check_size p o payload_len)

-- `parse_header_with_len`: the header that it stores in `self.header`, or its error.
unfoldable pub parse_header_with_len : FrameParser → ℕ → Outcome Error FrameHeader
parse_header_with_len p payload_len =
    header_with p payload_len (from_u8 (bit_and (get_or p.header_buf 0 0) 0x0F))

-- The choice of the next state by the stored header.
abbrev pub continue_with : Outcome Error FrameHeader → FrameParser → Bytes → Parsed
continue_with (ok h) p buf =
    if h.masked
    then parse_mask (record p { header = some h; state = ParseState.mask }) buf
    else parse_payload (record p { header = some h; state = ParseState.payload }) buf
continue_with (err e) p buf = (err e, p, buf)
continue_with panic p buf = (panic, p, buf)

-- `self.parse_header_with_len(payload_len)?` and what follows it in both ExtendedLen arms.
abbrev pub continue_with_len : FrameParser → ℕ → Bytes → Parsed
continue_with_len p payload_len buf = continue_with (parse_header_with_len p payload_len) p buf

-- `ParseState::ExtendedLen16`, with `self.header_buf[..self.header_len]`
unfoldable pub extended_len16_with : Bytes → FrameParser → Bytes → Parsed
extended_len16_with header_buf p buf =
    let needed = 4 - length header_buf in
    let filled = header_buf ++ take needed buf in
    let payload_len = be16 (get_or filled 2 0) (get_or filled 3 0) in
    let p' = record p { header_buf = filled } in
    if ltb (length buf) needed
    then save_all p buf
    else if ltb payload_len 126
    then (err (Error.protocol "payload length not minimal"), p', drop needed buf)
    else continue_with_len p' payload_len (drop needed buf)

abbrev pub parse_extended_len16 : FrameParser → Bytes → Parsed
parse_extended_len16 p buf = extended_len16_with p.header_buf p buf

abbrev pub be64_at : Bytes → ℕ → ℕ
be64_at xs i =
    be64 (get_or xs i 0) (get_or xs (i + 1) 0) (get_or xs (i + 2) 0) (get_or xs (i + 3) 0)
      (get_or xs (i + 4) 0) (get_or xs (i + 5) 0) (get_or xs (i + 6) 0) (get_or xs (i + 7) 0)

-- `len <= 0xFFFF` and `len >> 63 != 0`
unfoldable pub check_len64 : ℕ → Outcome Error (Unit {0})
check_len64 len =
    if leb len 0xFFFF
    then err (Error.protocol "payload length not minimal")
    else if not (len / 2 ^ 63 == 0)
    then err (Error.protocol "payload length MSB must be 0")
    else ok tt

-- `ParseState::ExtendedLen64`
unfoldable pub extended_len64_with : Bytes → FrameParser → Bytes → Parsed
extended_len64_with header_buf p buf =
    let needed = 10 - length header_buf in
    let filled = header_buf ++ take needed buf in
    let payload_len = be64_at filled 2 in
    let p' = record p { header_buf = filled } in
    if ltb (length buf) needed
    then save_all p buf
    else when_ok (check_len64 payload_len) p' (drop needed buf)
        (continue_with_len p' payload_len (drop needed buf))

abbrev pub parse_extended_len64 : FrameParser → Bytes → Parsed
parse_extended_len64 p buf = extended_len64_with p.header_buf p buf
