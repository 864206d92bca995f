-- ===== src/Parser/Fast.antt =====
-- The fast paths of src/frame.rs: `parse`, `parse_after_complete_data_miss` and
-- `try_parse_complete_unmasked_data`.
use sockudo_ws.Base.{
  ℕ, ◌+◌, bit_and, ltb, leb, ◌==◌, if◌then◌else◌, Bool, true, false, not, ◌&&◌, ◌||◌, Option, none,
  some, length, get_or, take, drop, Bytes, ok, err,
}
use sockudo_ws.Mask.{MaskKey}
use sockudo_ws.Error.{Error}
use sockudo_ws.Frame.{OpCode, Frame, from_u8, is_control, be16}
use sockudo_ws.Parser.Types.{ParseState, FrameParser, Parsed}
use sockudo_ws.Parser.Slow.{has_flag, mask_at, header_of}
use sockudo_ws.Parser.Header.{parse_slow, apply_mask_if}

-- `self.state == ParseState::Header`
abbrev pub in_header : ParseState → Bool
in_header ParseState.header = true
in_header _ = false

-- `matches!(nibble, 0x1 | 0x2)`
abbrev pub is_message_nibble : ℕ → Bool
is_message_nibble n = n == 0x1 || n == 0x2

-- The checks and the extraction that the two small-frame paths share. `skip` is the size of the
-- header, and the mask is there in the masked path. `none` is the fall through to `parse_slow`.
unfoldable pub small_frame_with :
    FrameParser → Bytes → ℕ → ℕ → Option MaskKey → Option OpCode → Option Parsed
small_frame_with p buf skip payload_len m none = none
small_frame_with p buf skip payload_len m (some o) =
    let b0 = get_or buf 0 0 in
    let b1 = get_or buf 1 0 in
    let rest = drop skip buf in
    if is_control o && not (has_flag 0x80 b0)
    then some (err (Error.protocol "control frame must not be fragmented"), p, buf)
    else if ltb p.max_frame_size payload_len
    then some (err Error.frame_too_large, p, buf)
    else some (
      ok (
          some (record {
            header = header_of b0 b1 o payload_len m;
            payload = apply_mask_if m (take payload_len rest);
          })),
      p,
      drop payload_len rest,
    )

unfoldable pub small_frame : FrameParser → Bytes → ℕ → ℕ → Option MaskKey → Option Parsed
unfolding small_frame_with
small_frame p buf skip payload_len m =
    let b0 = get_or buf 0 0 in
    if (has_flag 0x40 b0 && (not p.allow_rsv1 || not (is_message_nibble (bit_and b0 0x0F))))
      || has_flag 0x20 b0
      || has_flag 0x10 b0
    then none
    else small_frame_with p buf skip payload_len m (from_u8 (bit_and b0 0x0F))

-- The ultra-fast path for small unmasked frames.
unfoldable pub small_unmasked : FrameParser → Bytes → Option Parsed
unfolding small_frame
small_unmasked p buf =
    let b1 = get_or buf 1 0 in
    let payload_len = bit_and b1 0x7F in
    if in_header p.state
      && not p.expect_masked
      && leb 2 (length buf)
      && leb payload_len 125
      && not (has_flag 0x80 b1)
      && leb (2 + payload_len) (length buf)
    then small_frame p buf 2 payload_len none
    else none

-- The ultra-fast path for small masked frames.
unfoldable pub small_masked : FrameParser → Bytes → Option Parsed
unfolding small_frame
small_masked p buf =
    let b1 = get_or buf 1 0 in
    let payload_len = bit_and b1 0x7F in
    if in_header p.state
      && p.expect_masked
      && leb 6 (length buf)
      && leb payload_len 125
      && has_flag 0x80 b1
      && leb (6 + payload_len) (length buf)
    then small_frame p buf 6 payload_len (some (mask_at buf 2))
    else none

unfoldable pub parse_after_complete_data_miss : FrameParser → Bytes → Parsed
parse_after_complete_data_miss p buf = elim (small_unmasked p buf) [
  | some r ↦ r
  | none ↦ elim (small_masked p buf) [ some r ↦ r | none ↦ parse_slow p buf ]
]

-- The header length and the payload length of a complete data frame with a minimal length.
unfoldable pub complete_lengths : Bytes → Option (ℕ × ℕ)
complete_lengths buf =
    let length_byte = get_or buf 1 0 in
    let len16 = be16 (get_or buf 2 0) (get_or buf 3 0) in
    if leb length_byte 125
    then some (2, length_byte)
    else if length_byte == 126 && leb 4 (length buf)
    then if ltb len16 126 then none else some (4, len16)
    else none

unfoldable pub try_parse_complete_unmasked_data :
    FrameParser → Bytes → Option (OpCode × Bytes × Bytes)
unfolding complete_lengths
try_parse_complete_unmasked_data p buf =
    let b0 = get_or buf 0 0 in
    if not (in_header p.state)
      || p.expect_masked
      || ltb (length buf) 2
      || not (b0 == 0x81 || b0 == 0x82)
    then none
    else elim (complete_lengths buf) [
      | none ↦ none
      | some (header_len, payload_len) ↦
          if ltb p.max_frame_size payload_len || ltb (length buf) (header_len + payload_len)
          then none
          else some (
            (if b0 == 0x81 then OpCode.text else OpCode.binary),
            take payload_len (drop header_len buf),
            drop payload_len (drop header_len buf),
          )
    ]

-- The frame that `parse` makes of a complete payload.
abbrev pub complete_frame : OpCode → Bytes → Frame
complete_frame o payload = record {
  header = record {
    fin = true;
    rsv1 = false;
    rsv2 = false;
    rsv3 = false;
    opcode = o;
    masked = false;
    payload_len = length payload;
    mask = none;
  };
  payload = payload;
}

unfoldable pub parse : FrameParser → Bytes → Parsed
unfolding try_parse_complete_unmasked_data parse_after_complete_data_miss
parse p buf = elim (try_parse_complete_unmasked_data p buf) [
  | some (o, payload, rest) ↦ (ok (some (complete_frame o payload)), p, rest)
  | none ↦ parse_after_complete_data_miss p buf
]
