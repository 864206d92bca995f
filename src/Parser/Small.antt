-- ===== src/Parser/Small.antt =====
-- The small-frame paths of src/frame.rs give what `parse_slow` gives.
use sockudo_ws.Base.{
  ℕ, ◌+◌, ◌≤◌, bit_and, ltb, leb, if◌then◌else◌, Bool, true, false, ◌&&◌, Option, none, some,
  length, get_or, take, drop, Bytes, ok, err, ◌≡◌, refl, sym, ap, ◌∙◌, arith, le→leb, length-drop,
  le→ltb_false, Option-cases, Bool-cases, inl, inr,
}
use sockudo_ws.Mask.{MaskKey}
use sockudo_ws.Error.{Error}
use sockudo_ws.Frame.{OpCode, FrameHeader, from_u8}
use sockudo_ws.Parser.Types.{ParseState, FrameParser, Parsed}
use sockudo_ws.Parser.Slow.{has_flag, mask_at, header_of, is_message, check_base, check_size}
use sockudo_ws.Parser.Header.{
  parse_in, parse_slow, parse_header, header_len, header_sized, header_complete, apply_mask_if,
}
use sockudo_ws.Parser.Fast.{
  in_header, is_message_nibble, small_frame, small_unmasked, small_masked,
  parse_after_complete_data_miss,
}

in_header→eq : (s : ParseState) → in_header s ≡ true → s ≡ ParseState.header
in_header→eq s h = ground arith

is_message-from_u8 : (n : ℕ) (o : OpCode) → from_u8 n ≡ some o → is_message o ≡ is_message_nibble n
unfolding from_u8
is_message-from_u8 n o h = ground arith

check_size_small :
    (p : FrameParser) (o : OpCode) (len : ℕ)
    → len ≤ 125
    → check_size p o len ≡ (if ltb p.max_frame_size len then err Error.frame_too_large else ok tt)
unfolding check_size
check_size_small p o len h = ground arith

pub header_complete_lem :
    (p : FrameParser) (h : FrameHeader) (buf : Bytes)
    → h.payload_len ≤ length buf
    → header_complete p h buf ≡ (
      ok (some (record { header = h; payload = apply_mask_if h.mask (take h.payload_len buf) })),
      p,
      drop h.payload_len buf,
    )
unfolding header_complete
header_complete_lem p h buf fits = rw (le→leb _ _ fits)

-- What the small-frame paths return for a frame that is all there.
abbrev small_result : FrameParser → Bytes → OpCode → ℕ → ℕ → Option MaskKey → Parsed
small_result p buf o len skip m =
    if ltb p.max_frame_size len then (err Error.frame_too_large, p, buf) else (
      ok (
          some (record {
            header = header_of (get_or buf 0 0) (get_or buf 1 0) o len m;
            payload = apply_mask_if m (take len (drop skip buf));
          })),
      p,
      drop len (drop skip buf),
    )

-- The part of the slow path from the payload length on, at a small frame that is all there.
module _ (p : FrameParser) (buf : Bytes) (o : OpCode) (len : ℕ) (h : len ≤ 125) where
  small_sized_unmasked :
      has_flag 0x80 (get_or buf 1 0) ≡ false
      → 2 + len ≤ length buf
      → header_sized p buf o len 2 ≡ small_result p buf o len 2 none
  unfolding header_sized
  small_sized_unmasked flag fits = elim (Bool-cases (ltb p.max_frame_size len)) [
    | inl big ↦ rw (check_size_small p o len h, header_sized) (rw big)
    | inr fine ↦
        rw (check_size_small p o len h, header_sized)
          (rw (fine, flag)
            (rw (le→ltb_false (length buf) 2 (omega arith))
              (header_complete_lem p _ (drop 2 buf) (omega (arith, length-drop 2 buf)))))
  ]

  small_sized_masked :
      has_flag 0x80 (get_or buf 1 0) ≡ true
      → 6 + len ≤ length buf
      → header_sized p buf o len 2 ≡ small_result p buf o len 6 (some (mask_at buf 2))
  unfolding header_sized
  small_sized_masked flag fits = elim (Bool-cases (ltb p.max_frame_size len)) [
    | inl big ↦ rw (check_size_small p o len h, header_sized) (rw big)
    | inr fine ↦
        rw (check_size_small p o len h, header_sized)
          (rw (fine, flag)
            (rw (le→ltb_false (length buf) 6 (omega arith))
              (header_complete_lem p _ (drop 6 buf) (omega (arith, length-drop 6 buf)))))
  ]

-- The slow path up to the payload length, at a small frame that `small_frame` takes.
module _ (p : FrameParser) (buf : Bytes) (skip : ℕ) (m : Option MaskKey) where
  small_frame_slow :
      {r : Parsed}
      → p.expect_masked ≡ has_flag 0x80 (get_or buf 1 0)
      → 2 ≤ length buf
      → bit_and (get_or buf 1 0) 0x7F ≤ 125
      → ((o : OpCode)
          → header_sized p buf o (bit_and (get_or buf 1 0) 0x7F) 2
            ≡ small_result p buf o (bit_and (get_or buf 1 0) 0x7F) skip m)
      → small_frame p buf skip (bit_and (get_or buf 1 0) 0x7F) m ≡ some r
      → parse_header p buf ≡ r
  unfolding small_frame parse_header check_base header_len
  small_frame_slow flag two small sized h =
      elim (Option-cases (from_u8 (bit_and (get_or buf 0 0) 0x0F))) [
        | inl e ↦ ground (arith, e)
        | inr (o, e) ↦
            ground (arith, e, sized o, is_message-from_u8 (bit_and (get_or buf 0 0) 0x0F) o e)
      ]

if_some {ℓ} :
    {A : Type ℓ} (b : Bool) (x : Option A) {a : A}
    → (if b then x else none) ≡ some a
    → (b ≡ true) × (x ≡ some a)
if_some true x h = (refl, h)
if_some false x h = cc

-- The guard of a small-frame path, with the mask flag `m` that it wants and its header size.
guard_facts :
    (p : FrameParser) (len n skip : ℕ) (e f : Bool)
    → (in_header p.state && e && leb skip n && leb len 125 && f && leb (skip + len) n) ≡ true
    → (p.state ≡ ParseState.header)
      × (e ≡ true)
      × (skip ≤ n)
      × (len ≤ 125)
      × (f ≡ true)
      × (skip + len ≤ n)
guard_facts p len n skip e f h = ground arith

pub parse_slow_header :
    (p : FrameParser) (buf : Bytes)
    → p.state ≡ ParseState.header
    → parse_slow p buf ≡ parse_header p buf
parse_slow_header p buf e = ap (λ s. parse_in s p buf) e

-- Each path that returns a result returns the slow path's.
small_unmasked_slow :
    (p : FrameParser) (buf : Bytes) {r : Parsed}
    → small_unmasked p buf ≡ some r
    → parse_slow p buf ≡ r
unfolding small_unmasked
small_unmasked_slow p buf h =
    let (g, s) = if_some _ _ h in
    let (st, e, n, l, f, t) = guard_facts p _ _ _ _ _ g in
    parse_slow_header p buf st
    ∙ small_frame_slow p buf 2 none (ground arith) n l
        (λ o. small_sized_unmasked p buf o _ l (ground arith) t) s

small_masked_slow :
    (p : FrameParser) (buf : Bytes) {r : Parsed}
    → small_masked p buf ≡ some r
    → parse_slow p buf ≡ r
unfolding small_masked
small_masked_slow p buf h =
    let (g, s) = if_some _ _ h in
    let (st, e, n, l, f, t) = guard_facts p _ _ _ _ _ g in
    parse_slow_header p buf st
    ∙ small_frame_slow p buf 6 (some (mask_at buf 2)) (e ∙ sym f) (omega arith) l
        (λ o. small_sized_masked p buf o _ l f t) s

pub miss-parse_slow :
    (p : FrameParser) (buf : Bytes) → parse_after_complete_data_miss p buf ≡ parse_slow p buf
unfolding parse_after_complete_data_miss
miss-parse_slow p buf = elim (Option-cases (small_unmasked p buf)) [
  | inr (r, e) ↦ rw (e, parse_after_complete_data_miss) (sym (small_unmasked_slow p buf e))
  | inl e ↦ elim (Option-cases (small_masked p buf)) [
    | inr (r, f) ↦ rw (e, f, parse_after_complete_data_miss) (sym (small_masked_slow p buf f))
    | inl f ↦ rw (e, f, parse_after_complete_data_miss)
  ]
]
