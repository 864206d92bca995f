-- ===== src/Cork/Defs.antt =====
-- `CorkBuffer` and `BatchWriter` of src/cork.rs. The capacity that is reserved is not modelled; `Bytes`
-- that share memory are the lists that they show.
use sockudo_ws.Base.{
  ℕ, suc, zero, ◌+◌, ◌-◌, ◌*◌, min, ltb, leb, ◌==◌, if◌then◌else◌, Bool, true, false, not, ◌||◌,
  List, [], ◌∷◌, ◌++◌, length, drop, Bytes,
}

pub data CorkState : Type 0 where
  uncorked corked : CorkState

pub record CorkBuffer : Type 0 where
  pub buffer : Bytes
  pub max_size : ℕ
  pub state : CorkState
  pub segments : List Bytes
  pub segment_bytes : ℕ

abbrev pub zero_copy_min : ℕ
zero_copy_min = 8 * 1024

abbrev pub with_capacity : ℕ → CorkBuffer
with_capacity capacity = record {
  buffer = [];
  max_size = capacity;
  state = CorkState.uncorked;
  segments = [];
  segment_bytes = 0;
}

abbrev pub is_empty {ℓ} : {A : Type ℓ} → List A → Bool
is_empty [] = true
is_empty (x ∷ xs) = false

abbrev pub is_corked_state : CorkState → Bool
is_corked_state CorkState.corked = true
is_corked_state CorkState.uncorked = false

abbrev pub cork : CorkBuffer → CorkBuffer
cork c = record c { state = CorkState.corked }

abbrev pub has_data : CorkBuffer → Bool
has_data c = not (is_empty c.buffer) || not (is_empty c.segments)

abbrev pub has_segments : CorkBuffer → Bool
has_segments c = not (is_empty c.segments)

abbrev pub uncork : CorkBuffer → Bool × CorkBuffer
uncork c = let c' = record c { state = CorkState.uncorked } in (has_data c', c')

abbrev pub is_corked : CorkBuffer → Bool
is_corked c = is_corked_state c.state

abbrev pub pending_bytes : CorkBuffer → ℕ
pending_bytes c = length c.buffer + c.segment_bytes

unfoldable pub write : CorkBuffer → Bytes → Bool × CorkBuffer
write c data_in =
    let c' = record c { buffer = c.buffer ++ data_in } in (leb (length c'.buffer) c.max_size, c')

-- The open buffer closed into a segment, unless it is empty.
abbrev pub close_buffer : Bytes → CorkBuffer → CorkBuffer
close_buffer [] c = c
close_buffer (x ∷ xs) c = record c {
  buffer = [];
  segment_bytes = c.segment_bytes + length (x ∷ xs);
  segments = c.segments ++ ((x ∷ xs) ∷ []);
}

abbrev pub push_back : CorkBuffer → Bytes → CorkBuffer
push_back c data_in = record c {
  segment_bytes = c.segment_bytes + length data_in;
  segments = c.segments ++ (data_in ∷ []);
}

unfoldable pub push_segment : CorkBuffer → Bytes → CorkBuffer
push_segment c [] = c
push_segment c (x ∷ xs) = push_back (close_buffer c.buffer c) (x ∷ xs)

unfoldable pub write_bytes : CorkBuffer → Bytes → CorkBuffer
unfolding push_segment
write_bytes c data_in =
    if ltb (length data_in) zero_copy_min
    then record c { buffer = c.buffer ++ data_in }
    else push_segment c data_in

-- The slices that the loop over the segments fills, and the room that is left in `out`.
abbrev pub fill_segments : ℕ → List Bytes → List Bytes × ℕ
fill_segments room [] = ([], room)
fill_segments zero (s ∷ ss) = ([], zero)
fill_segments (suc room) (s ∷ ss) = let rest = fill_segments room ss in (s ∷ rest.0, rest.1)

abbrev pub fill_buffer : ℕ → Bytes → List Bytes
fill_buffer zero buffer = []
fill_buffer (suc room) [] = []
fill_buffer (suc room) (x ∷ xs) = (x ∷ xs) ∷ []

-- `fill_write_slices`: the slices written into an `out` of length `room`. When the loop stops for
-- want of room, there is none for the buffer either.
unfoldable pub fill_write_slices : CorkBuffer → ℕ → List Bytes
fill_write_slices c room =
    let filled = fill_segments room c.segments in filled.0 ++ fill_buffer filled.1 c.buffer

unfoldable pub get_write_slices : CorkBuffer → List Bytes
get_write_slices c = c.segments ++ fill_buffer 1 c.buffer

-- The loop of `consume`: the segments and their bytes that are left, and what is left of `n`, which
-- is 0 when it returns from inside the loop.
abbrev pub consume_segments : List Bytes → ℕ → ℕ → List Bytes × ℕ × ℕ
consume_segments [] segment_bytes n = ([], segment_bytes, n)
consume_segments (s ∷ ss) segment_bytes n =
    let rest = consume_segments ss (segment_bytes - length s) (n - length s) in
    if n == 0
    then (s ∷ ss, segment_bytes, n)
    else if leb (length s) n
    then rest
    else (drop n s ∷ ss, segment_bytes - n, 0)

unfoldable pub consume : CorkBuffer → ℕ → CorkBuffer
consume c n =
    let left = consume_segments c.segments c.segment_bytes n in
    record c {
      segments = left.0;
      segment_bytes = left.1;
      buffer = drop (min left.2 (length c.buffer)) c.buffer;
    }

abbrev pub take_buffer : CorkBuffer → Bytes × CorkBuffer
take_buffer c = (c.buffer, record c { buffer = [] })

-- What the caller does with the open buffer that `buffer_mut` lends
abbrev pub buffer_mut : (Bytes → Bytes) → CorkBuffer → CorkBuffer
buffer_mut change c = record c { buffer = change c.buffer }

abbrev pub clear : CorkBuffer → CorkBuffer
clear c = record c { buffer = []; segments = []; segment_bytes = 0 }

-- `Buf::chunk`; `Buf::remaining` is `pending_bytes` and `Buf::advance` is `consume`.
abbrev pub chunk_of : List Bytes → Bytes → Bytes
chunk_of [] buffer = buffer
chunk_of (s ∷ ss) buffer = s

abbrev pub chunk : CorkBuffer → Bytes
chunk c = chunk_of c.segments c.buffer

pub record BatchWriter : Type 0 where
  pub buf : CorkBuffer
  pub was_corked : Bool

-- `BatchWriter::new` and its `drop`, which gives the buffer back
abbrev pub batch_new : CorkBuffer → BatchWriter
batch_new c = record { buf = cork c; was_corked = is_corked c }

abbrev pub batch_drop : BatchWriter → CorkBuffer
batch_drop w = if w.was_corked then w.buf else (uncork w.buf).1
