-- ===== src/Examples/Buffers.antt =====
-- The cork buffer of src/cork.rs on concrete writes.
use sockudo_ws.Base.{max, leb, length, ◌+◌, ◌≤◌, arith, refl, [], ◌∷◌, true, List, ◌++◌, Bytes, ◌≡◌}
use native.Mathlib.Nat.{le_refl}
use sockudo_ws.Window.Defs.{BytesMut, Allocation, window_new, min_spare, prepare}
use sockudo_ws.Window.Laws.{HasRoom, prepare-HasRoom}
use sockudo_ws.Cork.{CorkBuffer, with_capacity, pending_bytes, fill_write_slices}
use sockudo_ws.Cork.Laws.{join, contents}
use sockudo_ws.Cork.Slices.{fill_write_slices-front, join-fill_write_slices}
use sockudo_ws.Cork.Run.{Op, Call, run, calls, written, run-written, pending_bytes-calls}

abbrev abc : Bytes
abc = 97 ∷ 98 ∷ 99 ∷ []

-- A header, a payload queued by reference, and a part of it written out.
abbrev ops : List Op
ops = Op.small (1 ∷ 2 ∷ []) ∷ Op.segment abc ∷ Op.flush 3 ∷ Op.small (4 ∷ []) ∷ []

abbrev before : CorkBuffer
before = record (with_capacity 16) { buffer = 9 ∷ []; segments = abc ∷ []; segment_bytes = 3 }

run-written_example :
    (run ops ([], before)).0 ++ contents (run ops ([], before)).1
    ≡ ([] ++ contents before) ++ written ops
run-written_example = run-written ops [] before

-- The buffer is cleared with a segment in it and used again.
abbrev used_again : List Call
used_again =
    Call.op (Op.small (1 ∷ 2 ∷ []))
    ∷ Call.op (Op.segment abc)
    ∷ Call.clear
    ∷ Call.cork
    ∷ Call.buffer_mut (λ b. b ++ (7 ∷ []))
    ∷ Call.op (Op.segment abc)
    ∷ Call.op (Op.flush 2)
    ∷ Call.take_buffer
    ∷ []

pending_bytes-calls_example :
    pending_bytes (calls used_again (with_capacity 16))
    ≡ length (contents (calls used_again (with_capacity 16)))
pending_bytes-calls_example = pending_bytes-calls 16 used_again

fill_write_slices-front_example :
    (length (fill_write_slices before 1) ≤ 1)
    × ((rest : Bytes) × (contents before ≡ join (fill_write_slices before 1) ++ rest))
fill_write_slices-front_example = fill_write_slices-front before 1

join-fill_write_slices_example : join (fill_write_slices before 2) ≡ contents before
join-fill_write_slices_example = join-fill_write_slices before 2 (omega arith)

-- A `BytesMut` that grows to what is asked for and reclaims when it is large enough.
abbrev plain : Allocation
plain = record {
  with_capacity = λ n. record { bytes = []; capacity = n };
  reserve = λ b n. record b { capacity = max b.capacity (length b.bytes + n) };
  try_reclaim = λ b n. (leb (length b.bytes + n) b.capacity, b);
  with_capacity-bytes = λ n. refl;
  with_capacity-capacity = λ n. le_refl n;
  reserve-bytes = λ b n. refl;
  reserve-capacity = λ b n. omega arith;
  try_reclaim-bytes = λ b n. refl;
}

abbrev nearly_full : BytesMut
nearly_full = record { bytes = 1 ∷ 2 ∷ 3 ∷ []; capacity = 4 }

prepare-HasRoom_example :
    HasRoom plain (window_new 4096) nearly_full (prepare plain (window_new 4096) nearly_full true)
    × (256 ≤ min_spare (prepare plain (window_new 4096) nearly_full true).0)
prepare-HasRoom_example = prepare-HasRoom plain (window_new 4096) nearly_full true (omega arith)
