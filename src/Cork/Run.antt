-- ===== src/Cork/Run.antt =====
-- Writes and flushes of a cork buffer of src/cork.rs in any order.
use sockudo_ws.Base.{
  ℕ, List, [], ◌∷◌, ◌++◌, length, take, drop, Bytes, ◌≡◌, refl, sym, ap, ◌∙◌, take-append-drop,
}
use mathlib.Core.List.{append_assoc, append-nil}
use sockudo_ws.Cork.Defs.{
  CorkBuffer, consume, pending_bytes, write, write_bytes, push_segment, with_capacity,
}
use sockudo_ws.Cork.Defs
use sockudo_ws.Cork.Laws.{
  contents, IsValid, contents-write, contents-write_bytes, contents-push_segment, write-IsValid,
  write_bytes-IsValid, push_segment-IsValid,
}
use sockudo_ws.Cork.Slices.{contents-consume, consume-IsValid, pending_bytes-contents}

-- The calls that change what waits; a `flush n` is a vectored write that took `n` bytes, and the
-- `consume` after it.
pub data Op : Type 0 where
  small : Bytes → Op
  shared : Bytes → Op
  segment : Bytes → Op
  flush : ℕ → Op

-- What an operation writes.
abbrev pub written : List Op → Bytes
written [] = []
written (small d ∷ ops) = d ++ written ops
written (shared d ∷ ops) = d ++ written ops
written (segment d ∷ ops) = d ++ written ops
written (flush n ∷ ops) = written ops

-- The bytes that the peer got, and the buffer.
abbrev pub run_one : Op → Bytes × CorkBuffer → Bytes × CorkBuffer
run_one (small d) (sent, c) = (sent, (write c d).1)
run_one (shared d) (sent, c) = (sent, write_bytes c d)
run_one (segment d) (sent, c) = (sent, push_segment c d)
run_one (flush n) (sent, c) = (sent ++ take n (contents c), consume c n)

abbrev pub run : List Op → Bytes × CorkBuffer → Bytes × CorkBuffer
run [] s = s
run (op ∷ ops) s = run ops (run_one op s)

abbrev total : Bytes × CorkBuffer → Bytes
total (sent, c) = sent ++ contents c

appended :
    (sent d : Bytes) (c c' : CorkBuffer)
    → contents c' ≡ contents c ++ d
    → sent ++ contents c' ≡ (sent ++ contents c) ++ d
appended sent d c c' e = ap (λ z. sent ++ z) e ∙ sym (append_assoc sent (contents c) d)

total-run_one :
    (op : Op) (s : Bytes × CorkBuffer) → total (run_one op s) ≡ total s ++ written (op ∷ [])
total-run_one (small d) (sent, c) =
    appended sent d c (write c d).1 (contents-write c d)
    ∙ ap (λ z. total (sent, c) ++ z) (sym (append-nil d))
total-run_one (shared d) (sent, c) =
    appended sent d c (write_bytes c d) (contents-write_bytes c d)
    ∙ ap (λ z. total (sent, c) ++ z) (sym (append-nil d))
total-run_one (segment d) (sent, c) =
    appended sent d c (push_segment c d) (contents-push_segment c d)
    ∙ ap (λ z. total (sent, c) ++ z) (sym (append-nil d))
total-run_one (flush n) (sent, c) =
    ap (λ z. (sent ++ take n (contents c)) ++ z) (contents-consume c n)
    ∙ append_assoc sent (take n (contents c)) (drop n (contents c))
    ∙ ap (λ z. sent ++ z) (take-append-drop n (contents c))
    ∙ sym (append-nil (sent ++ contents c))

written-cons : (op : Op) (ops : List Op) → written (op ∷ []) ++ written ops ≡ written (op ∷ ops)
written-cons (small d) ops = append_assoc d [] (written ops)
written-cons (shared d) ops = append_assoc d [] (written ops)
written-cons (segment d) ops = append_assoc d [] (written ops)
written-cons (flush n) ops = refl

-- Whatever writes and flushes are made in whatever order, what the peer got followed by what waits
-- is what was there before, followed by what was written, in the order of the writes.
pub run-written :
    (ops : List Op) (sent : Bytes) (c : CorkBuffer)
    → (run ops (sent, c)).0 ++ contents (run ops (sent, c)).1 ≡ (sent ++ contents c) ++ written ops
run-written ops sent c = total-run ops (sent, c)
  where
    total-run :
        (ops : List Op) (s : Bytes × CorkBuffer) → total (run ops s) ≡ total s ++ written ops
    total-run [] s = sym (append-nil (total s))
    total-run (op ∷ ops) s =
        total-run ops (run_one op s)
        ∙ ap (λ z. z ++ written ops) (total-run_one op s)
        ∙ append_assoc (total s) (written (op ∷ [])) (written ops)
        ∙ ap (λ z. total s ++ z) (written-cons op ops)

one-IsValid : (op : Op) (s : Bytes × CorkBuffer) → IsValid s.1 → IsValid (run_one op s).1
one-IsValid (small d) (sent, c) v = write-IsValid c d v
one-IsValid (shared d) (sent, c) v = write_bytes-IsValid c d v
one-IsValid (segment d) (sent, c) v = push_segment-IsValid c d v
one-IsValid (flush n) (sent, c) v = consume-IsValid c n v

-- Every call that changes the buffer, but `reserve`, which changes only its capacity; what
-- `buffer_mut` lends may be changed in any way.
pub data Call : Type 0 where
  op : Op → Call
  cork uncork take_buffer clear : Call
  buffer_mut : (Bytes → Bytes) → Call

abbrev pub call_one : Call → CorkBuffer → CorkBuffer
call_one (Call.op o) c = (run_one o ([], c)).1
call_one Call.cork c = Defs.cork c
call_one Call.uncork c = (Defs.uncork c).1
call_one Call.take_buffer c = (Defs.take_buffer c).1
call_one Call.clear c = Defs.clear c
call_one (Call.buffer_mut change) c = Defs.buffer_mut change c

abbrev pub calls : List Call → CorkBuffer → CorkBuffer
calls [] c = c
calls (k ∷ ks) c = calls ks (call_one k c)

call_one-IsValid : (k : Call) (c : CorkBuffer) → IsValid c → IsValid (call_one k c)
call_one-IsValid (Call.op o) c v = one-IsValid o ([], c) v
call_one-IsValid Call.cork c v = v
call_one-IsValid Call.uncork c v = v
call_one-IsValid Call.take_buffer c v = v
call_one-IsValid Call.clear c v = (refl, tt)
call_one-IsValid (Call.buffer_mut change) c v = v

calls-IsValid : (ks : List Call) (c : CorkBuffer) → IsValid c → IsValid (calls ks c)
calls-IsValid [] c v = v
calls-IsValid (k ∷ ks) c v = calls-IsValid ks (call_one k c) (call_one-IsValid k c v)

-- After any sequence of calls on a new buffer, `clear`, `take_buffer` and changes through
-- `buffer_mut` among them, `pending_bytes` is the number of the bytes that wait.
pub pending_bytes-calls :
    (capacity : ℕ) (ks : List Call)
    → pending_bytes (calls ks (with_capacity capacity))
      ≡ length (contents (calls ks (with_capacity capacity)))
pending_bytes-calls capacity ks =
    pending_bytes-contents (calls ks (with_capacity capacity))
      (calls-IsValid ks (with_capacity capacity) (refl, tt))
