-- ===== src/Cork/Laws.antt =====
-- The cork buffer of src/cork.rs as one list of bytes: every operation on the segments and the open
-- buffer does to that list what it promises.
use sockudo_ws.Base.{
  ◌<◌, ltb, List, [], ◌∷◌, ◌++◌, length, All, All-append, Bytes, ◌≡◌, refl, sym, ap, ◌∙◌, arith,
  Bool-cases, inl, inr, length-append,
}
use mathlib.Core.List.{append_assoc, append-nil}
use sockudo_ws.Cork.Defs.{
  CorkBuffer, zero_copy_min, write, close_buffer, push_segment, write_bytes, fill_buffer,
  get_write_slices,
}

abbrev pub join : List Bytes → Bytes
join [] = []
join (s ∷ ss) = s ++ join ss

-- The bytes that wait, in output order.
abbrev pub contents : CorkBuffer → Bytes
contents c = join c.segments ++ c.buffer

-- `segment_bytes` counts the segments' bytes, and no segment is empty.
abbrev pub IsValid : CorkBuffer → Type 0
IsValid c = (c.segment_bytes ≡ length (join c.segments)) × All (λ s. 0 < length s) c.segments

pub join-append : (xs ys : List Bytes) → join (xs ++ ys) ≡ join xs ++ join ys
join-append [] ys = refl
join-append (x ∷ xs) ys =
    ap (λ z. x ++ z) (join-append xs ys) ∙ sym (append_assoc x (join xs) (join ys))

join-snoc : (xs : List Bytes) (y : Bytes) → join (xs ++ (y ∷ [])) ≡ join xs ++ y
join-snoc xs y = join-append xs (y ∷ []) ∙ ap (λ z. join xs ++ z) (append-nil y)

contents-close_buffer :
    (b : Bytes) (c : CorkBuffer) → c.buffer ≡ b → join (close_buffer b c).segments ≡ contents c
contents-close_buffer [] c e = sym (ap (λ z. join c.segments ++ z) e ∙ append-nil (join c.segments))
contents-close_buffer (x ∷ xs) c e =
    join-snoc c.segments (x ∷ xs) ∙ ap (λ z. join c.segments ++ z) (sym e)

close_buffer-IsValid : (b : Bytes) (c : CorkBuffer) → IsValid c → IsValid (close_buffer b c)
close_buffer-IsValid [] c v = v
close_buffer-IsValid (x ∷ xs) c v = (
  omega (
    arith,
    v.0,
    ap length (join-snoc c.segments (x ∷ xs)),
    length-append (join c.segments) (x ∷ xs),
  ),
  All-append (λ s. 0 < length s) c.segments ((x ∷ xs) ∷ []) v.1 (omega arith, tt),
)

closed_empty : (b : Bytes) (c : CorkBuffer) → c.buffer ≡ b → (close_buffer b c).buffer ≡ []
closed_empty [] c e = e
closed_empty (x ∷ xs) c e = refl

-- Bytes queued by reference come behind everything that was written before, also when the open
-- buffer holds some of it.
pub contents-push_segment :
    (c : CorkBuffer) (d : Bytes) → contents (push_segment c d) ≡ contents c ++ d
unfolding push_segment
contents-push_segment c [] = sym (append-nil (contents c))
contents-push_segment c (x ∷ xs) =
    ap (λ z. join ((close_buffer c.buffer c).segments ++ ((x ∷ xs) ∷ [])) ++ z)
      (closed_empty c.buffer c refl)
    ∙ append-nil (join ((close_buffer c.buffer c).segments ++ ((x ∷ xs) ∷ [])))
    ∙ join-snoc (close_buffer c.buffer c).segments (x ∷ xs)
    ∙ ap (λ z. z ++ (x ∷ xs)) (contents-close_buffer c.buffer c refl)

pub push_segment-IsValid : (c : CorkBuffer) (d : Bytes) → IsValid c → IsValid (push_segment c d)
unfolding push_segment
push_segment-IsValid c [] v = v
push_segment-IsValid c (x ∷ xs) v =
    let w = close_buffer-IsValid c.buffer c v in
    let ss = (close_buffer c.buffer c).segments in
    (
      omega (arith, w.0, ap length (join-snoc ss (x ∷ xs)), length-append (join ss) (x ∷ xs)),
      All-append (λ s. 0 < length s) ss ((x ∷ xs) ∷ []) w.1 (omega arith, tt),
    )

-- Both ways of writing append the bytes to what waits.
pub contents-write : (c : CorkBuffer) (d : Bytes) → contents (write c d).1 ≡ contents c ++ d
unfolding write
contents-write c d = sym (append_assoc (join c.segments) c.buffer d)

pub contents-write_bytes :
    (c : CorkBuffer) (d : Bytes) → contents (write_bytes c d) ≡ contents c ++ d
unfolding write_bytes
contents-write_bytes c d = elim (Bool-cases (ltb (length d) zero_copy_min)) [
  | inl s ↦ rw s (sym (append_assoc (join c.segments) c.buffer d))
  | inr l ↦ rw l (contents-push_segment c d)
]

pub write_bytes-IsValid : (c : CorkBuffer) (d : Bytes) → IsValid c → IsValid (write_bytes c d)
unfolding write_bytes
write_bytes-IsValid c d v = elim (Bool-cases (ltb (length d) zero_copy_min)) [
  | inl s ↦ rw s v
  | inr l ↦ rw l (push_segment-IsValid c d v)
]

pub write-IsValid : (c : CorkBuffer) (d : Bytes) → IsValid c → IsValid (write c d).1
unfolding write
write-IsValid c d v = v

-- The slices of the vectored write are the bytes that wait, in order, and none is left out.
join-get_write_slices : (c : CorkBuffer) → join (get_write_slices c) ≡ contents c
unfolding get_write_slices
join-get_write_slices c =
    join-append c.segments (fill_buffer 1 c.buffer) ∙ ap (λ z. join c.segments ++ z) (one c.buffer)
  where
    one : (b : Bytes) → join (fill_buffer 1 b) ≡ b
    one [] = refl
    one (x ∷ xs) = append-nil (x ∷ xs)
