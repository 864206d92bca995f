-- ===== src/Cork/Slices.antt =====
-- The `consume` of src/cork.rs, and the slices that it gives to a vectored write.
use sockudo_ws.Base.{
  ℕ, suc, zero, ◌-◌, ◌≤◌, ◌<◌, min, leb, ◌==◌, List, [], ◌∷◌, ◌++◌, length, drop, All, Bytes, ◌≡◌,
  refl, sym, ap, ◌∙◌, arith, Bool-cases, inl, inr, ==→eq, leb→le, lt_of_leb-false, length-append,
  length-drop, drop-append_ge, drop-append, drop_all,
}
use mathlib.Core.Path.{subst}
use mathlib.Core.List.{append_assoc, append-nil}
use sockudo_ws.Cork.Defs.{
  CorkBuffer, consume_segments, consume, fill_segments, fill_buffer, fill_write_slices,
  pending_bytes,
}
use sockudo_ws.Cork.Laws.{join, contents, IsValid}

drop-min : (n : ℕ) (b : Bytes) → drop (min n (length b)) b ≡ drop n b
drop-min n b = elim (Bool-cases (leb n (length b))) [
  | inl l ↦ ap (λ k. drop k b) (omega (arith, leb→le _ _ l))
  | inr l ↦
      drop_all (min n (length b)) b (omega (arith, lt_of_leb-false _ _ l))
      ∙ sym (drop_all n b (omega (arith, lt_of_leb-false _ _ l)))
]

-- The loop of `consume`: what it leaves of the segments and of `n`.
contents-consume_segments :
    (ss : List Bytes) (count n : ℕ) (b : Bytes)
    → join (consume_segments ss count n).0 ++ drop (consume_segments ss count n).2 b
      ≡ drop n (join ss ++ b)
contents-consume_segments [] count n b = refl
contents-consume_segments (s ∷ ss) count n b = elim (Bool-cases (n == 0)) [
  | inl z ↦ rw z (
      subst (λ k. (s ++ join ss) ++ drop k b ≡ drop k ((s ++ join ss) ++ b)) (sym (==→eq n 0 z))
        refl)
  | inr m ↦ elim (Bool-cases (leb (length s) n)) [
    | inl l ↦
        rw (m, l)
          (contents-consume_segments ss (count - length s) (n - length s) b
            ∙ sym (drop-append_ge n s (join ss ++ b) (leb→le _ _ l))
            ∙ ap (drop n) (sym (append_assoc s (join ss) b)))
    | inr l ↦
        rw (m, l)
          (append_assoc (drop n s) (join ss) b
            ∙ sym (drop-append n s (join ss ++ b) (omega (arith, lt_of_leb-false _ _ l)))
            ∙ ap (drop n) (sym (append_assoc s (join ss) b)))
  ]
]

-- What was written is taken off the front of what waits, and nothing else changes.
pub contents-consume : (c : CorkBuffer) (n : ℕ) → contents (consume c n) ≡ drop n (contents c)
unfolding consume
contents-consume c n =
    ap (λ z. join (consume_segments c.segments c.segment_bytes n).0 ++ z)
      (drop-min (consume_segments c.segments c.segment_bytes n).2 c.buffer)
    ∙ contents-consume_segments c.segments c.segment_bytes n c.buffer

consume_segments-IsValid :
    (ss : List Bytes) (count n : ℕ)
    → count ≡ length (join ss)
    → All (λ s. 0 < length s) ss
    → ((consume_segments ss count n).1 ≡ length (join (consume_segments ss count n).0))
      × All (λ s. 0 < length s) (consume_segments ss count n).0
consume_segments-IsValid [] count n e a = (e, a)
consume_segments-IsValid (s ∷ ss) count n e a = elim (Bool-cases (n == 0)) [
  | inl z ↦ rw z (e, a)
  | inr m ↦ elim (Bool-cases (leb (length s) n)) [
    | inl l ↦
        rw (m, l)
          (consume_segments-IsValid ss (count - length s) (n - length s)
            (omega (arith, e, length-append s (join ss))) a.1)
    | inr l ↦
        rw (m, l)
          (
            omega (
              arith,
              e,
              length-append s (join ss),
              length-append (drop n s) (join ss),
              length-drop n s,
              lt_of_leb-false _ _ l,
            ),
            (omega (arith, length-drop n s, lt_of_leb-false _ _ l), a.1),
          )
  ]
]

-- The count of the waiting bytes is right after a `consume`, and no empty segment is left.
pub consume-IsValid : (c : CorkBuffer) (n : ℕ) → IsValid c → IsValid (consume c n)
unfolding consume
consume-IsValid c n v = consume_segments-IsValid c.segments c.segment_bytes n v.0 v.1

pub pending_bytes-contents : (c : CorkBuffer) → IsValid c → pending_bytes c ≡ length (contents c)
pending_bytes-contents c v = omega (arith, v.0, length-append (join c.segments) c.buffer)

fill_write_slices_lem :
    (c : CorkBuffer) (room : ℕ)
    → (length (fill_write_slices c room) ≤ room)
      × ((rest : Bytes) × (contents c ≡ join (fill_write_slices c room) ++ rest)
          × (length c.segments < room → rest ≡ []))
unfolding fill_write_slices
fill_write_slices_lem c room = go c.segments room
  where
    slices : List Bytes → ℕ → List Bytes
    slices ss n = (fill_segments n ss).0 ++ fill_buffer (fill_segments n ss).1 c.buffer

    last :
        (n : ℕ) (b : Bytes)
        → (length (fill_buffer n b) ≤ n)
          × ((rest : Bytes) × (b ≡ join (fill_buffer n b) ++ rest) × (0 < n → rest ≡ []))
    last zero b = (omega arith, (b, refl, λ l. absurd (omega (arith, l))))
    last (suc n) [] = (omega arith, ([], refl, λ l. refl))
    last (suc n) (x ∷ xs) =
        (omega arith, ([], sym (append-nil ((x ∷ xs) ++ []) ∙ append-nil (x ∷ xs)), λ l. refl))

    go :
        (ss : List Bytes) (n : ℕ)
        → (length (slices ss n) ≤ n)
          × ((rest : Bytes) × (join ss ++ c.buffer ≡ join (slices ss n) ++ rest)
              × (length ss < n → rest ≡ []))
    go [] n = last n c.buffer
    go (s ∷ ss) zero =
        (omega arith, (join (s ∷ ss) ++ c.buffer, refl, λ l. absurd (omega (arith, l))))
    go (s ∷ ss) (suc n) =
        let ih = go ss n in
        (
          omega (arith, ih.0),
          (
            ih.1.0,
            append_assoc s (join ss) c.buffer
                ∙ ap (λ z. s ++ z) ih.1.1
                ∙ sym (append_assoc s (join (slices ss n)) ih.1.0),
            λ l. ih.1.2 (omega (arith, l)),
          ),
        )

-- The slices for an output of `room` slices are no more than that, and are the front of what waits,
-- in order.
pub fill_write_slices-front :
    (c : CorkBuffer) (room : ℕ)
    → (length (fill_write_slices c room) ≤ room)
      × ((rest : Bytes) × (contents c ≡ join (fill_write_slices c room) ++ rest))
fill_write_slices-front c room = let r = fill_write_slices_lem c room in (r.0, (r.1.0, r.1.1))

-- They are all that waits when there is room for every segment and the open buffer.
pub join-fill_write_slices :
    (c : CorkBuffer) (room : ℕ)
    → length c.segments < room
    → join (fill_write_slices c room) ≡ contents c
join-fill_write_slices c room l =
    let r = fill_write_slices_lem c room in
    sym (
      r.1.1
      ∙ ap (λ z. join (fill_write_slices c room) ++ z) (r.1.2 l)
      ∙ append-nil (join (fill_write_slices c room)))
