-- ===== src/Window/Laws.antt =====
-- What `prepare` of src/stream/receive_window.rs guarantees to the next read.
use sockudo_ws.Base.{
  ℕ, ◌+◌, ◌-◌, ◌≤◌, ltb, if◌then◌else◌, Bool, true, not, ◌&&◌, [], ◌∷◌, length, Bytes, ◌≡◌, refl,
  sym, ap, ◌∙◌, arith, Bool-cases, inl, inr, le_of_ltb-false,
}
use sockudo_ws.Window.Defs.{
  BytesMut, Allocation, ReceiveWindow, min_spare, is_empty_buffer, window_new, record_read,
  grow_unless, prepare_empty, with_spare, prepare, saturating_mul,
}

-- The same window and bytes.
abbrev Same : ReceiveWindow → BytesMut → ReceiveWindow × BytesMut → Type 0
Same w buf (w', buf') = (w'.size ≡ w.size) × (buf'.bytes ≡ buf.bytes)

empty_is : (b : Bytes) → is_empty_buffer b ≡ true → b ≡ []
empty_is [] e = refl
empty_is (x ∷ b) e = absurd (ground (arith, e))

module _ (a : Allocation) where
  grown :
      (w : ReceiveWindow) (buf : BytesMut) (grow : Bool) (r : Bool × BytesMut)
      → r.1.bytes ≡ buf.bytes
      → (grow_unless a w grow r).bytes ≡ buf.bytes
  grown w buf grow (reclaimed, b) e = elim (Bool-cases (not reclaimed && grow)) [
    | inl g ↦ rw g (a.reserve-bytes b w.size ∙ e)
    | inr k ↦ rw k e
  ]

  emptied :
      (w : ReceiveWindow) (buf : BytesMut) (grow : Bool)
      → buf.bytes ≡ []
      → Same w buf (prepare_empty a w buf grow)
  emptied w buf grow e =
      elim (Bool-cases (w.last_read_small && ltb (saturating_mul w.size 2) buf.capacity)) [
        | inl small ↦ rw small (refl, a.with_capacity-bytes w.size ∙ sym e)
        | inr bulk ↦ elim (Bool-cases w.reclaim) [
          | inl r ↦
              rw (bulk, r)
                (refl, grown w buf grow (a.try_reclaim buf w.size) (a.try_reclaim-bytes buf w.size))
          | inr k ↦ rw (bulk, k) (refl, refl)
        ]
      ]

  -- Room for a read: the spare that the window keeps, behind the same bytes.
  abbrev pub HasRoom : ReceiveWindow → BytesMut → ReceiveWindow × BytesMut → Type 0
  HasRoom w buf (w', buf') =
      (w'.size ≡ w.size)
      × (buf'.bytes ≡ buf.bytes)
      × (length buf'.bytes + min_spare w' ≤ buf'.capacity)

  spared :
      (w : ReceiveWindow) (buf : BytesMut) (r : ReceiveWindow × BytesMut)
      → 1 ≤ min_spare w
      → Same w buf r
      → HasRoom w buf (with_spare a r)
  spared w buf (w', b) pos (s, e) =
      elim (Bool-cases (ltb (b.capacity - length b.bytes) (min_spare w'))) [
        | inl low ↦ rw low (
          s,
          a.reserve-bytes b w'.size ∙ e,
          omega (arith, a.reserve-capacity b w'.size, ap length (a.reserve-bytes b w'.size)),
        )
        | inr fine ↦ rw fine (s, e, omega (arith, le_of_ltb-false _ _ fine, pos, s))
      ]

  prepared :
      (w : ReceiveWindow) (buf : BytesMut) (grow : Bool)
      → Same w buf (if is_empty_buffer buf.bytes then prepare_empty a w buf grow else (w, buf))
  prepared w buf grow = elim (Bool-cases (is_empty_buffer buf.bytes)) [
    | inl e ↦ rw e (emptied w buf grow (empty_is buf.bytes e))
    | inr e ↦ rw e (refl, refl)
  ]

  -- A window of at least 1024 bytes, as every new one is, prepares the buffer for a read without
  -- changing the bytes in it or its own size: there is room for a quarter of the window or 4096 bytes,
  -- whichever is less, and that is 256 bytes at least, so that a read is never given an empty buffer.
  pub prepare-HasRoom :
      (w : ReceiveWindow) (buf : BytesMut) (grow_retained : Bool)
      → 1024 ≤ w.size
      → HasRoom w buf (prepare a w buf grow_retained)
        × (256 ≤ min_spare (prepare a w buf grow_retained).0)
  unfolding prepare
  prepare-HasRoom w buf grow l =
      let r =
        spared w buf (if is_empty_buffer buf.bytes then prepare_empty a w buf grow else (w, buf))
          (omega (arith, l)) (prepared w buf grow) in
      (r, omega (arith, r.0, l))

-- A new window has 1024 bytes at least, and keeps its size when a read is recorded.
pub window_new-size :
    (size buffered read : ℕ) → 1024 ≤ (record_read (window_new size) buffered read).size
window_new-size size buffered read = omega arith
