-- ===== src/Window/Defs.antt =====
-- `ReceiveWindow` of src/stream/receive_window.rs. The buffer is the `BytesMut` of the bytes library,
-- whose operations are a parameter with what its documentation says of them; its capacity is never
-- less than its length, so that their difference does not go below zero.
use sockudo_ws.Base.{
  ℕ, ◌+◌, ◌-◌, ◌*◌, ◌/◌, ◌^◌, ◌≤◌, min, max, ltb, leb, if◌then◌else◌, Bool, true, false, not, ◌&&◌,
  [], ◌∷◌, length, Bytes, ◌≡◌,
}

pub record BytesMut : Type 0 where
  pub bytes : Bytes
  pub capacity : ℕ

-- What the code uses of `BytesMut`, and what it relies on: a new buffer is empty and has the capacity
-- asked for, `reserve` makes room for that many more bytes, `try_reclaim` does so when it returns true,
-- and neither changes the bytes.
pub record Allocation : Type 0 where
  pub with_capacity : ℕ → BytesMut
  pub reserve : BytesMut → ℕ → BytesMut
  pub try_reclaim : BytesMut → ℕ → Bool × BytesMut
  pub with_capacity-bytes : (n : ℕ) → (with_capacity n).bytes ≡ []
  pub with_capacity-capacity : (n : ℕ) → n ≤ (with_capacity n).capacity
  pub reserve-bytes : (b : BytesMut) (n : ℕ) → (reserve b n).bytes ≡ b.bytes
  pub reserve-capacity : (b : BytesMut) (n : ℕ) → length b.bytes + n ≤ (reserve b n).capacity
  pub try_reclaim-bytes : (b : BytesMut) (n : ℕ) → (try_reclaim b n).1.bytes ≡ b.bytes

abbrev pub min_receive_window : ℕ
min_receive_window = 1024

abbrev pub max_read_spare : ℕ
max_read_spare = 4096

pub record ReceiveWindow : Type 0 where
  pub size : ℕ
  pub reclaim : Bool
  pub last_read_small : Bool

abbrev pub window_new : ℕ → ReceiveWindow
window_new size = record {
  size = max size min_receive_window;
  reclaim = false;
  last_read_small = false;
}

abbrev pub min_spare : ReceiveWindow → ℕ
min_spare w = min (w.size / 4) max_read_spare

abbrev pub saturating_mul : ℕ → ℕ → ℕ
saturating_mul a b = min (a * b) (2 ^ 64 - 1)

abbrev pub is_empty_buffer : Bytes → Bool
is_empty_buffer [] = true
is_empty_buffer (b ∷ rest) = false

abbrev pub record_read : ReceiveWindow → ℕ → ℕ → ReceiveWindow
record_read w buffered read = record w {
  reclaim = if leb (w.size / 2) buffered then true else w.reclaim;
  last_read_small = ltb read (min_spare w);
}

module _ (a : Allocation) where
  abbrev pub allocate : ReceiveWindow → BytesMut
  allocate w = a.with_capacity w.size

  -- `if !buf.try_reclaim(self.size) && grow_retained { buf.reserve(self.size); }`
  abbrev pub grow_unless : ReceiveWindow → Bool → Bool × BytesMut → BytesMut
  grow_unless w grow_retained (reclaimed, buf) =
      if not reclaimed && grow_retained then a.reserve buf w.size else buf

  -- `if buf.is_empty()`
  abbrev pub prepare_empty : ReceiveWindow → BytesMut → Bool → ReceiveWindow × BytesMut
  prepare_empty w buf grow_retained =
      if w.last_read_small && ltb (saturating_mul w.size 2) buf.capacity
      then (record w { reclaim = false }, allocate w)
      else if w.reclaim
      then (record w { reclaim = false }, grow_unless w grow_retained (a.try_reclaim buf w.size))
      else (w, buf)

  abbrev pub with_spare : ReceiveWindow × BytesMut → ReceiveWindow × BytesMut
  with_spare (w, buf) =
      if ltb (buf.capacity - length buf.bytes) (min_spare w)
      then (w, a.reserve buf w.size)
      else (w, buf)

  unfoldable pub prepare : ReceiveWindow → BytesMut → Bool → ReceiveWindow × BytesMut
  prepare w buf grow_retained =
      with_spare (if is_empty_buffer buf.bytes then prepare_empty w buf grow_retained else (w, buf))
