-- ===== src/Queue/Fifo.antt =====
-- The queue of src/queue.rs under all orders of the turns of its two threads: first in, first out.
use sockudo_ws.Base.{
  ℕ, ◌+◌, ◌-◌, ◌≤◌, ◌<◌, leb, some, List, [], ◌∷◌, ◌++◌, map, length, take, ◌≡◌, refl, sym, ap, ◌∙◌,
  arith, lt→leb_false, length-append,
}
use mathlib.Core.Path.{ap₂, subst}
use sockudo_ws.Queue.Spsc.{
  push_call, Producer, System, Turn, system_new, push_turn, take_turn, take_turns, wrapping_sub,
  spsc_len, Consumer, pop_turn,
}
use sockudo_ws.Queue.Slots.{IsCapacity, capacity_pos, wrapping_sub-counts}
use sockudo_ws.Queue.Sound.{IsSound, system_new-IsSound}
use sockudo_ws.Queue.Push.{pushing}
use sockudo_ws.Queue.Pop.{popping}

module _ {T : Type 0} (N : ℕ) (c : IsCapacity N) where
  take_turn-IsSound : (s : System T) (t : Turn T) → IsSound N s → IsSound N (take_turn N t s)
  take_turn-IsSound s (Turn.produce item) v = pushing N c s s.producer item refl v
  take_turn-IsSound s Turn.consume v = popping N c s s.consumer refl v

  pub take_turns-IsSound :
      (ts : List (Turn T)) (s : System T) → IsSound N s → IsSound N (take_turns N ts s)
  take_turns-IsSound [] s v = v
  take_turns-IsSound (t ∷ ts) s v =
      take_turns-IsSound ts (take_turn N t s) (take_turn-IsSound s t v)

  -- In whatever order the producer and the consumer of a new queue take their turns, the items that
  -- `try_pop` has returned are the first ones that were pushed, each once, in order and none of them
  -- from an uninitialised slot; and at most as many items are waiting as the queue has slots.
  pub take_turns-first :
      (ts : List (Turn T))
      → (take_turns N ts system_new).popped
          ≡ map some (
              take (length (take_turns N ts system_new).popped) (take_turns N ts system_new).pushed)
        × (length (take_turns N ts system_new).popped ≤ length (take_turns N ts system_new).pushed)
        × (length (take_turns N ts system_new).pushed
            ≤ length (take_turns N ts system_new).popped + N)
  take_turns-first ts =
      told (take_turns N ts system_new) (take_turns-IsSound ts system_new (system_new-IsSound N))
    where
      told :
          (s : System T)
          → IsSound N s
          → s.popped ≡ map some (take (length s.popped) s.pushed)
            × (length s.popped ≤ length s.pushed)
            × (length s.pushed ≤ length s.popped + N)
      told s v = (
        v.first ∙ ap (λ n. map some (take n s.pushed)) (sym v.k_is),
        omega (arith, v.behind, v.h_is, v.k_is),
        omega (arith, v.room, v.h_is, v.k_is),
      )

  -- What the test of `try_push` finds when the tail is loaded right after the head.
  fullness : (s : System T) → (v : IsSound N s) → wrapping_sub s.queue.head s.queue.tail ≡ v.h - v.k
  fullness s v =
      ap₂ wrapping_sub v.head_is v.tail_is ∙ wrapping_sub-counts N c v.h v.k v.behind v.room

  -- A `try_push` that no turn of the consumer interrupts returns after four turns with its item behind
  -- the others, when the queue is not full.
  pub try_push-room :
      (s : System T) (item : T)
      → IsSound N s
      → s.producer ≡ Producer.between
      → length s.pushed < length s.popped + N
      → ((take_turns N (push_call item) s).pushed ≡ s.pushed ++ (item ∷ []))
        × ((take_turns N (push_call item) s).refused ≡ s.refused)
        × ((take_turns N (push_call item) s).producer ≡ Producer.between)
  try_push-room s item v e l =
      subst
        (λ p.
          ((take_turns N (Turn.produce item ∷ Turn.produce item ∷ Turn.produce item ∷ [])
              (push_turn N p item s)).pushed
            ≡ s.pushed ++ (item ∷ []))
          × ((take_turns N (Turn.produce item ∷ Turn.produce item ∷ Turn.produce item ∷ [])
                (push_turn N p item s)).refused
              ≡ s.refused)
          × ((take_turns N (Turn.produce item ∷ Turn.produce item ∷ Turn.produce item ∷ [])
                (push_turn N p item s)).producer
              ≡ Producer.between))
        (sym e)
        (rw
          (ap (leb N) (fullness s v)
            ∙ lt→leb_false N (v.h - v.k)
                (omega (arith, l, v.h_is, v.k_is, v.behind, capacity_pos N c)))
          (refl, refl, refl))

  push_turn-popped :
      (p : Producer T) (item : T) (s : System T) → (push_turn N p item s).popped ≡ s.popped
  push_turn-popped p item s = ground arith

  pop_turn-popped :
      (p : Consumer T) (s : System T) → length s.popped ≤ length (pop_turn N p s).popped
  pop_turn-popped Consumer.between s = omega arith
  pop_turn-popped (Consumer.loaded_tail tail) s = omega arith
  pop_turn-popped (Consumer.loaded_head tail head) s = ground arith
  pop_turn-popped (Consumer.read tail item) s = omega (arith, length-append s.popped (item ∷ []))

  turns-popped :
      (ts : List (Turn T)) (s : System T) → length s.popped ≤ length (take_turns N ts s).popped
  turns-popped [] s = omega arith
  turns-popped (Turn.produce item ∷ ts) s = omega (
    arith,
    ap length (push_turn-popped s.producer item s),
    turns-popped ts (push_turn N s.producer item s),
  )
  turns-popped (Turn.consume ∷ ts) s =
      omega (arith, pop_turn-popped s.consumer s, turns-popped ts (pop_turn N s.consumer s))

  -- `SpscQueue::len` is the number of the items pushed before its first load without those popped
  -- before its second, when no more than were pushed have been popped by then.
  spsc_len-pushed :
      (meanwhile : List (Turn T)) (s : System T)
      → IsSound N s
      → length (take_turns N meanwhile s).popped ≤ length s.pushed
      → spsc_len N meanwhile s ≡ length s.pushed - length (take_turns N meanwhile s).popped
  spsc_len-pushed meanwhile s v l =
      let w = take_turns-IsSound meanwhile s v in
      let more = turns-popped meanwhile s in
      ap₂ wrapping_sub v.head_is w.tail_is
      ∙ wrapping_sub-counts N c v.h w.k (omega (arith, l, v.h_is, w.k_is))
          (omega (arith, v.room, more, v.k_is, w.k_is))
      ∙ ap₂ ◌-◌ (sym v.h_is) (sym w.k_is)
