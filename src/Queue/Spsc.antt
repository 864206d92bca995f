-- ===== src/Queue/Spsc.antt =====
-- `SpscQueue` of src/queue.rs as the turns that its two threads take. Every load or store of an atomic
-- index, and the access of a slot that follows it, is one turn; the threads take turns in any order.
-- The model has one order of all loads and stores, as the Release and Acquire pairs of the indices give
-- it for the slots. An index is a `usize` of 64 bits; an uninitialised slot is `none`.
use sockudo_ws.Base.{
  ℕ, ◌+◌, ◌-◌, ◌%◌, ◌^◌, bit_and, leb, ◌==◌, if◌then◌else◌, Bool, Option, none, some, List, [], ◌∷◌,
  ◌++◌,
}

abbrev pub wrapping_add : ℕ → ℕ → ℕ
wrapping_add a b = (a + b) % 2 ^ 64

-- For indices below 2 ^ 64
abbrev pub wrapping_sub : ℕ → ℕ → ℕ
wrapping_sub a b = (a + 2 ^ 64 - b) % 2 ^ 64

pub record SpscQueue {ℓ} (T : Type ℓ) : Type ℓ where
  pub head : ℕ
  pub tail : ℕ
  pub buffer : ℕ → Option T

-- Where the producer is in `try_push`, with its local variables.
pub data Producer {ℓ} (T : Type ℓ) : Type ℓ where
  between : Producer T
  loaded_head : T → ℕ → Producer T
  loaded_tail : T → ℕ → ℕ → Producer T
  written : T → ℕ → Producer T

-- Where the consumer is in `try_pop`.
pub data Consumer {ℓ} (T : Type ℓ) : Type ℓ where
  between : Consumer T
  loaded_tail : ℕ → Consumer T
  loaded_head : ℕ → ℕ → Consumer T
  read : ℕ → Option T → Consumer T

-- The queue, its two threads, and the calls that have returned: the items of `try_push` with `Ok`, the
-- items of `try_push` with `Err`, and the results of `try_pop` other than `None`.
pub record System {ℓ} (T : Type ℓ) : Type ℓ where
  pub queue : SpscQueue T
  pub producer : Producer T
  pub consumer : Consumer T
  pub pushed : List T
  pub refused : List T
  pub popped : List (Option T)

-- A turn of the producer, whose next call is with the item, or of the consumer.
pub data Turn {ℓ} (T : Type ℓ) : Type ℓ where
  produce : T → Turn T
  consume : Turn T

module _ {ℓ} {T : Type ℓ} where
  abbrev pub set_slot : (ℕ → Option T) → ℕ → T → ℕ → Option T
  set_slot buffer i item j = if j == i then some item else buffer j

  abbrev pub spsc_new : SpscQueue T
  spsc_new = record { head = 0; tail = 0; buffer = λ _. none }

  abbrev pub system_new : System T
  system_new = record {
    queue = spsc_new;
    producer = Producer.between;
    consumer = Consumer.between;
    pushed = [];
    refused = [];
    popped = [];
  }

  -- The turns of one `try_push` that finds a free slot
  abbrev pub push_call : T → List (Turn T)
  push_call item =
      Turn.produce item ∷ Turn.produce item ∷ Turn.produce item ∷ Turn.produce item ∷ []

-- `index & Self::mask()`
abbrev pub slot : ℕ → ℕ → ℕ
slot N index = bit_and index (N - 1)

module _ {ℓ} {T : Type ℓ} (N : ℕ) where
  -- The turns of `try_push`: load the head, load the tail, refuse or write the slot, store the head.
  abbrev pub push_turn : Producer T → T → System T → System T
  push_turn Producer.between item s = record s { producer = Producer.loaded_head item s.queue.head }
  push_turn (Producer.loaded_head item head) next s = record s {
    producer = Producer.loaded_tail item head s.queue.tail;
  }
  push_turn (Producer.loaded_tail item head tail) next s =
      if leb N (wrapping_sub head tail)
      then record s { producer = Producer.between; refused = s.refused ++ (item ∷ []) }
      else record s {
        queue = record s.queue { buffer = set_slot s.queue.buffer (slot N head) item };
        producer = Producer.written item head;
      }
  push_turn (Producer.written item head) next s = record s {
    queue = record s.queue { head = wrapping_add head 1 };
    producer = Producer.between;
    pushed = s.pushed ++ (item ∷ []);
  }

  -- The turns of `try_pop`: load the tail, load the head, return `None` or read the slot, store the
  -- tail.
  abbrev pub pop_turn : Consumer T → System T → System T
  pop_turn Consumer.between s = record s { consumer = Consumer.loaded_tail s.queue.tail }
  pop_turn (Consumer.loaded_tail tail) s = record s {
    consumer = Consumer.loaded_head tail s.queue.head;
  }
  pop_turn (Consumer.loaded_head tail head) s =
      if tail == head
      then record s { consumer = Consumer.between }
      else record s { consumer = Consumer.read tail (s.queue.buffer (slot N tail)) }
  pop_turn (Consumer.read tail item) s = record s {
    queue = record s.queue { tail = wrapping_add tail 1 };
    consumer = Consumer.between;
    popped = s.popped ++ (item ∷ []);
  }

  abbrev pub take_turn : Turn T → System T → System T
  take_turn (Turn.produce item) s = push_turn s.producer item s
  take_turn Turn.consume s = pop_turn s.consumer s

  abbrev pub take_turns : List (Turn T) → System T → System T
  take_turns [] s = s
  take_turns (t ∷ ts) s = take_turns ts (take_turn t s)

  -- `SpscQueue::len` and `is_empty` called when the system is `s`: each loads two indices, and the
  -- threads take the turns `meanwhile` after the first load and before the second.
  abbrev pub spsc_len : List (Turn T) → System T → ℕ
  spsc_len meanwhile s = wrapping_sub s.queue.head (take_turns meanwhile s).queue.tail

  abbrev pub spsc_is_empty : List (Turn T) → System T → Bool
  spsc_is_empty meanwhile s = s.queue.tail == (take_turns meanwhile s).queue.head
