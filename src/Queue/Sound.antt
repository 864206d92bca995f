-- ===== src/Queue/Sound.antt =====
-- What holds of the queue of src/queue.rs and its two threads between any two turns.
use sockudo_ws.Base.{
  ℕ, ◌+◌, ◌%◌, ◌^◌, ◌≤◌, ◌<◌, Option, some, List, [], ◌∷◌, ◌++◌, map, length, take, get_elem?,
  get_elem?-append, ◌≡◌, refl, sym, ◌∙◌, arith,
}
use sockudo_ws.Queue.Spsc.{Producer, Consumer, System, system_new}

module _ {T : Type 0} (N : ℕ) where
  -- What the producer in the middle of a call knows, when `h` items have been pushed and `k` popped.
  abbrev pub AtProducer : Producer T → ℕ → ℕ → (ℕ → Option T) → Type 0
  AtProducer Producer.between h k buffer = Unit
  AtProducer (Producer.loaded_head item head) h k buffer = head ≡ h % 2 ^ 64
  AtProducer (Producer.loaded_tail item head tail) h k buffer =
      (head ≡ h % 2 ^ 64) × (old : ℕ) × (tail ≡ old % 2 ^ 64) × (old ≤ k) × (h ≤ old + N)
  AtProducer (Producer.written item head) h k buffer =
      (head ≡ h % 2 ^ 64) × (h < k + N) × (buffer (h % N) ≡ some item)

  abbrev pub AtConsumer : Consumer T → ℕ → ℕ → List T → Type 0
  AtConsumer Consumer.between h k pushed = Unit
  AtConsumer (Consumer.loaded_tail tail) h k pushed = tail ≡ k % 2 ^ 64
  AtConsumer (Consumer.loaded_head tail head) h k pushed =
      (tail ≡ k % 2 ^ 64) × (old : ℕ) × (head ≡ old % 2 ^ 64) × (k ≤ old) × (old ≤ h)
  AtConsumer (Consumer.read tail item) h k pushed =
      (tail ≡ k % 2 ^ 64) × (k < h) × (item ≡ get_elem? pushed k)

  -- The invariant of the system: what has been popped is what was pushed first, the items between are
  -- in their slots, and there are at most as many as slots.
  pub record IsSound (s : System T) : Type 0 where
    pub h : ℕ
    pub k : ℕ
    pub h_is : length s.pushed ≡ h
    pub k_is : length s.popped ≡ k
    pub head_is : s.queue.head ≡ h % 2 ^ 64
    pub tail_is : s.queue.tail ≡ k % 2 ^ 64
    pub behind : k ≤ h
    pub room : h ≤ k + N
    pub first : s.popped ≡ map some (take k s.pushed)
    pub slots : (i : ℕ) → k ≤ i → i < h → s.queue.buffer (i % N) ≡ get_elem? s.pushed i
    pub producing : AtProducer s.producer h k s.queue.buffer
    pub consuming : AtConsumer s.consumer h k s.pushed

  pub system_new-IsSound : IsSound system_new
  system_new-IsSound = record {
    h = 0;
    k = 0;
    h_is = refl;
    k_is = refl;
    head_is = refl;
    tail_is = refl;
    behind = omega arith;
    room = omega arith;
    first = refl;
    slots = λ i l u. absurd (omega (arith, u));
    producing = tt;
    consuming = tt;
  }

  -- A turn that changes only what a thread has loaded, or refuses an item.
  pub moved_on :
      (s : System T) (p : Producer T) (c : Consumer T) (refused : List T) (v : IsSound s)
      → AtProducer p v.h v.k s.queue.buffer
      → AtConsumer c v.h v.k s.pushed
      → IsSound (record s { producer = p; consumer = c; refused = refused })
  moved_on s p c refused v a b = record {
    h = v.h;
    k = v.k;
    h_is = v.h_is;
    k_is = v.k_is;
    head_is = v.head_is;
    tail_is = v.tail_is;
    behind = v.behind;
    room = v.room;
    first = v.first;
    slots = v.slots;
    producing = a;
    consuming = b;
  }

  -- What the consumer knows stays true when the producer has pushed one more.
  pub more_pushed :
      (c : Consumer T) (h k : ℕ) (pushed : List T) (item : T)
      → length pushed ≡ h
      → AtConsumer c h k pushed
      → AtConsumer c (h + 1) k (pushed ++ (item ∷ []))
  more_pushed Consumer.between h k pushed item e a = tt
  more_pushed (Consumer.loaded_tail tail) h k pushed item e a = a
  more_pushed (Consumer.loaded_head tail head) h k pushed item e (t, old, g, l, u) =
      (t, old, g, l, omega (arith, u))
  more_pushed (Consumer.read tail o) h k pushed item e (t, l, g) =
      (t, omega (arith, l), g ∙ sym (get_elem?-append pushed (item ∷ []) k (omega (arith, l, e))))

  -- What the producer knows stays true when the consumer has popped one more.
  pub more_popped :
      (p : Producer T) (h k : ℕ) (buffer : ℕ → Option T)
      → AtProducer p h k buffer
      → AtProducer p h (k + 1) buffer
  more_popped Producer.between h k buffer a = tt
  more_popped (Producer.loaded_head item head) h k buffer a = a
  more_popped (Producer.loaded_tail item head tail) h k buffer (e, old, t, l, u) =
      (e, old, t, omega (arith, l), u)
  more_popped (Producer.written item head) h k buffer (e, l, b) = (e, omega (arith, l), b)
