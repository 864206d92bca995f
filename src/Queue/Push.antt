-- ===== src/Queue/Push.antt =====
-- The turns of `try_push` of src/queue.rs.
use sockudo_ws.Base.{
  ℕ, ◌+◌, ◌-◌, ◌%◌, ◌^◌, ◌<◌, leb, ◌==◌, if◌then◌else◌, false, Option, some, [], ◌∷◌, ◌++◌, map,
  get_elem?, get_elem?-append, get_elem?-length, take-append, length-append, ◌≡◌, ◌≢◌, sym, ap, ◌∙◌,
  arith, Bool-cases, inl, inr, eq→==, ==→eq, lt_of_leb-false,
}
use mathlib.Core.Path.{ap₂, subst}
use native.Mathlib.Nat.{le_refl}
use sockudo_ws.Queue.Spsc.{Producer, System, set_slot, slot, push_turn, wrapping_add, wrapping_sub}
use sockudo_ws.Queue.Slots.{
  IsCapacity, apart, capacity_pos, slot-wrapped, wrapping_sub-counts, wrapping_add-count,
}
use sockudo_ws.Queue.Sound.{AtProducer, IsSound, more_pushed, moved_on}

module _ {T : Type 0} (N : ℕ) (c : IsCapacity N) where
  other_slot :
      (buffer : ℕ → Option T) (item : T) (h i : ℕ)
      → i < h
      → h < i + N
      → set_slot buffer (slot N (h % 2 ^ 64)) item (i % N) ≡ buffer (i % N)
  other_slot buffer item h i l u =
      ap (λ b. if b then some item else buffer (i % N))
        (differ (i % N) (slot N (h % 2 ^ 64))
          (λ e. apart N (capacity_pos N c) i h l u (sym (slot-wrapped N c h) ∙ sym e)))
    where
      differ : (a b : ℕ) → a ≢ b → (a == b) ≡ false
      differ a b n = ground arith

  own_slot :
      (buffer : ℕ → Option T) (item : T) (h : ℕ)
      → set_slot buffer (slot N (h % 2 ^ 64)) item (h % N) ≡ some item
  own_slot buffer item h =
      ap (λ b. if b then some item else buffer (h % N))
        (eq→== (h % N) (slot N (h % 2 ^ 64)) (sym (slot-wrapped N c h)))

  -- The producer's turns.
  pub pushing :
      (s : System T) (p : Producer T) (next : T)
      → s.producer ≡ p
      → IsSound N s
      → IsSound N (push_turn N p next s)
  pushing s Producer.between next e v =
      moved_on N s (Producer.loaded_head next s.queue.head) s.consumer s.refused v v.head_is
        v.consuming
  pushing s (Producer.loaded_head item head) next e v =
      moved_on N s (Producer.loaded_tail item head s.queue.tail) s.consumer s.refused v
        (
          subst (λ p. AtProducer N p v.h v.k s.queue.buffer) e v.producing,
          v.k,
          v.tail_is,
          le_refl v.k,
          v.room,
        )
        v.consuming
  pushing s (Producer.loaded_tail item head tail) next e v =
      elim (Bool-cases (leb N (wrapping_sub head tail))) [
        | inl full ↦
            rw full
              (moved_on N s Producer.between s.consumer (s.refused ++ (item ∷ [])) v tt v.consuming)
        | inr free ↦
            rw free (writes (subst (λ p. AtProducer N p v.h v.k s.queue.buffer) e v.producing) free)
      ]
    where
      writes :
          AtProducer N (Producer.loaded_tail item head tail) v.h v.k s.queue.buffer
          → leb N (wrapping_sub head tail) ≡ false
          → IsSound N (record s {
            queue = record s.queue { buffer = set_slot s.queue.buffer (slot N head) item };
            producer = Producer.written item head;
          })
      writes (a, old, t, l, u) free =
          let apart_by : wrapping_sub head tail ≡ v.h - old =
            ap₂ wrapping_sub a t ∙ wrapping_sub-counts N c v.h old (omega (arith, l, v.behind)) u in
          let below : v.h < v.k + N = omega (arith, lt_of_leb-false _ _ free, apart_by, l) in
          let at : set_slot s.queue.buffer (slot N head) item
              ≡ set_slot s.queue.buffer (slot N (v.h % 2 ^ 64)) item =
            ap (λ x. set_slot s.queue.buffer (slot N x) item) a in
          record {
            h = v.h;
            k = v.k;
            h_is = v.h_is;
            k_is = v.k_is;
            head_is = v.head_is;
            tail_is = v.tail_is;
            behind = v.behind;
            room = v.room;
            first = v.first;
            slots = λ i m n.
                ap (λ f. f (i % N)) at
                ∙ other_slot s.queue.buffer item v.h i n (omega (arith, below, m))
                ∙ v.slots i m n;
            producing = (a, below, ap (λ f. f (v.h % N)) at ∙ own_slot s.queue.buffer item v.h);
            consuming = v.consuming;
          }
  pushing s (Producer.written item head) next e v =
      publishes (subst (λ p. AtProducer N p v.h v.k s.queue.buffer) e v.producing)
    where
      publishes :
          AtProducer N (Producer.written item head) v.h v.k s.queue.buffer
          → IsSound N (push_turn N (Producer.written item head) next s)
      publishes (a, below, b) = record {
        h = v.h + 1;
        k = v.k;
        h_is = omega (arith, length-append s.pushed (item ∷ []), v.h_is);
        k_is = v.k_is;
        head_is = ap (λ x. wrapping_add x 1) a ∙ wrapping_add-count v.h;
        tail_is = v.tail_is;
        behind = omega (arith, v.behind);
        room = omega (arith, below);
        first =
            v.first
            ∙ ap (map some)
                (sym (take-append v.k s.pushed (item ∷ []) (omega (arith, v.h_is, v.behind))));
        slots = λ i l u. elim (Bool-cases (i == v.h)) [
          | inl last ↦
              ap (λ x. s.queue.buffer (x % N)) (==→eq i v.h last)
              ∙ b
              ∙ sym (
                  ap (get_elem? (s.pushed ++ (item ∷ []))) (==→eq i v.h last ∙ sym v.h_is)
                  ∙ get_elem?-length s.pushed item)
          | inr older ↦
              let m : i < v.h = ground (arith, older, u) in
              v.slots i l m
              ∙ sym (get_elem?-append s.pushed (item ∷ []) i (omega (arith, m, v.h_is)))
        ];
        producing = tt;
        consuming = more_pushed N s.consumer v.h v.k s.pushed item v.h_is v.consuming;
      }
