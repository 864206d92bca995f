-- ===== src/Queue/Pop.antt =====
-- The turns of `try_pop` of src/queue.rs.
use sockudo_ws.Base.{
  ℕ, suc, ◌+◌, ◌%◌, ◌^◌, ◌<◌, ◌==◌, false, some, [], ◌∷◌, ◌++◌, map, take, take-suc, length-append,
  ◌≡◌, sym, ap, ◌∙◌, arith, Bool-cases, inl, inr, ==→eq,
}
use mathlib.Core.Path.{ap₂, subst}
use native.Mathlib.Nat.{le_refl}
use sockudo_ws.Queue.Spsc.{Consumer, System, slot, pop_turn, wrapping_add}
use sockudo_ws.Queue.Slots.{IsCapacity, slot-wrapped, wrapping_add-count}
use sockudo_ws.Queue.Sound.{AtConsumer, IsSound, more_popped, moved_on}

module _ {T : Type 0} (N : ℕ) (c : IsCapacity N) where
  -- The consumer's turns.
  pub popping :
      (s : System T) (q : Consumer T) → s.consumer ≡ q → IsSound N s → IsSound N (pop_turn N q s)
  popping s Consumer.between e v =
      moved_on N s s.producer (Consumer.loaded_tail s.queue.tail) s.refused v v.producing v.tail_is
  popping s (Consumer.loaded_tail tail) e v =
      moved_on N s s.producer (Consumer.loaded_head tail s.queue.head) s.refused v v.producing (
        subst (λ q. AtConsumer N q v.h v.k s.pushed) e v.consuming,
        v.h,
        v.head_is,
        v.behind,
        le_refl v.h,
      )
  popping s (Consumer.loaded_head tail head) e v = elim (Bool-cases (tail == head)) [
    | inl empty ↦ rw empty (moved_on N s s.producer Consumer.between s.refused v v.producing tt)
    | inr some_there ↦
        rw some_there
          (reads (subst (λ q. AtConsumer N q v.h v.k s.pushed) e v.consuming) some_there)
  ]
    where
      reads :
          AtConsumer N (Consumer.loaded_head tail head) v.h v.k s.pushed
          → (tail == head) ≡ false
          → IsSound N (record s { consumer = Consumer.read tail (s.queue.buffer (slot N tail)) })
      reads (a, old, b, l, u) n =
          let below : v.k < v.h = elim (Bool-cases (v.k == old)) [
            | inl same ↦
                absurd (ground (arith, n, a ∙ ap (λ x. x % 2 ^ 64) (==→eq v.k old same) ∙ sym b))
            | inr less ↦ ground (arith, less, l, u)
          ] in
          moved_on N s s.producer (Consumer.read tail (s.queue.buffer (slot N tail))) s.refused v
            v.producing
            (
              a,
              below,
              ap s.queue.buffer (ap (slot N) a ∙ slot-wrapped N c v.k)
                  ∙ v.slots v.k (le_refl v.k) below,
            )
  popping s (Consumer.read tail item) e v =
      stores (subst (λ q. AtConsumer N q v.h v.k s.pushed) e v.consuming)
    where
      stores :
          AtConsumer N (Consumer.read tail item) v.h v.k s.pushed
          → IsSound N (pop_turn N (Consumer.read tail item) s)
      stores (a, below, b) = record {
        h = v.h;
        k = v.k + 1;
        h_is = v.h_is;
        k_is = omega (arith, length-append s.popped (item ∷ []), v.k_is);
        head_is = v.head_is;
        tail_is = ap (λ x. wrapping_add x 1) a ∙ wrapping_add-count v.k;
        behind = omega (arith, below);
        room = omega (arith, v.room);
        first =
            ap₂ (λ xs x. xs ++ (x ∷ [])) v.first b
            ∙ sym (take-suc s.pushed v.k (omega (arith, below, v.h_is)))
            ∙ ap (λ n. map some (take n s.pushed)) {x = suc v.k} (omega arith);
        slots = λ i l u. v.slots i (omega (arith, l)) u;
        producing = more_popped N s.producer v.h v.k s.queue.buffer v.producing;
        consuming = tt;
      }
