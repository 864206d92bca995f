-- ===== src/Examples/Threads.antt =====
-- The queue of src/queue.rs with four slots under one order of turns.
use sockudo_ws.Base.{ℕ, ◌+◌, ◌≤◌, some, List, [], ◌∷◌, ◌++◌, map, length, take, ◌≡◌, refl, arith}
use sockudo_ws.Queue.Spsc.{Producer, System, Turn, system_new, take_turns, push_call}
use sockudo_ws.Queue.Slots.{IsCapacity}
use sockudo_ws.Queue.Sound.{system_new-IsSound}
use sockudo_ws.Queue.Fifo.{take_turns-first, try_push-room}

four-IsCapacity : IsCapacity 4
four-IsCapacity = record { bits = 2; small = omega arith; power_of = refl }

-- The consumer looks for an item while the producer is in the middle of its call.
abbrev mixed : List (Turn ℕ)
mixed =
    Turn.produce 7
    ∷ Turn.consume
    ∷ Turn.produce 7
    ∷ Turn.produce 7
    ∷ Turn.consume
    ∷ Turn.produce 7
    ∷ Turn.consume
    ∷ Turn.consume
    ∷ Turn.consume
    ∷ Turn.consume
    ∷ Turn.consume
    ∷ []

abbrev after : System ℕ
after = take_turns 4 mixed system_new

one_popped : after.popped ≡ some 7 ∷ []
one_popped = refl

take_turns-first_example :
    after.popped ≡ map some (take (length after.popped) after.pushed)
    × (length after.popped ≤ length after.pushed)
    × (length after.pushed ≤ length after.popped + 4)
take_turns-first_example = take_turns-first 4 four-IsCapacity mixed

try_push-room_example :
    ((take_turns {T = ℕ} 4 (push_call 7) system_new).pushed ≡ [] ++ (7 ∷ []))
    × ((take_turns {T = ℕ} 4 (push_call 7) system_new).refused ≡ [])
    × ((take_turns {T = ℕ} 4 (push_call 7) system_new).producer ≡ Producer.between)
try_push-room_example =
    try_push-room 4 four-IsCapacity system_new 7 (system_new-IsSound 4) refl (omega arith)
