-- ===== src/Examples/Beats.antt =====
-- The heartbeat of src/heartbeat.rs on concrete times.
use sockudo_ws.Base.{
  ℕ, ◌≤◌, true, false, none, some, [], ◌∷◌, length, take, Bytes, ◌≡◌, ◌⊎◌, refl, arith,
}
use sockudo_ws.Heartbeat.{
  Config, Heartbeat, Deadline, new, next_deadline, next_hard_deadline, pong_deadline, idle_deadline,
  saturating_add, ping_due, ping_flushed, on_inbound, stop,
}
use sockudo_ws.Heartbeat.Laws.{
  NotAfter, next_deadline-NotAfter, ping_due-outstanding, on_inbound-IsAnswer, IsAnswer,
  ping_flushed-on_inbound-ping_due,
}
use sockudo_ws.Heartbeat.Steps.{
  Step, Steps, IsSound, Steps-IsSound, Steps-last_inbound_ms, Steps-stopped,
}
use sockudo_ws.Heartbeat.Reason.{
  is_char_boundary, bounded_close_reason, bounded_close_reason-prefix, bounded_close_reason-longest,
}

abbrev config : Config
config = record { auto_ping = true; ping_interval = 10; idle_timeout = 60; pong_timeout = 5 }

abbrev idle_at_zero : Heartbeat
idle_at_zero = new config 0

-- A Ping was sent with this payload and flushed at 10000.
abbrev waiting : Heartbeat
waiting = record idle_at_zero {
  outstanding = some (record {
    payload = 1 ∷ 2 ∷ [];
    deadline_ms = some 15000;
    flushed = true;
    acknowledged = false;
  });
}

next_is_ping : next_deadline idle_at_zero ≡ some (Deadline.ping 10000)
unfolding next_deadline saturating_add
next_is_ping = refl

next_is_pong : next_deadline waiting ≡ some (Deadline.pong 15000)
unfolding next_deadline next_hard_deadline saturating_add
next_is_pong = refl

next_deadline-NotAfter_example :
    NotAfter (Deadline.pong 15000) (pong_deadline waiting.outstanding)
    × NotAfter (Deadline.pong 15000) (idle_deadline waiting)
next_deadline-NotAfter_example = next_deadline-NotAfter waiting (Deadline.pong 15000) next_is_pong

abbrev first_payload : Bytes
first_payload = 0 ∷ 0 ∷ 0 ∷ 0 ∷ 0 ∷ 0 ∷ 0 ∷ 1 ∷ []

ping_is_sent : (ping_due idle_at_zero 10000 1).0 ≡ some first_payload
unfolding ping_due next_deadline saturating_add
ping_is_sent = refl

ping_due-outstanding_example : idle_at_zero.outstanding ≡ none
ping_due-outstanding_example = ping_due-outstanding idle_at_zero 10000 1 first_payload ping_is_sent

answer_counts : (on_inbound waiting 14999 (some (1 ∷ 2 ∷ []))).0 ≡ true
unfolding on_inbound
answer_counts = refl

too_late : (on_inbound waiting 15000 (some (1 ∷ 2 ∷ []))).0 ≡ false
unfolding on_inbound
too_late = refl

on_inbound-IsAnswer_example :
    ((on_inbound waiting 14999 (some (1 ∷ 2 ∷ []))).0 ≡ true
      → IsAnswer waiting 14999 (some (1 ∷ 2 ∷ []))
        × ((on_inbound waiting 14999 (some (1 ∷ 2 ∷ []))).1.outstanding ≡ none))
    × (IsAnswer waiting 14999 (some (1 ∷ 2 ∷ []))
        → (on_inbound waiting 14999 (some (1 ∷ 2 ∷ []))).0 ≡ true)
    × ((on_inbound waiting 14999 (some (1 ∷ 2 ∷ []))).0 ≡ false
        → pong_deadline (on_inbound waiting 14999 (some (1 ∷ 2 ∷ []))).1.outstanding
          ≡ pong_deadline waiting.outstanding)
on_inbound-IsAnswer_example = on_inbound-IsAnswer waiting 14999 (some (1 ∷ 2 ∷ []))

ping_flushed-on_inbound-ping_due_example :
    ((on_inbound (ping_due idle_at_zero 10000 1).1 11000 (some first_payload)).0 ≡ false)
    × ((ping_flushed
          (on_inbound (ping_due idle_at_zero 10000 1).1 11000 (some first_payload)).1
          12000).outstanding
        ≡ none)
ping_flushed-on_inbound-ping_due_example =
    ping_flushed-on_inbound-ping_due idle_at_zero 10000 1 11000 12000 first_payload ping_is_sent

abbrev two_calls : Steps idle_at_zero (ping_flushed (ping_due idle_at_zero 10000 1).1 10001)
two_calls = Steps.step (Steps.step Steps.start (Step.due 10000 1)) (Step.flushed 10001)

Steps-IsSound_example :
    IsSound (ping_flushed (ping_due idle_at_zero 10000 1).1 10001).outstanding
    × (((ping_flushed (ping_due idle_at_zero 10000 1).1 10001).stopped ≡ false)
        ⊎ ((ping_flushed (ping_due idle_at_zero 10000 1).1 10001).outstanding ≡ none))
Steps-IsSound_example =
    Steps-IsSound config 0 (ping_flushed (ping_due idle_at_zero 10000 1).1 10001) two_calls

Steps-last_inbound_ms_example :
    idle_at_zero.last_inbound_ms
    ≤ (ping_flushed (ping_due idle_at_zero 10000 1).1 10001).last_inbound_ms
Steps-last_inbound_ms_example =
    Steps-last_inbound_ms idle_at_zero (ping_flushed (ping_due idle_at_zero 10000 1).1 10001)
      two_calls

Steps-stopped_example :
    (next_deadline (ping_flushed (stop waiting) 10001) ≡ none)
    × ((ping_due (ping_flushed (stop waiting) 10001) 90000 2).0 ≡ none)
Steps-stopped_example =
    Steps-stopped (stop waiting) (ping_flushed (stop waiting) 10001) 90000 2
      (Steps.step Steps.start (Step.flushed 10001)) refl

abbrev euro : Bytes
euro = 0xE2 ∷ 0x82 ∷ 0xAC ∷ []

bounded_close_reason-prefix_example :
    (n : ℕ) × (bounded_close_reason euro ≡ take n euro)
    × (n ≤ 123)
    × (is_char_boundary euro n ≡ true)
bounded_close_reason-prefix_example = bounded_close_reason-prefix euro

euro_boundary : is_char_boundary euro 3 ≡ true
unfolding is_char_boundary
euro_boundary = refl

bounded_close_reason-longest_example : 3 ≤ length (bounded_close_reason euro)
bounded_close_reason-longest_example =
    bounded_close_reason-longest euro 3 (omega arith) (omega arith) euro_boundary
