-- ===== src/Heartbeat/Steps.antt =====
-- A heartbeat as a state machine: the calls of src/heartbeat.rs in any order.
use sockudo_ws.Base.{
  ℕ, ◌≤◌, max, Bool, true, false, Option, none, some, Bytes, Bool-cases, if◌then◌else◌, ◌≡◌, ◌≢◌,
  ◌⊎◌, refl, sym, ◌∙◌, arith, inl, inr,
}
use mathlib.Core.Path.{subst}
use native.Mathlib.Nat.{le_refl, le_trans}
use sockudo_ws.Heartbeat.Defs.{
  Config, OutstandingPing, Heartbeat, new, next_deadline, ping_is_due, ping_due, flush_ping,
  ping_flushed, is_matching, in_time, match_pong, on_inbound, stop,
}
use sockudo_ws.Heartbeat.Laws.{none-ne-some}

-- A call of one of the operations that change the state, at any time and with any bytes.
pub data Step : Heartbeat → Heartbeat → Type 0 where
  due : {h : Heartbeat} (now_ms nonce : ℕ) → Step h (ping_due h now_ms nonce).1
  flushed : {h : Heartbeat} (now_ms : ℕ) → Step h (ping_flushed h now_ms)
  inbound : {h : Heartbeat} (now_ms : ℕ) (pong : Option Bytes) → Step h (on_inbound h now_ms pong).1
  stopped : {h : Heartbeat} → Step h (stop h)

pub data Steps : Heartbeat → Heartbeat → Type 0 where
  start : {h : Heartbeat} → Steps h h
  step : {h g k : Heartbeat} → Steps h g → Step g k → Steps h k

-- An outstanding Ping that is not flushed has no deadline, and a flushed one is not marked as
-- answered.
abbrev pub IsValidPing : Option OutstandingPing → Type 0
IsValidPing none = Unit
IsValidPing (some sent) =
    (sent.flushed ≡ false → sent.deadline_ms ≡ none)
    × (sent.flushed ≡ true → sent.acknowledged ≡ false)

-- What a heartbeat keeps, by the two fields that it is about: the ping is as above, and a heartbeat
-- that was stopped waits for none.
abbrev IsValidAt : Bool → Option OutstandingPing → Type 0
IsValidAt halted o = IsValidPing o × (halted ≡ true → o ≡ none)

abbrev pub IsValid : Heartbeat → Type 0
IsValid h = IsValidAt h.stopped h.outstanding

true-ne-false : true ≢ false
true-ne-false e = ground (arith, e)

-- A stopped heartbeat has no deadline, so no Ping is due.
running-due :
    (h : Heartbeat) (now_ms : ℕ) → ping_is_due (next_deadline h) now_ms ≡ true → h.stopped ≡ false
unfolding next_deadline
running-due h now_ms e = elim (Bool-cases h.stopped) [
  | inl s ↦ absurd (ground (arith, s, e))
  | inr s ↦ s
]

due-IsValid : (h : Heartbeat) (now_ms nonce : ℕ) → IsValid h → IsValid (ping_due h now_ms nonce).1
unfolding ping_due
due-IsValid h now_ms nonce v = elim (Bool-cases (ping_is_due (next_deadline h) now_ms)) [
  | inl s ↦
      rw s ((λ e. refl, λ e. refl), λ e. absurd (true-ne-false (sym e ∙ running-due h now_ms s)))
  | inr s ↦ rw s v
]

flush-IsValid :
    (o : Option OutstandingPing) (h : Heartbeat) (now_ms : ℕ)
    → h.outstanding ≡ o
    → IsValid h
    → IsValid (flush_ping o h now_ms)
flush-IsValid none h now_ms e v = v
flush-IsValid (some sent) h now_ms e v = elim (Bool-cases sent.flushed) [
  | inl f ↦ rw f v
  | inr f ↦ elim (Bool-cases sent.acknowledged) [
    | inl a ↦ rw (f, a) (tt, λ x. refl)
    | inr a ↦
        rw (f, a)
          (
            (λ x. absurd (true-ne-false x), λ x. refl),
            λ x. absurd (none-ne-some sent (sym (v.1 x) ∙ e)),
          )
  ]
]

match-IsValid :
    (o : Option OutstandingPing) (h : Heartbeat) (now_ms : ℕ) (pong : Option Bytes)
    → h.outstanding ≡ o
    → IsValid h
    → IsValid (match_pong o h now_ms pong).1
match-IsValid none h now_ms pong e v = v
match-IsValid (some sent) h now_ms pong e v = elim (Bool-cases (is_matching pong sent)) [
  | inl m ↦ elim (Bool-cases sent.flushed) [
    | inl f ↦ elim (Bool-cases (in_time sent.deadline_ms now_ms)) [
      | inl t ↦ rw (m, f, t) (tt, λ x. refl)
      | inr t ↦ rw (m, f, t) v
    ]
    | inr f ↦
        rw (m, f)
          (
            (λ x. (subst IsValidPing e v.0).0 f, λ x. absurd (true-ne-false (sym x))),
            λ x. absurd (none-ne-some sent (sym (v.1 x) ∙ e)),
          )
  ]
  | inr m ↦ rw m v
]

unless-IsValid :
    (b : Bool) (h : Heartbeat) (r : Bool × Heartbeat)
    → IsValid h
    → IsValid r.1
    → IsValid (if b then (false, h) else r).1
unless-IsValid true h r v w = v
unless-IsValid false h r v w = w

inbound-IsValid :
    (h : Heartbeat) (now_ms : ℕ) (pong : Option Bytes)
    → IsValid h
    → IsValid (on_inbound h now_ms pong).1
unfolding on_inbound
inbound-IsValid h now_ms pong v =
    unless-IsValid h.stopped h
      (match_pong h.outstanding (record h { last_inbound_ms = max h.last_inbound_ms now_ms }) now_ms
        pong)
      v
      (match-IsValid h.outstanding (record h { last_inbound_ms = max h.last_inbound_ms now_ms })
        now_ms pong refl v)

Step-IsValid : (h g : Heartbeat) → Step h g → IsValid h → IsValid g
unfolding ping_flushed
Step-IsValid h g (due now_ms nonce) v = due-IsValid h now_ms nonce v
Step-IsValid h g (flushed now_ms) v = flush-IsValid h.outstanding h now_ms refl v
Step-IsValid h g (inbound now_ms pong) v = inbound-IsValid h now_ms pong v
Step-IsValid h g stopped v = (tt, λ e. refl)

all-IsValid :
    (config : Config) (now_ms : ℕ) (h : Heartbeat) → Steps (new config now_ms) h → IsValid h
all-IsValid config now_ms h s = along (tt, λ e. refl) s
  where
    along : {g k : Heartbeat} → IsValid g → Steps g k → IsValid k
    along v start = v
    along v (step {g = g} {k = k} s t) = Step-IsValid g k t (along v s)

-- The three ways in which a heartbeat can be: no Ping is outstanding; or one is that is not flushed
-- and has no deadline; or one that is flushed and not marked as answered.
abbrev pub IsSound : Option OutstandingPing → Type 0
IsSound none = Unit
IsSound (some sent) =
    ((sent.flushed ≡ false) × (sent.deadline_ms ≡ none))
    ⊎ ((sent.flushed ≡ true) × (sent.acknowledged ≡ false))

sound : (o : Option OutstandingPing) → IsValidPing o → IsSound o
sound none v = tt
sound (some sent) v = elim (Bool-cases sent.flushed) [
  | inl f ↦ inr (f, v.1 f)
  | inr f ↦ inl (f, v.0 f)
]

quiet : (h : Heartbeat) → IsValid h → (h.stopped ≡ false) ⊎ (h.outstanding ≡ none)
quiet h v = elim (Bool-cases h.stopped) [ inl s ↦ inr (v.1 s) | inr s ↦ inl s ]

-- Whatever the order of the calls after `new`, an outstanding Ping is either not flushed, and then
-- has no deadline, or flushed, and then is not marked as answered; and a heartbeat that was stopped
-- has no Ping.
pub Steps-IsSound :
    (config : Config) (now_ms : ℕ) (h : Heartbeat)
    → Steps (new config now_ms) h
    → IsSound h.outstanding × ((h.stopped ≡ false) ⊎ (h.outstanding ≡ none))
Steps-IsSound config now_ms h s =
    let v = all-IsValid config now_ms h s in (sound h.outstanding v.0, quiet h v)

-- What no call changes, and what only grows.
abbrev Later : Heartbeat → Heartbeat → Type 0
Later h g = h.last_inbound_ms ≤ g.last_inbound_ms × (h.stopped ≡ true → g.stopped ≡ true)

flush-Later :
    (o : Option OutstandingPing) (h : Heartbeat) (now_ms : ℕ) → Later h (flush_ping o h now_ms)
flush-Later none h now_ms = (le_refl _, λ e. e)
flush-Later (some sent) h now_ms = (ground arith, λ e. ground (arith, e))

match-Later :
    (o : Option OutstandingPing) (h : Heartbeat) (now_ms : ℕ) (pong : Option Bytes)
    → Later h (match_pong o h now_ms pong).1
match-Later none h now_ms pong = (le_refl _, λ e. e)
match-Later (some sent) h now_ms pong = (ground arith, λ e. ground (arith, e))

unless-Later :
    (b : Bool) (h : Heartbeat) (r : Bool × Heartbeat)
    → Later h r.1
    → Later h (if b then (false, h) else r).1
unless-Later true h r l = (le_refl _, λ e. e)
unless-Later false h r l = l

Step-Later : (h g : Heartbeat) → Step h g → Later h g
unfolding ping_due ping_flushed on_inbound
Step-Later h g (due now_ms nonce) = elim (Bool-cases (ping_is_due (next_deadline h) now_ms)) [
  | inl s ↦ rw s (le_refl _, λ e. e)
  | inr s ↦ rw s (le_refl _, λ e. e)
]
Step-Later h g (flushed now_ms) = flush-Later h.outstanding h now_ms
Step-Later h g (inbound now_ms pong) =
    let seen : Heartbeat = record h { last_inbound_ms = max h.last_inbound_ms now_ms } in
    let l = match-Later h.outstanding seen now_ms pong in
    unless-Later h.stopped h (match_pong h.outstanding seen now_ms pong)
      (omega (arith, l.0), λ e. l.1 e)
Step-Later h g stopped = (le_refl _, λ e. refl)

all-Later : (h g : Heartbeat) → Steps h g → Later h g
all-Later h g start = (le_refl _, λ e. e)
all-Later h g (step {g = k} s t) =
    let before = all-Later h k s in
    let after = Step-Later k g t in (le_trans before.0 after.0, λ e. after.1 (before.1 e))

-- Whatever calls are made, the time of the last inbound frame does not go back.
pub Steps-last_inbound_ms : (h g : Heartbeat) → Steps h g → h.last_inbound_ms ≤ g.last_inbound_ms
Steps-last_inbound_ms h g s = (all-Later h g s).0

no_deadline : (h : Heartbeat) → h.stopped ≡ true → next_deadline h ≡ none
unfolding next_deadline
no_deadline h e = ground (arith, e)

-- A heartbeat that was stopped has no deadline, whatever calls follow, and no Ping of it is due.
pub Steps-stopped :
    (h g : Heartbeat) (now_ms nonce : ℕ)
    → Steps h g
    → h.stopped ≡ true
    → (next_deadline g ≡ none) × ((ping_due g now_ms nonce).0 ≡ none)
unfolding ping_due
Steps-stopped h g now_ms nonce s e =
    let none_left = no_deadline g ((all-Later h g s).1 e) in (none_left, rw none_left refl)
