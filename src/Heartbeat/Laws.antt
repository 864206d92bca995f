-- ===== src/Heartbeat/Laws.antt =====
-- What the operations of src/heartbeat.rs do: which deadline is next, when a Ping is sent, and what
-- answers it.
use sockudo_ws.Base.{
  ℕ, ◌≤◌, max, if◌then◌else◌, Bool, true, false, Option, none, some, [], ◌∷◌, Bytes, ◌≡◌, ◌≢◌, refl,
  sym, ap, ◌∙◌, arith, inl, inr, eq→==, ==→eq, ◌<◌, ◌⊎◌,
}
use mathlib.Core.Path.{ap₂, subst}
use sockudo_ws.Frame.{put_u64}
use sockudo_ws.Heartbeat.Defs.{
  Deadline, OutstandingPing, Heartbeat, at, idle_deadline, pong_deadline, ping_deadline,
  earlier_hard, earlier_soft, next_by_pong, next_hard_deadline, next_deadline, ping_due,
  ping_flushed, same_bytes, is_matching, in_time, match_pong, on_inbound,
}

-- A deadline is not later than a time that may be set.
abbrev pub NotAfter : Deadline → Option ℕ → Type 0
NotAfter d none = Unit
NotAfter d (some t) = at d ≤ t

earlier_hard-NotAfter :
    (a b : Option ℕ) (d : Deadline) → earlier_hard a b ≡ some d → NotAfter d a × NotAfter d b
earlier_hard-NotAfter none none d e = (tt, tt)
earlier_hard-NotAfter none (some y) d e = ground arith
earlier_hard-NotAfter (some x) none d e = ground arith
earlier_hard-NotAfter (some x) (some y) d e = ground arith

earlier_soft-NotAfter :
    (a b : Option ℕ) (d : Deadline) → earlier_soft a b ≡ some d → NotAfter d a × NotAfter d b
earlier_soft-NotAfter none none d e = (tt, tt)
earlier_soft-NotAfter none (some y) d e = ground arith
earlier_soft-NotAfter (some x) none d e = ground arith
earlier_soft-NotAfter (some x) (some y) d e = ground arith

pub none-ne-some {ℓ} : {A : Type ℓ} (a : A) → none ≢ some a
none-ne-some a e = ground (arith, e)

running :
    (stopped : Bool) (o : Option Deadline) (d : Deadline)
    → (if stopped then none else o) ≡ some d
    → o ≡ some d
running true o d e = absurd (none-ne-some d e)
running false o d e = e

by_pong :
    (o : Option ℕ) (h : Heartbeat) (d : Deadline)
    → pong_deadline h.outstanding ≡ o
    → next_by_pong o h ≡ some d
    → NotAfter d (pong_deadline h.outstanding) × NotAfter d (idle_deadline h)
unfolding next_hard_deadline
by_pong none h d p e = (
  subst (NotAfter d) (sym p) tt,
  (earlier_soft-NotAfter (idle_deadline h) (ping_deadline h.outstanding h) d e).0,
)
by_pong (some t) h d p e =
    earlier_hard-NotAfter (pong_deadline h.outstanding) (idle_deadline h) d
      (running h.stopped (earlier_hard (pong_deadline h.outstanding) (idle_deadline h)) d e)

-- The deadline that `next_deadline` picks is not later than the Pong deadline of the outstanding
-- Ping and not later than the idle deadline, for those of them that are set.
pub next_deadline-NotAfter :
    (h : Heartbeat) (d : Deadline)
    → next_deadline h ≡ some d
    → NotAfter d (pong_deadline h.outstanding) × NotAfter d (idle_deadline h)
unfolding next_deadline
next_deadline-NotAfter h d e =
    by_pong (pong_deadline h.outstanding) h d refl
      (running h.stopped (next_by_pong (pong_deadline h.outstanding) h) d e)

-- A Ping is sent only when none is outstanding.
pub ping_due-outstanding :
    (h : Heartbeat) (now_ms nonce : ℕ) (payload : Bytes)
    → (ping_due h now_ms nonce).0 ≡ some payload
    → h.outstanding ≡ none
unfolding ping_due next_deadline next_hard_deadline
ping_due-outstanding h now_ms nonce payload e = ground arith

same_bytes→eq : (x y : Bytes) → same_bytes x y ≡ true → x ≡ y
same_bytes→eq [] [] e = refl
same_bytes→eq [] (b ∷ y) e = absurd (ground (arith, e))
same_bytes→eq (a ∷ x) [] e = absurd (ground (arith, e))
same_bytes→eq (a ∷ x) (b ∷ y) e =
    ap₂ ◌∷◌ (==→eq a b (ground (arith, e))) (same_bytes→eq x y (ground (arith, e)))

same_bytes_refl : (xs : Bytes) → same_bytes xs xs ≡ true
same_bytes_refl [] = refl
same_bytes_refl (x ∷ xs) = rw (eq→== x x refl) (same_bytes_refl xs)

-- The time is before the deadline, if there is one.
abbrev pub Before : ℕ → Option ℕ → Type 0
Before now_ms deadline = (deadline ≡ none) ⊎ ((d : ℕ) × (deadline ≡ some d) × (now_ms < d))

-- A Pong at a time is the answer to the Ping that a heartbeat waits for.
pub record IsAnswer (h : Heartbeat) (now_ms : ℕ) (reply : Option Bytes) : Type 0 where
  pub sent : OutstandingPing
  pub running : h.stopped ≡ false
  pub waits : h.outstanding ≡ some sent
  pub carries : reply ≡ some sent.payload
  pub flushed : sent.flushed ≡ true
  pub before : Before now_ms sent.deadline_ms

is_matching→eq :
    (reply : Option Bytes) (sent : OutstandingPing)
    → is_matching reply sent ≡ true
    → reply ≡ some sent.payload
is_matching→eq none sent e = absurd (ground (arith, e))
is_matching→eq (some payload) sent e = ap some (same_bytes→eq payload sent.payload e)

in_time→Before : (o : Option ℕ) (now_ms : ℕ) → in_time o now_ms ≡ true → Before now_ms o
in_time→Before none now_ms e = inl refl
in_time→Before (some d) now_ms e = inr (d, refl, ground (arith, e))

Before→in_time : (o : Option ℕ) (now_ms : ℕ) → Before now_ms o → in_time o now_ms ≡ true
Before→in_time o now_ms (inl e) = ap (λ o. in_time o now_ms) e
Before→in_time o now_ms (inr (d, e, l)) = ap (λ o. in_time o now_ms) e ∙ ground (arith, l)

-- What `on_inbound` finds when it runs, for the Ping that is outstanding
counted :
    (h g : Heartbeat) (now_ms : ℕ) (reply : Option Bytes)
    → h.stopped ≡ false
    → (o : Option OutstandingPing) → h.outstanding ≡ o
    → (match_pong o g now_ms reply).0 ≡ true
    → IsAnswer h now_ms reply × ((match_pong o g now_ms reply).1.outstanding ≡ none)
counted h g now_ms reply r none w e = absurd (ground (arith, e))
counted h g now_ms reply r (some ping) w e = (
  record {
    sent = ping;
    running = r;
    waits = w;
    carries = is_matching→eq reply ping (ground (arith, e));
    flushed = ground (arith, e);
    before = in_time→Before ping.deadline_ms now_ms (ground (arith, e));
  },
  ground (arith, e),
)

answered :
    (g : Heartbeat) (now_ms : ℕ) (ping : OutstandingPing)
    → ping.flushed ≡ true
    → Before now_ms ping.deadline_ms
    → (match_pong (some ping) g now_ms (some ping.payload)).0 ≡ true
answered g now_ms ping f b =
    ground (arith, f, same_bytes_refl ping.payload, Before→in_time ping.deadline_ms now_ms b)

kept :
    (o : Option OutstandingPing) (g : Heartbeat) (now_ms : ℕ) (reply : Option Bytes)
    → g.outstanding ≡ o
    → (match_pong o g now_ms reply).0 ≡ false
    → pong_deadline (match_pong o g now_ms reply).1.outstanding ≡ pong_deadline g.outstanding
kept none g now_ms reply w e = refl
kept (some ping) g now_ms reply w e = ground (arith, e, w)

module _ (h : Heartbeat) (now_ms : ℕ) (reply : Option Bytes) where
  abbrev Told : Bool × Heartbeat → Type 0
  Told r =
      (r.0 ≡ true → IsAnswer h now_ms reply × (r.1.outstanding ≡ none))
      × (IsAnswer h now_ms reply → r.0 ≡ true)
      × (r.0 ≡ false → pong_deadline r.1.outstanding ≡ pong_deadline h.outstanding)

  abbrev heard : Heartbeat
  heard = record h { last_inbound_ms = max h.last_inbound_ms now_ms }

  told :
      (stopped : Bool)
      → h.stopped ≡ stopped
      → Told (if stopped then (false, h) else match_pong h.outstanding heard now_ms reply)
  told true s =
      (λ e. absurd (ground (arith, e)), λ a. absurd (ground (arith, s, a.running)), λ e. refl)
  told false s = (
    λ e. counted h heard now_ms reply s h.outstanding refl e,
    λ a.
        ap₂ (λ o r. (match_pong o heard now_ms r).0) a.waits a.carries
        ∙ answered heard now_ms a.sent a.flushed a.before,
    λ e. kept h.outstanding heard now_ms reply refl e,
  )

  -- An inbound Pong counts as the answer exactly when the heartbeat runs, a Ping is outstanding and
  -- flushed, the Pong carries that Ping's payload, and the Ping's deadline, if there is one, has not
  -- come. The Ping is then no longer outstanding; a frame that does not count leaves the deadline for
  -- the Pong as it was.
  pub on_inbound-IsAnswer :
      ((on_inbound h now_ms reply).0 ≡ true
        → IsAnswer h now_ms reply × ((on_inbound h now_ms reply).1.outstanding ≡ none))
      × (IsAnswer h now_ms reply → (on_inbound h now_ms reply).0 ≡ true)
      × ((on_inbound h now_ms reply).0 ≡ false
          → pong_deadline (on_inbound h now_ms reply).1.outstanding ≡ pong_deadline h.outstanding)
  unfolding on_inbound
  on_inbound-IsAnswer = told h.stopped refl

-- A Pong with the payload of the Ping that arrives before the Ping is flushed is kept: it does not
-- count yet, and the flush clears the Ping.
pub ping_flushed-on_inbound-ping_due :
    (h : Heartbeat) (now nonce inbound flushed : ℕ) (payload : Bytes)
    → (ping_due h now nonce).0 ≡ some payload
    → ((on_inbound (ping_due h now nonce).1 inbound (some payload)).0 ≡ false)
      × ((ping_flushed
            (on_inbound (ping_due h now nonce).1 inbound (some payload)).1
            flushed).outstanding
          ≡ none)
unfolding ping_due next_deadline next_hard_deadline on_inbound ping_flushed
ping_flushed-on_inbound-ping_due h now nonce inbound flushed payload e =
    ground (arith, same_bytes_refl (put_u64 nonce))
