-- ===== src/Heartbeat/Defs.antt =====
-- src/heartbeat.rs. Times are milliseconds in a `u64`; the process-wide nonce counter is passed in and
-- returned.
use sockudo_ws.Base.{
  ℕ, ◌+◌, ◌-◌, ◌*◌, ◌%◌, ◌^◌, min, max, ltb, leb, ◌==◌, if◌then◌else◌, Bool, true, false, not, ◌&&◌,
  ◌||◌, Option, none, some, [], ◌∷◌, Bytes,
}
use sockudo_ws.Frame.{put_u64}

pub data Deadline : Type 0 where
  pong : ℕ → Deadline
  idle : ℕ → Deadline
  ping : ℕ → Deadline

abbrev pub at : Deadline → ℕ
at (Deadline.pong t) = t
at (Deadline.idle t) = t
at (Deadline.ping t) = t

-- The fields of the connection's `Config` that the heartbeat reads, in seconds.
pub record Config : Type 0 where
  pub auto_ping : Bool
  pub ping_interval : ℕ
  pub idle_timeout : ℕ
  pub pong_timeout : ℕ

pub record OutstandingPing : Type 0 where
  pub payload : Bytes
  pub deadline_ms : Option ℕ
  pub flushed : Bool
  pub acknowledged : Bool

pub record Heartbeat : Type 0 where
  pub auto_ping : Bool
  pub ping_interval_ms : ℕ
  pub idle_timeout_ms : ℕ
  pub pong_timeout_ms : ℕ
  pub last_inbound_ms : ℕ
  pub outstanding : Option OutstandingPing
  pub stopped : Bool

-- `Duration::from_secs(seconds).as_millis() as u64`
abbrev pub seconds_ms : ℕ → ℕ
seconds_ms seconds = seconds * 1000 % 2 ^ 64

-- `u64::saturating_add`
unfoldable pub saturating_add : ℕ → ℕ → ℕ
saturating_add a b = min (a + b) (2 ^ 64 - 1)

abbrev pub new : Config → ℕ → Heartbeat
new config now_ms = record {
  auto_ping = config.auto_ping && not (config.ping_interval == 0);
  ping_interval_ms = seconds_ms config.ping_interval;
  idle_timeout_ms = seconds_ms config.idle_timeout;
  pong_timeout_ms = seconds_ms config.pong_timeout;
  last_inbound_ms = now_ms;
  outstanding = none;
  stopped = false;
}

abbrev pub tracks_inbound_activity : Heartbeat → Bool
tracks_inbound_activity h = not h.stopped && (h.auto_ping || not (h.idle_timeout_ms == 0))

abbrev pub idle_deadline : Heartbeat → Option ℕ
idle_deadline h =
    if h.idle_timeout_ms == 0
    then none
    else some (saturating_add h.last_inbound_ms h.idle_timeout_ms)

-- `self.outstanding.as_ref().and_then(|ping| ping.deadline_ms)`
abbrev pub pong_deadline : Option OutstandingPing → Option ℕ
pong_deadline none = none
pong_deadline (some sent) = sent.deadline_ms

abbrev pub earlier_hard : Option ℕ → Option ℕ → Option Deadline
earlier_hard (some pong_at) (some idle_at) =
    if ltb idle_at pong_at then some (Deadline.idle idle_at) else some (Deadline.pong pong_at)
earlier_hard (some pong_at) none = some (Deadline.pong pong_at)
earlier_hard none (some idle_at) = some (Deadline.idle idle_at)
earlier_hard none none = none

unfoldable pub next_hard_deadline : Heartbeat → Option Deadline
next_hard_deadline h =
    if h.stopped then none else earlier_hard (pong_deadline h.outstanding) (idle_deadline h)

abbrev pub earlier_soft : Option ℕ → Option ℕ → Option Deadline
earlier_soft (some idle_at) (some ping_at) =
    if leb idle_at ping_at then some (Deadline.idle idle_at) else some (Deadline.ping ping_at)
earlier_soft (some idle_at) none = some (Deadline.idle idle_at)
earlier_soft none (some ping_at) = some (Deadline.ping ping_at)
earlier_soft none none = none

-- `(self.auto_ping && self.outstanding.is_none()).then(…)`
abbrev pub ping_deadline : Option OutstandingPing → Heartbeat → Option ℕ
ping_deadline none h =
    if h.auto_ping then some (saturating_add h.last_inbound_ms h.ping_interval_ms) else none
ping_deadline (some sent) h = none

abbrev pub next_by_pong : Option ℕ → Heartbeat → Option Deadline
next_by_pong (some deadline) h = next_hard_deadline h
next_by_pong none h = earlier_soft (idle_deadline h) (ping_deadline h.outstanding h)

unfoldable pub next_deadline : Heartbeat → Option Deadline
next_deadline h = if h.stopped then none else next_by_pong (pong_deadline h.outstanding) h

-- `matches!(…, Some(Deadline::Ping(at)) if at <= now_ms)`
abbrev pub ping_is_due : Option Deadline → ℕ → Bool
ping_is_due (some (Deadline.ping t)) now_ms = leb t now_ms
ping_is_due _ now_ms = false

-- The payload of the Ping to send, the heartbeat, and the next nonce.
unfoldable pub ping_due : Heartbeat → ℕ → ℕ → Option Bytes × Heartbeat × ℕ
unfolding put_u64
ping_due h now_ms nonce =
    let payload : Bytes = put_u64 nonce in
    if ping_is_due (next_deadline h) now_ms
    then (
      some payload,
      record h {
        outstanding = some (record {
          payload = payload;
          deadline_ms = none;
          flushed = false;
          acknowledged = false;
        });
      },
      (nonce + 1) % 2 ^ 64,
    )
    else (none, h, nonce)

abbrev pub flush_ping : Option OutstandingPing → Heartbeat → ℕ → Heartbeat
flush_ping none h now_ms = h
flush_ping (some sent) h now_ms =
    if sent.flushed
    then h
    else if sent.acknowledged
    then record h { outstanding = none }
    else record h {
      outstanding = some (record sent {
        flushed = true;
        deadline_ms =
            if h.pong_timeout_ms == 0 then none else some (saturating_add now_ms h.pong_timeout_ms);
      });
    }

unfoldable pub ping_flushed : Heartbeat → ℕ → Heartbeat
ping_flushed h now_ms = flush_ping h.outstanding h now_ms

abbrev pub same_bytes : Bytes → Bytes → Bool
same_bytes [] [] = true
same_bytes (x ∷ xs) (y ∷ ys) = x == y && same_bytes xs ys
same_bytes _ _ = false

-- `pong.is_some_and(|payload| payload == &ping.payload)`
abbrev pub is_matching : Option Bytes → OutstandingPing → Bool
is_matching none sent = false
is_matching (some payload) sent = same_bytes payload sent.payload

-- `deadline_ms.is_none_or(|deadline| now_ms < deadline)`
abbrev pub in_time : Option ℕ → ℕ → Bool
in_time none now_ms = true
in_time (some deadline) now_ms = ltb now_ms deadline

abbrev pub match_pong : Option OutstandingPing → Heartbeat → ℕ → Option Bytes → Bool × Heartbeat
match_pong none h now_ms reply = (false, h)
match_pong (some sent) h now_ms reply =
    if is_matching reply sent
    then if sent.flushed
      then if in_time sent.deadline_ms now_ms
        then (true, record h { outstanding = none })
        else (false, h)
      else (false, record h { outstanding = some (record sent { acknowledged = true }) })
    else (false, h)

unfoldable pub on_inbound : Heartbeat → ℕ → Option Bytes → Bool × Heartbeat
on_inbound h now_ms reply =
    if h.stopped
    then (false, h)
    else match_pong h.outstanding (record h { last_inbound_ms = max h.last_inbound_ms now_ms })
        now_ms reply

abbrev pub stop : Heartbeat → Heartbeat
stop h = record h { stopped = true; outstanding = none }
