-- ===== src/Heartbeat.antt =====
-- src/heartbeat.rs: the heartbeat of a connection.
mod Defs
pub mod Laws
pub mod Steps
pub mod Reason
pub use Defs.{Deadline, Config, OutstandingPing, Heartbeat}
unfoldable pub use Defs.{at, saturating_add, new, tracks_inbound_activity, idle_deadline}
unfoldable pub use Defs.{pong_deadline, next_hard_deadline, next_deadline, ping_due}
unfoldable pub use Defs.{ping_flushed, on_inbound, stop, same_bytes, is_matching, in_time}
