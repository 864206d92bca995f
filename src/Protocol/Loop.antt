-- ===== src/Protocol/Loop.antt =====
-- The receive loop `process_raw_into` of src/protocol.rs and `process_raw`. The loop runs on fuel, and
-- `none` is a loop that has not ended; the fuel that it is called with is the bytes that the parser
-- and the buffer hold, and one.
use sockudo_ws.Base.{
  ℕ, zero, suc, ◌+◌, Bool, Option, none, some, List, [], ◌∷◌, length, Bytes, Outcome, ok, err,
  panic,
}
use mathlib.Core.Option.{map}
use sockudo_ws.Error.{Error}
use sockudo_ws.Parser.Types.{Parsed}
use sockudo_ws.Parser.Fast.{parse}
use sockudo_ws.Protocol.Types.{RawMessage, Protocol}
use sockudo_ws.Protocol.Raw.{Processed, pushed, handle_raw_frame}

-- What the loop leaves: its result, the protocol, the buffer and the messages.
abbrev pub Drained : Type 0
Drained = Outcome Error (Unit {0}) × Protocol × Bytes × List RawMessage

-- The loop from its head on, as a function of its state.
abbrev pub Rest : Type 0
Rest = Protocol → Bytes → List RawMessage → Option Drained

-- `self.handle_raw_frame(frame)?` has been pushed; the loop goes on when it returned no error.
abbrev pub after_frame : Rest → Bytes → Processed → Option Drained
after_frame rest buf (ok u, p, messages) = rest p buf messages
after_frame rest buf (err e, p, messages) = some (err e, p, buf, messages)
after_frame rest buf (panic, p, messages) = some (panic, p, buf, messages)

module _ (validate_utf8 : Bytes → Bool) where
  -- `match self.parser.parse(buf)?`
  abbrev pub after_parse : Rest → Protocol → Parsed → List RawMessage → Option Drained
  after_parse rest p (ok none, q, buf) messages =
      some (ok tt, record p { parser = q }, buf, messages)
  after_parse rest p (ok (some f), q, buf) messages = after_frame rest buf (
      pushed (handle_raw_frame validate_utf8 (record p { parser = q; partial_checked = 0 }) f)
        messages)
  after_parse rest p (err e, q, buf) messages = some (err e, record p { parser = q }, buf, messages)
  after_parse rest p (panic, q, buf) messages = some (panic, record p { parser = q }, buf, messages)

  -- `while !buf.is_empty()`
  abbrev pub raw_loop : ℕ → Rest
  raw_loop fuel p [] messages = some (ok tt, p, [], messages)
  raw_loop zero p (b ∷ buf) messages = none
  raw_loop (suc fuel) p (b ∷ buf) messages =
      after_parse (raw_loop fuel) p (parse p.parser (b ∷ buf)) messages

  unfoldable pub process_raw_into : Protocol → Bytes → Option Drained
  process_raw_into p buf = raw_loop (suc (length p.parser.header_buf + length buf)) p buf []

-- `self.process_raw_into(buf, &mut messages)?; Ok(messages)`
abbrev collected : Drained → Outcome Error (List RawMessage) × Protocol × Bytes
collected (ok u, p, buf, messages) = (ok messages, p, buf)
collected (err e, p, buf, messages) = (err e, p, buf)
collected (panic, p, buf, messages) = (panic, p, buf)

unfoldable pub process_raw :
    (Bytes → Bool) → Protocol → Bytes → Option (Outcome Error (List RawMessage) × Protocol × Bytes)
process_raw validate_utf8 p buf = map collected (process_raw_into validate_utf8 p buf)
