-- ===== src/Protocol/Typed.antt =====
-- Typed message processing in src/protocol.rs: `handle_frame` and what it calls, with the UTF-8
-- validation of text as it arrives, and `prevalidate_partial_text`. `prevalidated` is the number of
-- leading payload bytes that were validated while the frame was not complete.
use sockudo_ws.Base.{
  ℕ, ◌+◌, ◌-◌, min, ltb, leb, ◌==◌, if◌then◌else◌, Bool, true, false, ◌&&◌, not, ◌||◌, Option, none,
  some, [], ◌++◌, length, take, drop, Bytes, Outcome, ok, err, panic,
}
use sockudo_ws.Error.{Error, CloseReason}
use sockudo_ws.Frame.{OpCode, Frame}
use sockudo_ws.Parser.Types.{PendingPayload, pending_payload}
use sockudo_ws.Utf8.Defs.{Utf8Stream, utf8_reset, push, resume, finish, pending}
use sockudo_ws.Protocol.Types.{RawMessage, Message, Protocol, Handled}
use sockudo_ws.Protocol.Raw.{
  is_begun, handle_raw_text, handle_raw_continuation, close_reason, on_close,
}

abbrev pub is_text : OpCode → Bool
is_text OpCode.text = true
is_text _ = false

-- `unreachable!` for the messages that the raw data handlers do not return
abbrev pub raw_data_message : RawMessage → Outcome Error Message
raw_data_message (RawMessage.text payload) = ok (Message.text payload)
raw_data_message (RawMessage.binary payload) = ok (Message.binary payload)
raw_data_message _ = panic

-- `.map(Some)` on a result
abbrev pub map_some {ℓ} : {A : Type ℓ} → Outcome Error A → Outcome Error (Option A)
map_some (ok a) = ok (some a)
map_some (err e) = err e
map_some panic = panic

-- `.map(|message| message.map(raw_data_message))`
abbrev pub map_raw : Handled (Option RawMessage) → Handled (Option Message)
map_raw (ok none, p) = (ok none, p)
map_raw (ok (some m), p) = (map_some (raw_data_message m), p)
map_raw (err e, p) = (err e, p)
map_raw (panic, p) = (panic, p)

abbrev pub set_utf8 : Protocol → Utf8Stream → Protocol
set_utf8 p s = record p { utf8 = s }

-- `complete_fragment`: `split()` takes the whole buffer and leaves it empty.
unfoldable pub complete_fragment : Protocol → OpCode → Handled (Option Message)
complete_fragment p o =
    let data_out = p.fragment_buf in
    let p' = record p { fragment_opcode = none; fragment_buf = [] } in
    elim o [
      | OpCode.text ↦
          if finish p.utf8
          then (ok (some (Message.text data_out)), p')
          else (err Error.invalid_utf8, p')
      | OpCode.binary ↦ (ok (some (Message.binary data_out)), p')
      | _ ↦ (err (Error.protocol "invalid fragment opcode"), p')
    ]

-- `match pending.opcode` in `prevalidate_partial_text`
abbrev pub is_text_opcode : Option OpCode → Bool
is_text_opcode none = false
is_text_opcode (some o) = is_text o

abbrev pub is_partial_text : OpCode → Protocol → Bool
is_partial_text OpCode.text p = not (is_begun p.fragment_opcode)
is_partial_text OpCode.continuation p = is_text_opcode p.fragment_opcode
is_partial_text _ p = false

abbrev pub is_continuation : OpCode → Bool
is_continuation OpCode.continuation = true
is_continuation _ = false

abbrev pub complete_text : Protocol → Bytes → Bool × Utf8Stream → Handled Message
complete_text p payload (valid, s) =
    if valid
    then (ok (Message.text payload), set_utf8 p s)
    else (err Error.invalid_utf8, set_utf8 p s)

abbrev pub begun : Protocol → OpCode → Bytes → ℕ → Protocol
begun p o payload validated = record p {
  fragment_opcode = some o;
  fragment_buf = payload;
  fragment_validated_len = validated;
}

-- The first fragment of a text has been pushed.
abbrev pub start_text : Protocol → Bytes → Bool × Utf8Stream → Handled (Unit {0})
start_text p payload (valid, s) =
    if valid
    then (ok tt, begun (set_utf8 p s) OpCode.text payload (length payload - pending s))
    else (err Error.invalid_utf8, set_utf8 p s)

abbrev pub then_none_typed : Handled (Unit {0}) → Handled (Option Message)
then_none_typed (ok u, p) = (ok none, p)
then_none_typed (err e, p) = (err e, p)
then_none_typed (panic, p) = (panic, p)

-- The payload joins the buffer; a text that goes on leaves only what the validator carries unvalidated.
abbrev pub extended : Protocol → OpCode → Frame → Handled (Option Message)
extended p o f =
    let p' = record p { fragment_buf = p.fragment_buf ++ f.payload } in
    if f.header.fin
    then complete_fragment p' o
    else if is_text o
    then (ok none, record p' { fragment_validated_len = length p'.fragment_buf - pending p'.utf8 })
    else (ok none, p')

abbrev pub pushed_text : Protocol → Frame → Bool × Utf8Stream → Handled (Option Message)
pushed_text p f (valid, s) =
    if valid then extended (set_utf8 p s) OpCode.text f else (err Error.invalid_utf8, set_utf8 p s)

abbrev pub typed_close : Outcome Error (Option CloseReason) → Protocol → Handled (Option Message)
typed_close (ok reason) p = (ok (some (Message.close reason)), on_close p.state reason p)
typed_close (err e) p = (err e, p)
typed_close panic p = (panic, p)

abbrev pub pushed_partial : Protocol → ℕ → Bool × Utf8Stream → Handled (Unit {0})
pushed_partial p ready (valid, s) =
    if valid
    then (ok tt, record p { utf8 = s; partial_checked = ready })
    else (err Error.invalid_utf8, set_utf8 p s)

module _ (validate_utf8 from_utf8 : Bytes → Bool) where
  -- The validation of a complete text and the validator that it leaves
  abbrev pub complete_text_valid : Protocol → Bytes → ℕ → Bool × Utf8Stream
  complete_text_valid p payload prevalidated =
      if prevalidated == 0
      then (validate_utf8 payload, p.utf8)
      else let (valid, s) =
          push validate_utf8 from_utf8 p.utf8 (drop (min prevalidated (length payload)) payload) in
        (valid && finish s, s)

  unfoldable pub handle_complete_data : Protocol → OpCode → Bytes → ℕ → Handled Message
  handle_complete_data p o payload prevalidated =
      if is_begun p.fragment_opcode
      then (err (Error.protocol "expected continuation frame"), p)
      else if ltb p.max_message_size (length payload)
      then (err Error.message_too_large, p)
      else if is_text o
      then if p.validate_text_utf8
        then complete_text p payload (complete_text_valid p payload prevalidated)
        else (ok (Message.text payload), p)
      else (ok (Message.binary payload), p)

  unfoldable pub start_fragment : Protocol → OpCode → Bytes → ℕ → Handled (Unit {0})
  start_fragment p o payload prevalidated =
      if ltb p.max_message_size (length payload)
      then (err Error.message_too_large, p)
      else if is_text o
      then start_text p payload (
          push validate_utf8 from_utf8 (if prevalidated == 0 then utf8_reset p.utf8 else p.utf8)
            (drop (min prevalidated (length payload)) payload))
      else (ok tt, begun p o payload 0)

  abbrev pub complete_data : Protocol → OpCode → Bytes → ℕ → Handled (Option Message)
  complete_data p o payload prevalidated =
      let (result, p') = handle_complete_data p o payload prevalidated in (map_some result, p')

  unfoldable pub handle_text : Protocol → Frame → ℕ → Handled (Option Message)
  handle_text p f prevalidated =
      if f.header.fin
      then complete_data p OpCode.text f.payload prevalidated
      else if not p.validate_text_utf8
      then map_raw (handle_raw_text p f)
      else if is_begun p.fragment_opcode
      then (err (Error.protocol "expected continuation frame"), p)
      else then_none_typed (start_fragment p OpCode.text f.payload prevalidated)

  unfoldable pub handle_binary : Protocol → Frame → Handled (Option Message)
  handle_binary p f =
      if f.header.fin
      then complete_data p OpCode.binary f.payload 0
      else if is_begun p.fragment_opcode
      then (err (Error.protocol "expected continuation frame"), p)
      else then_none_typed (start_fragment p OpCode.binary f.payload 0)

  abbrev pub resumed_text : Protocol → Frame → ℕ → Bool × Utf8Stream → Handled (Option Message)
  resumed_text p f prevalidated (valid, s) =
      if valid
      then pushed_text p f
          (push validate_utf8 from_utf8 s (drop (min prevalidated (length f.payload)) f.payload))
      else (err Error.invalid_utf8, set_utf8 p s)

  -- `prevalidated == 0 && !self.utf8.resume(…)`
  abbrev pub resume_unless : Protocol → ℕ → Bool × Utf8Stream
  resume_unless p prevalidated =
      if prevalidated == 0
      then resume validate_utf8 from_utf8 p.utf8 (drop p.fragment_validated_len p.fragment_buf)
      else (true, p.utf8)

  abbrev pub continue_typed : OpCode → Protocol → Frame → ℕ → Handled (Option Message)
  continue_typed OpCode.text p f prevalidated =
      resumed_text p f prevalidated (resume_unless p prevalidated)
  continue_typed o p f prevalidated = extended p o f

  abbrev pub continued_typed : Option OpCode → Protocol → Frame → ℕ → Handled (Option Message)
  continued_typed none p f prevalidated = (err (Error.protocol "unexpected continuation frame"), p)
  continued_typed (some o) p f prevalidated =
      if ltb p.max_message_size (length p.fragment_buf + length f.payload)
      then (err Error.message_too_large, p)
      else continue_typed o p f prevalidated

  unfoldable pub handle_continuation : Protocol → Frame → ℕ → Handled (Option Message)
  handle_continuation p f prevalidated =
      if not p.validate_text_utf8
      then map_raw (handle_raw_continuation p f)
      else continued_typed p.fragment_opcode p f prevalidated

  abbrev pub typed_by_opcode : OpCode → Protocol → Frame → ℕ → Handled (Option Message)
  typed_by_opcode OpCode.continuation p f prevalidated = handle_continuation p f prevalidated
  typed_by_opcode OpCode.text p f prevalidated = handle_text p f prevalidated
  typed_by_opcode OpCode.binary p f prevalidated = handle_binary p f
  typed_by_opcode OpCode.close p f prevalidated =
      typed_close (close_reason validate_utf8 f.payload) p
  typed_by_opcode OpCode.ping p f prevalidated = (ok (some (Message.ping f.payload)), p)
  typed_by_opcode OpCode.pong p f prevalidated = (ok (some (Message.pong f.payload)), p)

  abbrev pub handle_frame : Protocol → Frame → ℕ → Handled (Option Message)
  handle_frame p f prevalidated = typed_by_opcode f.header.opcode p f prevalidated

  -- `resume` or `reset` when nothing of the frame has been checked yet
  abbrev pub start_partial : Protocol → OpCode → Bool × Utf8Stream
  start_partial p o =
      if p.partial_checked == 0
      then if is_continuation o
        then resume validate_utf8 from_utf8 p.utf8 (drop p.fragment_validated_len p.fragment_buf)
        else (true, utf8_reset p.utf8)
      else (true, p.utf8)

  abbrev pub resumed_partial : Protocol → Bytes → ℕ → Bool × Utf8Stream → Handled (Unit {0})
  resumed_partial p buf ready (valid, s) =
      if valid
      then pushed_partial p ready
          (push validate_utf8 from_utf8 s (drop p.partial_checked (take ready buf)))
      else (err Error.invalid_utf8, set_utf8 p s)

  abbrev pub prevalidate_pending : Option PendingPayload → Protocol → Bytes → Handled (Unit {0})
  prevalidate_pending none p buf = (ok tt, p)
  prevalidate_pending (some q) p buf =
      if q.rsv1 || leb q.ready p.partial_checked
      then (ok tt, p)
      else if is_partial_text q.opcode p
      then resumed_partial p buf (min q.ready (length buf)) (start_partial p q.opcode)
      else (ok tt, p)

  unfoldable pub prevalidate_partial_text : Protocol → Bytes → Handled (Unit {0})
  prevalidate_partial_text p buf =
      if not p.validate_text_utf8
      then (ok tt, p)
      else prevalidate_pending (pending_payload p.parser) p buf
