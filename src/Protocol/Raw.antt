-- ===== src/Protocol/Raw.antt =====
-- Raw message processing in src/protocol.rs: `handle_raw_frame` and what it calls. `validate_utf8` of
-- src/utf8.rs asks the simdutf8 library and is a parameter.
use sockudo_ws.Base.{
  ◌+◌, ltb, if◌then◌else◌, Bool, true, false, Option, none, some, List, [], ◌∷◌, ◌++◌, length,
  Bytes, Outcome, ok, err, panic,
}
use sockudo_ws.Error.{Error, CloseReason, is_valid_code}
use sockudo_ws.Frame.{OpCode, Frame, be16}
use sockudo_ws.Protocol.Types.{RawMessage, State, Protocol, Handled}

abbrev pub is_begun {ℓ} : {A : Type ℓ} → Option A → Bool
is_begun none = false
is_begun (some a) = true

-- `complete_raw_fragment`: `split()` takes the whole buffer and leaves it empty.
unfoldable pub complete_raw_fragment : Protocol → OpCode → Handled (Option RawMessage)
complete_raw_fragment p o =
    let data_out = p.fragment_buf in
    let p' = record p { fragment_opcode = none; fragment_buf = [] } in
    elim o [
      | OpCode.text ↦ (ok (some (RawMessage.text data_out)), p')
      | OpCode.binary ↦ (ok (some (RawMessage.binary data_out)), p')
      | _ ↦ (err (Error.protocol "invalid fragment opcode"), p')
    ]

unfoldable pub start_raw_fragment : Protocol → OpCode → Bytes → Handled (Unit {0})
start_raw_fragment p o payload =
    if ltb p.max_message_size (length payload) then (err Error.message_too_large, p) else (
      ok tt,
      record p { fragment_opcode = some o; fragment_validated_len = 0; fragment_buf = payload },
    )

abbrev pub continued : Option OpCode → Protocol → Frame → Handled (Option RawMessage)
continued none p f = (err (Error.protocol "unexpected continuation frame"), p)
continued (some o) p f =
    let p' = record p { fragment_buf = p.fragment_buf ++ f.payload } in
    if ltb p.max_message_size (length p.fragment_buf + length f.payload)
    then (err Error.message_too_large, p)
    else if f.header.fin
    then complete_raw_fragment p' o
    else (ok none, p')

unfoldable pub handle_raw_continuation : Protocol → Frame → Handled (Option RawMessage)
handle_raw_continuation p f = continued p.fragment_opcode p f

-- `self.start_raw_fragment(…)?; Ok(None)`
abbrev pub then_none : Handled (Unit {0}) → Handled (Option RawMessage)
then_none (ok u, p) = (ok none, p)
then_none (err e, p) = (err e, p)
then_none (panic, p) = (panic, p)

-- `handle_raw_text` and `handle_raw_binary`
abbrev pub raw_data : (Bytes → RawMessage) → OpCode → Protocol → Frame → Handled (Option RawMessage)
raw_data message o p f =
    if is_begun p.fragment_opcode
    then (err (Error.protocol "expected continuation frame"), p)
    else if f.header.fin
    then if ltb p.max_message_size (length f.payload)
      then (err Error.message_too_large, p)
      else (ok (some (message f.payload)), p)
    else then_none (start_raw_fragment p o f.payload)

unfoldable pub handle_raw_text : Protocol → Frame → Handled (Option RawMessage)
handle_raw_text p f = raw_data RawMessage.text OpCode.text p f

unfoldable pub handle_raw_binary : Protocol → Frame → Handled (Option RawMessage)
handle_raw_binary p f = raw_data RawMessage.binary OpCode.binary p f

-- `match self.state` in `handle_close`
abbrev pub on_close : State → Option CloseReason → Protocol → Protocol
on_close State.open_ reason p = record p { state = State.close_received; pending_close = reason }
on_close State.close_sent reason p = record p { state = State.closed }
on_close _ reason p = p

-- What `process_raw_into` has done: its result so far, the protocol and the messages.
abbrev pub Processed : Type 0
Processed = Outcome Error (Unit {0}) × Protocol × List RawMessage

abbrev pub push_message : Option RawMessage → List RawMessage → List RawMessage
push_message none messages = messages
push_message (some m) messages = messages ++ (m ∷ [])

-- `if let Some(msg) = self.handle_raw_frame(frame)? { messages.push(msg); }`
abbrev pub pushed : Handled (Option RawMessage) → List RawMessage → Processed
pushed (ok m, p) messages = (ok tt, p, push_message m messages)
pushed (err e, p) messages = (err e, p, messages)
pushed (panic, p) messages = (panic, p, messages)

module _ (validate_utf8 : Bytes → Bool) where
  -- The reason of a Close frame; a text that is valid UTF-8 is its own lossy reading.
  unfoldable pub close_reason : Bytes → Outcome Error (Option CloseReason)
  close_reason [] = ok none
  close_reason (a ∷ []) = err (Error.protocol "invalid close frame payload")
  close_reason (a ∷ b ∷ []) =
      if is_valid_code (be16 a b)
      then ok (some (record { code = be16 a b; reason = [] }))
      else err (Error.invalid_close_code (be16 a b))
  close_reason (a ∷ b ∷ c ∷ text) =
      if is_valid_code (be16 a b)
      then if validate_utf8 (c ∷ text)
        then ok (some (record { code = be16 a b; reason = c ∷ text }))
        else err Error.invalid_utf8
      else err (Error.invalid_close_code (be16 a b))

  abbrev pub closed_with :
      Outcome Error (Option CloseReason) → Protocol → Handled (Option RawMessage)
  closed_with (ok reason) p = (ok (some (RawMessage.close reason)), on_close p.state reason p)
  closed_with (err e) p = (err e, p)
  closed_with panic p = (panic, p)

  -- `handle_close`, as `handle_raw_frame` passes its result on
  unfoldable pub handle_close : Protocol → Frame → Handled (Option RawMessage)
  handle_close p f = closed_with (close_reason f.payload) p

  -- `match frame.header.opcode`
  abbrev pub by_opcode : OpCode → Protocol → Frame → Handled (Option RawMessage)
  by_opcode OpCode.continuation p f = handle_raw_continuation p f
  by_opcode OpCode.text p f = handle_raw_text p f
  by_opcode OpCode.binary p f = handle_raw_binary p f
  by_opcode OpCode.close p f = handle_close p f
  by_opcode OpCode.ping p f = (ok (some (RawMessage.ping f.payload)), p)
  by_opcode OpCode.pong p f = (ok (some (RawMessage.pong f.payload)), p)

  abbrev pub handle_raw_frame : Protocol → Frame → Handled (Option RawMessage)
  handle_raw_frame p f = by_opcode f.header.opcode p f

  -- The body of `process_raw_into` for the frames that the parser returns one after another: the
  -- messages so far stay when a frame fails.
  abbrev pub next_frame : Processed → Frame → Processed
  next_frame (ok u, p, messages) f =
      pushed (handle_raw_frame (record p { partial_checked = 0 }) f) messages
  next_frame r f = r

  -- That body for each frame of a list, in order; the loop itself, with the parser and the buffer, is
  -- `raw_loop`.
  abbrev pub process_frames : Processed → List Frame → Processed
  process_frames r [] = r
  process_frames r (f ∷ fs) = process_frames (next_frame r f) fs
