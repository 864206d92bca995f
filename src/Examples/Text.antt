-- ===== src/Examples/Text.antt =====
-- UTF-8 validation of src/utf8.rs and typed messages of src/protocol.rs on concrete bytes.
use sockudo_ws.Base.{
  true, false, if◌then◌else◌, Option, none, [], ◌∷◌, ◌++◌, Bytes, ok, ◌≡◌, refl, take, err, arith,
  some,
}
use sockudo_ws.Error.{Error}
use sockudo_ws.Frame.{OpCode, Frame, FrameHeader, from_u8}
use sockudo_ws.Parser.Types.{ParseState, PendingPayload}
use sockudo_ws.Utf8.Format.{boundary, scan, is_possible, lead_byte, well_formed}
use sockudo_ws.Protocol.Typed.{
  handle_text, handle_complete_data, prevalidate_partial_text, handle_frame,
}
use sockudo_ws.Protocol.Checked.{AheadOf, checked, bare, IsChecked}
use sockudo_ws.Protocol.Unvalidated.{unvalidated, handle_frame-unvalidated}
use sockudo_ws.Protocol.TypedLoop.{process_into, process_into_with_activity}
use sockudo_ws.Parser.Fast.{parse, parse_after_complete_data_miss, small_unmasked, small_masked}
use sockudo_ws.Parser.Header.{parse_header}
use sockudo_ws.Protocol.Partial.{received, is_new_text, prevalidate_partial_text-AheadOf}
use sockudo_ws.Utf8.Defs.{push_chunk, complete_prefix_len, utf8_new, push, resume}
use sockudo_ws.Utf8.Push.{Carries, Pushed, push-Carries}
use sockudo_ws.Utf8.Chunks.{valid_in_chunks, join, valid_in_chunks-well_formed, resume-Carries}
use sockudo_ws.Protocol.Types.{Message, Role, Protocol, protocol_new}
use sockudo_ws.Protocol.Raw.{handle_raw_frame}
use sockudo_ws.Protocol.Frames.{handle_frame-handle_raw_frame}

-- U+20AC in three bytes
abbrev euro : Bytes
euro = 0xE2 ∷ 0x82 ∷ 0xAC ∷ []

abbrev front : Bytes
front = 65 ∷ 0xE2 ∷ []

abbrev back : Bytes
back = 0x82 ∷ 0xAC ∷ []

is_well_formed : well_formed (front ++ back) ≡ true
unfolding lead_byte
is_well_formed = refl

utf8_new-Carries : Carries [] utf8_new
utf8_new-Carries = (tt, [], refl, refl)

push-Carries_example : Pushed ([] ++ front) (push well_formed well_formed utf8_new front)
push-Carries_example =
    push-Carries well_formed well_formed (λ w. refl) (λ w. refl) [] utf8_new front utf8_new-Carries

resume-Carries_example : Pushed front (resume well_formed well_formed utf8_new front)
resume-Carries_example =
    resume-Carries well_formed well_formed (λ w. refl) (λ w. refl) [] utf8_new front
      utf8_new-Carries refl

valid_in_chunks-well_formed_example :
    valid_in_chunks well_formed well_formed (front ∷ back ∷ [])
    ≡ well_formed (join (front ∷ back ∷ []))
valid_in_chunks-well_formed_example =
    valid_in_chunks-well_formed well_formed well_formed (λ w. refl) (λ w. refl) (front ∷ back ∷ [])

abbrev receiver : Protocol
receiver = protocol_new Role.client 1000 1000

abbrev text_frame : Frame
text_frame = record {
  header = record {
    fin = false;
    rsv1 = false;
    rsv2 = false;
    rsv3 = false;
    opcode = OpCode.text;
    masked = false;
    payload_len = 2;
    mask = none;
  };
  payload = front;
}

handle_frame-handle_raw_frame_example :
    ((handle_frame well_formed well_formed receiver text_frame 0).0
      ≡ checked (handle_raw_frame well_formed receiver text_frame))
    × ((m : Option Message)
        → (handle_frame well_formed well_formed receiver text_frame 0).0 ≡ ok m
        → (bare (handle_frame well_formed well_formed receiver text_frame 0).1
            ≡ bare (handle_raw_frame well_formed receiver text_frame).1)
          × IsChecked (handle_frame well_formed well_formed receiver text_frame 0).1)
handle_frame-handle_raw_frame_example =
    handle_frame-handle_raw_frame well_formed well_formed (λ w. refl) (λ w. refl) receiver
      text_frame 0 refl (([], utf8_new-Carries, refl), tt)

-- Two of three payload bytes have arrived.
abbrev half_header : FrameHeader
half_header = record text_frame.header { payload_len = 3 }

abbrev waiting : Protocol
waiting = record receiver {
  parser = record receiver.parser {
    state = ParseState.payload;
    header = some half_header;
    payload_ready = 2;
  };
}

abbrev half : PendingPayload
half = record { opcode = OpCode.text; fin = false; rsv1 = false; ready = 2; total = 3 }

prevalidate_partial_text-AheadOf_example :
    ((prevalidate_partial_text well_formed well_formed waiting front).0 ≡ (
      if is_new_text half waiting
      then if is_possible (scan boundary (received OpCode.text waiting ++ take 2 front))
        then ok tt
        else err Error.invalid_utf8
      else ok tt))
    × ((u : Unit {0})
        → (prevalidate_partial_text well_formed well_formed waiting front).0 ≡ ok u
        → ((prevalidate_partial_text well_formed well_formed waiting front).1.partial_checked
            ≡ (if is_new_text half waiting then half.ready else waiting.partial_checked))
          × AheadOf
              (prevalidate_partial_text well_formed well_formed waiting front).1
              OpCode.text
              (take 2 front)
              (prevalidate_partial_text well_formed well_formed waiting front).1.partial_checked
          × (record (prevalidate_partial_text well_formed well_formed waiting front).1 {
            utf8 = waiting.utf8;
            partial_checked = waiting.partial_checked;
          }
              ≡ waiting))
prevalidate_partial_text-AheadOf_example =
    prevalidate_partial_text-AheadOf well_formed well_formed (λ w. refl) (λ w. refl) waiting front
      half (omega arith) refl refl (([], utf8_new-Carries, refl), tt)

-- A lead byte of three bytes and an ASCII character
refused_early :
    (prevalidate_partial_text well_formed well_formed waiting (0xE2 ∷ 40 ∷ [])).0
    ≡ err Error.invalid_utf8
unfolding prevalidate_partial_text lead_byte push_chunk complete_prefix_len
refused_early = refl

abbrev trusting : Protocol
trusting = record receiver { validate_text_utf8 = false }

handle_frame-unvalidated_example :
    handle_frame well_formed well_formed trusting text_frame 0
    ≡ unvalidated (handle_raw_frame well_formed trusting text_frame)
handle_frame-unvalidated_example =
    handle_frame-unvalidated well_formed well_formed trusting text_frame 0 refl

-- A Ping, a text of one character in one frame, and the first byte of the next frame
abbrev stream : Bytes
stream = 0x89 ∷ 0x00 ∷ 0x81 ∷ 0x03 ∷ (euro ++ (0x82 ∷ []))

process_stream :
    process_into well_formed well_formed receiver stream
    ≡ some (ok tt, receiver, 0x82 ∷ [], Message.ping [] ∷ Message.text euro ∷ [])
unfolding process_into_with_activity parse parse_after_complete_data_miss small_unmasked from_u8
    small_masked parse_header lead_byte handle_text handle_complete_data prevalidate_partial_text
process_stream = refl
