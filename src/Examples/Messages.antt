-- ===== src/Examples/Messages.antt =====
-- Messages of src/protocol.rs on concrete bytes.
use sockudo_ws.Base.{
  Bool, true, false, none, some, [], ◌∷◌, ◌++◌, Bytes, ok, panic, ◌≡◌, ◌≢◌, inr, refl, arith,
}
use sockudo_ws.Error.{CloseReason, is_valid_code}
use sockudo_ws.Mask.{MaskKey}
use sockudo_ws.Frame.{OpCode, Frame, from_u8}
use sockudo_ws.Frame.Encode.{encode_frame}
use sockudo_ws.Parser.Fast.{parse, parse_after_complete_data_miss, small_unmasked, small_masked}
use sockudo_ws.Parser.Spec.{got, meaning}
use sockudo_ws.Parser.Stream.{seen}
use sockudo_ws.Protocol.Types.{
  RawMessage, Message, Role, Protocol, protocol_new, is_closed, is_closing,
}
use sockudo_ws.Protocol.Raw.{close_reason, handle_close, handle_raw_frame, process_frames}
use sockudo_ws.Parser.Types.{reset}
use sockudo_ws.Parser.Header.{parse_header}
use sockudo_ws.Protocol.Loop.{Drained, process_raw_into}
use sockudo_ws.Protocol.Reads.{core, Reads}
use sockudo_ws.Protocol.Drains.{Waiting}
use sockudo_ws.Protocol.Chunks.{
  process_raw_into-Reads, process_raw_into-Waiting, process_raw_into-append,
}
use sockudo_ws.Protocol.Encode.{close_payload, mask_of, encode_message_into, encode_close_response}
use sockudo_ws.Protocol.Fragments.{IsValid, handle_raw_frame-IsValid}
use sockudo_ws.Protocol.Reassembly.{
  Between, between_frames, controls, frame_of, process_frames-fragments,
}
use sockudo_ws.Protocol.Closing.{
  close_reason-close_payload, encode_close_response-handle_close, handle_close-encode_message_into,
}
use sockudo_ws.Protocol.Deliver.{Kind, Ready, handle_raw_frame-encode_message_into}

abbrev any_text : Bytes → Bool
any_text b = true

abbrev client : Protocol
client = protocol_new Role.client 1000 1000

abbrev server : Protocol
server = protocol_new Role.server 1000 1000

abbrev key : MaskKey
key = record { m0 = 1; m1 = 2; m2 = 3; m3 = 4 }

abbrev ab : Bytes
ab = 97 ∷ 98 ∷ []

server-Ready : Ready client server Kind.text key 2
server-Ready = record {
  at_frame = refl;
  fresh = refl;
  at_message = refl;
  masks = refl;
  control = λ e. absurd (cc);
  frame_fits = omega arith;
  message_fits = omega arith;
  bounded = omega arith;
}

handle_raw_frame-encode_message_into_example :
    (f : Frame) × (seen
        (parse server.parser ((encode_message_into client (Message.text ab) key []).1 ++ ab))
      ≡ got f ab)
    × (handle_raw_frame any_text server f ≡ (ok (some (RawMessage.text ab)), server))
handle_raw_frame-encode_message_into_example =
    handle_raw_frame-encode_message_into any_text client server Kind.text ab ab key server-Ready

process_frames-fragments_example :
    process_frames any_text
      (ok tt, server, [])
      (frame_of OpCode.text false ab
        ∷ (between_frames (Between.ping ab ∷ Between.part ab ∷ [])
            ++ (frame_of OpCode.continuation true ab ∷ [])))
    ≡ (
      ok tt,
      record server {
        fragment_opcode = none;
        fragment_validated_len = 0;
        fragment_buf = [];
        partial_checked = 0;
      },
      controls (Between.ping ab ∷ Between.part ab ∷ [])
          ++ (RawMessage.text ((ab ++ ab) ++ ab) ∷ []),
    )
process_frames-fragments_example =
    process_frames-fragments any_text true server ab (Between.ping ab ∷ Between.part ab ∷ []) ab
      refl (omega arith)

handle_raw_frame-IsValid_example :
    IsValid (handle_raw_frame any_text server (frame_of OpCode.text false ab)).1
handle_raw_frame-IsValid_example =
    handle_raw_frame-IsValid any_text server (frame_of OpCode.text false ab) (omega arith, refl)

abbrev going_away : CloseReason
going_away = record { code = 1001; reason = ab }

may_be_sent : is_valid_code 1001 ≡ true
unfolding is_valid_code
may_be_sent = refl

close_reason-close_payload_example :
    close_reason any_text (close_payload (some going_away)) ≡ ok (some going_away)
close_reason-close_payload_example =
    close_reason-close_payload any_text going_away (omega arith) may_be_sent (inr refl)

abbrev close_frame : Frame
close_frame = frame_of OpCode.close true (close_payload (some going_away))

close_is_read : close_reason any_text close_frame.payload ≡ ok (some going_away)
unfolding close_reason is_valid_code
close_is_read = refl

encode_close_response-handle_close_example :
    ((handle_close any_text server close_frame).0 ≡ ok (some (RawMessage.close (some going_away))))
    × (is_closing (handle_close any_text server close_frame).1 ≡ true)
    × (is_closed (encode_close_response (handle_close any_text server close_frame).1 key []).0
        ≡ true)
    × ((encode_close_response (handle_close any_text server close_frame).1 key []).1
        ≡ encode_frame [] OpCode.close
            (close_payload (some going_away))
            true
            (mask_of Role.server key))
encode_close_response-handle_close_example =
    encode_close_response-handle_close any_text server close_frame (some going_away) key [] refl
      close_is_read

handle_close-encode_message_into_example :
    (is_closing (encode_message_into client (Message.close none) key []).0 ≡ true)
    × (is_closed
          (handle_close any_text
            (encode_message_into client (Message.close none) key []).0
            close_frame).1
        ≡ true)
handle_close-encode_message_into_example =
    handle_close-encode_message_into any_text client close_frame none (some going_away) key [] refl
      close_is_read

abbrev ping_and_more : Bytes
ping_and_more = 0x89 ∷ 0x00 ∷ 0x81 ∷ []

first_chunk :
    process_raw_into any_text client ping_and_more
    ≡ some (ok tt, client, 0x81 ∷ [], RawMessage.ping [] ∷ [])
unfolding process_raw_into parse parse_after_complete_data_miss small_unmasked from_u8 small_masked
    parse_header
first_chunk = refl

process_raw_into-append_example :
    (one two : Drained) × (process_raw_into any_text client (0x81 ∷ 2 ∷ ab) ≡ some one)
    × (process_raw_into any_text client (ping_and_more ++ (2 ∷ ab)) ≡ some two)
    × (two.0 ≡ one.0)
    × (record two.1 { parser = reset client.parser }
        ≡ record one.1 { parser = reset client.parser })
    × (two.3 ≡ RawMessage.ping [] ∷ one.3)
process_raw_into-append_example =
    process_raw_into-append any_text client ping_and_more client (0x81 ∷ [])
      (RawMessage.ping [] ∷ []) (2 ∷ ab) (refl, refl) first_chunk

process_raw_into-Waiting_example :
    Waiting client.parser (0x81 ∷ 2 ∷ ab) × (reset client.parser ≡ reset client.parser)
process_raw_into-Waiting_example =
    process_raw_into-Waiting any_text client ping_and_more client (0x81 ∷ [])
      (RawMessage.ping [] ∷ []) (refl, refl) first_chunk (2 ∷ ab)

process_raw_into-Reads_example :
    (out : Drained) × (process_raw_into any_text client (ping_and_more ++ (2 ∷ ab)) ≡ some out)
    × (out.0 ≢ panic)
    × Reads any_text
        (core client)
        (meaning client.parser (ping_and_more ++ (2 ∷ ab)))
        (out.0, record out.1 { parser = reset client.parser }, out.3)
process_raw_into-Reads_example =
    process_raw_into-Reads any_text client (ping_and_more ++ (2 ∷ ab)) (refl, refl)
