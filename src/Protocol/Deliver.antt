-- ===== src/Protocol/Deliver.antt =====
-- From one endpoint to the other: what `encode_message_into` of src/protocol.rs writes is parsed and
-- handled by the peer as the same message.
use sockudo_ws.Base.{
  ℕ, ◌^◌, ◌≤◌, ◌<◌, ltb, if◌then◌else◌, Bool, true, false, Option, none, some, [], ◌++◌, length,
  Bytes, ok, err, ◌≡◌, ◌≢◌, refl, ap, ◌∙◌, arith, le→ltb_false,
}
use sockudo_ws.Error.{Error}
use sockudo_ws.Mask.{MaskKey}
use sockudo_ws.Frame.{OpCode, Frame, is_control}
use sockudo_ws.Frame.Encode.{encode_frame, encode_frame_with_rsv, header_with_rsv, is_some}
use sockudo_ws.Parser.Types.{ParseState}
use sockudo_ws.Parser.Fast.{parse}
use sockudo_ws.Parser.Spec.{got}
use sockudo_ws.Parser.Stream.{seen}
use sockudo_ws.Parser.RoundTrip.{parse-encode_frame_with_rsv}
use sockudo_ws.Protocol.Types.{RawMessage, Message, Protocol, Handled}
use sockudo_ws.Protocol.Raw.{is_begun, handle_raw_text, handle_raw_binary, handle_raw_frame}
use sockudo_ws.Protocol.Encode.{encode_message_into, mask_of}

-- The messages other than Close, as they are sent and as they arrive.
pub data Kind : Type 0 where
  text binary ping pong : Kind

abbrev pub sent_as : Kind → Bytes → Message
sent_as Kind.text b = Message.text b
sent_as Kind.binary b = Message.binary b
sent_as Kind.ping b = Message.ping b
sent_as Kind.pong b = Message.pong b

abbrev pub arrives_as : Kind → Bytes → RawMessage
arrives_as Kind.text b = RawMessage.text b
arrives_as Kind.binary b = RawMessage.binary b
arrives_as Kind.ping b = RawMessage.ping b
arrives_as Kind.pong b = RawMessage.pong b

abbrev pub opcode_of : Kind → OpCode
opcode_of Kind.text = OpCode.text
opcode_of Kind.binary = OpCode.binary
opcode_of Kind.ping = OpCode.ping
opcode_of Kind.pong = OpCode.pong

-- The peer is between frames and between messages, expects frames masked as the sender masks them,
-- and its limits allow the payload; a control payload has at most 125 bytes.
pub record Ready (sender peer : Protocol) (kind : Kind) (k : MaskKey) (n : ℕ) : Type 0 where
  pub at_frame : peer.parser.state ≡ ParseState.header
  pub fresh : peer.parser.payload_ready ≡ 0
  pub at_message : peer.fragment_opcode ≡ none
  pub masks : peer.parser.expect_masked ≡ is_some (mask_of sender.role k)
  pub control : is_control (opcode_of kind) ≡ true → n ≤ 125
  pub frame_fits : n ≤ peer.parser.max_frame_size
  pub message_fits : n ≤ peer.max_message_size
  pub bounded : n < 2 ^ 63

encoded :
    (sender : Protocol) (kind : Kind) (b : Bytes) (k : MaskKey)
    → (encode_message_into sender (sent_as kind b) k []).1
      ≡ encode_frame_with_rsv [] (opcode_of kind) b true (mask_of sender.role k) false
unfolding encode_message_into encode_frame
encoded sender Kind.text b k = refl
encoded sender Kind.binary b k = refl
encoded sender Kind.ping b k = refl
encoded sender Kind.pong b k = refl

false-ne-true : false ≢ true
false-ne-true e = ground (arith, e)

data_whole :
    (m : RawMessage) (peer : Protocol) (n : ℕ) (o : Option OpCode)
    → o ≡ none
    → n ≤ peer.max_message_size
    → Path
        (Handled (Option RawMessage))
        (if is_begun o
          then (err (Error.protocol "expected continuation frame"), peer)
          else if ltb peer.max_message_size n
          then (err Error.message_too_large, peer)
          else (ok (some m), peer))
        (ok (some m), peer)
data_whole m peer n o e l =
    ap
      (λ x.
        if is_begun x
        then (err (Error.protocol "expected continuation frame"), peer)
        else if ltb peer.max_message_size n
        then (err Error.message_too_large, peer)
        else (ok (some m), peer))
      e
    ∙ ap (λ t. if t then (err Error.message_too_large, peer) else (ok (some m), peer))
        (le→ltb_false peer.max_message_size n l)

module _ (validate_utf8 : Bytes → Bool) where
  whole :
      (peer : Protocol) (kind : Kind) (b : Bytes) (mask : Option MaskKey)
      → peer.fragment_opcode ≡ none
      → length b ≤ peer.max_message_size
      → handle_raw_frame validate_utf8 peer (record {
        header = header_with_rsv (opcode_of kind) (length b) true mask false;
        payload = b;
      })
        ≡ (ok (some (arrives_as kind b)), peer)
  unfolding handle_raw_text handle_raw_binary
  whole peer Kind.text b mask e l =
      data_whole (RawMessage.text b) peer (length b) peer.fragment_opcode e l
  whole peer Kind.binary b mask e l =
      data_whole (RawMessage.binary b) peer (length b) peer.fragment_opcode e l
  whole peer Kind.ping b mask e l = refl
  whole peer Kind.pong b mask e l = refl

  -- A text, binary, Ping or Pong message that one endpoint encodes is parsed by a ready peer as one
  -- frame, whatever bytes follow it, and that frame is handled as the same message; the peer's state
  -- does not change in the handling.
  pub handle_raw_frame-encode_message_into :
      (sender peer : Protocol) (kind : Kind) (b rest : Bytes) (k : MaskKey)
      → Ready sender peer kind k (length b)
      → (f : Frame) × (seen
            (parse peer.parser ((encode_message_into sender (sent_as kind b) k []).1 ++ rest))
          ≡ got f rest)
        × (handle_raw_frame validate_utf8 peer f ≡ (ok (some (arrives_as kind b)), peer))
  handle_raw_frame-encode_message_into sender peer kind b rest k r = (
    record {
      header = header_with_rsv (opcode_of kind) (length b) true (mask_of sender.role k) false;
      payload = b;
    },
    ap (λ c. seen (parse peer.parser (c ++ rest))) (encoded sender kind b k)
        ∙ parse-encode_frame_with_rsv peer.parser (opcode_of kind) b true (mask_of sender.role k)
            false rest r.at_frame r.fresh
            (record {
              masks = r.masks;
              compressed = λ e. absurd (false-ne-true e);
              control_whole = λ e. (refl, r.control e);
              within = r.frame_fits;
              fits = r.bounded;
            }),
    whole peer kind b (mask_of sender.role k) r.at_message r.message_fits,
  )
