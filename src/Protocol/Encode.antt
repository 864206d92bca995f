-- ===== src/Protocol/Encode.antt =====
-- Encoding of messages in src/protocol.rs. The random mask that `generate_mask` of src/mask.rs returns
-- for a client's frame is an argument.
use sockudo_ws.Base.{true, Option, none, some, [], ◌++◌, Bytes}
use sockudo_ws.Error.{CloseReason}
use sockudo_ws.Mask.{MaskKey}
use sockudo_ws.Frame.{OpCode, put_u16}
use sockudo_ws.Frame.Encode.{encode_frame}
use sockudo_ws.Protocol.Types.{Message, Role, State, Protocol}

abbrev pub mask_of : Role → MaskKey → Option MaskKey
mask_of Role.client k = some k
mask_of Role.server k = none

abbrev pub close_payload : Option CloseReason → Bytes
close_payload none = []
close_payload (some r) = put_u16 r.code ++ r.reason

abbrev pub sent_close : State → State
sent_close State.open_ = State.close_sent
sent_close s = s

unfoldable pub encode_message_into : Protocol → Message → MaskKey → Bytes → Protocol × Bytes
unfolding encode_frame
encode_message_into p (Message.text b) k buf =
    (p, encode_frame buf OpCode.text b true (mask_of p.role k))
encode_message_into p (Message.binary b) k buf =
    (p, encode_frame buf OpCode.binary b true (mask_of p.role k))
encode_message_into p (Message.ping b) k buf =
    (p, encode_frame buf OpCode.ping b true (mask_of p.role k))
encode_message_into p (Message.pong b) k buf =
    (p, encode_frame buf OpCode.pong b true (mask_of p.role k))
encode_message_into p (Message.close reason) k buf = (
  record p { state = sent_close p.state },
  encode_frame buf OpCode.close (close_payload reason) true (mask_of p.role k),
)

unfoldable pub encode_pong : Protocol → Bytes → MaskKey → Bytes → Bytes
unfolding encode_frame
encode_pong p ping_data k buf = encode_frame buf OpCode.pong ping_data true (mask_of p.role k)

abbrev pub answered_close : State → State
answered_close State.close_received = State.closed
answered_close s = s

unfoldable pub encode_close_response : Protocol → MaskKey → Bytes → Protocol × Bytes
unfolding encode_frame
encode_close_response p k buf = (
  record p { state = answered_close p.state },
  encode_frame buf OpCode.close (close_payload p.pending_close) true (mask_of p.role k),
)

unfoldable pub encode_split_close_response :
    Protocol → Option CloseReason → MaskKey → Bytes → Protocol × Bytes
unfolding encode_close_response
encode_split_close_response p reason k buf =
    encode_close_response (record p { pending_close = reason }) k buf
