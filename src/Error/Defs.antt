-- ===== src/Error/Defs.antt =====
-- The types and functions of src/error.rs. A text is the list of its UTF-8 bytes, and the message of
-- a `&'static str` is a native text.
use Prim.Native.String.{String}
use sockudo_ws.Base.{ℕ, leb, Bool, true, false, ◌&&◌, ◌||◌, Option, Bytes}

pub record CloseReason : Type 0 where
  pub code : ℕ
  pub reason : Bytes

-- `matches!(code, 1000..=1003 | 1007..=1014 | 3000..=4999)`
unfoldable pub is_valid_code : ℕ → Bool
is_valid_code c =
    (leb 1000 c && leb c 1003) || (leb 1007 c && leb c 1014) || (leb 3000 c && leb c 4999)

-- What the library asks of an `io::Error`: whether its kind is `TimedOut`.
pub data IoErrorKind : Type 0 where
  timed_out other : IoErrorKind

pub data Error : Type 0 where
  io : IoErrorKind → Error
  invalid_frame : String → Error
  invalid_utf8 : Error
  protocol : String → Error
  connection_closed : Error
  message_too_large : Error
  frame_too_large : Error
  invalid_http : String → Error
  handshake_failed : String → Error
  buffer_full : Error
  would_block : Error
  connection_reset : Error
  invalid_state : String → Error
  closed : Option CloseReason → Error
  invalid_close_code : ℕ → Error
  capacity : String → Error
  compression : Bytes → Error
  heartbeat_timeout : Error
  idle_timeout : Error
  extended_connect_not_supported : Error
  stream_reset : Error

pub data ErrorKind : Type 0 where
  io protocol handshake validation capacity compression connection transport : ErrorKind

unfoldable pub kind : Error → ErrorKind
kind (Error.io e) = ErrorKind.io
kind (Error.invalid_frame m) = ErrorKind.validation
kind Error.invalid_utf8 = ErrorKind.validation
kind (Error.protocol m) = ErrorKind.protocol
kind Error.connection_closed = ErrorKind.connection
kind Error.message_too_large = ErrorKind.capacity
kind Error.frame_too_large = ErrorKind.capacity
kind (Error.invalid_http m) = ErrorKind.handshake
kind (Error.handshake_failed m) = ErrorKind.handshake
kind Error.buffer_full = ErrorKind.capacity
kind Error.would_block = ErrorKind.io
kind Error.connection_reset = ErrorKind.connection
kind (Error.invalid_state m) = ErrorKind.protocol
kind (Error.closed r) = ErrorKind.connection
kind (Error.invalid_close_code c) = ErrorKind.validation
kind (Error.capacity m) = ErrorKind.capacity
kind (Error.compression m) = ErrorKind.compression
kind Error.heartbeat_timeout = ErrorKind.connection
kind Error.idle_timeout = ErrorKind.connection
kind Error.extended_connect_not_supported = ErrorKind.handshake
kind Error.stream_reset = ErrorKind.connection

unfoldable pub is_fatal : Error → Bool
is_fatal Error.connection_closed = true
is_fatal Error.connection_reset = true
is_fatal (Error.protocol m) = true
is_fatal Error.invalid_utf8 = true
is_fatal Error.frame_too_large = true
is_fatal Error.message_too_large = true
is_fatal Error.stream_reset = true
is_fatal (Error.invalid_close_code c) = true
is_fatal Error.heartbeat_timeout = true
is_fatal Error.idle_timeout = true
is_fatal _ = false

unfoldable pub is_recoverable : Error → Bool
is_recoverable Error.would_block = true
is_recoverable Error.buffer_full = true
is_recoverable _ = false

unfoldable pub is_timeout : Error → Bool
is_timeout Error.heartbeat_timeout = true
is_timeout Error.idle_timeout = true
is_timeout (Error.io timed_out) = true
is_timeout _ = false

unfoldable pub is_connection_error : Error → Bool
unfolding kind
is_connection_error e = elim (kind e) [ ErrorKind.connection ↦ true | _ ↦ false ]

unfoldable pub is_protocol_error : Error → Bool
unfolding kind
is_protocol_error e = elim (kind e) [ ErrorKind.protocol ↦ true | _ ↦ false ]

unfoldable pub suggested_http_status : Error → ℕ
suggested_http_status (Error.invalid_http m) = 400
suggested_http_status (Error.invalid_frame m) = 400
suggested_http_status (Error.invalid_close_code c) = 400
suggested_http_status (Error.protocol m) = 400
suggested_http_status Error.invalid_utf8 = 400
suggested_http_status (Error.handshake_failed m) = 400
suggested_http_status Error.message_too_large = 413
suggested_http_status Error.frame_too_large = 413
suggested_http_status (Error.capacity m) = 413
suggested_http_status Error.buffer_full = 503
suggested_http_status Error.extended_connect_not_supported = 501
suggested_http_status _ = 500
