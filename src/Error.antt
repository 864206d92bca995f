-- ===== src/Error.antt =====
-- src/error.rs: the errors, the close codes and the classification of errors. The variants of the
-- http2 and http3 features are left out: the model is of a build without these features.
mod Defs
pub mod Laws
pub use Defs.{CloseReason, Error, ErrorKind, IoErrorKind}
unfoldable pub use Defs.{is_valid_code, kind, is_fatal, is_recoverable, is_timeout}
unfoldable pub use Defs.{is_connection_error, is_protocol_error, suggested_http_status}
