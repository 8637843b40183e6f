-- ===== src/Errors.antt =====
-- crates/fungi-transport/src/error.rs: the error enums of the channel traits, their `Display` and
-- `source`, and the `io::Error` that backends put into them.
use fungi_transport_ci_test.Prelude.{ℕ, ◌++◌, Option, none, some}
use fungi_transport_ci_test.Text.{Text, codes, show_nat}

-- An opaque backend error: what can be seen of it is its message.
pub record BoxError : Type 0 where
  pub message : Text

pub data SendError : Type 0 where
  too_large : ℕ → SendError
  closed : SendError
  transport : BoxError → SendError

pub data RecvError : Type 0 where
  closed : RecvError
  transport : BoxError → RecvError

pub data ConnectError : Type 0 where
  unreachable : ConnectError
  transport : BoxError → ConnectError

-- `std::io::ErrorKind`; the kinds that the code does not name are numbered.
pub data IoErrorKind : Type 0 where
  broken_pipe connection_reset connection_aborted unexpected_eof write_zero : IoErrorKind
  other_kind : ℕ → IoErrorKind

-- `std::io::Error`: its kind, and its message.
pub record IoError : Type 0 where
  pub kind : IoErrorKind
  pub message : Text

-- `BoxError::from` a string, and from an `io::Error`.
abbrev pub box_text : Text → BoxError
box_text t = record { message = t }

abbrev pub box_io : IoError → BoxError
box_io e = record { message = e.message }

unfoldable pub show_send_error : SendError → Text
show_send_error (SendError.too_large max) =
    codes "message exceeds transport maximum of " ++ (show_nat max ++ codes " bytes")
show_send_error SendError.closed = codes "channel closed"
show_send_error (SendError.transport e) = codes "transport error: " ++ e.message

unfoldable pub show_recv_error : RecvError → Text
show_recv_error RecvError.closed = codes "channel closed"
show_recv_error (RecvError.transport e) = codes "transport error: " ++ e.message

unfoldable pub show_connect_error : ConnectError → Text
show_connect_error ConnectError.unreachable = codes "peer unreachable"
show_connect_error (ConnectError.transport e) = codes "transport error: " ++ e.message

unfoldable pub send_error_source : SendError → Option BoxError
send_error_source (SendError.transport e) = some e
send_error_source _ = none

unfoldable pub recv_error_source : RecvError → Option BoxError
recv_error_source (RecvError.transport e) = some e
recv_error_source _ = none

unfoldable pub connect_error_source : ConnectError → Option BoxError
connect_error_source (ConnectError.transport e) = some e
connect_error_source _ = none
