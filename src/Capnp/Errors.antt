-- ===== src/Capnp/Errors.antt =====
-- The error mapping of crates/fungi-transport-capnp/src/lib.rs: errors of a backend cross the wire as
-- capnp errors. How `capnp::Error` prints itself is the parameter `to_string`.
use fungi_transport_ci_test.Prelude.{◌≡◌, refl}
use fungi_transport_ci_test.Text.{Text, codes}
use fungi_transport_ci_test.Errors.{
  SendError, RecvError, ConnectError, box_text, show_send_error, show_recv_error,
  show_connect_error,
}

pub data ErrorKind : Type 0 where
  failed overloaded disconnected unimplemented : ErrorKind

pub record CapnpError : Type 0 where
  pub kind : ErrorKind
  pub extra : Text

-- `capnp::Error::disconnected` and `capnp::Error::failed`.
abbrev pub disconnected_error : Text → CapnpError
disconnected_error t = record { kind = disconnected; extra = t }

abbrev pub failed_error : Text → CapnpError
failed_error t = record { kind = failed; extra = t }

unfoldable pub backend_send_error_to_capnp : SendError → CapnpError
backend_send_error_to_capnp SendError.closed = disconnected_error (codes "channel closed")
backend_send_error_to_capnp (SendError.too_large max) =
    failed_error (show_send_error (SendError.too_large max))
backend_send_error_to_capnp (SendError.transport e) =
    failed_error (show_send_error (SendError.transport e))

unfoldable pub backend_recv_error_to_capnp : RecvError → CapnpError
backend_recv_error_to_capnp RecvError.closed = disconnected_error (codes "channel closed")
backend_recv_error_to_capnp (RecvError.transport e) =
    failed_error (show_recv_error (RecvError.transport e))

unfoldable pub backend_connect_error_to_capnp : ConnectError → CapnpError
backend_connect_error_to_capnp ConnectError.unreachable =
    disconnected_error (codes "peer unreachable")
backend_connect_error_to_capnp (ConnectError.transport e) =
    failed_error (show_connect_error (ConnectError.transport e))

module _ (to_string : CapnpError → Text) where
  abbrev by_send_kind : ErrorKind → CapnpError → SendError
  by_send_kind disconnected e = SendError.closed
  by_send_kind _ e = SendError.transport (box_text (to_string e))

  unfoldable pub map_send_error : CapnpError → SendError
  map_send_error e = by_send_kind e.kind e

  abbrev by_recv_kind : ErrorKind → CapnpError → RecvError
  by_recv_kind disconnected e = RecvError.closed
  by_recv_kind _ e = RecvError.transport (box_text (to_string e))

  unfoldable pub map_recv_error : CapnpError → RecvError
  map_recv_error e = by_recv_kind e.kind e

  abbrev by_connect_kind : ErrorKind → CapnpError → ConnectError
  by_connect_kind disconnected e = ConnectError.unreachable
  by_connect_kind _ e = ConnectError.transport (box_text (to_string e))

  unfoldable pub map_connect_error : CapnpError → ConnectError
  map_connect_error e = by_connect_kind e.kind e

  -- What becomes of a backend's error at the client: "closed" stays what it is, and every other one is
  -- opaque there, and carries the text of the backend's. So one about the size is no longer told apart.
  abbrev pub SendErrorCrosses : SendError → SendError → Type 0
  SendErrorCrosses SendError.closed e = e ≡ SendError.closed
  SendErrorCrosses other e =
      e ≡ SendError.transport (box_text (to_string (failed_error (show_send_error other))))

  abbrev pub RecvErrorCrosses : RecvError → RecvError → Type 0
  RecvErrorCrosses RecvError.closed e = e ≡ RecvError.closed
  RecvErrorCrosses other e =
      e ≡ RecvError.transport (box_text (to_string (failed_error (show_recv_error other))))

  abbrev pub ConnectErrorCrosses : ConnectError → ConnectError → Type 0
  ConnectErrorCrosses ConnectError.unreachable e = e ≡ ConnectError.unreachable
  ConnectErrorCrosses other e =
      e ≡ ConnectError.transport (box_text (to_string (failed_error (show_connect_error other))))

  -- An error of a backend at the client, in all three directions of the interface: closed stays closed,
  -- unreachable stays unreachable, and every other one becomes an opaque error with the text of the
  -- backend's.
  pub errors_cross :
      (s : SendError) (r : RecvError) (c : ConnectError)
      → SendErrorCrosses s (map_send_error (backend_send_error_to_capnp s))
        × RecvErrorCrosses r (map_recv_error (backend_recv_error_to_capnp r))
        × ConnectErrorCrosses c (map_connect_error (backend_connect_error_to_capnp c))
  unfolding map_send_error map_recv_error map_connect_error backend_send_error_to_capnp
      backend_recv_error_to_capnp backend_connect_error_to_capnp
  errors_cross s r c = (sends s, receives r, connects c)
    where
      sends : (s : SendError) → SendErrorCrosses s (map_send_error (backend_send_error_to_capnp s))
      sends SendError.closed = refl
      sends (SendError.too_large max) = refl
      sends (SendError.transport e) = refl

      receives :
          (r : RecvError) → RecvErrorCrosses r (map_recv_error (backend_recv_error_to_capnp r))
      receives RecvError.closed = refl
      receives (RecvError.transport e) = refl

      connects :
          (c : ConnectError)
          → ConnectErrorCrosses c (map_connect_error (backend_connect_error_to_capnp c))
      connects ConnectError.unreachable = refl
      connects (ConnectError.transport e) = refl
