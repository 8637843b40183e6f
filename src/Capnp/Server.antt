-- ===== src/Capnp/Server.antt =====
-- The servers of crates/fungi-transport-capnp/src/lib.rs, each a method as a function of its backend,
-- and what a client makes of their results when the connection itself does not fail.
pub mod Tests
use fungi_transport_ci_test.Prelude.{
  ℕ, zero, suc, ◌≡◌, ◌≢◌, refl, sym, ap, ◌∙◌, List, [], ◌∷◌, ◌++◌, map, append_assoc, append-nil,
  Option, none, some, Result, ok, err, map_err,
}
use fungi_transport_ci_test.Text.{Bytes, Text, codes}
use fungi_transport_ci_test.Errors.{SendError, RecvError, ConnectError}
use fungi_transport_ci_test.Channel.{Channel, ListenParams}
use fungi_transport_ci_test.Capnp.Actor.{nickname_text}
use fungi_transport_ci_test.Capnp.Errors.{
  CapnpError, failed_error, backend_send_error_to_capnp, backend_recv_error_to_capnp,
  map_send_error, map_recv_error, SendErrorCrosses, RecvErrorCrosses, errors_cross,
}

-- `Loopback`, on its queue.
unfoldable pub loopback_send : Bytes → List Bytes → Result CapnpError (Unit {0}) × List Bytes
loopback_send msg queue = (ok tt, queue ++ msg ∷ [])

unfoldable pub loopback_recv : List Bytes → Result CapnpError Bytes × List Bytes
loopback_recv [] = (err (failed_error (codes "channel empty")), [])
loopback_recv (msg ∷ queue) = (ok msg, queue)

abbrev pub send_each : List Bytes → List Bytes → List Bytes
send_each [] queue = queue
send_each (m ∷ ms) queue = send_each ms (loopback_send m queue).1

abbrev pub recv_each :
    {A : Type 0} → List A → List Bytes → List (Result CapnpError Bytes) × List Bytes
recv_each [] queue = ([], queue)
recv_each (a ∷ as_many) queue =
    let r = loopback_recv queue in let rest = recv_each as_many r.1 in (r.0 ∷ rest.0, rest.1)

-- `BackendServer`.
module _ {C : Type 0} (backend : Channel C) where
  unfoldable pub backend_send : Bytes → C → Result CapnpError (Unit {0}) × C
  backend_send msg c = let r = backend.send msg c in (map_err backend_send_error_to_capnp r.0, r.1)

  unfoldable pub backend_recv : C → Result CapnpError Bytes × C
  backend_recv c = let r = backend.recv c in (map_err backend_recv_error_to_capnp r.0, r.1)

-- The parameters that `TransportServer::listen` hands to its backend: an empty nickname is none.
abbrev pub nickname_of : Text → Option Text
nickname_of [] = none
nickname_of (c ∷ t) = some (c ∷ t)

unfoldable pub served_params : ℕ → Text → ListenParams
served_params virt_port nickname = record { virt_port = virt_port; nickname = nickname_of nickname }

send_each-append : (ms queue : List Bytes) → send_each ms queue ≡ queue ++ ms
unfolding loopback_send
send_each-append [] queue = sym (append-nil queue)
send_each-append (m ∷ ms) queue =
    send_each-append ms (queue ++ m ∷ []) ∙ append_assoc queue (m ∷ []) ms

recv_each-all : (ms : List Bytes) → recv_each ms ms ≡ (map ok ms, [])
unfolding loopback_recv
recv_each-all [] = refl
recv_each-all (m ∷ ms) = ap (λ r. (ok m ∷ r.0, r.1)) (recv_each-all ms)

-- The loopback server returns the messages that were sent to it, each once and in order.
pub loopback_in_order : (ms : List Bytes) → recv_each ms (send_each ms []) ≡ (map ok ms, [])
loopback_in_order ms = ap (recv_each ms) (send_each-append ms []) ∙ recv_each-all ms

-- The nickname that a client asks for is the one that the backend is given, unless it is empty.
pub nickname-crosses :
    (params : ListenParams)
    → params.nickname ≢ some []
    → served_params params.virt_port (nickname_text params.nickname) ≡ params
unfolding served_params
nickname-crosses params named =
    ap (λ n. record { virt_port = params.virt_port; nickname = n }) (by_name params.nickname named)
  where
    by_name : (o : Option Text) → o ≢ some [] → nickname_of (nickname_text o) ≡ o
    by_name none named = refl
    by_name (some []) named = absurd (named refl)
    by_name (some (c ∷ t)) named = refl

module _ (to_string : CapnpError → Text) where
  -- The same success; closed stays closed; and another error is an opaque one with its text.
  abbrev pub SendCrosses : Result SendError (Unit {0}) → Result SendError (Unit {0}) → Type 0
  SendCrosses (ok a) r = r ≡ ok a
  SendCrosses (err e) r = (e' : SendError) × (r ≡ err e') × SendErrorCrosses to_string e e'

  abbrev pub RecvCrosses : Result RecvError Bytes → Result RecvError Bytes → Type 0
  RecvCrosses (ok m) r = r ≡ ok m
  RecvCrosses (err e) r = (e' : RecvError) × (r ≡ err e') × RecvErrorCrosses to_string e e'

  pub send_crosses :
      (r : Result SendError (Unit {0}))
      → SendCrosses r (map_err (map_send_error to_string) (map_err backend_send_error_to_capnp r))
  send_crosses (ok a) = refl
  send_crosses (err e) =
      (_, refl, (errors_cross to_string e RecvError.closed ConnectError.unreachable).0)

  recv_crosses :
      (r : Result RecvError Bytes)
      → RecvCrosses r (map_err (map_recv_error to_string) (map_err backend_recv_error_to_capnp r))
  recv_crosses (ok m) = refl
  recv_crosses (err e) =
      (_, refl, (errors_cross to_string SendError.closed e ConnectError.unreachable).1)

  -- A channel behind the plugin is the backend's channel: what a client gets from a send and from a
  -- receive is the backend's success, with the same message, and "closed" where the backend is closed. Each
  -- other error of the backend, one about the size of a message too, becomes an opaque error with its
  -- text. The backend is in the state in which its own call left it.
  pub remote_channel-Crosses :
      {C : Type 0} (backend : Channel C) (msg : Bytes) (c : C)
      → (SendCrosses
            (backend.send msg c).0
            (map_err (map_send_error to_string) (backend_send backend msg c).0)
          × ((backend_send backend msg c).1 ≡ (backend.send msg c).1))
        × (RecvCrosses
              (backend.recv c).0
              (map_err (map_recv_error to_string) (backend_recv backend c).0)
            × ((backend_recv backend c).1 ≡ (backend.recv c).1))
  unfolding backend_send backend_recv
  remote_channel-Crosses backend msg c =
      ((send_crosses (backend.send msg c).0, refl), (recv_crosses (backend.recv c).0, refl))
