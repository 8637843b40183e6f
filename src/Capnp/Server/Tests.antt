-- ===== src/Capnp/Server/Tests.antt =====
-- Tests of the servers of crates/fungi-transport-capnp/src/lib.rs, and the theorems at a small backend.
use fungi_transport_ci_test.Prelude.{◌≡◌, refl, List, [], ◌∷◌, ◌++◌, Result, ok, err, map_err}
use fungi_transport_ci_test.Text.{Bytes, Text, codes}
use fungi_transport_ci_test.Errors.{SendError, RecvError}
use fungi_transport_ci_test.Channel.{Channel}
use fungi_transport_ci_test.Capnp.Errors.{CapnpError, map_send_error, map_recv_error}
use fungi_transport_ci_test.Capnp.Server.{
  loopback_recv, backend_send, backend_recv, SendCrosses, RecvCrosses, remote_channel-Crosses,
}

abbrev text_of : CapnpError → Text
text_of e = codes "Failed: " ++ e.extra

-- A backend that takes messages of at most one byte, and has none.
abbrev take_short : Bytes → List Bytes → Result SendError (Unit {0}) × List Bytes
take_short [] sent = (ok tt, sent ++ [] ∷ [])
take_short (b ∷ []) sent = (ok tt, sent ++ (b ∷ []) ∷ [])
take_short (b ∷ c ∷ bs) sent = (err (SendError.too_large 1), sent)

abbrev short : Channel (List Bytes)
short = record { send = take_short; recv = λ sent. (err RecvError.closed, sent) }

empty_fails :
    (loopback_recv []).0
    ≡ err (record {
      kind = fungi_transport_ci_test.Capnp.Errors.failed;
      extra = codes "channel empty";
    })
unfolding loopback_recv
empty_fails = refl

remote_channel-Crosses_example :
    (SendCrosses text_of
        (take_short (codes "hi") []).0
        (map_err (map_send_error text_of) (backend_send short (codes "hi") []).0)
      × ((backend_send short (codes "hi") []).1 ≡ (take_short (codes "hi") []).1))
    × (RecvCrosses text_of
          (err RecvError.closed)
          (map_err (map_recv_error text_of) (backend_recv short []).0)
        × ((backend_recv short []).1 ≡ []))
remote_channel-Crosses_example = remote_channel-Crosses text_of short (codes "hi") []
