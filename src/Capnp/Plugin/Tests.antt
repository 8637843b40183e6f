-- ===== src/Capnp/Plugin/Tests.antt =====
-- The servers of a plugin over a small backend, and the theorems about whole sessions there.
use fungi_transport_ci_test.Prelude.{
  ℕ, ◌+◌, ◌≡◌, refl, List, [], ◌∷◌, ◌++◌, some, Bool, false, Result, ok, err,
}
use fungi_transport_ci_test.Text.{Bytes, Text, codes}
use fungi_transport_ci_test.Errors.{SendError, RecvError, ConnectError}
use fungi_transport_ci_test.Channel.{ListenParams}
use fungi_transport_ci_test.Capnp.Errors.{CapnpError}
use fungi_transport_ci_test.Capnp.Registry.{Caller}
use fungi_transport_ci_test.Capnp.Actor.{Command, Reply}
use fungi_transport_ci_test.Capnp.Plugin.{
  Backend, PluginFixtures, Object, fixtures_configure, plugin_transport,
}
use fungi_transport_ci_test.Capnp.Server.{SendCrosses}
use fungi_transport_ci_test.Capnp.Plugin.Session.{
  plugin_rig, requests, accepted, dial_through, listen_through,
}

-- The world is the list of the messages that were sent; nobody ever dials in.
abbrev small : Backend (List Bytes) ℕ ℕ ℕ ℕ Text
small = record {
  connector = λ t. t + 1;
  listen = λ params t w. (ok (params.virt_port, codes "here"), w);
  connect = λ addr co w. (ok co, w);
  accept = λ l w. (err ConnectError.unreachable, w);
  channel =
      λ c. record { send = λ msg w. (ok tt, w ++ msg ∷ []); recv = λ w. (err RecvError.closed, w) };
  from_str = λ t. some t;
  display = λ a. a;
}

abbrev noop : PluginFixtures (List Bytes) (Unit {0})
noop = record { configure_private_net = λ file f w. (ok tt, w); reset = λ f w. (ok tt, w) }

abbrev text_of : CapnpError → Text
text_of e = codes "Failed: " ++ e.extra

abbrev nobody : Caller → Bool
nobody to = false

abbrev call : ℕ → Caller
call n = record { handle = n; call = 0 }

configures :
    fixtures_configure small noop (Object.fixtures tt) (1 ∷ []) ([] ∷ []) ≡ (ok tt, [] ∷ [])
unfolding fixtures_configure
configures = refl

gives_transport : plugin_transport small noop (Object.plugin 5 tt) ≡ some (Object.transport 5)
unfolding plugin_transport
gives_transport = refl

abbrev params : ListenParams
params = record { virt_port = 80; nickname = some (codes "me") }

dial_through_example :
    let s =
      requests small noop text_of nobody
        (Command.connector 0 (call 0)
          ∷ Command.connect 1 (codes "peer") (call 1)
          ∷ Command.send 2 (7 ∷ []) (call 2)
          ∷ [])
        (plugin_rig small noop text_of nobody 5 tt []) in
    (r : Result SendError (Unit {0})) × (s.actor.replies
      ≡ (call 0, Reply.connector_made 1)
        ∷ (call 1, Reply.connected (ok 2))
        ∷ (call 2, Reply.sent r)
        ∷ [])
    × SendCrosses text_of (ok tt) r
    × (s.world ≡ (7 ∷ []) ∷ [])
dial_through_example =
    dial_through small noop text_of nobody 5 tt (codes "peer") (7 ∷ []) [] [] 6 (call 0) (call 1)
      (call 2) (λ to. refl) refl refl

listen_through_example :
    let s =
      requests small noop text_of nobody
        (Command.listen 0 80 (some (codes "me")) (call 0) ∷ Command.accept 1 (call 1) ∷ [])
        (plugin_rig small noop text_of nobody 5 tt []) in
    (s.actor.replies
      ≡ (call 0, Reply.listening (ok (1, codes "here")))
        ∷ (
          call 1,
          Reply.connected (accepted small noop text_of nobody (err ConnectError.unreachable)),
        )
        ∷ [])
    × (s.world ≡ [])
listen_through_example =
    listen_through small noop text_of nobody 5 tt params [] [] 80 (codes "here") (call 0) (call 1)
      (λ to. refl) (λ e. cc) refl
