-- ===== src/Capnp/Plugin/Session.antt =====
-- Whole sessions of a client with a plugin (crates/fungi-transport-capnp/src/lib.rs), from the start of
-- the connection to the backend and back.
use fungi_transport_ci_test.Prelude.{
  ℕ, ◌≡◌, ◌≢◌, refl, ap, ◌∙◌, List, [], ◌∷◌, ◌++◌, some, Bool, false, Result, ok, err,
}
use fungi_transport_ci_test.Text.{Bytes, Text}
use fungi_transport_ci_test.Errors.{SendError, ConnectError}
use fungi_transport_ci_test.Channel.{ListenParams}
use fungi_transport_ci_test.Capnp.Errors.{CapnpError}
use fungi_transport_ci_test.Capnp.Map.{insert}
use fungi_transport_ci_test.Capnp.Registry.{Caller, new_registry}
use fungi_transport_ci_test.Capnp.Actor.{Command, Reply, Actor, boot_plugin, store_connector}
use fungi_transport_ci_test.Capnp.Server.{nickname-crosses, SendCrosses, send_crosses}
use fungi_transport_ci_test.Capnp.Plugin.{Backend, PluginFixtures, Object, Server}
use fungi_transport_ci_test.Capnp.Plugin.Requests.{
  Rig, request, replied, crossed, connected, listened, request-listen, request-connect,
  request-accept,
}
use fungi_transport_ci_test.Capnp.Plugin.Channels.{
  sent_on, crossed_send, request-connector, request-send,
}

module _ {W T F Co L C Addr : Type 0} (backend : Backend W T Co L C Addr)
    (setup : PluginFixtures W F) (to_string : CapnpError → Text) (gone : Caller → Bool) where
  -- A new connection to a plugin.
  unfoldable pub plugin_rig : T → F → W → Rig backend setup to_string gone
  plugin_rig t f w = record {
    actor = boot_plugin (Object.plugin t f) (Object.transport t);
    world = w;
  }

  unfoldable pub requests :
      List Command → Rig backend setup to_string gone → Rig backend setup to_string gone
  requests [] s = s
  requests (cmd ∷ cmds) s = requests cmds (request backend setup to_string gone cmd s)

  -- A client of a plugin that dials and sends reaches the backend: if no caller gives up, and the
  -- backend's connector connects to the address, which is read back from its text form, then the backend
  -- has seen just this connect and this send, and the replies are the id of a connector, the id of a
  -- channel, and the result of the send: success if the backend's channel accepts the message, closed if
  -- it is closed, and for each other error, one about the size too, an opaque one with its text.
  pub dial_through :
      (t : T) (f : F) (addr : Addr) (msg : Bytes) (w w1 : W) (c : C) (first second third : Caller)
      → ((to : Caller) → gone to ≡ false)
      → backend.from_str (backend.display addr) ≡ some addr
      → backend.connect addr (backend.connector t) w ≡ (ok c, w1)
      → let s =
          requests
            (Command.connector 0 first
              ∷ Command.connect 1 (backend.display addr) second
              ∷ Command.send 2 msg third
              ∷ [])
            (plugin_rig t f w) in
        let (r, w2) = sent_on backend setup to_string gone c msg w1 in
        (r' : Result SendError (Unit {0})) × (s.actor.replies
          ≡ (first, Reply.connector_made 1)
            ∷ (second, Reply.connected (ok 2))
            ∷ (third, Reply.sent r')
            ∷ [])
        × SendCrosses to_string r r'
        × (s.world ≡ w2)
  unfolding requests plugin_rig boot_plugin new_registry insert
  dial_through t f addr msg w w1 c first second third here parses reached =
      let boot = boot_plugin (Object.plugin t f) (Object.transport t) in
      let dialler =
        replied backend setup to_string gone first (Reply.connector_made 1)
          (store_connector (Object.connector (backend.connector t)) boot) in
      let dialled = connected backend setup to_string gone second (ok c) dialler in
      let all =
        ap
          (λ s.
            requests
              (Command.connect 1 (backend.display addr) second ∷ Command.send 2 msg third ∷ []) s)
          (request-connector backend setup to_string gone 0 first boot w t (here first) refl)
        ∙ ap (λ s. requests (Command.send 2 msg third ∷ []) s)
            (request-connect backend setup to_string gone 1 addr second dialler w
                (backend.connector t) (here second) refl parses
              ∙ ap
                  (λ r. record {
                    actor = connected backend setup to_string gone second r.0 dialler;
                    world = r.1;
                  })
                  reached)
        ∙ request-send backend setup to_string gone 2 msg third dialled w1 c (here third) refl in
      let sent = (sent_on backend setup to_string gone c msg w1).0 in
      (
        crossed_send backend setup to_string gone sent,
        ap (λ s. s.actor.replies) all,
        send_crosses to_string sent,
        ap (λ s. s.world) all,
      )

  -- The reply to the first accept of this session.
  abbrev pub accepted : Result ConnectError C → Result ConnectError ℕ
  accepted (ok c) = ok 2
  accepted (err e) = err (crossed backend setup to_string gone e)

  connected-replies :
      (to : Caller) (r : Result ConnectError C) (a : Actor (Server backend setup))
      → a.registry.next_id ≡ 2
      → (connected backend setup to_string gone to r a).replies
        ≡ a.replies ++ (to, Reply.connected (accepted r)) ∷ []
  connected-replies to (ok c) a h = ap (λ n. a.replies ++ (to, Reply.connected (ok n)) ∷ []) h
  connected-replies to (err e) a h = refl

  -- A client of a plugin that listens and accepts reaches the backend: if no caller gives up, the nickname
  -- is not empty, and the backend listens with just the client's parameters, then the replies are the id of
  -- a listener with the text of the backend's address, and the id of a channel or the error of the
  -- backend's accept, as it crosses, and the backend has seen just this listen and this accept.
  pub listen_through :
      (t : T) (f : F) (params : ListenParams) (w w1 : W) (l : L) (addr : Addr)
      (first second : Caller)
      → ((to : Caller) → gone to ≡ false)
      → params.nickname ≢ some []
      → backend.listen params t w ≡ (ok (l, addr), w1)
      → let s =
          requests
            (Command.listen 0 params.virt_port params.nickname first ∷ Command.accept 1 second ∷ [])
            (plugin_rig t f w) in
        let (r, w2) = backend.accept l w1 in
        (s.actor.replies
          ≡ (first, Reply.listening (ok (1, backend.display addr)))
            ∷ (second, Reply.connected (accepted r))
            ∷ [])
        × (s.world ≡ w2)
  unfolding requests plugin_rig boot_plugin new_registry insert
  listen_through t f params w w1 l addr first second here named reached =
      let boot = boot_plugin (Object.plugin t f) (Object.transport t) in
      let made = listened backend setup to_string gone first (ok (l, addr)) boot in
      let all =
        ap (λ s. requests (Command.accept 1 second ∷ []) s)
          (request-listen backend setup to_string gone 0 params.virt_port params.nickname first boot
              w t (here first) refl
            ∙ ap
                (λ p. record {
                  actor = listened backend setup to_string gone first (backend.listen p t w).0 boot;
                  world = (backend.listen p t w).1;
                })
                (nickname-crosses params named)
            ∙ ap
                (λ r. record {
                  actor = listened backend setup to_string gone first r.0 boot;
                  world = r.1;
                })
                reached)
        ∙ request-accept backend setup to_string gone 1 second made w1 l (backend.display addr)
            (here second) refl in
      (
        ap (λ s. s.actor.replies) all ∙ connected-replies second (backend.accept l w1).0 made refl,
        ap (λ s. s.world) all,
      )
