-- ===== src/Capnp/Plugin.antt =====
-- The servers of a plugin in crates/fungi-transport-capnp/src/lib.rs, over a backend that is a parameter.
-- A capability is the server that it refers to; what a backend's objects hold is in the world that
-- their calls act on.
pub mod Requests
pub mod Channels
pub mod Configure
pub mod Session
mod Tests
use fungi_transport_ci_test.Prelude.{
  ℕ, List, [], ◌∷◌, Option, none, some, Result, ok, err, map_err, ok_or,
}
use fungi_transport_ci_test.Action
use fungi_transport_ci_test.Action.{◌>>=◌, Action, pure, throw, lift}
use fungi_transport_ci_test.Text.{Bytes, Text, codes}
use fungi_transport_ci_test.Errors.{SendError, RecvError, ConnectError}
use fungi_transport_ci_test.Channel.{Channel, ListenParams}
use fungi_transport_ci_test.Capnp.Errors.{
  CapnpError, failed_error, unimplemented, backend_connect_error_to_capnp,
}
use fungi_transport_ci_test.Capnp.Actor.{Task, Outcome}
use fungi_transport_ci_test.Capnp.Server.{backend_send, backend_recv, served_params}

-- The traits `Transport`, `Connector`, `Listener` and `Channel` of one backend, and the text form of
-- its addresses.
pub record Backend (W T Co L C Addr : Type 0) : Type 0 where
  pub connector : T → Co
  pub listen : ListenParams → T → Action W ConnectError (L × Addr)
  pub connect : Addr → Co → Action W ConnectError C
  pub accept : L → Action W ConnectError C
  pub channel : C → Channel W
  pub from_str : Text → Option Addr
  pub display : Addr → Text

-- The trait `PluginFixtures`.
pub record PluginFixtures (W F : Type 0) : Type 0 where
  pub configure_private_net : Bytes → F → Action W Text (Unit {0})
  pub reset : F → Action W Text (Unit {0})

-- `NoopFixtures`, with the default `reset`.
unfoldable pub noop_fixtures : {W : Type 0} → PluginFixtures W (Unit {0})
noop_fixtures = record { configure_private_net = λ file f. pure tt; reset = λ f. pure tt }

-- `PluginServer`, `TransportServer`, `FixturesServer`, `ConnectorServer`, `ListenerServer` and
-- `BackendServer`, with their fields.
pub data Object (T F Co L C : Type 0) : Type 0 where
  plugin : T → F → Object T F Co L C
  transport : T → Object T F Co L C
  fixtures : F → Object T F Co L C
  connector : Co → Object T F Co L C
  listener : L → Text → Object T F Co L C
  channel : C → Object T F Co L C

-- capnp-rpc refuses a method that an object's interface does not have.
abbrev pub no_method : CapnpError
no_method = record { kind = unimplemented; extra = codes "Method not implemented." }

abbrev pub with_error : {W E E' A : Type 0} → (E → E') → Action W E A → Action W E' A
with_error f m w = let (r, w') = m w in (map_err f r, w')

module _ {W T F Co L C Addr : Type 0} (backend : Backend W T Co L C Addr)
    (setup : PluginFixtures W F) where
  abbrev pub Server : Type 0
  Server = Object T F Co L C

  -- `PluginServer::transport` and `fixtures`.
  unfoldable pub plugin_transport : Server → Option Server
  plugin_transport (Object.plugin t f) = some (Object.transport t)
  plugin_transport _ = none

  unfoldable pub plugin_fixtures : Server → Option Server
  plugin_fixtures (Object.plugin t f) = some (Object.fixtures f)
  plugin_fixtures _ = none

  -- `TransportServer::connector`; another object is returned as it is, and refuses later calls.
  unfoldable pub transport_connector : Server → Server
  transport_connector (Object.transport t) = Object.connector (backend.connector t)
  transport_connector o = o

  abbrev pub listener_server : L × Addr → Server
  listener_server (l, addr) = Object.listener l (backend.display addr)

  -- `TransportServer::listen`.
  unfoldable pub transport_listen : Server → ℕ → Text → Action W CapnpError Server
  unfolding served_params
  transport_listen (Object.transport t) virt_port nickname = do
    made ←
        with_error backend_connect_error_to_capnp
          (backend.listen (served_params virt_port nickname) t)
    pure (listener_server made)
  transport_listen o virt_port nickname = throw no_method

  -- `ConnectorServer::connect`: the address is parsed first.
  unfoldable pub connector_connect : Server → Text → Action W CapnpError Server
  connector_connect (Object.connector co) addr_text = do
    addr ← lift (ok_or (backend.from_str addr_text) (failed_error (codes "invalid address")))
    c ← with_error backend_connect_error_to_capnp (backend.connect addr co)
    pure (Object.channel c)
  connector_connect o addr_text = throw no_method

  -- `ListenerServer::accept`.
  unfoldable pub listener_accept : Server → Action W CapnpError Server
  listener_accept (Object.listener l addr) = do
    c ← with_error backend_connect_error_to_capnp (backend.accept l)
    pure (Object.channel c)
  listener_accept o = throw no_method

  -- `ListenerServer::onion_addr`.
  unfoldable pub listener_onion_addr : Server → Action W CapnpError Text
  listener_onion_addr (Object.listener l addr) = pure addr
  listener_onion_addr o = throw no_method

  -- `BackendServer`.
  unfoldable pub channel_send : Server → Bytes → Action W CapnpError (Unit {0})
  unfolding backend_send
  channel_send (Object.channel c) msg = backend_send (backend.channel c) msg
  channel_send o msg = throw no_method

  unfoldable pub channel_recv : Server → Action W CapnpError Bytes
  unfolding backend_recv
  channel_recv (Object.channel c) = backend_recv (backend.channel c)
  channel_recv o = throw no_method

  -- `FixturesServer`.
  unfoldable pub fixtures_configure : Server → Bytes → Action W CapnpError (Unit {0})
  fixtures_configure (Object.fixtures f) file =
      with_error failed_error (setup.configure_private_net file f)
  fixtures_configure o file = throw no_method

  unfoldable pub fixtures_reset : Server → Action W CapnpError (Unit {0})
  fixtures_reset (Object.fixtures f) = with_error failed_error (setup.reset f)
  fixtures_reset o = throw no_method

  -- The call through the fixtures that the plugin gives out.
  abbrev pub configure_through : Option Server → Bytes → Action W CapnpError (Unit {0})
  configure_through (some o) file = fixtures_configure o file
  configure_through none file = throw no_method

  -- The call that a task of the client's actor awaits, served. A task without a capability makes none.
  unfoldable pub serve : (t : Task Server) → W → Outcome t × W
  unfolding plugin_fixtures
  serve (Task.listen_task virt_port nickname (some o) to) w =
      transport_listen o virt_port nickname w
  serve (Task.listen_task virt_port nickname none to) w = (err no_method, w)
  serve (Task.address_task o to) w = listener_onion_addr o w
  serve (Task.connect_task addr (some o) to) w = connector_connect o addr w
  serve (Task.connect_task addr none to) w = (err no_method, w)
  serve (Task.accept_task (some o) to) w = listener_accept o w
  serve (Task.accept_task none to) w = (err no_method, w)
  serve (Task.send_task msg (some o) to) w = channel_send o msg w
  serve (Task.send_task msg none to) w = (err no_method, w)
  serve (Task.recv_task id (some o)) w = channel_recv o w
  serve (Task.recv_task id none) w = (err no_method, w)
  serve (Task.configure_task file o to) w = configure_through (plugin_fixtures o) file w
