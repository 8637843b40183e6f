-- ===== src/Capnp/Actor.antt =====
-- The client actor of crates/fungi-transport-capnp/src/lib.rs. A command is handled without a wait;
-- what has to wait for a remote call is a task, and goes on when its outcome is there. `Cap` are the
-- references to remote objects; `gone` says which callers have dropped their future when a reply to
-- them is sent, so that the sending fails.
use fungi_transport_ci_test.Prelude.{
  ℕ, List, [], ◌∷◌, ◌++◌, Option, none, some, Bool, true, false, Result, ok, err, map_err,
  if◌then◌else◌,
}
use fungi_transport_ci_test.Text.{Bytes, Text}
use fungi_transport_ci_test.Errors.{SendError, RecvError, ConnectError}
use fungi_transport_ci_test.Capnp.Map.{insert, or_insert}
use fungi_transport_ci_test.Capnp.Errors.{
  CapnpError, map_send_error, map_recv_error, map_connect_error,
}
use fungi_transport_ci_test.Capnp.Registry.{
  Caller, RecvState, idle, Registry, new_registry, after_alloc, release, bootstrap_id,
}

pub data Command : Type 0 where
  connector : (transport_id : ℕ) → Caller → Command
  listen : (transport_id virt_port : ℕ) → (nickname : Option Text) → Caller → Command
  connect : (connector_id : ℕ) → (addr : Text) → Caller → Command
  accept : (listener_id : ℕ) → Caller → Command
  send : (channel_id : ℕ) → (msg : Bytes) → Caller → Command
  recv : (channel_id : ℕ) → Caller → Command
  release_id : (id : ℕ) → Command
  configure_private_net : (net_file : Bytes) → Caller → Command

pub data Reply : Type 0 where
  connector_made : ℕ → Reply
  listening : Result ConnectError (ℕ × Text) → Reply
  connected : Result ConnectError ℕ → Reply
  sent : Result SendError (Unit {0}) → Reply
  received : Result RecvError Bytes → Reply
  configured : Result ConnectError (Unit {0}) → Reply

-- A spawned task, at the remote call that it awaits: `listen` and the address of the listener that it
-- returned, `connect`, `accept`, `send`, `recv` and the private network. The capability is `none` where
-- the registry had none: that task makes no call.
pub data Task (Cap : Type 0) : Type 0 where
  listen_task : (virt_port : ℕ) → (nickname : Text) → Option Cap → Caller → Task Cap
  address_task : Cap → Caller → Task Cap
  connect_task : (addr : Text) → Option Cap → Caller → Task Cap
  accept_task : Option Cap → Caller → Task Cap
  send_task : (msg : Bytes) → Option Cap → Caller → Task Cap
  recv_task : (channel_id : ℕ) → Option Cap → Task Cap
  configure_task : (net_file : Bytes) → Cap → Caller → Task Cap

-- `nickname.as_deref().unwrap_or("")`.
abbrev pub nickname_text : Option Text → Text
nickname_text (some t) = t
nickname_text none = []

pub record Actor (Cap : Type 0) : Type 0 where
  pub registry : Registry Cap
  pub plugin : Option Cap
  pub tasks : List (Task Cap)
  pub replies : List (Caller × Reply)

-- The outcome of the call that a task awaits: an error of the call or of reading its result, or what
-- the task takes from that result.
abbrev pub Outcome : {Cap : Type 0} → Task Cap → Type 0
Outcome {Cap} (Task.listen_task virt_port nickname cap to) = Result CapnpError Cap
Outcome {Cap} (Task.address_task cap to) = Result CapnpError Text
Outcome {Cap} (Task.connect_task addr cap to) = Result CapnpError Cap
Outcome {Cap} (Task.accept_task cap to) = Result CapnpError Cap
Outcome {Cap} (Task.send_task msg cap to) = Result CapnpError (Unit {0})
Outcome {Cap} (Task.recv_task id cap) = Result CapnpError Bytes
Outcome {Cap} (Task.configure_task file cap to) = Result CapnpError (Unit {0})

-- The message of a receive whose caller is gone waits in the buffer; an error is dropped.
abbrev pub keep_message : Result RecvError Bytes → RecvState → RecvState
keep_message (ok m) st = record st { buffer = st.buffer ++ m ∷ [] }
keep_message (err e) st = st

abbrev pub settled : RecvState → RecvState
settled st = record st { in_flight = false; waiter = none }

module _ {Cap : Type 0} where
  abbrev pub with_registry : Actor Cap → Registry Cap → Actor Cap
  with_registry a r = record a { registry = r }

  abbrev pub spawn : Task Cap → Actor Cap → Actor Cap
  spawn t a = record a { tasks = a.tasks ++ t ∷ [] }

  abbrev pub recv_state : ℕ → Actor Cap → Option RecvState
  recv_state id a = a.registry.recv_states id

  abbrev pub put_recv_state : ℕ → RecvState → Actor Cap → Actor Cap
  put_recv_state id st a = record a {
    registry = record a.registry { recv_states = insert id st a.registry.recv_states };
  }

  -- A channel made by `connect` or `accept` is stored under a fresh id.
  abbrev pub store_channel : Cap → Actor Cap → Actor Cap
  store_channel cap a = record a {
    registry = record (after_alloc a.registry) {
      channels = insert a.registry.next_id cap a.registry.channels;
    };
  }

  abbrev pub store_listener : Cap → Actor Cap → Actor Cap
  store_listener cap a = record a {
    registry = record (after_alloc a.registry) {
      listeners = insert a.registry.next_id cap a.registry.listeners;
    };
  }

  abbrev pub store_connector : Cap → Actor Cap → Actor Cap
  store_connector cap a = record a {
    registry = record (after_alloc a.registry) {
      connectors = insert a.registry.next_id cap a.registry.connectors;
    };
  }

  -- The actor with its bootstrap capability: a channel, or a plugin, whose transport is `pipelined`.
  unfoldable pub boot_channel : Cap → Actor Cap
  boot_channel cap = record {
    registry = record new_registry {
      channels = insert bootstrap_id cap (Registry.channels new_registry);
    };
    plugin = none;
    tasks = [];
    replies = [];
  }

  unfoldable pub boot_plugin : Cap → Cap → Actor Cap
  boot_plugin cap pipelined = record {
    registry = record new_registry {
      transports = insert bootstrap_id pipelined (Registry.transports new_registry);
    };
    plugin = some cap;
    tasks = [];
    replies = [];
  }

module _ {Cap : Type 0} (to_string : CapnpError → Text) (connector_of : Cap → Cap)
    (gone : Caller → Bool) where
  -- `reply.send(r)`, where nothing depends on its success.
  abbrev pub reply : Caller → Reply → Actor Cap → Actor Cap
  reply to r a = if gone to then a else record a { replies = a.replies ++ (to, r) ∷ [] }

  -- `Command::Connector`: without the transport, the reply is dropped.
  abbrev pub handle_connector : Option Cap → Caller → Actor Cap → Actor Cap
  handle_connector (some transport) to a =
      reply to (Reply.connector_made a.registry.next_id)
        (store_connector (connector_of transport) a)
  handle_connector none to a = a

  -- `Command::Recv` on the receive state of its channel, with what that state buffers apart.
  unfoldable pub handle_recv : ℕ → Caller → RecvState → List Bytes → Actor Cap → Actor Cap
  handle_recv id to st (m ∷ ms) a =
      if gone to
      then put_recv_state id (record st { buffer = m ∷ ms }) a
      else record (put_recv_state id (record st { buffer = ms }) a) {
        replies = a.replies ++ (to, Reply.received (ok m)) ∷ [];
      }
  handle_recv id to st [] a =
      if st.in_flight
      then put_recv_state id (record st { waiter = some to }) a
      else spawn (Task.recv_task id (a.registry.channels id))
          (put_recv_state id (record st { waiter = some to; in_flight = true }) a)

  -- `Command::ConfigurePrivateNet`: only a plugin has the fixtures.
  abbrev pub handle_configure : Option Cap → Bytes → Caller → Actor Cap → Actor Cap
  handle_configure (some plugin) file to a = spawn (Task.configure_task file plugin to) a
  handle_configure none file to a = reply to (Reply.configured (err ConnectError.unreachable)) a

  -- One round of the actor's loop.
  unfoldable pub handle : Command → Actor Cap → Actor Cap
  unfolding handle_recv
  handle (Command.connector id to) a = handle_connector (a.registry.transports id) to a
  handle (Command.listen id virt_port nickname to) a =
      spawn (Task.listen_task virt_port (nickname_text nickname) (a.registry.transports id) to) a
  handle (Command.connect id addr to) a =
      spawn (Task.connect_task addr (a.registry.connectors id) to) a
  handle (Command.accept id to) a = spawn (Task.accept_task (a.registry.listeners id) to) a
  handle (Command.send id msg to) a = spawn (Task.send_task msg (a.registry.channels id) to) a
  handle (Command.recv id to) a =
      let st = or_insert idle (recv_state id a) in handle_recv id to st st.buffer a
  handle (Command.release_id id) a = with_registry a (release id a.registry)
  handle (Command.configure_private_net file to) a = handle_configure a.plugin file to a

  -- The end of a `recv` task. Its channel may have been released: then its state stays away.
  unfoldable pub finish_recv : ℕ → Result RecvError Bytes → Option RecvState → Actor Cap → Actor Cap
  finish_recv id r none a = a
  finish_recv id r (some st) a = elim st.waiter [
    | some to ↦
        if gone to
        then put_recv_state id (keep_message r (settled st)) a
        else record (put_recv_state id (settled st) a) {
          replies = a.replies ++ (to, Reply.received r) ∷ [];
        }
    | none ↦ put_recv_state id (keep_message r (settled st)) a
  ]

  -- A task goes on with the outcome of its call.
  unfoldable pub finish : (t : Task Cap) → Outcome t → Actor Cap → Actor Cap
  unfolding finish_recv
  finish (Task.listen_task virt_port nickname none to) o a =
      reply to (Reply.listening (err ConnectError.unreachable)) a
  finish (Task.listen_task virt_port nickname (some cap) to) (ok listener) a =
      spawn (Task.address_task listener to) a
  finish (Task.listen_task virt_port nickname (some cap) to) (err e) a =
      reply to (Reply.listening (err (map_connect_error to_string e))) a
  finish (Task.address_task listener to) (ok addr) a =
      reply to (Reply.listening (ok (a.registry.next_id, addr))) (store_listener listener a)
  finish (Task.address_task listener to) (err e) a =
      reply to (Reply.listening (err (map_connect_error to_string e))) a
  finish (Task.connect_task addr none to) o a =
      reply to (Reply.connected (err ConnectError.unreachable)) a
  finish (Task.connect_task addr (some cap) to) (ok channel) a =
      reply to (Reply.connected (ok a.registry.next_id)) (store_channel channel a)
  finish (Task.connect_task addr (some cap) to) (err e) a =
      reply to (Reply.connected (err (map_connect_error to_string e))) a
  finish (Task.accept_task none to) o a =
      reply to (Reply.connected (err ConnectError.unreachable)) a
  finish (Task.accept_task (some cap) to) (ok channel) a =
      reply to (Reply.connected (ok a.registry.next_id)) (store_channel channel a)
  finish (Task.accept_task (some cap) to) (err e) a =
      reply to (Reply.connected (err (map_connect_error to_string e))) a
  finish (Task.send_task msg none to) o a = reply to (Reply.sent (err SendError.closed)) a
  finish (Task.send_task msg (some cap) to) o a =
      reply to (Reply.sent (map_err (map_send_error to_string) o)) a
  finish (Task.recv_task id none) o a = finish_recv id (err RecvError.closed) (recv_state id a) a
  finish (Task.recv_task id (some cap)) o a =
      finish_recv id (map_err (map_recv_error to_string) o) (recv_state id a) a
  finish (Task.configure_task file cap to) o a =
      reply to (Reply.configured (map_err (map_connect_error to_string) o)) a
