-- ===== src/Capnp/Change.antt =====
-- What one command and one outcome change in the registry of crates/fungi-transport-capnp/src/lib.rs.
use fungi_transport_ci_test.Prelude.{
  ℕ, ◌≡◌, refl, List, [], ◌∷◌, ◌++◌, Lacks, ◌⊎◌, inl, inr, Option, none, some, Bool, true, Result,
  ok, err, map_err, if◌then◌else◌,
}
use fungi_transport_ci_test.Text.{Bytes, Text}
use fungi_transport_ci_test.Errors.{RecvError}
use fungi_transport_ci_test.Capnp.Map.{insert, or_insert}
use fungi_transport_ci_test.Capnp.Errors.{CapnpError, map_recv_error}
use fungi_transport_ci_test.Capnp.Registry.{Caller, RecvState, idle, Registry, after_alloc, release}
use fungi_transport_ci_test.Capnp.Actor.{
  Command, Reply, Task, Actor, Outcome, recv_state, put_recv_state, handle_connector,
  handle_configure, handle_recv, handle, finish_recv, finish, keep_message, settled,
}
use fungi_transport_ci_test.Capnp.System.{Allowed}
use fungi_transport_ci_test.Capnp.Log.{either}

-- How a command or an outcome changes the registry, where the ids `ids` are released.
pub data Change {Cap : Type 0} (ids : List ℕ) (r : Registry Cap) : Registry Cap → Type 0 where
  same : Change ids r r
  receive :
      (id : ℕ) (st : RecvState)
      → Lacks id ids ⊎ ((o : RecvState) × (r.recv_states id ≡ some o))
      → Change ids r (record r { recv_states = insert id st r.recv_states })
  new_channel :
      (c : Cap) → Change ids r (record (after_alloc r) { channels = insert r.next_id c r.channels })
  new_listener :
      (c : Cap)
      → Change ids r (record (after_alloc r) { listeners = insert r.next_id c r.listeners })
  new_connector :
      (c : Cap)
      → Change ids r (record (after_alloc r) { connectors = insert r.next_id c r.connectors })
  freed : (id : ℕ) → Change ids r (release id r)

module _ {Cap : Type 0} (to_string : CapnpError → Text) (connector_of : Cap → Cap)
    (gone : Caller → Bool) (ids : List ℕ) where
  -- Of an actor whose registry was `r`.
  abbrev Changed : Registry Cap → Actor Cap → Type 0
  Changed r b = Change ids r b.registry

  connector-Change :
      (o : Option Cap) (to : Caller) (a : Actor Cap)
      → Changed a.registry (handle_connector to_string connector_of gone o to a)
  connector-Change (some c) to a =
      either (Changed a.registry) (gone to) (new_connector (connector_of c))
        (new_connector (connector_of c))
  connector-Change none to a = same

  configure-Change :
      (o : Option Cap) (file : Bytes) (to : Caller) (a : Actor Cap)
      → Changed a.registry (handle_configure to_string connector_of gone o file to a)
  configure-Change (some c) file to a = same
  configure-Change none file to a = either (Changed a.registry) (gone to) same same

  recv-Change :
      (id : ℕ) (to : Caller) (st : RecvState) (buffer : List Bytes) (a : Actor Cap)
      → Lacks id ids
      → Changed a.registry (handle_recv to_string connector_of gone id to st buffer a)
  unfolding handle_recv
  recv-Change id to st (m ∷ ms) a live =
      either (Changed a.registry) (gone to) (receive id (record st { buffer = m ∷ ms }) (inl live))
        (receive id (record st { buffer = ms }) (inl live))
  recv-Change id to st [] a live =
      either (Changed a.registry) st.in_flight
        (receive id (record st { waiter = some to }) (inl live))
        (receive id (record st { waiter = some to; in_flight = true }) (inl live))

  pub handle-Change :
      (c : Command) (a : Actor Cap)
      → Allowed c ids
      → Changed a.registry (handle to_string connector_of gone c a)
  unfolding handle
  handle-Change (Command.connector id to) a fine = connector-Change (a.registry.transports id) to a
  handle-Change (Command.listen id virt_port nickname to) a fine = same
  handle-Change (Command.connect id addr to) a fine = same
  handle-Change (Command.accept id to) a fine = same
  handle-Change (Command.send id msg to) a fine = same
  handle-Change (Command.recv id to) a (_, live) =
      recv-Change id to (or_insert idle (recv_state id a))
        (RecvState.buffer (or_insert idle (recv_state id a))) a live
  handle-Change (Command.release_id id) a fine = freed id
  handle-Change (Command.configure_private_net file to) a fine = configure-Change a.plugin file to a

  finish_recv-Change :
      (id : ℕ) (r : Result RecvError Bytes) (o : Option RecvState) (a : Actor Cap)
      → recv_state id a ≡ o
      → Changed a.registry (finish_recv to_string connector_of gone id r o a)
  unfolding finish_recv
  finish_recv-Change id r none a e = same
  finish_recv-Change id r (some st) a e = by_waiter st.waiter
    where
      kept : Changed a.registry (put_recv_state id (keep_message r (settled st)) a)
      kept = receive id (keep_message r (settled st)) (inr (st, e))

      by_waiter :
          (o : Option Caller)
          → Changed a.registry (elim o [
            | some to ↦
                if gone to
                then put_recv_state id (keep_message r (settled st)) a
                else record (put_recv_state id (settled st) a) {
                  replies = a.replies ++ (to, Reply.received r) ∷ [];
                }
            | none ↦ put_recv_state id (keep_message r (settled st)) a
          ])
      by_waiter (some to) =
          either (Changed a.registry) (gone to) kept (receive id (settled st) (inr (st, e)))
      by_waiter none = kept

  pub finish-Change :
      (t : Task Cap) (o : Outcome t) (a : Actor Cap)
      → Changed a.registry (finish to_string connector_of gone t o a)
  unfolding finish
  finish-Change (Task.listen_task virt_port nickname none to) o a =
      either (Changed a.registry) (gone to) same same
  finish-Change (Task.listen_task virt_port nickname (some c) to) (ok l) a = same
  finish-Change (Task.listen_task virt_port nickname (some c) to) (err e) a =
      either (Changed a.registry) (gone to) same same
  finish-Change (Task.address_task l to) (ok addr) a =
      either (Changed a.registry) (gone to) (new_listener l) (new_listener l)
  finish-Change (Task.address_task l to) (err e) a = either (Changed a.registry) (gone to) same same
  finish-Change (Task.connect_task addr none to) o a =
      either (Changed a.registry) (gone to) same same
  finish-Change (Task.connect_task addr (some c) to) (ok ch) a =
      either (Changed a.registry) (gone to) (new_channel ch) (new_channel ch)
  finish-Change (Task.connect_task addr (some c) to) (err e) a =
      either (Changed a.registry) (gone to) same same
  finish-Change (Task.accept_task none to) o a = either (Changed a.registry) (gone to) same same
  finish-Change (Task.accept_task (some c) to) (ok ch) a =
      either (Changed a.registry) (gone to) (new_channel ch) (new_channel ch)
  finish-Change (Task.accept_task (some c) to) (err e) a =
      either (Changed a.registry) (gone to) same same
  finish-Change (Task.send_task msg none to) o a = either (Changed a.registry) (gone to) same same
  finish-Change (Task.send_task msg (some c) to) o a =
      either (Changed a.registry) (gone to) same same
  finish-Change (Task.recv_task id none) o a =
      finish_recv-Change id (err RecvError.closed) (recv_state id a) a refl
  finish-Change (Task.recv_task id (some c)) o a =
      finish_recv-Change id (map_err (map_recv_error to_string) o) (recv_state id a) a refl
  finish-Change (Task.configure_task file c to) o a =
      either (Changed a.registry) (gone to) same same
