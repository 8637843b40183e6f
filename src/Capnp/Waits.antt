-- ===== src/Capnp/Waits.antt =====
-- A caller waits only on the channel of its own handle: an invariant of the actor's receive states.
use fungi_transport_ci_test.Prelude.{
  ℕ, ◌≡◌, refl, sym, subst, List, [], ◌∷◌, ◌++◌, Option, none, some, Bool, true, Result, ok, err,
  ◌==◌, ==_iff, if◌then◌else◌, Bool-cases, inl, inr,
}
use fungi_transport_ci_test.Text.{Bytes, Text}
use fungi_transport_ci_test.Errors.{RecvError}
use fungi_transport_ci_test.Capnp.Map.{insert, remove, or_insert}
use fungi_transport_ci_test.Capnp.Errors.{CapnpError}
use fungi_transport_ci_test.Capnp.Registry.{Caller, RecvState, idle, release}
use fungi_transport_ci_test.Capnp.Actor.{
  Command, Reply, Task, Actor, Outcome, recv_state, put_recv_state, handle_connector,
  handle_configure, handle_recv, handle, finish_recv, finish, keep_message, settled,
}
use fungi_transport_ci_test.Capnp.System.{Allowed}
use fungi_transport_ci_test.Capnp.Log.{either}

abbrev pub WaitsOn : ℕ → Option Caller → Type 0
WaitsOn k (some to) = to.handle ≡ k
WaitsOn k none = Unit

abbrev pub WaitsIn : ℕ → Option RecvState → Type 0
WaitsIn k (some st) = WaitsOn k st.waiter
WaitsIn k none = Unit

abbrev pub Waits : {Cap : Type 0} → Actor Cap → Type 0
Waits a = (k : ℕ) → WaitsIn k (recv_state k a)

or_insert-WaitsOn :
    (k : ℕ) (o : Option RecvState) → WaitsIn k o → WaitsOn k (RecvState.waiter (or_insert idle o))
or_insert-WaitsOn k (some st) w = w
or_insert-WaitsOn k none w = tt

keep_message-waiter :
    (r : Result RecvError Bytes) (st : RecvState) → RecvState.waiter (keep_message r st) ≡ st.waiter
keep_message-waiter (ok m) st = refl
keep_message-waiter (err e) st = refl

module _ {Cap : Type 0} where
  put-Waits :
      (id : ℕ) (st : RecvState) (a : Actor Cap)
      → WaitsOn id st.waiter
      → Waits a
      → Waits (put_recv_state id st a)
  unfolding insert
  put-Waits id st a h w k = elim (Bool-cases (k == id)) [
    | inl e ↦ rw e (subst (λ j. WaitsOn j st.waiter) (sym ((==_iff k id).0 e)) h)
    | inr e ↦ rw e (w k)
  ]

  release-Waits :
      (id : ℕ) (a : Actor Cap) → Waits a → Waits (record a { registry = release id a.registry })
  unfolding release remove
  release-Waits id a w k = elim (Bool-cases (k == id)) [ inl e ↦ rw e tt | inr e ↦ rw e (w k) ]

module _ {Cap : Type 0} (to_string : CapnpError → Text) (connector_of : Cap → Cap)
    (gone : Caller → Bool) where
  handle_recv-Waits :
      (id : ℕ) (to : Caller) (st : RecvState) (buffer : List Bytes) (a : Actor Cap)
      → to.handle ≡ id
      → WaitsOn id st.waiter
      → Waits a
      → Waits (handle_recv to_string connector_of gone id to st buffer a)
  unfolding handle_recv
  handle_recv-Waits id to st (m ∷ ms) a own h w =
      either Waits (gone to) (put-Waits id (record st { buffer = m ∷ ms }) a h w)
        (put-Waits id (record st { buffer = ms }) a h w)
  handle_recv-Waits id to st [] a own h w =
      either Waits st.in_flight (put-Waits id (record st { waiter = some to }) a own w)
        (put-Waits id (record st { waiter = some to; in_flight = true }) a own w)

  connector-Waits :
      (o : Option Cap) (to : Caller) (a : Actor Cap)
      → Waits a
      → Waits (handle_connector to_string connector_of gone o to a)
  connector-Waits (some cap) to a w = either Waits (gone to) w w
  connector-Waits none to a w = w

  configure-Waits :
      (o : Option Cap) (file : Bytes) (to : Caller) (a : Actor Cap)
      → Waits a
      → Waits (handle_configure to_string connector_of gone o file to a)
  configure-Waits (some cap) file to a w = w
  configure-Waits none file to a w = either Waits (gone to) w w

  pub handle-Waits :
      (c : Command) (ids : List ℕ) (a : Actor Cap)
      → Allowed c ids
      → Waits a
      → Waits (handle to_string connector_of gone c a)
  unfolding handle
  handle-Waits (Command.connector id to) ids a ok_c w =
      connector-Waits (a.registry.transports id) to a w
  handle-Waits (Command.listen id virt_port nickname to) ids a ok_c w = w
  handle-Waits (Command.connect id addr to) ids a ok_c w = w
  handle-Waits (Command.accept id to) ids a ok_c w = w
  handle-Waits (Command.send id msg to) ids a ok_c w = w
  handle-Waits (Command.recv id to) ids a (own, live) w =
      handle_recv-Waits id to (or_insert idle (recv_state id a)) _ a own
        (or_insert-WaitsOn id (recv_state id a) (w id)) w
  handle-Waits (Command.release_id id) ids a ok_c w = release-Waits id a w
  handle-Waits (Command.configure_private_net file to) ids a ok_c w =
      configure-Waits a.plugin file to a w

  finish_recv-Waits :
      (id : ℕ) (r : Result RecvError Bytes) (o : Option RecvState) (a : Actor Cap)
      → Waits a
      → Waits (finish_recv to_string connector_of gone id r o a)
  unfolding finish_recv
  finish_recv-Waits id r none a w = w
  finish_recv-Waits id r (some st) a w = by_waiter st.waiter
    where
      kept : Waits (put_recv_state id (keep_message r (settled st)) a)
      kept =
          put-Waits id (keep_message r (settled st)) a
            (subst (WaitsOn id) (sym (keep_message-waiter r (settled st))) tt) w

      by_waiter :
          (o : Option Caller)
          → Waits (elim o [
            | some to ↦
                if gone to
                then put_recv_state id (keep_message r (settled st)) a
                else record (put_recv_state id (settled st) a) {
                  replies = a.replies ++ (to, Reply.received r) ∷ [];
                }
            | none ↦ put_recv_state id (keep_message r (settled st)) a
          ])
      by_waiter (some to) = either Waits (gone to) kept (put-Waits id (settled st) a tt w)
      by_waiter none = kept

  pub finish-Waits :
      (t : Task Cap) (o : Outcome t) (a : Actor Cap)
      → Waits a
      → Waits (finish to_string connector_of gone t o a)
  unfolding finish
  finish-Waits (Task.listen_task virt_port nickname none to) o a w = either Waits (gone to) w w
  finish-Waits (Task.listen_task virt_port nickname (some cap) to) (ok listener) a w = w
  finish-Waits (Task.listen_task virt_port nickname (some cap) to) (err e) a w =
      either Waits (gone to) w w
  finish-Waits (Task.address_task listener to) (ok addr) a w = either Waits (gone to) w w
  finish-Waits (Task.address_task listener to) (err e) a w = either Waits (gone to) w w
  finish-Waits (Task.connect_task addr none to) o a w = either Waits (gone to) w w
  finish-Waits (Task.connect_task addr (some cap) to) (ok channel) a w = either Waits (gone to) w w
  finish-Waits (Task.connect_task addr (some cap) to) (err e) a w = either Waits (gone to) w w
  finish-Waits (Task.accept_task none to) o a w = either Waits (gone to) w w
  finish-Waits (Task.accept_task (some cap) to) (ok channel) a w = either Waits (gone to) w w
  finish-Waits (Task.accept_task (some cap) to) (err e) a w = either Waits (gone to) w w
  finish-Waits (Task.send_task msg none to) o a w = either Waits (gone to) w w
  finish-Waits (Task.send_task msg (some cap) to) o a w = either Waits (gone to) w w
  finish-Waits (Task.recv_task id none) o a w =
      finish_recv-Waits id (err RecvError.closed) (recv_state id a) a w
  finish-Waits (Task.recv_task id (some cap)) o a w = finish_recv-Waits id _ (recv_state id a) a w
  finish-Waits (Task.configure_task file cap to) o a w = either Waits (gone to) w w
