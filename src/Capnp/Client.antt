-- ===== src/Capnp/Client.antt =====
-- The client handles of crates/fungi-transport-capnp/src/lib.rs: transport, connector, listener and
-- channel, each a number that names its capability in the actor, and the way to the actor. That way is
-- the parameter `link`: a command is asked and its reply awaited, or, from a `drop`, only sent if the
-- queue has room. How an address is parsed and printed is the parameters `parse` and `display`.
pub mod Limits
pub mod Tests
use fungi_transport_ci_test.Prelude.{
  ℕ, [], ◌∷◌, length, Option, none, some, Bool, true, false, Result, ok, err, ltb, if◌then◌else◌,
}
use fungi_transport_ci_test.Text.{Bytes, Text, codes}
use fungi_transport_ci_test.Errors.{SendError, RecvError, ConnectError, box_text}
use fungi_transport_ci_test.Capnp.Registry.{Caller, bootstrap_id}
use fungi_transport_ci_test.Capnp.Actor.{Command}

-- What the reply to a command carries.
abbrev pub Answer : Command → Type 0
Answer (Command.connector id to) = ℕ
Answer (Command.listen id virt_port nickname to) = Result ConnectError (ℕ × Text)
Answer (Command.connect id addr to) = Result ConnectError ℕ
Answer (Command.accept id to) = Result ConnectError ℕ
Answer (Command.send id msg to) = Result SendError (Unit {0})
Answer (Command.recv id to) = Result RecvError Bytes
Answer (Command.release_id id) = Unit
Answer (Command.configure_private_net file to) = Result ConnectError (Unit {0})

-- `ask` has no answer if the actor is gone, before the command or before the reply.
pub record Link (S : Type 0) : Type 0 where
  pub ask : (c : Command) → S → Option (Answer c) × S
  pub try_send : Command → S → S

pub record CapnpTransport : Type 0 where
  pub transport_id : ℕ
  pub max_msg_len : ℕ

-- `connector_id` is the cell that the first `connect` fills.
pub record CapnpConnector : Type 0 where
  pub transport_id : ℕ
  pub connector_id : Option ℕ
  pub max_msg_len : ℕ

pub record CapnpListener : Type 0 where
  pub listener_id : ℕ
  pub max_msg_len : ℕ

pub record CapnpChannel : Type 0 where
  pub channel_id : ℕ
  pub max_msg_len : ℕ

-- `connect_with` of the transport and of the channel; their actor starts with that bootstrap object.
unfoldable pub transport_connect_with : ℕ → CapnpTransport
transport_connect_with max = record { transport_id = bootstrap_id; max_msg_len = max }

unfoldable pub channel_connect_with : ℕ → CapnpChannel
channel_connect_with max = record { channel_id = bootstrap_id; max_msg_len = max }

-- `Transport::connector`.
unfoldable pub transport_connector : CapnpTransport → CapnpConnector
transport_connector t = record {
  transport_id = t.transport_id;
  connector_id = none;
  max_msg_len = t.max_msg_len;
}

-- A reply that did not come, and a reply, as the result of the call.
abbrev pub answered : {E A : Type 0} → E → Option (Result E A) → Result E A
answered gone none = err gone
answered gone (some r) = r

abbrev pub to_channel : ℕ → Result ConnectError ℕ → Result ConnectError CapnpChannel
to_channel max (ok id) = ok (record { channel_id = id; max_msg_len = max })
to_channel max (err e) = err e

abbrev pub found_id : Option ℕ → Result ConnectError ℕ
found_id (some id) = ok id
found_id none = err ConnectError.unreachable

-- The address of a new listener must parse; otherwise there is no listener to return.
abbrev pub listener_at :
    {Addr : Type 0} → ℕ → ℕ → Option Addr → Result ConnectError (CapnpListener × Addr)
listener_at max id (some addr) = ok (record { listener_id = id; max_msg_len = max }, addr)
listener_at max id none =
    err (ConnectError.transport (box_text (codes "unparseable listener address")))

abbrev pub to_listener :
    {Addr : Type 0}
    → (Text → Option Addr)
    → ℕ
    → Result ConnectError (ℕ × Text)
    → Result ConnectError (CapnpListener × Addr)
to_listener parse max (ok (id, text)) = listener_at max id (parse text)
to_listener parse max (err e) = err e

module _ {S : Type 0} (link : Link S) where
  -- The calls of a handle are numbered.
  abbrev pub caller : ℕ → ℕ → Caller
  caller handle call = record { handle = handle; call = call }

  unfoldable pub channel_send : CapnpChannel → ℕ → Bytes → S → Result SendError (Unit {0}) × S
  channel_send c call msg s =
      if ltb c.max_msg_len (length msg)
      then (err (SendError.too_large c.max_msg_len), s)
      else let r = link.ask (Command.send c.channel_id msg (caller c.channel_id call)) s in
        (answered SendError.closed r.0, r.1)

  unfoldable pub channel_recv : CapnpChannel → ℕ → S → Result RecvError Bytes × S
  channel_recv c call s =
      let r = link.ask (Command.recv c.channel_id (caller c.channel_id call)) s in
      (answered RecvError.closed r.0, r.1)

  unfoldable pub listener_accept : CapnpListener → ℕ → S → Result ConnectError CapnpChannel × S
  listener_accept l call s =
      let r = link.ask (Command.accept l.listener_id (caller l.listener_id call)) s in
      (to_channel l.max_msg_len (answered ConnectError.unreachable r.0), r.1)

  -- The id in the cell, or the one that the actor makes, which is then in the cell.
  abbrev pub filled : CapnpConnector → Option ℕ → CapnpConnector
  filled c none = c
  filled c (some id) = record c { connector_id = some id }

  abbrev pub ensure_by :
      CapnpConnector → ℕ → Option ℕ → S → (Result ConnectError ℕ × CapnpConnector) × S
  ensure_by c call (some id) s = ((ok id, c), s)
  ensure_by c call none s =
      let r = link.ask (Command.connector c.transport_id (caller c.transport_id call)) s in
      ((found_id r.0, filled c r.0), r.1)

  unfoldable pub ensure_connector :
      CapnpConnector → ℕ → S → (Result ConnectError ℕ × CapnpConnector) × S
  ensure_connector c call s = ensure_by c call c.connector_id s

  abbrev pub connect_by :
      CapnpConnector → ℕ → Text → Result ConnectError ℕ × S → Result ConnectError CapnpChannel × S
  connect_by c call addr (err e, s) = (err e, s)
  connect_by c call addr (ok id, s) =
      let r = link.ask (Command.connect id addr (caller id call)) s in
      (to_channel c.max_msg_len (answered ConnectError.unreachable r.0), r.1)

  module _ {Addr : Type 0} (parse : Text → Option Addr) (display : Addr → Text) where
    unfoldable pub connector_connect :
        CapnpConnector → ℕ → Addr → S → (Result ConnectError CapnpChannel × S) × CapnpConnector
    connector_connect c call addr s =
        let r = ensure_connector c call s in (connect_by c call (display addr) (r.0.0, r.1), r.0.1)

    unfoldable pub transport_listen :
        CapnpTransport → ℕ → ℕ → Option Text → S → Result ConnectError (CapnpListener × Addr) × S
    transport_listen t call virt_port nickname s =
        let r =
          link.ask (Command.listen t.transport_id virt_port nickname (caller t.transport_id call))
            s in
        (to_listener parse t.max_msg_len (answered ConnectError.unreachable r.0), r.1)

  unfoldable pub configure_private_net :
      CapnpTransport → ℕ → Bytes → S → Result ConnectError (Unit {0}) × S
  configure_private_net t call file s =
      let r = link.ask (Command.configure_private_net file (caller t.transport_id call)) s in
      (answered ConnectError.unreachable r.0, r.1)

  -- The `Drop`s. A connector that was never used has nothing to release.
  unfoldable pub drop_connector : CapnpConnector → S → S
  drop_connector c s = elim c.connector_id [
    | some id ↦ link.try_send (Command.release_id id) s
    | none ↦ s
  ]

  unfoldable pub drop_listener : CapnpListener → S → S
  drop_listener l s = link.try_send (Command.release_id l.listener_id) s

  unfoldable pub drop_channel : CapnpChannel → S → S
  drop_channel c s = link.try_send (Command.release_id c.channel_id) s
