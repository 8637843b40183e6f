-- ===== src/Capnp/Client/Limits.antt =====
-- The client handles of crates/fungi-transport-capnp/src/lib.rs: the size limit reaches every channel and
-- is checked before the actor is asked, and a connector is made once.
use fungi_transport_ci_test.Prelude.{
  ℕ, ◌<◌, ◌≡◌, refl, sym, ap, ◌∙◌, length, Option, none, some, Result, ok, err, ltb, lt→ltb,
  if-true, arith,
}
use fungi_transport_ci_test.Text.{Bytes, Text}
use fungi_transport_ci_test.Errors.{SendError, ConnectError}
use fungi_transport_ci_test.Capnp.Client.{
  Link, CapnpTransport, CapnpConnector, CapnpListener, CapnpChannel, transport_connector,
  to_channel, to_listener, channel_send, listener_accept, filled, ensure_by, ensure_connector,
  listener_at, connect_by, connector_connect, transport_listen,
}

to_channel-ok :
    (max : ℕ) (r : Result ConnectError ℕ) (c : CapnpChannel)
    → to_channel max r ≡ ok c
    → c.max_msg_len ≡ max
to_channel-ok max (ok id) c h = sym (ap limit h)
  where
    limit : Result ConnectError CapnpChannel → ℕ
    limit (ok c) = c.max_msg_len
    limit (err e) = 0
to_channel-ok max (err e) c h = cc

listener_at-ok :
    {Addr : Type 0} (max id : ℕ) (o : Option Addr) (l : CapnpListener) (addr : Addr)
    → listener_at max id o ≡ ok (l, addr)
    → l.max_msg_len ≡ max
listener_at-ok {Addr} max id o l addr h = sym (ap limit h) ∙ limit_at o
  where
    limit : Result ConnectError (CapnpListener × Addr) → ℕ
    limit (ok (l, a)) = l.max_msg_len
    limit (err e) = max

    limit_at : (o : Option Addr) → limit (listener_at max id o) ≡ max
    limit_at (some a) = refl
    limit_at none = refl

to_listener-ok :
    {Addr : Type 0} (parse : Text → Option Addr) (max : ℕ) (r : Result ConnectError (ℕ × Text))
    (l : CapnpListener) (addr : Addr)
    → to_listener parse max r ≡ ok (l, addr)
    → l.max_msg_len ≡ max
to_listener-ok parse max (ok (id, text)) l addr h = listener_at-ok max id (parse text) l addr h
to_listener-ok parse max (err e) l addr h = cc

module _ {S : Type 0} (link : Link S) {Addr : Type 0} (parse : Text → Option Addr)
    (display : Addr → Text) where
  filled-limit : (c : CapnpConnector) (o : Option ℕ) → (filled link c o).max_msg_len ≡ c.max_msg_len
  filled-limit c (some id) = refl
  filled-limit c none = refl

  ensure-limit :
      (c : CapnpConnector) (call : ℕ) (o : Option ℕ) (s : S)
      → (ensure_by link c call o s).0.1.max_msg_len ≡ c.max_msg_len
  ensure-limit c call (some id) s = refl
  ensure-limit c call none s = filled-limit c _

  -- Whatever becomes of a `connect`, the handle keeps its limit.
  connect-limit :
      (c : CapnpConnector) (call : ℕ) (addr : Addr) (s : S)
      → (connector_connect link parse display c call addr s).1.max_msg_len ≡ c.max_msg_len
  unfolding connector_connect ensure_connector
  connect-limit c call addr s = ensure-limit c call c.connector_id s

  connect_by-limit :
      (c : CapnpConnector) (call : ℕ) (addr : Text) (r : Result ConnectError ℕ × S)
      (ch : CapnpChannel) (t : S)
      → connect_by link c call addr r ≡ (ok ch, t)
      → ch.max_msg_len ≡ c.max_msg_len
  connect_by-limit c call addr (ok id, s) ch t h =
      to_channel-ok c.max_msg_len _ ch (ap (λ r. r.0) h)
  connect_by-limit c call addr (err e, s) ch t h = cc

  -- The connectors and channels that come from a transport, whatever else is done with its handles.
  pub data ConnectorOf (t : CapnpTransport) : CapnpConnector → Type 0 where
    made : ConnectorOf t (transport_connector t)
    used :
        (c : CapnpConnector) (call : ℕ) (addr : Addr) (s : S)
        → ConnectorOf t c
        → ConnectorOf t (connector_connect link parse display c call addr s).1

  pub data ChannelOf (t : CapnpTransport) : CapnpChannel → Type 0 where
    dialled :
        (c : CapnpConnector) (call : ℕ) (addr : Addr) (s s' : S) (ch : CapnpChannel)
        → ConnectorOf t c
        → (connector_connect link parse display c call addr s).0 ≡ (ok ch, s')
        → ChannelOf t ch
    accepted :
        (l : CapnpListener) (call call' virt_port : ℕ) (nickname : Option Text) (addr : Addr)
        (s s' u u' : S) (ch : CapnpChannel)
        → transport_listen link parse display t call virt_port nickname s ≡ (ok (l, addr), s')
        → listener_accept link l call' u ≡ (ok ch, u')
        → ChannelOf t ch

  connector-limit :
      (t : CapnpTransport) {c : CapnpConnector} → ConnectorOf t c → c.max_msg_len ≡ t.max_msg_len
  unfolding transport_connector
  connector-limit t made = refl
  connector-limit t (used c call addr s h) = connect-limit c call addr s ∙ connector-limit t h

  channel-limit :
      (t : CapnpTransport) {ch : CapnpChannel} → ChannelOf t ch → ch.max_msg_len ≡ t.max_msg_len
  unfolding connector_connect transport_listen listener_accept
  channel-limit t (dialled c call addr s s' ch from h) =
      connect_by-limit c call (display addr) _ ch s' h ∙ connector-limit t from
  channel-limit t (accepted l call call' virt_port nickname addr s s' u u' ch listening h) =
      to_channel-ok l.max_msg_len _ ch (ap (λ r. r.0) h)
      ∙ to_listener-ok parse t.max_msg_len _ l addr (ap (λ r. r.0) listening)

  -- The size limit of a transport reaches every channel that comes from it, dialled or accepted: a
  -- message over it is refused with that limit, and the actor is not asked.
  pub limit_reaches_channels :
      (t : CapnpTransport) (ch : CapnpChannel)
      → ChannelOf t ch
      → (call : ℕ) (msg : Bytes) (s : S) → t.max_msg_len < length msg
      → channel_send link ch call msg s ≡ (err (SendError.too_large t.max_msg_len), s)
  unfolding channel_send
  limit_reaches_channels t ch from call msg s long =
      let same = channel-limit t from in
      if-true (ltb ch.max_msg_len (length msg)) _ _ (lt→ltb _ _ (omega arith))
      ∙ ap (λ n. (err (SendError.too_large n), s)) same
