-- ===== src/Tor/Connect.antt =====
-- `connect` of crates/fungi-transport-socks5h/src/lib.rs: the channel that a peer gets.
use fungi_transport_ci_test.Prelude.{
  ℕ, ◌<◌, ◌≡◌, refl, sym, ap, subst, some, false, Result, ok, err, ltb, ltb→lt, Bool-cases, inl,
  inr,
}
use fungi_transport_ci_test.Text.{Bytes}
use fungi_transport_ci_test.Errors.{ConnectError, IoError}
use fungi_transport_ci_test.Addr.{OnionAddr}
use fungi_transport_ci_test.Io.Socket.{Socket}
use fungi_transport_ci_test.Framed.{FramedChannel, new, fresh, u32_mod}
use fungi_transport_ci_test.Framed.Invariant.{IsValid, InHeader-IsValid, fresh-InHeader, input}
use fungi_transport_ci_test.Socks5.{connect}
use fungi_transport_ci_test.Socks5.Connect.{Tunnelled, connect-Tunnelled}
use fungi_transport_ci_test.Tor.{TorConnector, tor_connect, channel_over, made_channel}

-- A channel that has read nothing, and may begin to.
abbrev pub Ready : {S : Type 0} → (S → Bytes) → ℕ → FramedChannel S → Type 0
Ready unread max c =
    IsValid c × (c.poisoned ≡ false) × (c.max_msg_len ≡ max) × (input unread c ≡ unread c.stream)

fresh-Ready :
    {S : Type 0} (unread : S → Bytes) (s : S) (max : ℕ)
    → max < u32_mod
    → Ready unread max (fresh s max)
fresh-Ready unread s max fits = (InHeader-IsValid (fresh-InHeader s max fits), refl, refl, refl)

new-Ready :
    {S : Type 0} (unread : S → Bytes) (s : S) (max : ℕ) (c : FramedChannel S)
    → made_channel (new s max) ≡ some (ok c)
    → (c.stream ≡ s) × Ready unread max c
unfolding new
new-Ready {S} unread s max c h = elim (Bool-cases (ltb max u32_mod)) [
  | inl e ↦
      let same : fresh s max ≡ c = cc (rw e at h) in
      (
        sym (ap (λ (x : FramedChannel S). x.stream) same),
        subst (Ready unread max) same (fresh-Ready unread s max (ltb→lt _ _ e)),
      )
  | inr e ↦ cc (rw e at h)
]

-- A channel that `connect` returns is over a stream that the proxy tunnelled to the peer's address, and
-- is ready: valid, with the configured limit, and with the first byte of the tunnel as the first byte
-- of its first frame.
pub tor_connect-Ready :
    {S : Type 0} (io : Socket S) (dial : Unit {0} → Result IoError S) (connector : TorConnector)
    (addr : OnionAddr) (c : FramedChannel S)
    → tor_connect io dial connector addr ≡ some (ok c)
    → Tunnelled io dial addr.host addr.port c.stream × Ready io.unread connector.cfg.max_msg_len c
unfolding tor_connect
tor_connect-Ready {S} io dial connector addr c h =
    by_result (connect io dial addr.host addr.port) refl h
  where
    by_result :
        (r : Result ConnectError S)
        → connect io dial addr.host addr.port ≡ r
        → channel_over connector.cfg.max_msg_len r ≡ some (ok c)
        → Tunnelled io dial addr.host addr.port c.stream
          × Ready io.unread connector.cfg.max_msg_len c
    by_result (ok s) e h =
        let (same, ready) = new-Ready io.unread s connector.cfg.max_msg_len c h in
        (
          subst (Tunnelled io dial addr.host addr.port) (sym same)
              (connect-Tunnelled io dial addr.host addr.port s e),
          ready,
        )
    by_result (err x) e h = cc
