-- ===== src/Tor/Tests.antt =====
-- Tests of crates/fungi-transport-socks5h/src/lib.rs with a proxy and a daemon that grant everything,
-- and the theorems there.
use fungi_transport_ci_test.Prelude.{ℕ, ◌≡◌, ap, some, ok}
use fungi_transport_ci_test.Text.{codes}
use fungi_transport_ci_test.Addr.{OnionAddr, onion_addr}
use fungi_transport_ci_test.Framed.{fresh, new}
use fungi_transport_ci_test.Control.{null}
use fungi_transport_ci_test.Socks5.Connect.{Tunnelled}
use fungi_transport_ci_test.Socks5.Tests.{wire, reached, onion, granted, tunnel, wire_grants}
use fungi_transport_ci_test.Control.Tests.{Daemon, service}
use fungi_transport_ci_test.Tor.Connect.{Ready, tor_connect-Ready}
use fungi_transport_ci_test.Tor.{
  TorConfig, TorConnector, TorListener, Tcp, tor_connect, bind, channel_over,
}

abbrev cfg : TorConfig
cfg = record { max_msg_len = 16; auth = null }

abbrev connector : TorConnector
connector = record { cfg = cfg }

abbrev peer : OnionAddr
peer = onion_addr onion 80

connects : tor_connect wire (reached granted) connector peer ≡ some (ok (fresh tunnel 16))
unfolding tor_connect new
connects = ap (channel_over 16) wire_grants

-- The local listener is its port.
abbrev tcp : Tcp ℕ (Unit {0})
tcp = record { bind = λ _. ok 4; port = λ l. ok l; accept = λ l. (ok tt, l) }

abbrev listener : TorListener ℕ Daemon
listener = record {
  local = 4;
  addr = onion_addr (codes "a.onion") 80;
  max_msg_len = 16;
  service = service;
}

tor_connect-Ready_example :
    Tunnelled wire (reached granted) onion 80 tunnel × Ready (λ s. s.inbox) 16 (fresh tunnel 16)
tor_connect-Ready_example =
    tor_connect-Ready wire (reached granted) connector peer (fresh tunnel 16) connects
