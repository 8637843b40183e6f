-- ===== src/Tor.antt =====
-- crates/fungi-transport-socks5h/src/lib.rs: the transport over a tor daemon, which puts the SOCKS5h
-- client, the control client and the framing together. Connections are the parameters `io` (to the
-- proxy) and `lines` (to the control port), and a local TCP listener is `tcp`.
pub mod Connect
pub mod Listen
pub mod Tests
use fungi_transport_ci_test.Prelude.{ℕ, ◌++◌, Option, none, some, Result, ok, err, map_err}
use fungi_transport_ci_test.Text.{Bytes, Text, codes}
use fungi_transport_ci_test.Errors.{ConnectError, IoError, box_io}
use fungi_transport_ci_test.Addr.{OnionAddr, onion_addr}
use fungi_transport_ci_test.Io.Socket.{Socket}
use fungi_transport_ci_test.Io.Lines.{LineStream}
use fungi_transport_ci_test.Framed.{FramedChannel, new, default_max_msg_len}
use fungi_transport_ci_test.Control.{ControlAuth, null, OnionService, Stop, io_failed, create_onion}
use fungi_transport_ci_test.Socks5.{connect, io_err}

-- Where the daemon is stands in `dial` and `reached`, below.
pub record TorConfig : Type 0 where
  pub max_msg_len : ℕ
  pub auth : ControlAuth

-- `TorConfig::default`.
unfoldable pub default_config : TorConfig
default_config = record { max_msg_len = default_max_msg_len; auth = null }

pub record TorConnector : Type 0 where
  pub cfg : TorConfig

pub record TorTransport : Type 0 where
  pub cfg : TorConfig

-- `Transport::connector`.
unfoldable pub tor_connector : TorTransport → TorConnector
tor_connector t = record { cfg = t.cfg }

-- A channel over a stream that was opened; `none` is the panic of `FramedChannel::new`.
abbrev pub made_channel :
    {S : Type 0} → Option (FramedChannel S) → Option (Result ConnectError (FramedChannel S))
made_channel (some c) = some (ok c)
made_channel none = none

abbrev pub channel_over :
    {S : Type 0} → ℕ → Result ConnectError S → Option (Result ConnectError (FramedChannel S))
channel_over max (err e) = some (err e)
channel_over max (ok s) = made_channel (new s max)

-- `Connector::connect`; `dial` reaches the proxy.
unfoldable pub tor_connect :
    {S : Type 0}
    → Socket S
    → (Unit {0} → Result IoError S)
    → TorConnector
    → OnionAddr
    → Option (Result ConnectError (FramedChannel S))
tor_connect io dial c addr = channel_over c.cfg.max_msg_len (connect io dial addr.host addr.port)

-- `L` is the local listener, and `C` the control connection, on whose life the service depends.
pub record TorListener (L C : Type 0) : Type 0 where
  pub local : L
  pub addr : OnionAddr
  pub max_msg_len : ℕ
  pub service : OnionService C

-- A TCP listener of tokio, bound to a free local port.
pub record Tcp (L S : Type 0) : Type 0 where
  pub bind : Unit {0} → Result IoError L
  pub port : L → Result IoError ℕ
  pub accept : L → Result IoError S × L

module _ {L S C : Type 0} (tcp : Tcp L S) (lines : LineStream C)
    (read_file : Text → Result IoError Bytes) where
  abbrev pub published :
      TorConfig → ℕ → L → Result Stop (OnionService C) → Result Stop (TorListener L C)
  published cfg virt_port local (ok service) = ok (record {
    local = local;
    addr = onion_addr (service.service_id ++ codes ".onion") virt_port;
    max_msg_len = cfg.max_msg_len;
    service = service;
  })
  published cfg virt_port local (err e) = err e

  abbrev pub with_port :
      TorConfig → ℕ → Result IoError C → ℕ → L → Result IoError ℕ → Result Stop (TorListener L C)
  with_port cfg rounds reached virt_port local (ok port) =
      published cfg virt_port local
        (create_onion lines read_file cfg.auth rounds virt_port port reached)
  with_port cfg rounds reached virt_port local (err e) = err (io_failed e)

  abbrev pub with_local :
      TorConfig → ℕ → Result IoError C → ℕ → Result IoError L → Result Stop (TorListener L C)
  with_local cfg rounds reached virt_port (ok local) =
      with_port cfg rounds reached virt_port local (tcp.port local)
  with_local cfg rounds reached virt_port (err e) = err (io_failed e)

  -- `TorListener::bind`; `reached` is the dialled control port, and `rounds` those of its loop.
  unfoldable pub bind : TorConfig → ℕ → Result IoError C → ℕ → Result Stop (TorListener L C)
  bind cfg rounds reached virt_port = with_local cfg rounds reached virt_port (tcp.bind tt)

  abbrev pub with_address :
      Result Stop (TorListener L C) → Result Stop (TorListener L C × OnionAddr)
  with_address (ok l) = ok (l, l.addr)
  with_address (err e) = err e

  -- `Transport::listen`: the nickname is not used.
  unfoldable pub tor_listen :
      TorTransport
      → ℕ
      → Result IoError C
      → ℕ
      → Option Text
      → Result Stop (TorListener L C × OnionAddr)
  tor_listen t rounds reached virt_port nickname =
      with_address (bind t.cfg rounds reached virt_port)

  -- `Listener::accept`.
  unfoldable pub tor_accept :
      TorListener L C → Option (Result ConnectError (FramedChannel S)) × TorListener L C
  tor_accept l =
      let r = tcp.accept l.local in
      (channel_over l.max_msg_len (map_err io_err r.0), record l { local = r.1 })
