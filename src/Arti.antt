-- ===== src/Arti.antt =====
-- crates/fungi-transport-arti/src/error.rs, transport.rs, connector.rs and listener.rs: the transport over
-- an in-process Tor client. The client (the crates of arti) is the parameter `arti`; its calls act on a
-- world, which is the network and the state directory.
pub mod PrivateNet
pub mod Accept
pub mod Lazy
pub mod Boot
pub mod Descriptor
pub mod Samples
mod Tests
use fungi_transport_ci_test.Prelude.{
  ℕ, List, [], ◌∷◌, ◌++◌, Bool, true, false, Option, none, some, Result, ok, err, map_err, ok_or,
  ◌==◌, if◌then◌else◌,
}
use fungi_transport_ci_test.Action
use fungi_transport_ci_test.Action.{◌>>=◌, Action, pure, lift}
use fungi_transport_ci_test.Text.{Text, codes}
use fungi_transport_ci_test.Errors.{ConnectError, box_text}
use fungi_transport_ci_test.Addr.{OnionAddr, onion_addr}
use fungi_transport_ci_test.Channel.{ListenParams}
use fungi_transport_ci_test.Framed.{FramedChannel, default_max_msg_len}
use fungi_transport_ci_test.Tor.{channel_over}

-- `arti_client::ErrorKind`; the kinds that the code does not name are numbered.
pub data ErrorKind : Type 0 where
  onion_service_not_found onion_service_not_running : ErrorKind
  onion_service_connection_failed remote_host_not_found : ErrorKind
  other_kind : ℕ → ErrorKind

pub record ArtiError : Type 0 where
  pub kind : ErrorKind
  pub message : Text

unfoldable pub kind_is_unreachable : ErrorKind → Bool
kind_is_unreachable ErrorKind.onion_service_not_found = true
kind_is_unreachable ErrorKind.onion_service_not_running = true
kind_is_unreachable ErrorKind.onion_service_connection_failed = true
kind_is_unreachable ErrorKind.remote_host_not_found = true
kind_is_unreachable (ErrorKind.other_kind k) = false

-- `ConnectError::Transport(e.into())`.
abbrev pub opaque : Text → ConnectError
opaque message = ConnectError.transport (box_text message)

unfoldable pub connect_error : ArtiError → ConnectError
unfolding kind_is_unreachable
connect_error e = if kind_is_unreachable e.kind then ConnectError.unreachable else opaque e.message

-- What a peer asks of a service: to begin a stream to a port, or something else.
pub data StreamRequest : Type 0 where
  begin : ℕ → StreamRequest
  other : StreamRequest

pub record Arti (W Cfg K Nick SvcCfg Svc Rend Req D : Type 0) : Type 0 where
  pub create_bootstrapped : Cfg → Action W ArtiError K
  pub connect : K → Text → ℕ → Action W ArtiError D
  pub parse_nickname : Text → Result Text Nick
  pub build_service : Nick → Result Text SvcCfg
  pub launch_onion_service : K → SvcCfg → Action W ArtiError (Option (Svc × Rend))
  pub onion_address : Svc → Option Text
  pub handle_rend_requests : Rend → List Req
  pub request : Req → StreamRequest
  pub accept : Req → Action W Text D
  pub shutdown_circuit : Req → W → W

pub record ArtiConfig : Type 0 where
  pub state_dir : Text
  pub cache_dir : Text
  pub max_msg_len : ℕ

-- `ArtiConfig::new`.
unfoldable pub arti_config : Text → Text → ArtiConfig
arti_config state_dir cache_dir = record {
  state_dir = state_dir;
  cache_dir = cache_dir;
  max_msg_len = default_max_msg_len;
}

pub record ArtiTransport (K : Type 0) : Type 0 where
  pub client : K
  pub max_msg_len : ℕ

pub record ArtiConnector (K : Type 0) : Type 0 where
  pub client : K
  pub max_msg_len : ℕ

-- `incoming` is what the stream of requests yields until it ends.
pub record ArtiListener (Svc Req : Type 0) : Type 0 where
  pub incoming : List Req
  pub addr : OnionAddr
  pub virt_port : ℕ
  pub max_msg_len : ℕ
  pub service : Svc

unfoldable pub from_client : {K : Type 0} → K → ℕ → ArtiTransport K
from_client client max_msg_len = record { client = client; max_msg_len = max_msg_len }

-- `ArtiTransport::connector`, inherent and of the trait.
unfoldable pub connector : {K : Type 0} → ArtiTransport K → ArtiConnector K
connector t = record { client = t.client; max_msg_len = t.max_msg_len }

abbrev pub with_error : {W E F A : Type 0} → (E → F) → Action W E A → Action W F A
with_error f m w = let (r, w') = m w in (map_err f r, w')

-- The nickname of `Transport::listen`.
unfoldable pub nickname_or_default : Option Text → Text
nickname_or_default none = codes "fungi"
nickname_or_default (some nickname) = nickname

-- `tor_config`; `from_directories` and `build` are arti's.
unfoldable pub tor_config :
    {B Cfg : Type 0}
    → (Text → Text → B)
    → (B → Result Text Cfg)
    → ArtiConfig
    → Result ConnectError Cfg
tor_config from_directories build cfg =
    map_err opaque (build (from_directories cfg.state_dir cfg.cache_dir))

-- A request for the listener's own port.
unfoldable pub is_ours : ℕ → StreamRequest → Bool
is_ours virt_port (StreamRequest.begin port) = port == virt_port
is_ours virt_port StreamRequest.other = false

module _ {W Cfg K Nick SvcCfg Svc Rend Req D : Type 0}
    (arti : Arti W Cfg K Nick SvcCfg Svc Rend Req D) where
  unfoldable pub bootstrap_with : Cfg → ℕ → Action W ConnectError (ArtiTransport K)
  unfolding connect_error from_client
  bootstrap_with tor_cfg max_msg_len = do
    client ← with_error connect_error (arti.create_bootstrapped tor_cfg)
    pure (from_client client max_msg_len)

  unfoldable pub bootstrap :
      {B : Type 0}
      → (Text → Text → B)
      → (B → Result Text Cfg)
      → ArtiConfig
      → Action W ConnectError (ArtiTransport K)
  unfolding tor_config bootstrap_with
  bootstrap from_directories build cfg = do
    tor_cfg ← lift (tor_config from_directories build cfg)
    bootstrap_with tor_cfg cfg.max_msg_len

  -- A channel; `none` is the panic of `FramedChannel::new`.
  abbrev pub Opened : Type 0
  Opened = Option (Result ConnectError (FramedChannel D))

  -- `Connector::connect`.
  unfoldable pub connect : ArtiConnector K → OnionAddr → W → Opened × W
  unfolding connect_error
  connect c addr w =
      let (r, w') = with_error connect_error (arti.connect c.client addr.host addr.port) w in
      (channel_over c.max_msg_len r, w')

  abbrev pub disabled : ConnectError
  disabled = opaque (codes "onion service disabled in its own config")

  abbrev pub no_address : ConnectError
  no_address = opaque (codes "onion address not yet derivable from service keys")

  -- `ArtiTransport::listen`.
  unfoldable pub publish : ArtiTransport K → Text → ℕ → Action W ConnectError (ArtiListener Svc Req)
  unfolding connect_error
  publish t nickname virt_port = do
    nick ← lift (map_err opaque (arti.parse_nickname nickname))
    svc_cfg ← lift (map_err opaque (arti.build_service nick))
    launched ← with_error connect_error (arti.launch_onion_service t.client svc_cfg)
    (service, rend) ← lift (ok_or launched disabled)
    host ← lift (ok_or (arti.onion_address service) no_address)
    pure (record {
      incoming = arti.handle_rend_requests rend;
      addr = onion_addr host virt_port;
      virt_port = virt_port;
      max_msg_len = t.max_msg_len;
      service = service;
    })

  -- `Transport::listen`.
  unfoldable pub listen :
      ArtiTransport K → ListenParams → Action W ConnectError (ArtiListener Svc Req × OnionAddr)
  unfolding publish nickname_or_default
  listen t params = do
    listener ← publish t (nickname_or_default params.nickname) params.virt_port
    pure (listener, listener.addr)

  unfoldable pub accept_stream : ℕ → Req → W → Opened × W
  accept_stream max_msg_len req w =
      let (r, w') = with_error opaque (arti.accept req) w in (channel_over max_msg_len r, w')

  -- The loop of `accept`, over the requests to come.
  unfoldable pub accept_from : ℕ → ℕ → List Req → W → (Opened × List Req) × W
  unfolding accept_stream is_ours
  accept_from virt_port max_msg_len [] w = ((some (err ConnectError.unreachable), []), w)
  accept_from virt_port max_msg_len (req ∷ incoming) w =
      let rest = accept_from virt_port max_msg_len incoming (arti.shutdown_circuit req w) in
      let (r, w') = accept_stream max_msg_len req w in
      if is_ours virt_port (arti.request req) then ((r, incoming), w') else rest

  -- `Listener::accept`.
  unfoldable pub accept : ArtiListener Svc Req → W → (Opened × ArtiListener Svc Req) × W
  unfolding accept_from
  accept l w =
      let ((r, incoming), w') = accept_from l.virt_port l.max_msg_len l.incoming w in
      ((r, record l { incoming = incoming }), w')
