-- ===== src/Arti/Lazy.antt =====
-- crates/fungi-transport-arti/src/lazy.rs: the transport that bootstraps at its first use. Callers share
-- its state. The initialiser of its `OnceCell` runs for one of them at a time, from `enter`, where it
-- reads the pending descriptor, to `leave`, and a descriptor may be configured in between.
use fungi_transport_ci_test.Prelude.{ℕ, ◌++◌, Option, none, some, Result, ok, err, map_err}
use fungi_transport_ci_test.Action.{Action}
use fungi_transport_ci_test.Text.{Bytes, Text, codes, from_utf8}
use fungi_transport_ci_test.Errors.{ConnectError}
use fungi_transport_ci_test.Addr.{OnionAddr}
use fungi_transport_ci_test.Channel.{ListenParams}
use fungi_transport_ci_test.Arti.PrivateNet.{PrivateNet, NetBuilder, parse, build_config}
use fungi_transport_ci_test.Arti.{
  Arti, ArtiTransport, ArtiListener, opaque, bootstrap, bootstrap_with, connector, connect, listen,
  Opened,
}

pub record LazyInner (K : Type 0) : Type 0 where
  pub booted : Option (ArtiTransport K)
  pub pending : Option Text
  pub state_dir : Text
  pub cache_dir : Text
  pub max_msg_len : ℕ

-- `LazyArtiTransport::new`.
unfoldable pub new : {K : Type 0} → Text → Text → ℕ → LazyInner K
new state_dir cache_dir max_msg_len = record {
  booted = none;
  pending = none;
  state_dir = state_dir;
  cache_dir = cache_dir;
  max_msg_len = max_msg_len;
}

abbrev pub Configured : Type 0 → Type 0
Configured K = Result Text (Unit {0}) × LazyInner K

module _ {K : Type 0} (show_utf8_error : Bytes → Text) where
  -- The descriptor is checked, and then stored.
  unfoldable pub checked : Text → LazyInner K → Result Text PrivateNet → Configured K
  checked text l (ok net) = (ok tt, record l { pending = some text })
  checked text l (err e) = (err e, l)

  unfoldable pub decoded : Bytes → LazyInner K → Option Text → Configured K
  unfolding checked
  decoded net_file l (some text) = checked text l (parse text)
  decoded net_file l none =
      (err (codes "private-net descriptor is not UTF-8: " ++ show_utf8_error net_file), l)

  unfoldable pub unless_booted : Bytes → LazyInner K → Option (ArtiTransport K) → Configured K
  unfolding decoded
  unless_booted net_file l (some t) =
      (err (codes "configure_private_net called after arti bootstrapped"), l)
  unless_booted net_file l none = decoded net_file l (from_utf8 net_file)

  -- The message of an invalid text is the parameter `show_utf8_error`.
  unfoldable pub configure_private_net : Bytes → LazyInner K → Configured K
  unfolding unless_booted
  configure_private_net net_file l = unless_booted net_file l l.booted

module _ {W Cfg K Nick SvcCfg Svc Rend Req D Rsa Ed Addr B : Type 0}
    (arti : Arti W Cfg K Nick SvcCfg Svc Rend Req D) (builder : NetBuilder Rsa Ed Addr B Cfg) where
  abbrev pub with_config : ℕ → Result ConnectError Cfg → Action W ConnectError (ArtiTransport K)
  with_config max_msg_len (ok cfg) w = bootstrap_with arti cfg max_msg_len w
  with_config max_msg_len (err e) w = (err e, w)

  abbrev pub private_config : LazyInner K → Result Text PrivateNet → Result ConnectError Cfg
  private_config l (ok net) = map_err opaque (build_config builder net l.state_dir l.cache_dir)
  private_config l (err e) = err (opaque e)

  -- The initialiser, from the descriptor that it has read.
  unfoldable pub init : Option Text → LazyInner K → Action W ConnectError (ArtiTransport K)
  init (some text) l w = with_config l.max_msg_len (private_config l (parse text)) w
  init none l w =
      bootstrap arti builder.from_directories builder.build
        (record { state_dir = l.state_dir; cache_dir = l.cache_dir; max_msg_len = l.max_msg_len }) w

  -- The cell is set by an initialiser that succeeds, and stays empty after one that fails.
  unfoldable pub settle :
      LazyInner K
      → Result ConnectError (ArtiTransport K)
      → Result ConnectError (ArtiTransport K) × LazyInner K
  settle l (ok t) = (ok t, record l { booted = some t })
  settle l (err e) = (err e, l)

  unfoldable pub get_from :
      LazyInner K
      → W
      → Option (ArtiTransport K)
      → (Result ConnectError (ArtiTransport K) × LazyInner K) × W
  unfolding init settle
  get_from l w (some t) = ((ok t, l), w)
  get_from l w none = let (r, w') = init l.pending l w in (settle l r, w')

  -- `get`, with no other call in between.
  unfoldable pub get : LazyInner K → W → (Result ConnectError (ArtiTransport K) × LazyInner K) × W
  unfolding get_from
  get l w = get_from l w l.booted

  abbrev pub listen_on :
      ListenParams
      → Result ConnectError (ArtiTransport K)
      → Action W ConnectError (ArtiListener Svc Req × OnionAddr)
  listen_on params (ok t) w = listen arti t params w
  listen_on params (err e) w = (err e, w)

  unfoldable pub lazy_listen :
      ListenParams
      → LazyInner K
      → W
      → (Result ConnectError (ArtiListener Svc Req × OnionAddr) × LazyInner K) × W
  lazy_listen params l w =
      let ((t, l'), w') = get l w in let (r, w2) = listen_on params t w' in ((r, l'), w2)

  abbrev pub connect_on : OnionAddr → Result ConnectError (ArtiTransport K) → W → Opened arti × W
  connect_on addr (ok t) w = connect arti (connector t) addr w
  connect_on addr (err e) w = (some (err e), w)

  -- `LazyArtiConnector::connect`.
  unfoldable pub lazy_connect : OnionAddr → LazyInner K → W → (Opened arti × LazyInner K) × W
  lazy_connect addr l w =
      let ((t, l'), w') = get l w in let (r, w2) = connect_on addr t w' in ((r, l'), w2)
