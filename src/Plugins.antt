-- ===== src/Plugins.antt =====
-- The plugin processes: crates/fungi-transport-arti/src/bin/fungi-arti-plugin.rs and
-- crates/fungi-transport-socks5h/src/bin/fungi-socks5h-plugin.rs. The environment is a function from its
-- variables, whose values are UTF-8 text; the directory for temporary files, the joining of paths and the
-- parser of socket addresses are parameters.
pub mod Installed
mod Tests
use fungi_transport_ci_test.Prelude.{Option, none, some, Result}
use fungi_transport_ci_test.Action.{Action, pure}
use fungi_transport_ci_test.Text.{Bytes, Text, codes}
use fungi_transport_ci_test.Framed.{default_max_msg_len}
use fungi_transport_ci_test.Arti.Lazy.{LazyInner, new, configure_private_net}
use fungi_transport_ci_test.Capnp.Plugin.{PluginFixtures}

-- What a process takes from its surroundings.
pub record Process : Type 0 where
  pub var : Text → Option Text
  pub temp_dir : Text
  pub join : Text → Text → Text

abbrev pub path_or : Option Text → Text → Text
path_or (some value) default = value
path_or none default = default

unfoldable pub env_dir : Process → Text → Text → Text
env_dir p var default_leaf = path_or (p.var var) (p.join p.temp_dir default_leaf)

abbrev pub addr_or : {A : Type 0} → (Text → Option A) → Option Text → A → Option A
addr_or parse (some value) default = parse value
addr_or parse none default = some default

-- `none` is the panic on a value that is not an address.
unfoldable pub env_addr : {A : Type 0} → (Text → Option A) → Process → Text → A → Option A
env_addr parse p var default = addr_or parse (p.var var) default

-- The addresses of the daemon in `main` of the plugin over a tor daemon.
pub record DaemonAddrs (A : Type 0) : Type 0 where
  pub socks_addr : A
  pub control_addr : A

abbrev pub both_addrs : {A : Type 0} → Option A → Option A → Option (DaemonAddrs A)
both_addrs (some socks) (some control) =
    some (record { socks_addr = socks; control_addr = control })
both_addrs _ _ = none

unfoldable pub daemon_addrs :
    {A : Type 0} → (Text → Option A) → A → A → Process → Option (DaemonAddrs A)
unfolding env_addr
daemon_addrs parse stock_socks stock_control p =
    both_addrs (env_addr parse p (codes "FUNGI_SOCKS_ADDR") stock_socks)
      (env_addr parse p (codes "FUNGI_CONTROL_ADDR") stock_control)

-- The directories and the transport in `main` of the plugin over arti.
unfoldable pub arti_state_dir : Process → Text
arti_state_dir p = env_dir p (codes "FUNGI_STATE_DIR") (codes "fungi-arti-state")

unfoldable pub arti_cache_dir : Process → Text
arti_cache_dir p = env_dir p (codes "FUNGI_CACHE_DIR") (codes "fungi-arti-cache")

unfoldable pub arti_transport : {K : Type 0} → Process → LazyInner K
unfolding new
arti_transport p = new (arti_state_dir p) (arti_cache_dir p) default_max_msg_len

-- `ArtiFixtures`, with the default `reset`. The transport is a handle to state that its clones share, and
-- the process has just one, so that its state is a part of the world.
unfoldable pub arti_fixtures :
    {W K : Type 0} → (Bytes → Text) → PluginFixtures (W × LazyInner K) (Unit {0})
arti_fixtures show_utf8_error = record {
  configure_private_net = λ net_file f s.
      let (r, l) = configure_private_net show_utf8_error net_file s.1 in (r, (s.0, l));
  reset = λ f. pure tt;
}
