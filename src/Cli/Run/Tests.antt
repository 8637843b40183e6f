-- ===== src/Cli/Run/Tests.antt =====
-- A dial of crates/fungi-transport-capnp/src/bin/harness/run.rs to a peer that echoes, and the theorem
-- there.
use fungi_transport_ci_test.Prelude.{
  ℕ, ◌≡◌, refl, List, [], ◌∷◌, ◌++◌, Option, none, some, Result, ok, err,
}
use fungi_transport_ci_test.Action.{then as onwards}
use fungi_transport_ci_test.Text.{Bytes, Text, codes}
use fungi_transport_ci_test.Errors.{RecvError, ConnectError}
use fungi_transport_ci_test.Addr.{OnionAddr, onion_addr}
use fungi_transport_ci_test.Channel.{Channel}
use fungi_transport_ci_test.Capnp.Plugin.{Backend}
use fungi_transport_ci_test.Cli.{Cli, dial}
use fungi_transport_ci_test.Cli.Run.{Os, plugin_command}
use fungi_transport_ci_test.Cli.Run.Dialled.{Dialled}

-- The message on its way back, and what was printed.
record Place : Type 0 where
  pending : Option Bytes
  printed : List Text

abbrev pop : Option Bytes → Place → Result RecvError Bytes × Place
pop none w = (err RecvError.closed, w)
pop (some m) w = (ok m, record w { pending = none })

abbrev echo : Channel Place
echo = record { send = λ m w. (ok tt, record w { pending = some m }); recv = λ w. pop w.pending w }

abbrev peers : Backend Place ℕ ℕ ℕ ℕ OnionAddr
peers = record {
  connector = λ t. t;
  listen = λ params t w. (err ConnectError.unreachable, w);
  connect = λ addr co w. (ok co, w);
  accept = λ l w. (err ConnectError.unreachable, w);
  channel = λ c. echo;
  from_str = λ t. none;
  display = λ a. a.host;
}

abbrev os : Os Place ℕ
os = record {
  expires = λ seconds w. none;
  print = λ line w. record w { printed = w.printed ++ line ∷ [] };
  read_file = λ path w. (ok [], w);
  join = λ dir leaf. dir ++ (codes "/" ++ leaf);
  connect_plugin = λ command. 7;
  configure_private_net = λ file t w. (ok tt, w);
}

abbrev idle : List Text → Place
idle printed = record { pending = none; printed = printed }

abbrev cli : Cli
cli = record {
  cmd = dial (onion_addr (codes "a.onion") 80);
  private_net = some (codes "net");
  state_dir = some (codes "/tmp");
  plugin = codes "p";
}

starts_plugin : plugin_command (λ dir leaf. dir ++ (codes "/" ++ leaf)) cli ≡ record {
  program = codes "p";
  env =
      (codes "FS_MISTRUST_DISABLE_PERMISSIONS_CHECKS", codes "1")
      ∷ (codes "FUNGI_STATE_DIR", codes "/tmp/state")
      ∷ (codes "FUNGI_CACHE_DIR", codes "/tmp/cache")
      ∷ [];
}
unfolding plugin_command
starts_plugin = refl
