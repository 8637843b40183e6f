-- ===== src/Cli/Run.antt =====
-- crates/fungi-transport-capnp/src/bin/harness/run.rs: `run`, `run_listen` and `run_dial`, over any
-- backend. What the process does besides (its timers, its output, its files, and the plugin that it
-- starts) is the parameter `os`, whose calls act on the world of the backend.
pub mod Dialled
mod Tests
use fungi_transport_ci_test.Prelude.{
  ℕ, List, [], ◌∷◌, ◌++◌, Option, none, some, Result, ok, err, map_err,
}
use fungi_transport_ci_test.Action
use fungi_transport_ci_test.Action.{◌>>=◌, Action, pure}
use fungi_transport_ci_test.Text.{Bytes, Text, codes}
use fungi_transport_ci_test.Errors.{ConnectError, show_connect_error}
use fungi_transport_ci_test.Addr.{OnionAddr}
use fungi_transport_ci_test.Channel.{ListenParams, listen_params, with_nickname}
use fungi_transport_ci_test.Capnp.Plugin.{Backend}
use fungi_transport_ci_test.Harness.{dial_sequence, echo_one_peer}
use fungi_transport_ci_test.Cli.{Cli, Cmd}

-- In seconds.
abbrev pub step_timeout : ℕ
step_timeout = 300

abbrev pub accept_timeout : ℕ
accept_timeout = 900

-- The program to start, and the variables of its environment that the harness sets.
pub record PluginCommand : Type 0 where
  pub program : Text
  pub env : List (Text × Text)

-- `expires` says whether a deadline passes before what it bounds is done, and in which world the future
-- that is dropped then leaves things. A path that is joined is `join`.
pub record Os (W T : Type 0) : Type 0 where
  pub expires : ℕ → W → Option W
  pub print : Text → W → W
  pub read_file : Text → Action W Text Bytes
  pub join : Text → Text → Text
  pub connect_plugin : PluginCommand → T
  pub configure_private_net : Bytes → T → Action W ConnectError (Unit {0})

abbrev pub state_env : (Text → Text → Text) → Option Text → List (Text × Text)
state_env join none = []
state_env join (some dir) =
    (codes "FUNGI_STATE_DIR", join dir (codes "state"))
    ∷ (codes "FUNGI_CACHE_DIR", join dir (codes "cache"))
    ∷ []

unfoldable pub plugin_command : (Text → Text → Text) → Cli → PluginCommand
plugin_command join cli = record {
  program = cli.plugin;
  env = (codes "FS_MISTRUST_DISABLE_PERMISSIONS_CHECKS", codes "1") ∷ state_env join cli.state_dir;
}

abbrev pub same_text : Text → Text
same_text e = e

abbrev pub reading_failed : Text → Text → Text
reading_failed path e = codes "reading --private-net " ++ (path ++ (codes ": " ++ e))

module _ {W T Co L C : Type 0} (backend : Backend W T Co L C OnionAddr) (os : Os W T) where
  abbrev pub unless_expired :
      {E A : Type 0} → Text → (E → Text) → Action W E A → W → Option W → Result Text A × W
  unless_expired late show m w none = let (r, w') = m w in (map_err show r, w')
  unless_expired late show m w (some w') = (err late, w')

  -- `tokio::time::timeout`, with the messages of its two errors.
  abbrev pub timeout : {E A : Type 0} → ℕ → Text → (E → Text) → Action W E A → Action W Text A
  timeout seconds late show m w = unless_expired late show m w (os.expires seconds w)

  abbrev pub print_line : Text → Action W Text (Unit {0})
  print_line line w = (ok tt, os.print line w)

  abbrev pub dialled : Co → OnionAddr → Action W Text C
  dialled co target =
      timeout step_timeout (codes "connect timed out") show_connect_error
        (backend.connect target co)

  abbrev pub dial_phase : C → Action W Text (Unit {0})
  dial_phase c =
      timeout step_timeout (codes "echo/dial phase timed out") same_text
        (dial_sequence (backend.channel c))

  unfoldable pub run_dial : Co → OnionAddr → Action W Text (Unit {0})
  run_dial co target = do c ← dialled co target; done ← dial_phase c; print_line (codes "OK")

  -- From the listener to the channel of the first peer.
  unfoldable pub first_peer : T → ListenParams → Action W Text C
  first_peer t params = do
    (l, addr) ←
        timeout step_timeout (codes "listen timed out") show_connect_error (backend.listen params t)
    onion ← print_line (codes "ONION=" ++ backend.display addr)
    ready ← print_line (codes "READY")
    timeout accept_timeout (codes "accept timed out") show_connect_error (backend.accept l)

  abbrev pub echo_unless_expired : ℕ → C → W → Option W → Option (Result Text (Unit {0}) × W)
  echo_unless_expired rounds c w none = echo_one_peer (backend.channel c) rounds w
  echo_unless_expired rounds c w (some w') = some (err (codes "echo/dial phase timed out"), w')

  abbrev pub echo_to : ℕ → Result Text C × W → Option (Result Text (Unit {0}) × W)
  echo_to rounds (ok c, w) = echo_unless_expired rounds c w (os.expires step_timeout w)
  echo_to rounds (err e, w) = some (err e, w)

  -- `none` is an echo session that is not over after so many rounds.
  unfoldable pub run_listen : ℕ → T → ListenParams → W → Option (Result Text (Unit {0}) × W)
  unfolding first_peer
  run_listen rounds t params w = echo_to rounds (first_peer t params w)

  abbrev pub shown : {E A : Type 0} → (E → Text) → Action W E A → Action W Text A
  shown show m w = let (r, w') = m w in (map_err show r, w')

  abbrev pub net_read : Text → Action W Text Bytes
  net_read path = shown (reading_failed path) (os.read_file path)

  abbrev pub net_configured : T → Bytes → Action W Text (Unit {0})
  net_configured t net_file = shown show_connect_error (os.configure_private_net net_file t)

  -- The private network is installed in front of every other call.
  unfoldable pub install : Option Text → T → Action W Text (Unit {0})
  install none t = pure tt
  install (some path) t = do net_file ← net_read path; net_configured t net_file

  unfoldable pub drive : ℕ → Cmd → T → W → Option (Result Text (Unit {0}) × W)
  drive rounds (Cmd.listen virt_port) t w =
      run_listen rounds t (with_nickname (codes "fungie2e") (listen_params virt_port)) w
  drive rounds (Cmd.dial target) t w = some (run_dial (backend.connector t) target w)

  abbrev pub drive_after :
      ℕ → Cmd → T → Result Text (Unit {0}) × W → Option (Result Text (Unit {0}) × W)
  drive_after rounds cmd t (ok _, w) = drive rounds cmd t w
  drive_after rounds cmd t (err e, w) = some (err e, w)

  unfoldable pub run : ℕ → Cli → W → Option (Result Text (Unit {0}) × W)
  unfolding install drive plugin_command
  run rounds cli w =
      let t = os.connect_plugin (plugin_command os.join cli) in
      drive_after rounds cli.cmd t (install cli.private_net t w)
