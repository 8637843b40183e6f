-- ===== src/Cli.antt =====
-- crates/fungi-transport-capnp/src/bin/harness/run.rs: the arguments of the harness. How a failed
-- `u16::from_str` prints itself is the parameter `int_error`.
pub mod Dial
pub mod Run
pub mod Tests
use fungi_transport_ci_test.Prelude.{
  ℕ, List, [], ◌∷◌, ◌++◌, Option, none, some, Bool, true, false, not, ◌&&◌, Result, ok, err, ◌>>=◌,
  ok_or, if◌then◌else◌,
}
use fungi_transport_ci_test.Text.{Text, codes, text_eq, starts_with, rsplit_once, parse_u16}
use fungi_transport_ci_test.Addr.{OnionAddr, onion_addr}

pub data Cmd : Type 0 where
  listen : ℕ → Cmd
  dial : OnionAddr → Cmd

pub record Cli : Type 0 where
  pub cmd : Cmd
  pub private_net : Option Text
  pub state_dir : Option Text
  pub plugin : Text

-- The local variables of the loop.
pub record Found : Type 0 where
  pub private_net : Option Text
  pub virt_port : Option ℕ
  pub target : Option OnionAddr
  pub plugin : Option Text
  pub state_dir : Option Text

abbrev pub nothing_found : Found
nothing_found = record {
  private_net = none;
  virt_port = none;
  target = none;
  plugin = none;
  state_dir = none;
}

-- The arm that an argument takes.
pub data Arm : Type 0 where
  private_net_arm virt_port_arm state_dir_arm plugin_arm other_arm : Arm

unfoldable pub arm_of : Text → Arm
arm_of a =
    if text_eq a (codes "--private-net")
    then private_net_arm
    else if text_eq a (codes "--virt-port")
    then virt_port_arm
    else if text_eq a (codes "--state-dir")
    then state_dir_arm
    else if text_eq a (codes "--plugin")
    then plugin_arm
    else other_arm

abbrev pub is_none {ℓ} : {A : Type ℓ} → Option A → Bool
is_none none = true
is_none (some a) = false

module _ (int_error : Text → Text) where
  abbrev pub parse_port : Text → Result Text ℕ
  parse_port t = ok_or (parse_u16 t) (int_error t)

  unfoldable pub read_target : Text → Result Text OnionAddr
  read_target a = do
    (host, port) ← ok_or (rsplit_once b':' a) (codes "target must be host:port")
    p ← parse_port port
    ok (onion_addr host p)

  -- The last two arms: a target, or an argument that is not known.
  unfoldable pub other_arg : Text → Found → Result Text Found
  other_arg a f =
      if not (starts_with (codes "--") a) && is_none f.target
      then (read_target a >>= λ t. ok (record f { target = some t }))
      else err (codes "unknown argument " ++ a)

  -- An option at the end of the arguments.
  abbrev pub no_value : Text → Arm → Found → Result Text Found
  no_value a private_net_arm f = err (codes "--private-net needs a file")
  no_value a virt_port_arm f = err (codes "--virt-port needs a number")
  no_value a state_dir_arm f = err (codes "--state-dir needs a path")
  no_value a plugin_arm f = err (codes "--plugin needs a path")
  no_value a other_arm f = other_arg a f

  -- An argument with more behind it: `behind` goes on after its value, `again` at the next argument.
  abbrev pub with_value :
      (behind again : Found → Result Text Found) → Text → Text → Found → Arm → Result Text Found
  with_value behind again a v f private_net_arm = behind (record f { private_net = some v })
  with_value behind again a v f virt_port_arm =
      parse_port v >>= λ p. behind (record f { virt_port = some p })
  with_value behind again a v f state_dir_arm = behind (record f { state_dir = some v })
  with_value behind again a v f plugin_arm = behind (record f { plugin = some v })
  with_value behind again a v f other_arm = other_arg a f >>= again

  -- The loop over the arguments.
  unfoldable pub read_args : List Text → Found → Result Text Found
  read_args [] f = ok f
  read_args (a ∷ []) f = no_value a (arm_of a) f
  read_args (a ∷ v ∷ rest) f = with_value (read_args rest) (read_args (v ∷ rest)) a v f (arm_of a)

  unfoldable pub command : Text → Found → Result Text Cmd
  command word f =
      if text_eq word (codes "listen")
      then (ok_or f.virt_port (codes "listen needs --virt-port") >>= λ p. ok (Cmd.listen p))
      else if text_eq word (codes "dial")
      then (ok_or f.target (codes "dial needs a host:port target") >>= λ t. ok (Cmd.dial t))
      else err (codes "unknown subcommand " ++ word)

  abbrev pub cli_of : Text → Found → Result Text Cli
  cli_of word f = do
    plugin ← ok_or f.plugin (codes "--plugin is required")
    cmd ← command word f
    ok (record { cmd = cmd; private_net = f.private_net; state_dir = f.state_dir; plugin = plugin })

  -- `parse_args`; the first argument is the program's name.
  unfoldable pub parse_args : List Text → Result Text Cli
  parse_args [] = err (codes "usage: fungi-harness listen|dial ...")
  parse_args (program ∷ []) = err (codes "usage: fungi-harness listen|dial ...")
  parse_args (program ∷ word ∷ args) = read_args args nothing_found >>= cli_of word
