-- ===== src/Cli/Tests.antt =====
-- Tests of crates/fungi-transport-capnp/src/bin/harness/run.rs, and the theorem at an address.
use fungi_transport_ci_test.Prelude.{◌≡◌, refl, [], ◌∷◌, none, false, ok, err, arith}
use fungi_transport_ci_test.Text.{
  Text, codes, text_eq, starts_with, strip_prefix, rsplit_once, parse_u16,
}
use fungi_transport_ci_test.Addr.{OnionAddr, onion_addr, show_addr}
use fungi_transport_ci_test.Cli.{
  listen, dial, parse_args, read_args, command, arm_of, other_arg, read_target,
}
use fungi_transport_ci_test.Cli.Dial.{parse_args-show_addr}

abbrev int_error : Text → Text
int_error t = codes "invalid digit found in string"

abbrev peer : OnionAddr
peer = onion_addr (codes "ab.onion") 80

listens :
    parse_args int_error (
      codes "h"
      ∷ codes "listen"
      ∷ codes "--virt-port"
      ∷ codes "80"
      ∷ codes "--plugin"
      ∷ codes "p"
      ∷ [])
    ≡ ok (record { cmd = listen 80; private_net = none; state_dir = none; plugin = codes "p" })
unfolding parse_args read_args command arm_of text_eq parse_u16
listens = refl

no_plugin :
    parse_args int_error (codes "h" ∷ codes "listen" ∷ codes "--virt-port" ∷ codes "80" ∷ [])
    ≡ err (codes "--plugin is required")
unfolding parse_args read_args command arm_of text_eq parse_u16
no_plugin = refl

two_targets :
    parse_args int_error (codes "h" ∷ codes "dial" ∷ codes "a:1" ∷ codes "b:2" ∷ [])
    ≡ err (codes "unknown argument b:2")
unfolding parse_args read_args command arm_of text_eq parse_u16 other_arg read_target rsplit_once
    starts_with strip_prefix
two_targets = refl

not_an_option : starts_with (codes "--") (show_addr peer) ≡ false
unfolding starts_with strip_prefix show_addr
not_an_option = refl

parse_args-show_addr_example :
    (parse_args int_error
        (codes "h" ∷ codes "dial" ∷ show_addr peer ∷ codes "--plugin" ∷ codes "p" ∷ [])
      ≡ ok (record { cmd = dial peer; private_net = none; state_dir = none; plugin = codes "p" }))
    × (parse_args int_error
          (codes "h" ∷ codes "dial" ∷ codes "--plugin" ∷ codes "p" ∷ show_addr peer ∷ [])
        ≡ ok (record { cmd = dial peer; private_net = none; state_dir = none; plugin = codes "p" }))
parse_args-show_addr_example =
    parse_args-show_addr int_error peer (codes "h") (codes "p") (omega arith) not_an_option
