-- ===== src/Addr/Tests.antt =====
-- Tests of crates/fungi-transport/src/addr.rs, and the theorems at concrete addresses.
use fungi_transport_ci_test.Prelude.{◌≡◌, ◌≢◌, refl, ◌++◌, [], ◌∷◌, ok, err, arith, ◌≤◌, All, ◌⊎◌}
use fungi_transport_ci_test.Text.{Text, codes, rsplit_once, parse_u16, value, IsDigit, max_u16}
use fungi_transport_ci_test.Addr.{
  OnionAddr, onion_addr, show_addr, parse_addr, parse_onion_addr_error,
}
use fungi_transport_ci_test.Addr.RoundTrip.{parse_addr-show_addr, parse_addr_sound}

abbrev service : OnionAddr
service = onion_addr (codes "abcdefghij234567.onion") 9735

no_colon : parse_addr (codes "noport") ≡ err parse_onion_addr_error
unfolding parse_addr rsplit_once parse_u16
no_colon = refl

no_host : parse_addr (codes ":9735") ≡ err parse_onion_addr_error
unfolding parse_addr rsplit_once parse_u16
no_host = refl

not_a_port : parse_addr (codes "host:notaport") ≡ err parse_onion_addr_error
unfolding parse_addr rsplit_once parse_u16
not_a_port = refl

port_out_of_range : parse_addr (codes "host:70000") ≡ err parse_onion_addr_error
unfolding parse_addr rsplit_once parse_u16
port_out_of_range = refl

parses : parse_addr (codes "a:b:80") ≡ ok (onion_addr (codes "a:b") 80)
unfolding parse_addr rsplit_once parse_u16
parses = refl

parse_addr-show_addr_example : parse_addr (show_addr service) ≡ ok service
parse_addr-show_addr_example = parse_addr-show_addr service (cc) (omega arith)

abbrev accepted : OnionAddr
accepted = onion_addr (codes "a:b") 80

parse_addr_sound_example :
    (t : Text) × ((codes "a:b:80" ≡ accepted.host ++ b':' ∷ t)
      ⊎ (codes "a:b:80" ≡ accepted.host ++ b':' ∷ b'+' ∷ t))
    × (accepted.host ≢ [])
    × (t ≢ [])
    × All IsDigit t
    × (accepted.port ≡ value 0 t)
    × (accepted.port ≤ max_u16)
parse_addr_sound_example = parse_addr_sound (codes "a:b:80") accepted parses
