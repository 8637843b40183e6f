-- ===== src/Addr.antt =====
-- crates/fungi-transport/src/addr.rs: the `.onion` address of a peer and its text form.
pub mod RoundTrip
pub mod Tests
use fungi_transport_ci_test.Prelude.{
  ℕ, ◌≡◌, refl, ◌++◌, [], ◌∷◌, Bool, true, false, Option, none, some, Result, ok, err, ◌>>=◌, ◌>>◌,
  ok_or,
}
use fungi_transport_ci_test.Text.{Text, show_nat, parse_u16, rsplit_once}

pub record OnionAddr : Type 0 where
  pub host : Text
  pub port : ℕ

pub data ParseOnionAddrError : Type 0 where
  parse_onion_addr_error : ParseOnionAddrError

-- `OnionAddr::new`. A port is a `u16`: theorems that need its range say so.
abbrev pub onion_addr : Text → ℕ → OnionAddr
onion_addr host port = record { host = host; port = port }

-- `Display`.
unfoldable pub show_addr : OnionAddr → Text
show_addr a = a.host ++ b':' ∷ show_nat a.port

abbrev reject_empty : Text → Result ParseOnionAddrError (Unit {0})
reject_empty [] = err parse_onion_addr_error
reject_empty (c ∷ s) = ok tt

-- `FromStr`.
unfoldable pub parse_addr : Text → Result ParseOnionAddrError OnionAddr
parse_addr s = do
  (host, port) ← ok_or (rsplit_once b':' s) parse_onion_addr_error
  reject_empty host
  p ← ok_or (parse_u16 port) parse_onion_addr_error
  ok (onion_addr host p)
