-- ===== src/Socks5/Request.antt =====
-- The bytes that the client of socks5.rs sends, as a proxy reads them by RFC 1928.
use mathlib.Core.Path.{ap₂}
use fungi_transport_ci_test.Prelude.{
  ℕ, ◌+◌, ◌*◌, ◌%◌, ◌≤◌, ◌<◌, ◌≡◌, ap, ◌∙◌, [], ◌∷◌, length, take, drop, Option, none, some, arith,
  if◌then◌else◌, drop_prefix, take_prefix,
}
use fungi_transport_ci_test.Text.{Bytes}
use fungi_transport_ci_test.Socks5.{bytes_eq, request}

-- The port behind the name, and nothing behind the port.
abbrev pub port_of : Bytes → Option ℕ
port_of (hi ∷ lo ∷ []) = some (hi * 256 + lo)
port_of [] = none
port_of (hi ∷ []) = none
port_of (hi ∷ lo ∷ x ∷ rest) = none

abbrev pub with_host : Bytes → Option ℕ → Option (Bytes × ℕ)
with_host host (some port) = some (host, port)
with_host host none = none

-- A CONNECT request for a domain name: its fixed bytes, and then the name behind its length.
abbrev pub read_request : Bytes → Option (Bytes × ℕ)
read_request (version ∷ command ∷ reserved ∷ kind ∷ len ∷ body) =
    if bytes_eq (version ∷ command ∷ reserved ∷ kind ∷ []) (0x05 ∷ 0x01 ∷ 0x00 ∷ 0x03 ∷ [])
    then with_host (take len body) (port_of (drop len body))
    else none
read_request [] = none
read_request (a ∷ []) = none
read_request (a ∷ b ∷ []) = none
read_request (a ∷ b ∷ c ∷ []) = none
read_request (a ∷ b ∷ c ∷ d ∷ []) = none

-- A proxy reads from the request exactly the name and the port that the caller gave, for a name of at
-- most 255 bytes and a port below 65536.
pub read_request-request :
    (host : Bytes) (port : ℕ)
    → length host ≤ 255
    → port < 65536
    → read_request (request host port) ≡ some (host, port)
unfolding request
read_request-request host port short small =
    let len : length host % 256 ≡ length host = omega arith in
    ap₂ (λ a b. with_host a (port_of b)) (take_prefix _ host _ len) (drop_prefix _ host _ len)
    ∙ ap (λ p. some (host, p)) (omega arith)
