-- ===== src/Arti/Samples.antt =====
-- A client of crates/fungi-transport-arti that always works, and a private network.
use fungi_transport_ci_test.Prelude.{
  ℕ, ◌+◌, ◌≡◌, refl, List, [], ◌∷◌, ◌++◌, none, some, ok, length, ◌==◌, if◌then◌else◌,
}
use fungi_transport_ci_test.Text.{
  Bytes, Text, codes, lines, trim, trim_end, split_whitespace, is_whitespace, text_eq,
}
use fungi_transport_ci_test.Arti.PrivateNet.{
  PrivateNet, NetBuilder, all_hex, parse, parse_line, directive,
}
use fungi_transport_ci_test.Arti.{begin, other, Arti}

-- Requests are their numbers and the world is the list of those shut down.
abbrev pub client : Arti (List ℕ) ℕ ℕ Text Text Text (List ℕ) ℕ ℕ
client = record {
  create_bootstrapped = λ cfg w. (ok cfg, w);
  connect = λ k host port w. (ok port, w);
  parse_nickname = λ t. ok t;
  build_service = λ t. ok t;
  launch_onion_service = λ k t w. (ok (some (t, 1 ∷ [])), w);
  onion_address = λ t. some (t ++ codes ".onion");
  handle_rend_requests = λ r. r;
  request = λ r. if r == 0 then other else begin r;
  accept = λ r w. (ok r, w);
  shutdown_circuit = λ r w. w ++ r ∷ [];
}

-- A builder that takes any identity of 40 characters and any address.
abbrev pub any_net : NetBuilder Text Text Text ℕ ℕ
any_net = record {
  rsa_from_hex = λ t. if length t == 40 then some t else none;
  ed_from_base64 = λ t. some t;
  parse_addr = λ t. ok t;
  from_directories = λ s c. 0;
  set_authorities = λ ids b. b + length ids;
  set_fallback_caches = λ fbs b. b + length fbs;
  pre_valid_tolerance = λ n b. b;
  post_valid_tolerance = λ n b. b;
  ipv4_subnet_family_prefix = λ n b. b;
  ipv6_subnet_family_prefix = λ n b. b;
  request_timeout = λ n b. b;
  hs_desc_fetch_attempts = λ n b. b;
  hs_intro_rend_attempts = λ n b. b;
  hs_dir_requery_interval = λ n b. b;
  build = λ b. ok b;
}

abbrev pub no_message : Bytes → Text
no_message bs = []

abbrev pub lf : Text → Text
lf t = t ++ 10 ∷ []

abbrev pub small_net : PrivateNet
small_net = record {
  authorities = record { name = codes "da1"; v3ident = codes "AB" } ∷ [];
  fallbacks = record { rsa = codes "R"; ed = codes "E"; orport = codes "1.2.3.4:1" } ∷ [];
}

abbrev pub small_text : Text
small_text =
    lf (codes "# net") ++ (lf (codes "  authority da1   AB ") ++ codes "fallback R E 1.2.3.4:1")

pub reads_small : parse small_text ≡ ok small_net
unfolding parse parse_line directive lines trim split_whitespace trim_end is_whitespace text_eq
    all_hex
reads_small = refl
