-- ===== src/Arti/PrivateNet.antt =====
-- crates/fungi-transport-arti/src/private_net.rs: the descriptor of a private network, its parser, and
-- its application to arti's configuration builder, which is the parameter `builder`.
pub mod Print
pub mod Sound
use fungi_transport_ci_test.Prelude.{
  ℕ, zero, suc, ◌+◌, List, [], ◌∷◌, ◌++◌, Bool, true, false, ◌&&◌, ◌||◌, leb, Option, none, some,
  Result, ok, err, ok_or, map_err, ◌>>=◌, ◌==◌, if◌then◌else◌,
}
use fungi_transport_ci_test.Text.{Text, codes, show_nat, text_eq, lines, trim, split_whitespace}

pub record Authority : Type 0 where
  pub name : Text
  pub v3ident : Text

pub record Fallback : Type 0 where
  pub rsa : Text
  pub ed : Text
  pub orport : Text

pub record PrivateNet : Type 0 where
  pub authorities : List Authority
  pub fallbacks : List Fallback

unfoldable pub is_ascii_hexdigit : ℕ → Bool
is_ascii_hexdigit c =
    (leb b'0' c && leb c b'9') || ((leb b'a' c && leb c b'f') || (leb b'A' c && leb c b'F'))

unfoldable pub all_hex : Text → Bool
unfolding is_ascii_hexdigit
all_hex [] = true
all_hex (c ∷ s) = is_ascii_hexdigit c && all_hex s

abbrev pub at_line : ℕ → Text → Text
at_line n what = codes "line " ++ (show_nat (n + 1) ++ (codes ": " ++ what))

unfoldable pub push_authority : Text → Text → PrivateNet → PrivateNet
push_authority name v3ident net = record net {
  authorities = net.authorities ++ record { name = name; v3ident = v3ident } ∷ [];
}

unfoldable pub push_fallback : Text → Text → Text → PrivateNet → PrivateNet
push_fallback rsa ed orport net = record net {
  fallbacks = net.fallbacks ++ record { rsa = rsa; ed = ed; orport = orport } ∷ [];
}

abbrev pub unrecognized : ℕ → Result Text PrivateNet
unrecognized n = err (at_line n (codes "unrecognized directive"))

-- The match on the fields of line `n`.
unfoldable pub directive : ℕ → List Text → PrivateNet → Result Text PrivateNet
unfolding push_authority push_fallback
directive n (word ∷ a ∷ b ∷ []) net =
    if text_eq word (codes "authority")
    then if all_hex b
      then ok (push_authority a b net)
      else err (at_line n (codes "v3ident is not hex"))
    else unrecognized n
directive n (word ∷ a ∷ b ∷ c ∷ []) net =
    if text_eq word (codes "fallback") then ok (push_fallback a b c net) else unrecognized n
directive n _ net = unrecognized n

-- A trimmed line: empty and comment lines say nothing.
unfoldable pub parse_line : ℕ → Text → PrivateNet → Result Text PrivateNet
unfolding directive
parse_line n [] net = ok net
parse_line n (c ∷ s) net = if c == b'#' then ok net else directive n (split_whitespace (c ∷ s)) net

-- The loop over the lines, from number `n`.
unfoldable pub parse_lines : ℕ → List Text → PrivateNet → Result Text PrivateNet
parse_lines n [] net = ok net
parse_lines n (line ∷ ls) net = parse_line n (trim line) net >>= parse_lines (n + 1) ls

-- The checks behind the loop.
unfoldable pub not_empty : List Authority → List Fallback → Result Text PrivateNet
not_empty [] fs = err (codes "no authorities in private-net file")
not_empty (a ∷ xs) [] = err (codes "no fallback caches in private-net file")
not_empty (a ∷ xs) (f ∷ fs) = ok (record { authorities = a ∷ xs; fallbacks = f ∷ fs })

abbrev pub no_net : PrivateNet
no_net = record { authorities = []; fallbacks = [] }

unfoldable pub parse : Text → Result Text PrivateNet
unfolding parse_lines not_empty
parse text = parse_lines 0 (lines text) no_net >>= λ net. not_empty net.authorities net.fallbacks

-- arti's readers of identities and addresses, and its configuration builder. An address that is not
-- one comes with the message of its error.
pub record NetBuilder (Rsa Ed Addr B Cfg : Type 0) : Type 0 where
  pub rsa_from_hex : Text → Option Rsa
  pub ed_from_base64 : Text → Option Ed
  pub parse_addr : Text → Result Text Addr
  pub from_directories : Text → Text → B
  pub set_authorities : List Rsa → B → B
  pub set_fallback_caches : List (Rsa × Ed × Addr) → B → B
  pub pre_valid_tolerance : ℕ → B → B
  pub post_valid_tolerance : ℕ → B → B
  pub ipv4_subnet_family_prefix : ℕ → B → B
  pub ipv6_subnet_family_prefix : ℕ → B → B
  pub request_timeout : ℕ → B → B
  pub hs_desc_fetch_attempts : ℕ → B → B
  pub hs_intro_rend_attempts : ℕ → B → B
  pub hs_dir_requery_interval : ℕ → B → B
  pub build : B → Result Text Cfg

module _ {Rsa Ed Addr B Cfg : Type 0} (builder : NetBuilder Rsa Ed Addr B Cfg) where
  unfoldable pub read_authority : Authority → Result Text Rsa
  read_authority a =
      ok_or (builder.rsa_from_hex a.v3ident)
        (codes "failed to parse v3ident " ++ (a.name ++ codes ": invalid hex or length"))

  unfoldable pub read_authorities : List Authority → Result Text (List Rsa)
  unfolding read_authority
  read_authorities [] = ok []
  read_authorities (a ∷ xs) = do id ← read_authority a; ids ← read_authorities xs; ok (id ∷ ids)

  unfoldable pub read_fallback : Fallback → Result Text (Rsa × Ed × Addr)
  read_fallback f = do
    rsa ← ok_or (builder.rsa_from_hex f.rsa) (codes "fallback rsa: invalid hex or length")
    ed ← ok_or (builder.ed_from_base64 f.ed) (codes "fallback ed: invalid base64 or length")
    addr ← map_err (λ e. codes "fallback orport: " ++ e) (builder.parse_addr f.orport)
    ok (rsa, ed, addr)

  unfoldable pub read_fallbacks : List Fallback → Result Text (List (Rsa × Ed × Addr))
  unfolding read_fallback
  read_fallbacks [] = ok []
  read_fallbacks (f ∷ fs) = do fb ← read_fallback f; fbs ← read_fallbacks fs; ok (fb ∷ fbs)

  -- Times are in seconds.
  unfoldable pub relaxed : B → B
  relaxed b = builder.hs_dir_requery_interval 5 (
      builder.hs_intro_rend_attempts 32 (
        builder.hs_desc_fetch_attempts 32 (
          builder.request_timeout 240 (
            builder.ipv6_subnet_family_prefix 128 (
              builder.ipv4_subnet_family_prefix 32
                (builder.post_valid_tolerance 300 (builder.pre_valid_tolerance 300 b)))))))

  unfoldable pub apply : PrivateNet → B → Result Text B
  unfolding read_authorities read_fallbacks relaxed
  apply net b = do
    authorities ← read_authorities net.authorities
    fbs ← read_fallbacks net.fallbacks
    ok (relaxed (builder.set_fallback_caches fbs (builder.set_authorities authorities b)))

  unfoldable pub build_config : PrivateNet → Text → Text → Result Text Cfg
  unfolding apply
  build_config net state_dir cache_dir =
      apply net (builder.from_directories state_dir cache_dir) >>= builder.build
