-- ===== src/Plugins/Tests.antt =====
-- Plugin processes at concrete environments.
use fungi_transport_ci_test.Prelude.{
  inl, inr, ◌≡◌, refl, List, [], ◌∷◌, none, some, Option, Bool, false, if◌then◌else◌, ok, err, ◌++◌,
  ℕ,
}
use fungi_transport_ci_test.Text.{Text, codes, as_bytes, from_utf8, text_eq}
use fungi_transport_ci_test.Errors.{RecvError, ConnectError}
use fungi_transport_ci_test.Framed.{default_max_msg_len}
use fungi_transport_ci_test.Arti.PrivateNet.{build_config}
use fungi_transport_ci_test.Arti.Lazy.{LazyInner, get}
use fungi_transport_ci_test.Arti.Samples.{
  client, any_net, no_message, small_net, small_text, reads_small,
}
use fungi_transport_ci_test.Capnp.Errors.{CapnpError}
use fungi_transport_ci_test.Capnp.Registry.{Caller}
use fungi_transport_ci_test.Capnp.Actor.{Command, Reply}
use fungi_transport_ci_test.Capnp.Plugin.{Backend}
use fungi_transport_ci_test.Capnp.Plugin.Session.{plugin_rig, requests}
use fungi_transport_ci_test.Plugins.{
  Process, daemon_addrs, env_addr, arti_transport, arti_fixtures, env_dir,
}
use fungi_transport_ci_test.Plugins.Installed.{Boots, configure-Boots}

abbrev state_only : Text → Option Text
state_only v = if text_eq v (codes "FUNGI_STATE_DIR") then some (codes "/state") else none

abbrev process : Process
process = record {
  var = state_only;
  temp_dir = codes "/tmp";
  join = λ dir leaf. dir ++ codes "/" ++ leaf;
}

stock_cache : env_dir process (codes "FUNGI_CACHE_DIR") (codes "c") ≡ codes "/tmp/c"
unfolding env_dir text_eq
stock_cache = refl

named_state : env_dir process (codes "FUNGI_STATE_DIR") (codes "s") ≡ codes "/state"
unfolding env_dir text_eq
named_state = refl

abbrev one_char : Text → Option ℕ
one_char (c ∷ []) = some c
one_char _ = none

panics : env_addr one_char process (codes "FUNGI_STATE_DIR") 7 ≡ none
unfolding env_addr text_eq
panics = refl

stock_daemon :
    daemon_addrs one_char 7 8 process ≡ some (record { socks_addr = 7; control_addr = 8 })
unfolding daemon_addrs text_eq
stock_daemon = refl

-- Nobody dials in, and every peer is away.
abbrev alone : Backend (List ℕ × LazyInner ℕ) ℕ ℕ ℕ ℕ Text
alone = record {
  connector = λ t. t;
  listen = λ params t w. (err ConnectError.unreachable, w);
  connect = λ addr co w. (err ConnectError.unreachable, w);
  accept = λ l w. (err ConnectError.unreachable, w);
  channel = λ c. record { send = λ msg w. (ok tt, w); recv = λ w. (err RecvError.closed, w) };
  from_str = λ t. some t;
  display = λ a. a;
}

abbrev text_of : CapnpError → Text
text_of e = e.extra

abbrev nobody : Caller → Bool
nobody to = false

abbrev first : Caller
first = record { handle = 0; call = 0 }

configure-Boots_example :
    let s =
      requests alone
        (arti_fixtures no_message)
        text_of
        nobody
        (Command.configure_private_net (as_bytes small_text) first ∷ [])
        (plugin_rig alone
          (arti_fixtures no_message)
          text_of
          nobody
          0
          tt
          ([], arti_transport process)) in
    let (w, l) = s.world in
    (s.actor.replies ≡ (first, Reply.configured (ok tt)) ∷ [])
    × (w ≡ [])
    × (l.booted ≡ none)
    × (l.max_msg_len ≡ default_max_msg_len)
    × Boots client any_net l
        (build_config any_net small_net (codes "/state") (codes "/tmp/fungi-arti-cache"))
        []
        (get client any_net l [])
unfolding from_utf8 as_bytes text_eq
configure-Boots_example =
    configure-Boots client any_net no_message alone text_of nobody process 0 (as_bytes small_text)
      small_text (codes "/state") (codes "/tmp/fungi-arti-cache") small_net [] first (inl refl)
      (inr (refl, refl)) refl refl reads_small
