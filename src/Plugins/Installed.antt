-- ===== src/Plugins/Installed.antt =====
-- A private network that a client installs in the plugin over arti, from the client's command to the boot.
use mathlib.Core.Path.{ap₂}
use fungi_transport_ci_test.Action.{then as onwards, pure}
use fungi_transport_ci_test.Errors.{ConnectError, box_text}
use fungi_transport_ci_test.Prelude.{
  Result, err, ◌⊎◌, inl, inr, subst, sym, none, ◌≡◌, refl, ap, ◌∙◌, [], ◌∷◌, some, Bool, false, ok,
  map_err,
}
use fungi_transport_ci_test.Text.{Bytes, Text, codes, from_utf8}
use fungi_transport_ci_test.Framed.{default_max_msg_len}
use fungi_transport_ci_test.Arti.PrivateNet.{PrivateNet, NetBuilder, parse, build_config}
use fungi_transport_ci_test.Arti.{
  Arti, ArtiError, ArtiTransport, opaque, connect_error, from_client, bootstrap_with,
}
use fungi_transport_ci_test.Arti.Lazy.{
  LazyInner, new, configure_private_net, unless_booted, decoded, checked, with_config,
  private_config, init, settle, get_from, get,
}
use fungi_transport_ci_test.Capnp.Errors.{CapnpError}
use fungi_transport_ci_test.Capnp.Map.{insert}
use fungi_transport_ci_test.Capnp.Registry.{Caller, new_registry}
use fungi_transport_ci_test.Capnp.Actor.{Command, Reply, boot_plugin}
use fungi_transport_ci_test.Capnp.Plugin.{Backend, Object}
use fungi_transport_ci_test.Capnp.Plugin.Requests.{replied}
use fungi_transport_ci_test.Capnp.Plugin.Configure.{crossed_text, request-configure}
use fungi_transport_ci_test.Capnp.Plugin.Session.{plugin_rig, requests}
use fungi_transport_ci_test.Plugins.{
  env_dir, path_or, Process, arti_state_dir, arti_cache_dir, arti_transport, arti_fixtures,
}

-- The transport of a new process, with a descriptor pending.
abbrev pub pending_in : {K : Type 0} → Process → Text → LazyInner K
pending_in p text = record (arti_transport p) { pending = some text }

configure-pending :
    {K : Type 0} (show_utf8_error : Bytes → Text) (p : Process) (net_file : Bytes) (text : Text)
    (net : PrivateNet)
    → from_utf8 net_file ≡ some text
    → parse text ≡ ok net
    → configure_private_net {K = K} show_utf8_error net_file (arti_transport p)
      ≡ (ok tt, pending_in p text)
unfolding configure_private_net unless_booted decoded checked arti_transport new
configure-pending show_utf8_error p net_file text net utf8 parses =
    ap (decoded show_utf8_error net_file (arti_transport p)) utf8
    ∙ ap (checked show_utf8_error text (arti_transport p)) parses

-- The directory of a process: what its environment names, or the stock one.
abbrev pub IsDir : Process → Text → Text → Text → Type 0
IsDir p var leaf dir =
    (p.var var ≡ some dir) ⊎ ((p.var var ≡ none) × (dir ≡ p.join p.temp_dir leaf))

env_dir-IsDir :
    (p : Process) (var leaf dir : Text) → IsDir p var leaf dir → env_dir p var leaf ≡ dir
unfolding env_dir
env_dir-IsDir p var leaf dir (inl named) = ap (λ o. path_or o (p.join p.temp_dir leaf)) named
env_dir-IsDir p var leaf dir (inr (unset, stock)) =
    ap (λ o. path_or o (p.join p.temp_dir leaf)) unset ∙ sym stock

state_dir_lem :
    (p : Process) (sd : Text)
    → IsDir p (codes "FUNGI_STATE_DIR") (codes "fungi-arti-state") sd
    → arti_state_dir p ≡ sd
unfolding arti_state_dir
state_dir_lem p sd = env_dir-IsDir p (codes "FUNGI_STATE_DIR") (codes "fungi-arti-state") sd

cache_dir_lem :
    (p : Process) (cd : Text)
    → IsDir p (codes "FUNGI_CACHE_DIR") (codes "fungi-arti-cache") cd
    → arti_cache_dir p ≡ cd
unfolding arti_cache_dir
cache_dir_lem p cd = env_dir-IsDir p (codes "FUNGI_CACHE_DIR") (codes "fungi-arti-cache") cd

fresh_booted : (K : Type 0) (p : Process) → (arti_transport {K = K} p).booted ≡ none
unfolding arti_transport new
fresh_booted K p = refl

fresh_limit :
    (K : Type 0) (p : Process) → (arti_transport {K = K} p).max_msg_len ≡ default_max_msg_len
unfolding arti_transport new
fresh_limit K p = refl

module _ {W Cfg K Nick SvcCfg Svc Rend Req D Rsa Ed A B : Type 0}
    (arti : Arti W Cfg K Nick SvcCfg Svc Rend Req D) (builder : NetBuilder Rsa Ed A B Cfg) where
  abbrev pub Use : Type 0
  Use = (Result ConnectError (ArtiTransport K) × LazyInner K) × W

  -- The end of a use of `l` for which arti's client was started: the client is kept, or it is an error,
  -- and a later use starts again.
  abbrev pub Started : LazyInner K → Result ArtiError K × W → Use → Type 0
  Started l (ok k, w') r =
      let t : ArtiTransport K = record { client = k; max_msg_len = l.max_msg_len } in
      r ≡ ((ok t, record l { booted = some t }), w')
  Started l (err e, w') r = (e' : ConnectError) × (r ≡ ((err e', l), w'))

  -- The end of a use of `l` whose configuration was built so.
  abbrev pub Boots : LazyInner K → Result Text Cfg → W → Use → Type 0
  Boots l (ok cfg) w r = Started l (arti.create_bootstrapped cfg w) r
  Boots l (err e) w r = r ≡ ((err (ConnectError.transport (box_text e)), l), w)

  abbrev settled : LazyInner K → Result ConnectError (ArtiTransport K) × W → Use
  settled l r = (settle arti builder l r.0, r.1)

  settled-Started :
      (l : LazyInner K) (x : Result ArtiError K × W)
      → Started l x (
          settled l
            (onwards (λ k. pure (from_client k l.max_msg_len)) (map_err connect_error x.0, x.1)))
  unfolding settle from_client
  settled-Started l (ok k, w') = refl
  settled-Started l (err e, w') = (connect_error e, refl)

  settled-Boots :
      (l : LazyInner K) (cfg : Result Text Cfg) (w : W)
      → Boots l cfg w (settled l (with_config arti builder l.max_msg_len (map_err opaque cfg) w))
  unfolding settle bootstrap_with
  settled-Boots l (ok cfg) w = settled-Started l (arti.create_bootstrapped cfg w)
  settled-Boots l (err e) w = refl

  get-Boots :
      (p : Process) (net : PrivateNet) (text sd cd : Text) (w : W)
      → parse text ≡ ok net
      → arti_state_dir p ≡ sd
      → arti_cache_dir p ≡ cd
      → let l = pending_in p text in
        Boots l (build_config builder net sd cd) w (get arti builder l w)
  unfolding get get_from init arti_transport new
  get-Boots p net text sd cd w parses states caches =
      let l = pending_in p text in
      subst
        (λ r.
          Boots l (build_config builder net sd cd) w
            (settled l (with_config arti builder default_max_msg_len r w)))
        (ap₂ (λ s c. map_err opaque (build_config builder net s c)) (sym states) (sym caches)
          ∙ sym (ap (private_config arti builder l) parses))
        (settled-Boots l (build_config builder net sd cd) w)

module _ {W Cfg K Nick SvcCfg Svc Rend Req D Rsa Ed A B T Co L C Addr : Type 0}
    (arti : Arti W Cfg K Nick SvcCfg Svc Rend Req D) (builder : NetBuilder Rsa Ed A B Cfg)
    (show_utf8_error : Bytes → Text) (backend : Backend (W × LazyInner K) T Co L C Addr)
    (to_string : CapnpError → Text) (gone : Caller → Bool) where
  -- In a new process of the plugin over arti: if the caller does not give up, and the file is UTF-8 text
  -- that the parser reads, then the client's command to configure it is answered by success, nothing is
  -- started yet, and the first use of the transport builds the configuration for the network of the file,
  -- in the directories that the environment names, or else the stock ones. It starts arti's client with
  -- it, and keeps that client; if one of the two fails, the use ends in an error, and no client is kept.
  pub configure-Boots :
      (p : Process) (t : T) (net_file : Bytes) (text sd cd : Text) (net : PrivateNet) (w : W)
      (to : Caller)
      → IsDir p (codes "FUNGI_STATE_DIR") (codes "fungi-arti-state") sd
      → IsDir p (codes "FUNGI_CACHE_DIR") (codes "fungi-arti-cache") cd
      → gone to ≡ false
      → from_utf8 net_file ≡ some text
      → parse text ≡ ok net
      → let s =
          requests backend
            (arti_fixtures show_utf8_error)
            to_string
            gone
            (Command.configure_private_net net_file to ∷ [])
            (plugin_rig backend
              (arti_fixtures show_utf8_error)
              to_string
              gone
              t
              tt
              (w, arti_transport p)) in
        let (w', l) = s.world in
        (s.actor.replies ≡ (to, Reply.configured (ok tt)) ∷ [])
        × (w' ≡ w)
        × (l.booted ≡ none)
        × (l.max_msg_len ≡ default_max_msg_len)
        × Boots arti builder l (build_config builder net sd cd) w (get arti builder l w)
  unfolding requests plugin_rig boot_plugin new_registry insert arti_fixtures
  configure-Boots p t net_file text sd cd net w to states caches here utf8 parses =
      let setup = arti_fixtures show_utf8_error in
      let boot = boot_plugin (Object.plugin t tt) (Object.transport t) in
      let all =
        request-configure backend setup to_string gone net_file to boot (w, arti_transport p) t tt
          here refl
        ∙ ap
            (λ r. record {
              actor =
                  replied backend setup to_string gone to
                    (Reply.configured (crossed_text backend setup to_string gone r.0)) boot;
              world = (w, r.1);
            })
            (configure-pending show_utf8_error p net_file text net utf8 parses) in
      let inner = ap (λ s. s.world.1) all in
      (
        ap (λ s. s.actor.replies) all,
        ap (λ s. s.world.0) all,
        ap (λ l. l.booted) inner ∙ fresh_booted K p,
        ap (λ l. l.max_msg_len) inner ∙ fresh_limit K p,
        subst (λ l. Boots arti builder l (build_config builder net sd cd) w (get arti builder l w))
            (sym inner)
            (get-Boots arti builder p net text sd cd w parses (state_dir_lem p sd states)
              (cache_dir_lem p cd caches)),
      )
