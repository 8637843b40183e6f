-- ===== src/Arti/Descriptor.antt =====
-- The descriptors that a lazy transport boots from (crates/fungi-transport-arti/src/lazy.rs): each was
-- parsed when it was configured.
use fungi_transport_ci_test.Prelude.{
  ℕ, ◌≡◌, refl, ap, ◌∙◌, subst, List, [], ◌∷◌, Option, none, some, Result, ok, err, map_err,
}
use fungi_transport_ci_test.Text.{Bytes, Text, from_utf8}
use fungi_transport_ci_test.Errors.{ConnectError}
use fungi_transport_ci_test.Arti.PrivateNet.{PrivateNet, NetBuilder, parse, build_config}
use fungi_transport_ci_test.Arti.{Arti, ArtiTransport, opaque}
use fungi_transport_ci_test.Arti.Lazy.{
  new, checked, decoded, unless_booted, configure_private_net, with_config, private_config, init,
  settle,
}
use fungi_transport_ci_test.Arti.Boot.{
  Event, enter, leave, configure, Shared, entered, left, event, events,
}

module _ {W Cfg K Nick SvcCfg Svc Rend Req D Rsa Ed Addr B : Type 0}
    (arti : Arti W Cfg K Nick SvcCfg Svc Rend Req D) (builder : NetBuilder Rsa Ed Addr B Cfg)
    (show_utf8_error : Bytes → Text) where
  -- A descriptor that was stored is one that the parser reads.
  abbrev pub Parses : Option Text → Type 0
  Parses none = Unit
  Parses (some text) = (net : PrivateNet) × (parse text ≡ ok net)

  abbrev pub RunningParses : Option (Option Text) → Type 0
  RunningParses none = Unit
  RunningParses (some text) = Parses text

  pub record IsSound (state_dir cache_dir : Text) (s : Shared K W) : Type 0 where
    pub pending : Parses s.inner.pending
    pub running : RunningParses s.running
    pub states : s.inner.state_dir ≡ state_dir
    pub caches : s.inner.cache_dir ≡ cache_dir

  entered-IsSound :
      (sd cd : Text) (o : Option (ArtiTransport K)) (running : Option (Option Text))
      (s : Shared K W)
      → IsSound sd cd s
      → IsSound sd cd (entered arti builder show_utf8_error o running s).1
  entered-IsSound sd cd (some t) running s h = h
  entered-IsSound sd cd none (some text) s h = h
  entered-IsSound sd cd none none s h = record {
    pending = h.pending;
    running = h.pending;
    states = h.states;
    caches = h.caches;
  }

  left-IsSound :
      (sd cd : Text) (running : Option (Option Text)) (s : Shared K W)
      → IsSound sd cd s
      → IsSound sd cd (left arti builder show_utf8_error running s).1
  unfolding settle
  left-IsSound sd cd none s h = h
  left-IsSound sd cd (some text) s h = by_result (init arti builder text s.inner s.world)
    where
      by_result :
          (r : Result ConnectError (ArtiTransport K) × W)
          → IsSound sd cd
              (record { inner = (settle arti builder s.inner r.0).1; world = r.1; running = none })
      by_result (ok t, w) = record {
        pending = h.pending;
        running = tt;
        states = h.states;
        caches = h.caches;
      }
      by_result (err e, w) = record {
        pending = h.pending;
        running = tt;
        states = h.states;
        caches = h.caches;
      }

  checked-IsSound :
      (sd cd text : Text) (s : Shared K W) (r : Result Text PrivateNet)
      → IsSound sd cd s
      → parse text ≡ r
      → IsSound sd cd (record s { inner = (checked show_utf8_error text s.inner r).1 })
  unfolding checked
  checked-IsSound sd cd text s (ok net) h e = record {
    pending = (net, e);
    running = h.running;
    states = h.states;
    caches = h.caches;
  }
  checked-IsSound sd cd text s (err x) h e = h

  decoded-IsSound :
      (sd cd : Text) (net_file : Bytes) (s : Shared K W) (o : Option Text)
      → IsSound sd cd s
      → IsSound sd cd (record s { inner = (decoded show_utf8_error net_file s.inner o).1 })
  unfolding decoded
  decoded-IsSound sd cd net_file s (some text) h = checked-IsSound sd cd text s (parse text) h refl
  decoded-IsSound sd cd net_file s none h = h

  unless_booted-IsSound :
      (sd cd : Text) (net_file : Bytes) (s : Shared K W) (o : Option (ArtiTransport K))
      → IsSound sd cd s
      → IsSound sd cd (record s { inner = (unless_booted show_utf8_error net_file s.inner o).1 })
  unfolding unless_booted
  unless_booted-IsSound sd cd net_file s (some t) h = h
  unless_booted-IsSound sd cd net_file s none h =
      decoded-IsSound sd cd net_file s (from_utf8 net_file) h

  events-IsSound :
      (sd cd : Text) (es : List Event) (s : Shared K W)
      → IsSound sd cd s
      → IsSound sd cd (events arti builder show_utf8_error es s).1
  unfolding events event configure_private_net
  events-IsSound sd cd [] s h = h
  events-IsSound sd cd (enter ∷ es) s h =
      events-IsSound sd cd es (event arti builder show_utf8_error enter s).1
        (entered-IsSound sd cd s.inner.booted s.running s h)
  events-IsSound sd cd (leave ∷ es) s h =
      events-IsSound sd cd es (event arti builder show_utf8_error leave s).1
        (left-IsSound sd cd s.running s h)
  events-IsSound sd cd (configure net_file ∷ es) s h =
      events-IsSound sd cd es (event arti builder show_utf8_error (configure net_file) s).1
        (unless_booted-IsSound sd cd net_file s s.inner.booted h)

  abbrev pub fresh : Text → Text → ℕ → W → Shared K W
  fresh sd cd max w = record { inner = new sd cd max; world = w; running = none }

  private_init :
      (sd cd text : Text) (s : Shared K W)
      → s.inner.state_dir ≡ sd
      → s.inner.cache_dir ≡ cd
      → Parses (some text)
      → (net : PrivateNet) × (parse text ≡ ok net)
        × (init arti builder (some text) s.inner
            ≡ with_config arti builder s.inner.max_msg_len
                (map_err opaque (build_config builder net sd cd)))
  unfolding init
  private_init sd cd text s states caches (net, e) = (
    net,
    e,
    ap (λ r. with_config arti builder s.inner.max_msg_len (private_config arti builder s.inner r)) e
        ∙ ap
            (λ d.
              with_config arti builder s.inner.max_msg_len
                (map_err opaque (build_config builder net d s.inner.cache_dir)))
            states
        ∙ ap
            (λ d.
              with_config arti builder s.inner.max_msg_len
                (map_err opaque (build_config builder net sd d)))
            caches,
  )

  -- From a new transport on, after any calls in any order: when the initialiser runs on a descriptor, it
  -- is one that the parser reads, and what the initialiser does is to bootstrap with the configuration
  -- built from the network that it describes, in the directories of the transport. So a boot can fail in
  -- building that configuration or in bootstrapping, and not in parsing.
  pub init-Parses :
      (sd cd : Text) (max : ℕ) (w : W) (es : List Event) (text : Text)
      → let s = (events arti builder show_utf8_error es (fresh sd cd max w)).1 in
        s.running ≡ some (some text)
        → (net : PrivateNet) × (parse text ≡ ok net)
          × (init arti builder (some text) s.inner
              ≡ with_config arti builder s.inner.max_msg_len
                  (map_err opaque (build_config builder net sd cd)))
  unfolding new
  init-Parses sd cd max w es text h =
      let s = (events arti builder show_utf8_error es (fresh sd cd max w)).1 in
      let sound =
        events-IsSound sd cd es (fresh sd cd max w)
          (record { pending = tt; running = tt; states = refl; caches = refl }) in
      private_init sd cd text s sound.states sound.caches (subst RunningParses h sound.running)
