-- ===== src/Arti/Boot.antt =====
-- The life of a lazy transport (crates/fungi-transport-arti/src/lazy.rs) whose callers and whose harness
-- act in any order: it boots at most once, and from a descriptor that parses.
use fungi_transport_ci_test.Prelude.{
  ◌≡◌, refl, sym, ap, ◌∙◌, subst, List, [], ◌∷◌, map, Option, none, some, Result, ok, err,
}
use fungi_transport_ci_test.Text.{Bytes, Text, codes}
use fungi_transport_ci_test.Errors.{ConnectError}
use fungi_transport_ci_test.Arti.PrivateNet.{NetBuilder}
use fungi_transport_ci_test.Arti.{Arti, ArtiTransport}
use fungi_transport_ci_test.Arti.Lazy.{
  LazyInner, unless_booted, configure_private_net, init, settle, get_from, get,
}

-- A call of `get` begins, the initialiser ends, or a descriptor is configured.
pub data Event : Type 0 where
  enter leave : Event
  configure : Bytes → Event

pub data Answer (K : Type 0) : Type 0 where
  waits : Answer K
  got : Result ConnectError (ArtiTransport K) → Answer K
  configured : Result Text (Unit {0}) → Answer K

-- `running` is the descriptor that the initialiser has read, while it runs.
pub record Shared (K W : Type 0) : Type 0 where
  pub inner : LazyInner K
  pub world : W
  pub running : Option (Option Text)

module _ {W Cfg K Nick SvcCfg Svc Rend Req D Rsa Ed Addr B : Type 0}
    (arti : Arti W Cfg K Nick SvcCfg Svc Rend Req D) (builder : NetBuilder Rsa Ed Addr B Cfg)
    (show_utf8_error : Bytes → Text) where
  abbrev pub entered :
      Option (ArtiTransport K) → Option (Option Text) → Shared K W → Answer K × Shared K W
  entered (some t) running s = (got (ok t), s)
  entered none (some text) s = (waits, s)
  entered none none s = (waits, record s { running = some s.inner.pending })

  abbrev pub left : Option (Option Text) → Shared K W → Answer K × Shared K W
  left none s = (waits, s)
  left (some text) s =
      let (r, w) = init arti builder text s.inner s.world in
      let (r', l) = settle arti builder s.inner r in
      (got r', record { inner = l; world = w; running = none })

  unfoldable pub event : Event → Shared K W → Answer K × Shared K W
  event enter s = entered s.inner.booted s.running s
  event leave s = left s.running s
  event (configure net_file) s =
      let (r, l) = configure_private_net show_utf8_error net_file s.inner in
      (configured r, record s { inner = l })

  unfoldable pub events : List Event → Shared K W → List (Answer K) × Shared K W
  unfolding event
  events [] s = ([], s)
  events (e ∷ es) s =
      let (a, s1) = event e s in let (as_given, s2) = events es s1 in (a ∷ as_given, s2)

  -- With no other call in between, `get` is these two steps.
  pub get_steps :
      (l : LazyInner K) (w : W)
      → l.booted ≡ none
      → let (a, s) =
          event leave (event enter (record { inner = l; world = w; running = none })).1 in
        let ((r, l'), w') = get arti builder l w in
        (a ≡ got r) × (s ≡ record { inner = l'; world = w'; running = none })
  unfolding event get get_from
  get_steps l w h =
      subst
        (λ o.
          let (a, s) =
            left (entered o none (record { inner = l; world = w; running = none })).1.running
              (entered o none (record { inner = l; world = w; running = none })).1 in
          let ((r, l'), w') = get_from arti builder l w o in
          (a ≡ got r) × (s ≡ record { inner = l'; world = w'; running = none }))
        (sym h) (refl, refl)

  abbrev pub after_boot : ArtiTransport K → Event → Answer K
  after_boot t enter = got (ok t)
  after_boot t leave = waits
  after_boot t (configure net_file) =
      configured (err (codes "configure_private_net called after arti bootstrapped"))

  pub record IsBooted (t : ArtiTransport K) (s : Shared K W) : Type 0 where
    pub booted : s.inner.booted ≡ some t
    pub idle : s.running ≡ none

  event-IsBooted :
      (t : ArtiTransport K) (e : Event) (s : Shared K W)
      → IsBooted t s
      → event e s ≡ (after_boot t e, s)
  unfolding event configure_private_net
  event-IsBooted t enter s h = ap (λ o. entered o s.running s) h.booted
  event-IsBooted t leave s h = ap (λ o. left o s) h.idle
  event-IsBooted t (configure net_file) s h =
      ap
        (λ o.
          let (r, l) = unless_booted show_utf8_error net_file s.inner o in
          (configured r, record s { inner = l }))
        h.booted

  events-IsBooted :
      (t : ArtiTransport K) (es : List Event) (s : Shared K W)
      → IsBooted t s
      → events es s ≡ (map (after_boot t) es, s)
  unfolding events
  events-IsBooted t [] s h = refl
  events-IsBooted t (e ∷ es) s h =
      ap (λ r. let (as_given, s2) = events es r.1 in (r.0 ∷ as_given, s2)) (event-IsBooted t e s h)
      ∙ ap (λ r. (after_boot t e ∷ r.0, r.1)) (events-IsBooted t es s h)

  settle-IsBooted :
      (r : Result ConnectError (ArtiTransport K)) (l : LazyInner K) (w : W) (t : ArtiTransport K)
      → let (r', l') = settle arti builder l r in
        got r' ≡ got (ok t) → IsBooted t (record { inner = l'; world = w; running = none })
  unfolding settle
  settle-IsBooted (ok t') l w t h = record { booted = ap some (ok_of h); idle = refl }
    where
      ok_of : {a b : ArtiTransport K} → ◌≡◌ {A = Answer K} (got (ok a)) (got (ok b)) → a ≡ b
      ok_of h = cc
  settle-IsBooted (err e) l w t h = cc

  left-IsBooted :
      (running : Option (Option Text)) (s : Shared K W) (t : ArtiTransport K)
      → (left running s).0 ≡ got (ok t)
      → IsBooted t (left running s).1
  left-IsBooted none s t h = cc
  left-IsBooted (some text) s t h =
      settle-IsBooted (init arti builder text s.inner s.world).0 s.inner
        (init arti builder text s.inner s.world).1 t h

  -- Once the initialiser has ended with a client, then whatever is called, in any order, nothing changes
  -- any more, so that nothing is bootstrapped again: each use gets this client, and each descriptor is
  -- refused.
  pub boots_once :
      (s : Shared K W) (t : ArtiTransport K) (es : List Event)
      → (event leave s).0 ≡ got (ok t)
      → events es (event leave s).1 ≡ (map (after_boot t) es, (event leave s).1)
  unfolding event
  boots_once s t es h = events-IsBooted t es (event leave s).1 (left-IsBooted s.running s t h)
