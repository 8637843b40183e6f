-- ===== src/Capnp/Ids.antt =====
-- The ids of the actor of crates/fungi-transport-capnp/src/lib.rs: an id that is given out names nothing
-- yet, and an id that was released names nothing any more.
use fungi_transport_ci_test.Prelude.{
  ℕ, ◌≤◌, ◌<◌, ◌≡◌, ◌≢◌, refl, sym, ap, ◌∙◌, subst, List, [], ◌∷◌, ◌++◌, Lacks, ◌⊎◌, inl, inr,
  Option, none, Bool, ◌==◌, ==_iff, Bool-cases, arith,
}
use fungi_transport_ci_test.Text.{Text}
use fungi_transport_ci_test.Capnp.Map.{remove, insert_other, remove_same, remove_other}
use fungi_transport_ci_test.Capnp.Errors.{CapnpError}
use fungi_transport_ci_test.Capnp.Registry.{Caller, Registry, release}
use fungi_transport_ci_test.Capnp.Actor.{Command, Actor, handle}
use fungi_transport_ci_test.Capnp.System.{
  System, Step, Reach, here, next, command, outcome, released_by, without,
}
use fungi_transport_ci_test.Capnp.Change.{
  Change, same, receive, new_channel, new_listener, new_connector, freed, handle-Change,
  finish-Change,
}

-- `k` names no capability.
abbrev pub Unused : {Cap : Type 0} → ℕ → Registry Cap → Type 0
Unused k r =
    (r.transports k ≡ none)
    × (r.connectors k ≡ none)
    × (r.listeners k ≡ none)
    × (r.channels k ≡ none)

abbrev pub Fresh : {Cap : Type 0} → Registry Cap → Type 0
Fresh r = (k : ℕ) → r.next_id ≤ k → Unused k r

abbrev pub IsReleased : ℕ → List ℕ → Type 0
IsReleased k [] = ⊥
IsReleased k (id ∷ ids) = (id ≡ k) ⊎ IsReleased k ids

not_released : (k : ℕ) (ids : List ℕ) → IsReleased k ids → Lacks k ids → ⊥
not_released k [] h l = elim h [ ]
not_released k (id ∷ ids) (inl e) (ne, _) = ne e
not_released k (id ∷ ids) (inr h) (_, l) = not_released k ids h l

other_id : (k id : ℕ) (ids : List ℕ) → IsReleased k ids → Lacks id ids → k ≢ id
other_id k id ids h live e = not_released k ids h (subst (λ j. Lacks j ids) (sym e) live)

-- `k` was given out, and names neither a capability nor a receive state.
abbrev pub IsOut : {Cap : Type 0} → ℕ → Registry Cap → Type 0
IsOut k r = (k < r.next_id) × Unused k r × (r.recv_states k ≡ none)

remove-none : {A : Type 0} (id k : ℕ) (m : ℕ → Option A) → m k ≡ none → remove id m k ≡ none
remove-none id k m e = elim (Bool-cases (k == id)) [
  | inl eq ↦ subst (λ j. remove id m j ≡ none) (sym ((==_iff k id).0 eq)) (remove_same id m)
  | inr ne ↦ remove_other id m k (λ eq. cc (sym ((==_iff k id).1 eq) ∙ ne)) ∙ e
]

module _ {Cap : Type 0} where
  freed-Unused : (id k : ℕ) (r : Registry Cap) → Unused k r → Unused k (release id r)
  unfolding release
  freed-Unused id k r (t, n, l, ch) = (
    remove-none id k r.transports t,
    remove-none id k r.connectors n,
    remove-none id k r.listeners l,
    remove-none id k r.channels ch,
  )

  freed-IsOut : (id k : ℕ) (r : Registry Cap) → IsOut k r → IsOut k (release id r)
  unfolding release
  freed-IsOut id k r (old, unused, blank) =
      (old, freed-Unused id k r unused, remove-none id k r.recv_states blank)

  -- A change of the registry leaves a released id without meaning.
  Change-IsOut :
      {ids : List ℕ} {r r' : Registry Cap} (k : ℕ)
      → IsReleased k ids
      → Change ids r r'
      → IsOut k r
      → IsOut k r'
  Change-IsOut k freed_k same h = h
  Change-IsOut {r = r} k freed_k (receive id st (inl live)) (old, (t, n, l, ch), blank) = (
    old,
    (t, n, l, ch),
    insert_other id st r.recv_states k (other_id k id _ freed_k live) ∙ blank,
  )
  Change-IsOut {r = r} k freed_k (receive id st (inr (o, known))) (old, (t, n, l, ch), blank) = (
    old,
    (t, n, l, ch),
    insert_other id st r.recv_states k (λ e. cc (sym blank ∙ ap r.recv_states e ∙ known)) ∙ blank,
  )
  Change-IsOut {r = r} k freed_k (new_channel c) (old, (t, n, l, ch), blank) =
      (omega arith, (t, n, l, insert_other r.next_id c r.channels k (λ e. omega arith) ∙ ch), blank)
  Change-IsOut {r = r} k freed_k (new_listener c) (old, (t, n, l, ch), blank) = (
    omega arith,
    (t, n, insert_other r.next_id c r.listeners k (λ e. omega arith) ∙ l, ch),
    blank,
  )
  Change-IsOut {r = r} k freed_k (new_connector c) (old, (t, n, l, ch), blank) = (
    omega arith,
    (t, insert_other r.next_id c r.connectors k (λ e. omega arith) ∙ n, l, ch),
    blank,
  )
  Change-IsOut {r = r} k freed_k (freed id) (old, unused, blank) =
      freed-IsOut id k r (old, unused, blank)

IsReleased-more :
    (c : Command) (ids : List ℕ) (k : ℕ) → IsReleased k ids → IsReleased k (released_by c ids)
IsReleased-more (Command.release_id id) ids k h = inr h
IsReleased-more (Command.connector id to) ids k h = h
IsReleased-more (Command.listen id virt_port nickname to) ids k h = h
IsReleased-more (Command.connect id addr to) ids k h = h
IsReleased-more (Command.accept id to) ids k h = h
IsReleased-more (Command.send id msg to) ids k h = h
IsReleased-more (Command.recv id to) ids k h = h
IsReleased-more (Command.configure_private_net file to) ids k h = h

module _ {Cap : Type 0} (to_string : CapnpError → Text) (connector_of : Cap → Cap) where
  -- An actor's registry that has dropped `k` for good.
  abbrev Dropped : ℕ → System Cap → Type 0
  Dropped k s = IsReleased k s.released × IsOut k s.actor.registry

  Step-Dropped :
      (k : ℕ) {s t : System Cap} → Step to_string connector_of s t → Dropped k s → Dropped k t
  Step-Dropped k (command s c gone fine) (rel, out) = (
    IsReleased-more c s.released k rel,
    Change-IsOut k rel (handle-Change to_string connector_of gone s.released c s.actor fine) out,
  )
  Step-Dropped k (outcome s before after t o gone e) (rel, out) = (
    rel,
    Change-IsOut k rel
        (finish-Change to_string connector_of gone s.released t o
          (without s.actor (before ++ after)))
        out,
  )

  Reach-Dropped :
      (k : ℕ) {s t : System Cap} → Dropped k s → Reach to_string connector_of s t → Dropped k t
  Reach-Dropped k h here = h
  Reach-Dropped k h (next r st) = Step-Dropped k st (Reach-Dropped k h r)

  release-IsOut : (k : ℕ) (r : Registry Cap) → k < r.next_id → IsOut k (release k r)
  unfolding release
  release-IsOut k r old = (
    old,
    (
      remove_same k r.transports,
      remove_same k r.connectors,
      remove_same k r.listeners,
      remove_same k r.channels,
    ),
    remove_same k r.recv_states,
  )

  -- Once the release of an id that was given out is handled, the id names no capability and has no
  -- receive state ever again: no command, and no task that was under way, brings it back, and no new
  -- capability takes its place.
  pub release_is_final :
      (s t : System Cap) (k : ℕ) (gone : Caller → Bool)
      → k < s.actor.registry.next_id
      → Reach to_string connector_of
          (record {
            actor = handle to_string connector_of gone (Command.release_id k) s.actor;
            pulled = s.pulled;
            released = k ∷ s.released;
          })
          t
      → IsOut k t.actor.registry
  unfolding handle
  release_is_final s t k gone old r =
      (Reach-Dropped k (inl refl, release-IsOut k s.actor.registry old) r).1
