-- ===== src/Capnp/System.antt =====
-- The actor of crates/fungi-transport-capnp/src/lib.rs among its callers and the remote side: commands
-- come in, and tasks end, in any order, and callers may have dropped their futures when they are replied
-- to. A caller that drops its future later takes the reply with it, and this is not seen here.
use fungi_transport_ci_test.Prelude.{
  ℕ, ◌+◌, ◌≡◌, List, [], ◌∷◌, ◌++◌, Lacks, some, Bool, ok, ◌==◌, if◌then◌else◌,
}
use fungi_transport_ci_test.Text.{Bytes, Text}
use fungi_transport_ci_test.Capnp.Errors.{CapnpError}
use fungi_transport_ci_test.Capnp.Registry.{Caller}
use fungi_transport_ci_test.Capnp.Actor.{Command, Reply, Task, Actor, Outcome, handle, finish}

-- The actor, with what was pulled from the remote channels so far, by channel and in order, and the ids
-- whose handles were dropped.
pub record System (Cap : Type 0) : Type 0 where
  pub actor : Actor Cap
  pub pulled : List (ℕ × Bytes)
  pub released : List ℕ

abbrev pub pulled_by : {Cap : Type 0} → (t : Task Cap) → Outcome t → List (ℕ × Bytes)
pulled_by (Task.recv_task id (some cap)) (ok m) = (id, m) ∷ []
pulled_by _ o = []

-- A handle receives on its own id, and not after its drop has sent the release.
abbrev pub Allowed : Command → List ℕ → Type 0
Allowed (Command.recv id to) gone_ids = (to.handle ≡ id) × Lacks id gone_ids
Allowed _ gone_ids = Unit

abbrev pub released_by : Command → List ℕ → List ℕ
released_by (Command.release_id id) ids = id ∷ ids
released_by _ ids = ids

-- The messages of channel `k`, pulled, or delivered: put into the reply of a caller who had not dropped its
-- future by then.
abbrev pub messages : ℕ → List (ℕ × Bytes) → List Bytes
messages k [] = []
messages k ((j, m) ∷ log) = if j == k then m ∷ messages k log else messages k log

abbrev pub delivery : ℕ → Caller × Reply → List Bytes
delivery k (to, Reply.received (ok m)) = if to.handle == k then m ∷ [] else []
delivery k (to, _) = []

abbrev pub delivered : ℕ → List (Caller × Reply) → List Bytes
delivered k [] = []
delivered k (r ∷ log) = delivery k r ++ delivered k log

-- How many receives of channel `k` are outstanding.
abbrev pub is_receive : {Cap : Type 0} → ℕ → Task Cap → ℕ
is_receive k (Task.recv_task id cap) = if id == k then 1 else 0
is_receive k _ = 0

abbrev pub outstanding : {Cap : Type 0} → ℕ → List (Task Cap) → ℕ
outstanding k [] = 0
outstanding k (t ∷ ts) = is_receive k t + outstanding k ts

abbrev pub without : {Cap : Type 0} → Actor Cap → List (Task Cap) → Actor Cap
without a ts = record a { tasks = ts }

-- A connection at its start.
abbrev pub boot : {Cap : Type 0} → Actor Cap → System Cap
boot a = record { actor = a; pulled = []; released = [] }

module _ {Cap : Type 0} (to_string : CapnpError → Text) (connector_of : Cap → Cap) where
  -- `gone` are the callers that have dropped their futures by then.
  pub data Step : System Cap → System Cap → Type 0 where
    command :
        (s : System Cap) (c : Command) (gone : Caller → Bool)
        → Allowed c s.released
        → Step s (record {
          actor = handle to_string connector_of gone c s.actor;
          pulled = s.pulled;
          released = released_by c s.released;
        })
    outcome :
        (s : System Cap) (before after : List (Task Cap)) (t : Task Cap) (o : Outcome t)
        (gone : Caller → Bool)
        → s.actor.tasks ≡ before ++ t ∷ after
        → Step s (record {
          actor = finish to_string connector_of gone t o (without s.actor (before ++ after));
          pulled = s.pulled ++ pulled_by t o;
          released = s.released;
        })

  pub data Reach (s : System Cap) : System Cap → Type 0 where
    here : Reach s s
    next : {t u : System Cap} → Reach s t → Step t u → Reach s u
