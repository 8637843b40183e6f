-- ===== src/Capnp/Delivery.antt =====
-- Receiving through the actor of crates/fungi-transport-capnp/src/lib.rs: at most one receive of a
-- channel is outstanding, and the actor loses, repeats and reorders no message.
use fungi_transport_ci_test.Prelude.{
  ℕ, ◌+◌, ◌≡◌, refl, sym, ap, subst, List, [], ◌∷◌, ◌++◌, Lacks, ◌⊎◌, inl, inr, Option, none, some,
  arith,
}
use fungi_transport_ci_test.Text.{Bytes, Text}
use fungi_transport_ci_test.Capnp.Errors.{CapnpError}
use fungi_transport_ci_test.Capnp.Registry.{RecvState, new_registry}
use fungi_transport_ci_test.Capnp.Actor.{
  Command, Task, Actor, recv_state, boot_channel, boot_plugin, finish,
}
use fungi_transport_ci_test.Capnp.System.{
  System, Step, Reach, here, next, boot, command, outcome, pulled_by, released_by, messages,
  delivered, is_receive, outstanding, without,
}
use fungi_transport_ci_test.Capnp.Log.{messages-append, outstanding-append}
use fungi_transport_ci_test.Capnp.Waits.{Waits, handle-Waits, finish-Waits}
use fungi_transport_ci_test.Capnp.Kept.{Kept, KeptIn, handle-Kept}
use fungi_transport_ci_test.Capnp.Finish.{finish-Kept}

-- What is buffered for a channel.
abbrev pub buffered : Option RecvState → List Bytes
buffered (some st) = st.buffer
buffered none = []

-- The invariant of the whole system: of each channel whose handle still lives, and of the waiting
-- callers.
abbrev pub Invariant : {Cap : Type 0} → System Cap → Type 0
Invariant s =
    Waits s.actor × ((k : ℕ) → Lacks k s.released → KeptIn k (messages k s.pulled) s.actor)

-- An actor at its start: a channel or a plugin.
pub data IsBoot {Cap : Type 0} : Actor Cap → Type 0 where
  channel : (cap : Cap) → IsBoot (boot_channel cap)
  plugin : (cap pipelined : Cap) → IsBoot (boot_plugin cap pipelined)

before_release : (c : Command) (ids : List ℕ) (k : ℕ) → Lacks k (released_by c ids) → Lacks k ids
before_release (Command.release_id id) ids k (_, h) = h
before_release (Command.connector id to) ids k h = h
before_release (Command.listen id virt_port nickname to) ids k h = h
before_release (Command.connect id addr to) ids k h = h
before_release (Command.accept id to) ids k h = h
before_release (Command.send id msg to) ids k h = h
before_release (Command.recv id to) ids k h = h
before_release (Command.configure_private_net file to) ids k h = h

module _ {Cap : Type 0} (to_string : CapnpError → Text) (connector_of : Cap → Cap) where
  boot-Invariant : {a : Actor Cap} → IsBoot a → Invariant (boot a)
  unfolding boot_channel boot_plugin new_registry
  boot-Invariant (channel c) = (λ k. tt, λ k live. (refl, refl, refl))
  boot-Invariant (plugin c pipelined) = (λ k. tt, λ k live. (refl, refl, refl))

  -- The invariant with the ending task counted apart.
  taken_out :
      (k : ℕ) (p : List Bytes) (a : Actor Cap) (before after : List (Task Cap)) (t : Task Cap)
      → a.tasks ≡ before ++ t ∷ after
      → KeptIn k p a
      → Kept
          (recv_state k a)
          (is_receive k t + outstanding k (before ++ after))
          p
          (delivered k a.replies)
  taken_out k p a before after t e =
      subst (λ n. Kept (recv_state k a) n p (delivered k a.replies))
        (omega (
          arith,
          ap (outstanding k) e,
          outstanding-append k before (t ∷ after),
          outstanding-append k before after,
        ))

  Step-Invariant : {s t : System Cap} → Step to_string connector_of s t → Invariant s → Invariant t
  Step-Invariant (command s c gone fine) (w, h) = (
    handle-Waits to_string connector_of gone c s.released s.actor fine w,
    λ k live.
        handle-Kept k (messages k s.pulled) to_string connector_of gone c s.released s.actor fine
          live (h k (before_release c s.released k live)),
  )
  Step-Invariant (outcome s before after t o gone e) (w, h) =
      let rest : Actor Cap = without s.actor (before ++ after) in
      (
        finish-Waits to_string connector_of gone t o rest w,
        λ k live.
            subst (λ p. KeptIn k p (finish to_string connector_of gone t o rest))
              (sym (messages-append k s.pulled (pulled_by t o)))
              (finish-Kept to_string connector_of gone k (messages k s.pulled) rest w t o
                (taken_out k (messages k s.pulled) s.actor before after t e (h k live))),
      )

  Reach-Invariant :
      {s t : System Cap} → Invariant s → Reach to_string connector_of s t → Invariant t
  Reach-Invariant h here = h
  Reach-Invariant h (next r st) = Step-Invariant st (Reach-Invariant h r)

  nothing_lost :
      (o : Option RecvState) (n : ℕ) (p d : List Bytes)
      → Kept o n p d
      → (p ≡ d ++ buffered o) × ((n ≡ 0) ⊎ ((n ≡ 1) × (buffered o ≡ [])))
  nothing_lost none n p d (en, ep, ed) = (cc, inl en)
  nothing_lost (some st) n p d (all, inl (_, one, blank)) = (all, inr (one, blank))
  nothing_lost (some st) n p d (all, inr (_, zero_n, _)) = (all, inl zero_n)

  -- From the start of a connection, after any commands and ends of tasks in any order, and whichever
  -- callers have dropped their futures by the time when the actor replies to them: for each channel whose
  -- handle lives, the messages pulled from the remote side are, in order and each once, those that the
  -- actor put into the reply of a caller of that handle who had not dropped its future by then, and then
  -- those buffered for the next receive; at most one receive is outstanding, and while one is, nothing is
  -- buffered. A caller that drops its future after the reply was put there loses the message in it.
  pub each_message_once :
      {a : Actor Cap} (s : System Cap)
      → IsBoot a
      → Reach to_string connector_of (boot a) s
      → (k : ℕ) → Lacks k s.released
      → (messages k s.pulled ≡ delivered k s.actor.replies ++ buffered (recv_state k s.actor))
        × ((outstanding k s.actor.tasks ≡ 0)
            ⊎ ((outstanding k s.actor.tasks ≡ 1) × (buffered (recv_state k s.actor) ≡ [])))
  each_message_once s b r k live =
      nothing_lost (recv_state k s.actor) (outstanding k s.actor.tasks) (messages k s.pulled)
        (delivered k s.actor.replies) ((Reach-Invariant (boot-Invariant b) r).1 k live)
