-- ===== src/Capnp/Kept.antt =====
-- The receive state of one channel of the actor, and the logs of its messages: what one command and one
-- outcome make of them.
use fungi_transport_ci_test.Prelude.{
  ℕ, ◌+◌, ◌≡◌, ◌≢◌, refl, sym, ap, ◌∙◌, subst, List, [], ◌∷◌, ◌++◌, append_assoc, append-nil, Lacks,
  ◌⊎◌, inl, inr, Option, none, some, Bool, true, false, Result, ok, err, ◌==◌, ==_iff, if-true,
  if-false, Bool-cases, arith,
}
use fungi_transport_ci_test.Text.{Bytes, Text}
use fungi_transport_ci_test.Errors.{RecvError}
use fungi_transport_ci_test.Capnp.Map.{or_insert, insert_same, insert_other, remove_other}
use fungi_transport_ci_test.Capnp.Errors.{CapnpError}
use fungi_transport_ci_test.Capnp.Registry.{Caller, RecvState, idle, release}
use fungi_transport_ci_test.Capnp.Actor.{
  Command, Reply, Task, Actor, recv_state, put_recv_state, spawn, handle_connector,
  handle_configure, handle_recv, handle, keep_message, settled, reply,
}
use fungi_transport_ci_test.Capnp.System.{
  Allowed, released_by, delivery, delivered, is_receive, outstanding,
}
use fungi_transport_ci_test.Capnp.Log.{
  carried, unequal, either, outstanding-append, undelivered, delivered_here, delivered_elsewhere,
}

-- One receive is outstanding and nothing is buffered, or none is and nobody waits.
abbrev pub Phase : RecvState → ℕ → Type 0
Phase st n =
    ((st.in_flight ≡ true) × (n ≡ 1) × (st.buffer ≡ []))
    ⊎ ((st.in_flight ≡ false) × (n ≡ 0) × (st.waiter ≡ none))

-- With `n` receives outstanding, the messages `p` pulled are those `d` delivered and those buffered.
abbrev pub Kept : Option RecvState → ℕ → List Bytes → List Bytes → Type 0
Kept none n p d = (n ≡ 0) × (p ≡ []) × (d ≡ [])
Kept (some st) n p d = (p ≡ d ++ st.buffer) × Phase st n

Kept-or_insert :
    (o : Option RecvState) (n : ℕ) (p d : List Bytes)
    → Kept o n p d
    → Kept (some (or_insert idle o)) n p d
Kept-or_insert none n p d (en, ep, ed) = (cc, inr (refl, en, refl))
Kept-or_insert (some st) n p d h = h

pub keep_message-buffer :
    (r : Result RecvError Bytes) (st : RecvState)
    → RecvState.buffer (keep_message r st) ≡ st.buffer ++ carried r
keep_message-buffer (ok m) st = refl
keep_message-buffer (err e) st = sym (append-nil st.buffer)

pub keep_message-Phase :
    (r : Result RecvError Bytes) (st : RecvState) (n : ℕ)
    → n ≡ 0
    → Phase (keep_message r (settled st)) n
keep_message-Phase (ok m) st n e = inr (refl, e, refl)
keep_message-Phase (err x) st n e = inr (refl, e, refl)

module _ {Cap : Type 0} (k : ℕ) (p : List Bytes) where
  -- The invariant of channel `k` of an actor that has pulled `p` from it.
  abbrev pub KeptIn : Actor Cap → Type 0
  KeptIn a = Kept (recv_state k a) (outstanding k a.tasks) p (delivered k a.replies)

  pub settle :
      (b : Actor Cap) (o : Option RecvState) (n : ℕ) (d : List Bytes)
      → recv_state k b ≡ o
      → outstanding k b.tasks ≡ n
      → delivered k b.replies ≡ d
      → Kept o n p d
      → KeptIn b
  settle b o n d eo en ed h =
      subst (λ o. Kept o (outstanding k b.tasks) p (delivered k b.replies)) (sym eo)
        (subst (λ n. Kept o n p (delivered k b.replies)) (sym en)
          (subst (λ d. Kept o n p d) (sym ed) h))

  -- A change that leaves the channel alone.
  pub unchanged :
      (a b : Actor Cap)
      → recv_state k b ≡ recv_state k a
      → outstanding k b.tasks ≡ outstanding k a.tasks
      → delivered k b.replies ≡ delivered k a.replies
      → KeptIn a
      → KeptIn b
  unchanged a b = settle b (recv_state k a) (outstanding k a.tasks) (delivered k a.replies)

  pub spawn-Kept :
      (t : Task Cap) (a : Actor Cap) → is_receive k t ≡ 0 → KeptIn a → KeptIn (spawn t a)
  spawn-Kept t a e =
      unchanged a (spawn t a) refl (omega (arith, outstanding-append k a.tasks (t ∷ []))) refl

  release-Kept :
      (id : ℕ) (a : Actor Cap)
      → k ≢ id
      → KeptIn a
      → KeptIn (record a { registry = release id a.registry })
  unfolding release
  release-Kept id a ne =
      unchanged a (record a { registry = release id a.registry })
        (remove_other id a.registry.recv_states k ne) refl refl

  module _ (to_string : CapnpError → Text) (connector_of : Cap → Cap) (gone : Caller → Bool) where
    pub reply-Kept :
        (to : Caller) (r : Reply) (a : Actor Cap)
        → delivery k (to, r) ≡ []
        → KeptIn a
        → KeptIn (reply to_string connector_of gone to r a)
    reply-Kept to r a e h = either KeptIn (gone to) h (
        unchanged a (record a { replies = a.replies ++ (to, r) ∷ [] }) refl refl
          (undelivered k a.replies (to, r) e) h)

    connector-Kept :
        (o : Option Cap) (to : Caller) (a : Actor Cap)
        → KeptIn a
        → KeptIn (handle_connector to_string connector_of gone o to a)
    connector-Kept (some cap) to a h = reply-Kept to _ _ refl h
    connector-Kept none to a h = h

    configure-Kept :
        (o : Option Cap) (file : Bytes) (to : Caller) (a : Actor Cap)
        → KeptIn a
        → KeptIn (handle_configure to_string connector_of gone o file to a)
    configure-Kept (some cap) file to a h = spawn-Kept _ a refl h
    configure-Kept none file to a h = reply-Kept to _ a refl h

    -- A receive on the channel itself.
    recv-Kept :
        (to : Caller) (st : RecvState) (buffer : List Bytes) (a : Actor Cap)
        → st.buffer ≡ buffer
        → to.handle ≡ k
        → Kept (some st) (outstanding k a.tasks) p (delivered k a.replies)
        → KeptIn (handle_recv to_string connector_of gone k to st buffer a)
    unfolding handle_recv
    recv-Kept to st (m ∷ ms) a e own (all, inl (_, _, blank)) = cc
    recv-Kept to st (m ∷ ms) a e own (all, inr (free, n, w)) =
        either KeptIn (gone to)
          (settle (put_recv_state k (record st { buffer = m ∷ ms }) a) _ _ _
            (insert_same k _ a.registry.recv_states) refl refl
            (all ∙ ap (◌++◌ (delivered k a.replies)) e, inr (free, n, w)))
          (settle
            (record (put_recv_state k (record st { buffer = ms }) a) {
              replies = a.replies ++ (to, Reply.received (ok m)) ∷ [];
            })
            _ _ _ (insert_same k _ a.registry.recv_states) refl
            (delivered_here k a.replies to (ok m) own)
            (
              all
                  ∙ ap (◌++◌ (delivered k a.replies)) e
                  ∙ sym (append_assoc (delivered k a.replies) (m ∷ []) ms),
              inr (free, n, w),
            ))
    recv-Kept to st [] a e own (all, inl (busy, n, blank)) =
        subst KeptIn (sym (if-true st.in_flight _ _ busy)) (
          settle (put_recv_state k (record st { waiter = some to }) a) _ _ _
            (insert_same k _ a.registry.recv_states) refl refl (all, inl (busy, n, blank)))
    recv-Kept to st [] a e own (all, inr (free, n, w)) =
        subst KeptIn (sym (if-false st.in_flight _ _ free)) (
          settle
            (spawn (Task.recv_task k (a.registry.channels k))
              (put_recv_state k (record st { waiter = some to; in_flight = true }) a))
            _ _ _ (insert_same k _ a.registry.recv_states)
            (outstanding-append k a.tasks (Task.recv_task k (a.registry.channels k) ∷ [])
              ∙ one_more)
            refl (all, inl (refl, refl, e)))
      where
        one_more :
            outstanding k a.tasks + outstanding k (Task.recv_task k (a.registry.channels k) ∷ [])
            ≡ 1
        one_more = ground arith

    -- A receive on another channel.
    recv_other-Kept :
        (id : ℕ) (to : Caller) (st : RecvState) (buffer : List Bytes) (a : Actor Cap)
        → k ≢ id
        → to.handle ≡ id
        → KeptIn a
        → KeptIn (handle_recv to_string connector_of gone id to st buffer a)
    unfolding handle_recv
    recv_other-Kept id to st (m ∷ ms) a ne own h =
        either KeptIn (gone to)
          (unchanged a (put_recv_state id (record st { buffer = m ∷ ms }) a)
            (insert_other id _ a.registry.recv_states k ne) refl refl h)
          (unchanged a
            (record (put_recv_state id (record st { buffer = ms }) a) {
              replies = a.replies ++ (to, Reply.received (ok m)) ∷ [];
            })
            (insert_other id _ a.registry.recv_states k ne) refl
            (delivered_elsewhere k a.replies to (ok m) (λ e. ne (sym e ∙ own))) h)
    recv_other-Kept id to st [] a ne own h =
        either KeptIn st.in_flight
          (unchanged a (put_recv_state id (record st { waiter = some to }) a)
            (insert_other id _ a.registry.recv_states k ne) refl refl h)
          (spawn-Kept _ (put_recv_state id (record st { waiter = some to; in_flight = true }) a)
            (if-false (id == k) _ _ (unequal id k (λ e. ne (sym e))))
            (unchanged a (put_recv_state id (record st { waiter = some to; in_flight = true }) a)
              (insert_other id _ a.registry.recv_states k ne) refl refl h))

    pub handle-Kept :
        (c : Command) (ids : List ℕ) (a : Actor Cap)
        → Allowed c ids
        → Lacks k (released_by c ids)
        → KeptIn a
        → KeptIn (handle to_string connector_of gone c a)
    unfolding handle
    handle-Kept (Command.connector id to) ids a fine live h =
        connector-Kept (a.registry.transports id) to a h
    handle-Kept (Command.listen id virt_port nickname to) ids a fine live h = spawn-Kept _ a refl h
    handle-Kept (Command.connect id addr to) ids a fine live h = spawn-Kept _ a refl h
    handle-Kept (Command.accept id to) ids a fine live h = spawn-Kept _ a refl h
    handle-Kept (Command.send id msg to) ids a fine live h = spawn-Kept _ a refl h
    handle-Kept (Command.recv id to) ids a (own, _) live h = elim (Bool-cases (k == id)) [
      | inl e ↦
          let same : k ≡ id = (==_iff k id).0 e in
          subst
            (λ j. KeptIn (
              handle_recv to_string connector_of gone j to (or_insert idle (recv_state j a))
                (RecvState.buffer (or_insert idle (recv_state j a))) a))
            same
            (recv-Kept to (or_insert idle (recv_state k a)) _ a refl (own ∙ sym same)
              (Kept-or_insert (recv_state k a) _ p _ h))
      | inr e ↦
          recv_other-Kept id to (or_insert idle (recv_state id a))
            (RecvState.buffer (or_insert idle (recv_state id a))) a
            (λ same. cc (sym ((==_iff k id).1 same) ∙ e)) own h
    ]
    handle-Kept (Command.release_id id) ids a fine (ne, live) h =
        release-Kept id a (λ e. ne (sym e)) h
    handle-Kept (Command.configure_private_net file to) ids a fine live h =
        configure-Kept a.plugin file to a h
