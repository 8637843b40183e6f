-- ===== src/Capnp/Finish.antt =====
-- The receive state of one channel of the actor, and the logs of its messages, when a task ends.
use mathlib.Core.Path.{ap₂}
use fungi_transport_ci_test.Prelude.{
  ℕ, suc, ◌+◌, ◌≡◌, ◌≢◌, refl, sym, ap, ◌∙◌, subst, List, [], ◌∷◌, ◌++◌, append-nil, inl, inr,
  Option, none, some, Bool, true, Result, ok, err, ◌==◌, ==_iff, if◌then◌else◌, if-true, if-false,
  Bool-cases, arith,
}
use fungi_transport_ci_test.Text.{Bytes, Text}
use fungi_transport_ci_test.Errors.{RecvError}
use fungi_transport_ci_test.Capnp.Map.{insert_same, insert_other}
use fungi_transport_ci_test.Capnp.Errors.{CapnpError, map_recv_error}
use fungi_transport_ci_test.Capnp.Registry.{Caller, RecvState}
use fungi_transport_ci_test.Capnp.Actor.{
  Reply, Task, Actor, Outcome, recv_state, put_recv_state, finish_recv, finish, keep_message,
  settled, spawn, reply,
}
use fungi_transport_ci_test.Capnp.System.{
  pulled_by, messages, delivery, delivered, is_receive, outstanding,
}
use fungi_transport_ci_test.Capnp.Log.{
  carried, unequal, either, delivered_here, delivered_elsewhere,
}
use fungi_transport_ci_test.Capnp.Waits.{WaitsOn, WaitsIn, Waits}
use fungi_transport_ci_test.Capnp.Kept.{
  Kept, KeptIn, settle, unchanged, reply-Kept, spawn-Kept, keep_message-buffer, keep_message-Phase,
}

module _ {Cap : Type 0} (to_string : CapnpError → Text) (connector_of : Cap → Cap)
    (gone : Caller → Bool) (k : ℕ) where
  -- A receive of another channel ends.
  other-Kept :
      (p : List Bytes) (id : ℕ) (r : Result RecvError Bytes) (o : Option RecvState) (a : Actor Cap)
      → k ≢ id
      → WaitsIn id o
      → KeptIn k p a
      → KeptIn k p (finish_recv to_string connector_of gone id r o a)
  unfolding finish_recv
  other-Kept p id r none a ne w h = h
  other-Kept p id r (some st) a ne w h = by_waiter st.waiter w
    where
      kept : KeptIn k p (put_recv_state id (keep_message r (settled st)) a)
      kept =
          unchanged k p a (put_recv_state id (keep_message r (settled st)) a)
            (insert_other id _ a.registry.recv_states k ne) refl refl h

      by_waiter :
          (o : Option Caller)
          → WaitsOn id o
          → KeptIn k p (elim o [
            | some to ↦
                if gone to
                then put_recv_state id (keep_message r (settled st)) a
                else record (put_recv_state id (settled st) a) {
                  replies = a.replies ++ (to, Reply.received r) ∷ [];
                }
            | none ↦ put_recv_state id (keep_message r (settled st)) a
          ])
      by_waiter (some to) own = either (KeptIn k p) (gone to) kept (
          unchanged k p a
            (record (put_recv_state id (settled st) a) {
              replies = a.replies ++ (to, Reply.received r) ∷ [];
            })
            (insert_other id _ a.registry.recv_states k ne) refl
            (delivered_elsewhere k a.replies to r (λ e. ne (sym e ∙ own))) h)
      by_waiter none own = kept

  -- The receive of the channel itself ends, with `r`.
  here-Kept :
      (p : List Bytes) (r : Result RecvError Bytes) (o : Option RecvState) (a : Actor Cap)
      → WaitsIn k o
      → Kept o (suc (outstanding k a.tasks)) p (delivered k a.replies)
      → KeptIn k (p ++ carried r) (finish_recv to_string connector_of gone k r o a)
  unfolding finish_recv
  here-Kept p r none a w (n, _, _) = absurd (omega arith)
  here-Kept p r (some st) a w (all, inr (free, n, _)) = absurd (omega arith)
  here-Kept p r (some st) a w (all, inl (busy, n, blank)) = by_waiter st.waiter w
    where
      rest : outstanding k a.tasks ≡ 0
      rest = omega arith

      so_far : p ≡ delivered k a.replies
      so_far = all ∙ ap (◌++◌ (delivered k a.replies)) blank ∙ append-nil (delivered k a.replies)

      kept : KeptIn k (p ++ carried r) (put_recv_state k (keep_message r (settled st)) a)
      kept =
          settle k (p ++ carried r) (put_recv_state k (keep_message r (settled st)) a) _ _ _
            (insert_same k _ a.registry.recv_states) refl refl
            (
              ap₂ ◌++◌ so_far
                  (sym (keep_message-buffer r (settled st) ∙ ap (λ b. b ++ carried r) blank)),
              keep_message-Phase r st (outstanding k a.tasks) rest,
            )

      by_waiter :
          (o : Option Caller)
          → WaitsOn k o
          → KeptIn k (p ++ carried r) (elim o [
            | some to ↦
                if gone to
                then put_recv_state k (keep_message r (settled st)) a
                else record (put_recv_state k (settled st) a) {
                  replies = a.replies ++ (to, Reply.received r) ∷ [];
                }
            | none ↦ put_recv_state k (keep_message r (settled st)) a
          ])
      by_waiter (some to) own = either (KeptIn k (p ++ carried r)) (gone to) kept (
          settle k (p ++ carried r)
            (record (put_recv_state k (settled st) a) {
              replies = a.replies ++ (to, Reply.received r) ∷ [];
            })
            _ _ _ (insert_same k _ a.registry.recv_states) refl
            (delivered_here k a.replies to r own)
            (
              ap (λ x. x ++ carried r) so_far
                  ∙ sym (
                      ap (λ b. (delivered k a.replies ++ carried r) ++ b) blank
                      ∙ append-nil (delivered k a.replies ++ carried r)),
              inr (refl, rest, refl),
            ))
      by_waiter none own = kept

  module _ (p : List Bytes) (a : Actor Cap) (w : Waits a) where
    -- The invariant before the end of task `t`, which is no longer among the tasks.
    abbrev Before : Task Cap → Type 0
    Before t =
        Kept (recv_state k a) (is_receive k t + outstanding k a.tasks) p (delivered k a.replies)

    quiet :
        (n : ℕ)
        → n ≡ 0
        → Kept (recv_state k a) (n + outstanding k a.tasks) p (delivered k a.replies)
        → KeptIn k p a
    quiet n e = subst (λ n. Kept (recv_state k a) n p (delivered k a.replies)) (omega arith)

    -- What a task that pulled nothing for the channel leaves.
    silent :
        (b : Actor Cap) (log : List (ℕ × Bytes))
        → messages k log ≡ []
        → KeptIn k p b
        → KeptIn k (p ++ messages k log) b
    silent b log e = subst (λ q. KeptIn k q b) (sym (ap (◌++◌ p) e ∙ append-nil p))

    replied :
        (to : Caller) (r : Reply) (b : Actor Cap)
        → delivery k (to, r) ≡ []
        → KeptIn k p b
        → KeptIn k (p ++ []) (reply to_string connector_of gone to r b)
    replied to r b e h =
        silent (reply to_string connector_of gone to r b) [] refl
          (reply-Kept k p to_string connector_of gone to r b e h)

    -- The end of a receive that pulled `log`, which is the message that its result carries.
    receive-Kept :
        (id : ℕ) (cap : Option Cap) (r : Result RecvError Bytes) (log : List (ℕ × Bytes))
        → Before (Task.recv_task id cap)
        → (id ≡ k → messages k log ≡ carried r)
        → (id ≢ k → messages k log ≡ [])
        → KeptIn k
            (p ++ messages k log)
            (finish_recv to_string connector_of gone id r (recv_state id a) a)
    receive-Kept id cap r log h mine others = elim (Bool-cases (id == k)) [
      | inl e ↦
          let same : k ≡ id = sym ((==_iff id k).0 e) in
          subst
            (λ j.
              KeptIn k (p ++ messages k log)
                (finish_recv to_string connector_of gone j r (recv_state j a) a))
            same
            (subst
              (λ q.
                KeptIn k (p ++ q) (finish_recv to_string connector_of gone k r (recv_state k a) a))
              (sym (mine (sym same)))
              (here-Kept p r (recv_state k a) a (w k)
                (subst (λ n. Kept (recv_state k a) n p (delivered k a.replies)) (counted e) h)))
      | inr e ↦
          let other : id ≢ k = λ same. cc (sym ((==_iff id k).1 same) ∙ e) in
          silent (finish_recv to_string connector_of gone id r (recv_state id a) a) log
            (others other)
            (other-Kept p id r (recv_state id a) a (λ same. other (sym same)) (w id)
              (quiet (is_receive k (Task.recv_task id cap)) (if-false (id == k) _ _ e) h))
    ]
      where
        counted :
            (id == k) ≡ true
            → is_receive k (Task.recv_task id cap) + outstanding k a.tasks
              ≡ suc (outstanding k a.tasks)
        counted e = rw e (omega arith)

    one_message : (id : ℕ) (m : Bytes) → id ≡ k → messages k ((id, m) ∷ []) ≡ m ∷ []
    one_message id m e = if-true (id == k) _ _ ((==_iff id k).1 e)

    no_message : (id : ℕ) (m : Bytes) → id ≢ k → messages k ((id, m) ∷ []) ≡ []
    no_message id m ne = if-false (id == k) _ _ (unequal id k ne)

    pub finish-Kept :
        (t : Task Cap) (o : Outcome t)
        → Before t
        → KeptIn k (p ++ messages k (pulled_by t o)) (finish to_string connector_of gone t o a)
    unfolding finish
    finish-Kept (Task.listen_task virt_port nickname none to) o h =
        replied to _ a refl (quiet 0 refl h)
    finish-Kept (Task.listen_task virt_port nickname (some cap) to) (ok listener) h =
        silent (spawn (Task.address_task listener to) a) [] refl
          (spawn-Kept k p _ a refl (quiet 0 refl h))
    finish-Kept (Task.listen_task virt_port nickname (some cap) to) (err e) h =
        replied to _ a refl (quiet 0 refl h)
    finish-Kept (Task.address_task listener to) (ok addr) h = replied to _ _ refl (quiet 0 refl h)
    finish-Kept (Task.address_task listener to) (err e) h = replied to _ a refl (quiet 0 refl h)
    finish-Kept (Task.connect_task addr none to) o h = replied to _ a refl (quiet 0 refl h)
    finish-Kept (Task.connect_task addr (some cap) to) (ok channel) h =
        replied to _ _ refl (quiet 0 refl h)
    finish-Kept (Task.connect_task addr (some cap) to) (err e) h =
        replied to _ a refl (quiet 0 refl h)
    finish-Kept (Task.accept_task none to) o h = replied to _ a refl (quiet 0 refl h)
    finish-Kept (Task.accept_task (some cap) to) (ok channel) h =
        replied to _ _ refl (quiet 0 refl h)
    finish-Kept (Task.accept_task (some cap) to) (err e) h = replied to _ a refl (quiet 0 refl h)
    finish-Kept (Task.send_task msg none to) o h = replied to _ a refl (quiet 0 refl h)
    finish-Kept (Task.send_task msg (some cap) to) o h = replied to _ a refl (quiet 0 refl h)
    finish-Kept (Task.recv_task id none) o h =
        receive-Kept id none (err RecvError.closed) [] h (λ e. refl) (λ e. refl)
    finish-Kept (Task.recv_task id (some cap)) (ok m) h =
        receive-Kept id (some cap) (ok m) ((id, m) ∷ []) h (one_message id m) (no_message id m)
    finish-Kept (Task.recv_task id (some cap)) (err e) h =
        receive-Kept id (some cap) (err (map_recv_error to_string e)) [] h (λ e. refl) (λ e. refl)
    finish-Kept (Task.configure_task file cap to) o h = replied to _ a refl (quiet 0 refl h)
