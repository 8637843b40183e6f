-- ===== src/Mem/Flow.antt =====
-- What one act does to the queues of the end that acts: what it sends is appended, what it receives is
-- taken off the front, and neither is ever over its capacity.
use fungi_transport_ci_test.Prelude.{
  ℕ, ◌≡◌, ◌≢◌, refl, sym, ap, ◌∙◌, subst, inl, inr, Option, none, some, Bool-cases, ok, err, arith,
  List, [], ◌∷◌, ◌++◌, ◌==◌, ==_iff, append-nil,
}
use fungi_transport_ci_test.Text.{Bytes}
use fungi_transport_ci_test.Mpsc.{Mpsc, Offers, Takes}
use fungi_transport_ci_test.Mem.{
  confirmed, MemChannel, Store, put, Sending, Polled, finished, pending, Timers, poll, Received,
  recv, fail_next,
}
use fungi_transport_ci_test.Mem.Effect.{
  message, sent_by, got_by, SameChannel, Lossy, Appended, Effect, poll-Sends, Receives,
  recv-Receives,
}
use fungi_transport_ci_test.Mem.World.{
  End, Act, start, wake, receive, inject_drop, inject_failure, progress, act,
}

pub put_self : {Q : Type 0} (i : ℕ) (q : Q) (s : Store Q) → (put i q s).cell i ≡ q
unfolding put
put_self i q s = rw ((==_iff i i).1 refl) refl

pub put_ne : {Q : Type 0} (i j : ℕ) (q : Q) (s : Store Q) → j ≢ i → (put i q s).cell j ≡ s.cell j
unfolding put
put_ne i j q s h = elim (Bool-cases (j == i)) [
  | inl e ↦ absurd (h ((==_iff j i).0 e))
  | inr e ↦ rw e refl
]

module _ {Q : Type 0} (mpsc : Mpsc Bytes Q) where
  abbrev pub Flow : MemChannel → Store Q → List Bytes → List Bytes → Store Q → Type 0
  Flow c s sent got s' =
      (mpsc.queued (s'.cell c.tx) ≡ mpsc.queued (s.cell c.tx) ++ sent)
      × (mpsc.queued (s.cell c.rx) ≡ got ++ mpsc.queued (s'.cell c.rx))

  same-Flow : (c : MemChannel) (s s' : Store Q) → s' ≡ s → Flow c s [] [] s'
  same-Flow c s s' e = rw e (sym (append-nil _), refl)

  -- An end whose sends are confirmed, with no loss to inject.
  pub record IsReliable (c : MemChannel) : Type 0 where
    pub mode : c.cfg.delivery ≡ confirmed
    pub no_drops : c.drop_next ≡ 0
    pub crossed : c.tx ≢ c.rx

  not-Lossy : (c : MemChannel) → IsReliable c → ¬ Lossy c
  not-Lossy c r (inl e) = cc (r.mode)
  not-Lossy c r (inr h) = omega (arith, r.no_drops)

  Appended-Flow :
      (msg : Bytes) (c : MemChannel) (s s' : Store Q)
      → IsReliable c
      → Appended mpsc msg c s s'
      → Flow c s (msg ∷ []) [] s'
  Appended-Flow msg c s s' r (q, taken, e) =
      let law =
        subst (Offers mpsc.queued mpsc.capacity mpsc.receiving mpsc.sending (s.cell c.tx) msg) taken
          (mpsc.offer_law msg (s.cell c.tx)) in
      (
        ap (λ t. mpsc.queued (t.cell c.tx)) e ∙ ap mpsc.queued (put_self c.tx q s) ∙ law.0,
        sym (
            ap (λ t. mpsc.queued (t.cell c.rx)) e
            ∙ ap mpsc.queued (put_ne c.tx c.rx q s (λ h. r.crossed (sym h)))),
      )

  Effect-Flow :
      (msg : Option Bytes) (c : MemChannel) (s s' : Store Q) (p : Polled)
      → IsReliable c
      → Effect mpsc msg c s p s'
      → Flow c s (sent_by msg p) [] s'
  Effect-Flow (some msg) c s s' (finished (ok _)) r (inl a) = Appended-Flow msg c s s' r a
  Effect-Flow (some msg) c s s' (finished (ok _)) r (inr (e, lossy)) = absurd (not-Lossy c r lossy)
  Effect-Flow none c s s' (finished (ok _)) r h = absurd h
  Effect-Flow (some msg) c s s' (finished (err x)) r h = same-Flow c s s' h
  Effect-Flow none c s s' (finished (err x)) r h = same-Flow c s s' h
  Effect-Flow (some msg) c s s' (pending st) r h = same-Flow c s s' h.0
  Effect-Flow none c s s' (pending st) r h = same-Flow c s s' h.0

  Receives-Flow :
      (c : MemChannel) (s : Store Q) (r : Received mpsc)
      → c.tx ≢ c.rx
      → Receives mpsc c s r
      → Flow c s [] (got_by r.0) r.1
  Receives-Flow c s (some (ok msg), s') crossed (q, taken, e) =
      let law =
        subst (Takes mpsc.queued mpsc.capacity mpsc.receiving mpsc.sending (s.cell c.rx)) taken
          (mpsc.take_law (s.cell c.rx)) in
      (
        ap (λ t. mpsc.queued (t.cell c.tx)) e
            ∙ ap mpsc.queued (put_ne c.rx c.tx q s crossed)
            ∙ sym (append-nil _),
        law.0
            ∙ sym (
                ap (λ t. msg ∷ mpsc.queued (t.cell c.rx)) e
                ∙ ap (λ u. msg ∷ mpsc.queued u) (put_self c.rx q s)),
      )
  Receives-Flow c s (some (err x), s') crossed h = same-Flow c s s' h
  Receives-Flow c s (none, s') crossed h = same-Flow c s s' h

  progress-Flow :
      (t : Timers) (c : MemChannel) (s : Store Q) (busy : Option Sending)
      → IsReliable c
      → let ((sent, got), e, s') = progress mpsc t c s busy in
        Flow c s sent got s' × SameChannel c e.chan
  unfolding progress
  progress-Flow t c s none r = (same-Flow c s s refl, (refl, refl, refl, λ h. h))
  progress-Flow t c s (some st) r =
      let law = poll-Sends mpsc t st c s in
      let turn = poll mpsc t st c s in (Effect-Flow (message st) c s turn.2 turn.0 r law.1, law.0)

  abbrev pub InjectsNoDrop : Act → Type 0
  InjectsNoDrop (inject_drop n) = ⊥
  InjectsNoDrop _ = Unit

  pub act-Flow :
      (a : Act) (e : End) (s : Store Q)
      → InjectsNoDrop a
      → IsReliable e.chan
      → let ((sent, got), e', s') = act mpsc a e s in
        Flow e.chan s sent got s' × SameChannel e.chan e'.chan
  unfolding act fail_next
  act-Flow (start msg) e s h r = (same-Flow e.chan s s refl, (refl, refl, refl, λ h. h))
  act-Flow (wake t) e s h r = progress-Flow t e.chan s e.busy r
  act-Flow receive e s h r = (
    Receives-Flow e.chan s (recv mpsc e.chan s) r.crossed (recv-Receives mpsc e.chan s),
    (refl, refl, refl, λ h. h),
  )
  act-Flow (inject_drop n) e s h r = absurd h
  act-Flow (inject_failure n) e s h r = (same-Flow e.chan s s refl, (refl, refl, refl, λ h. h))

  pub SameChannel-IsReliable : (c c' : MemChannel) → SameChannel c c' → IsReliable c → IsReliable c'
  SameChannel-IsReliable c c' (tx, rx, cfg, drops) r = record {
    mode = ap (λ g. g.delivery) cfg ∙ r.mode;
    no_drops = drops r.no_drops;
    crossed = λ h. r.crossed (sym tx ∙ h ∙ rx);
  }
