-- ===== src/Mem/Fifo.antt =====
-- A pipe of mem.rs whose sends are confirmed, from `duplex` on: nothing is lost, doubled or reordered.
use fungi_transport_ci_test.Prelude.{
  ℕ, ◌+◌, ◌<◌, ◌≡◌, refl, sym, ap, ◌∙◌, subst, arith, List, [], ◌∷◌, ◌++◌, All, append-nil,
  append_assoc,
}
use fungi_transport_ci_test.Text.{Bytes}
use fungi_transport_ci_test.Mpsc.{Mpsc}
use fungi_transport_ci_test.Mem.{confirmed, MemConfig, MemChannel, Store, put, alloc, unwrap_or}
use fungi_transport_ci_test.Mem.Effect.{SameChannel}
use fungi_transport_ci_test.Mem.World.{
  End, act, World, Move, near, far, Tally, move, plus, run, new_pipe,
}
use fungi_transport_ci_test.Mem.Flow.{
  put_self, put_ne, Flow, IsReliable, InjectsNoDrop, act-Flow, SameChannel-IsReliable,
}

-- tokio refuses a queue of capacity zero.
abbrev pub HasRoom : MemConfig → Type 0
HasRoom cfg = 0 < unwrap_or cfg.capacity 1

module _ {Q : Type 0} (mpsc : Mpsc Bytes Q) where
  -- The near end sends into the queue at `i`, the far end into the one at `j`.
  pub record Linked (i j : ℕ) (w : World mpsc) : Type 0 where
    pub near_end : IsReliable mpsc w.near.chan
    pub far_end : IsReliable mpsc w.far.chan
    pub near_tx : w.near.chan.tx ≡ i
    pub near_rx : w.near.chan.rx ≡ j
    pub far_tx : w.far.chan.tx ≡ j
    pub far_rx : w.far.chan.rx ≡ i

  abbrev pub at : ℕ → World mpsc → List Bytes
  at i w = mpsc.queued (w.store.cell i)

  abbrev pub Conserves : ℕ → ℕ → World mpsc → Tally mpsc → World mpsc → Type 0
  Conserves i j w t w' =
      (at i w ++ t.near_sent ≡ t.far_got ++ at i w')
      × (at j w ++ t.far_sent ≡ t.near_got ++ at j w')

  abbrev pub DropsNothing : Move mpsc → Type 0
  DropsNothing (near a) = InjectsNoDrop mpsc a
  DropsNothing (far a) = InjectsNoDrop mpsc a

  Linked-near :
      (i j : ℕ) (w : World mpsc) (e : End) (s : Store Q)
      → Linked i j w
      → SameChannel w.near.chan e.chan
      → Linked i j (record w { near = e; store = s })
  Linked-near i j w e s l same = record {
    near_end = SameChannel-IsReliable mpsc w.near.chan e.chan same l.near_end;
    far_end = l.far_end;
    near_tx = same.0 ∙ l.near_tx;
    near_rx = same.1 ∙ l.near_rx;
    far_tx = l.far_tx;
    far_rx = l.far_rx;
  }

  Linked-far :
      (i j : ℕ) (w : World mpsc) (e : End) (s : Store Q)
      → Linked i j w
      → SameChannel w.far.chan e.chan
      → Linked i j (record w { far = e; store = s })
  Linked-far i j w e s l same = record {
    near_end = l.near_end;
    far_end = SameChannel-IsReliable mpsc w.far.chan e.chan same l.far_end;
    near_tx = l.near_tx;
    near_rx = l.near_rx;
    far_tx = same.0 ∙ l.far_tx;
    far_rx = same.1 ∙ l.far_rx;
  }

  Flow-Conserves :
      (c : MemChannel) (i j : ℕ) (s s' : Store Q) (sent got : List Bytes)
      → c.tx ≡ i
      → c.rx ≡ j
      → Flow mpsc c s sent got s'
      → (mpsc.queued (s.cell i) ++ sent ≡ mpsc.queued (s'.cell i))
        × (mpsc.queued (s.cell j) ++ [] ≡ got ++ mpsc.queued (s'.cell j))
  Flow-Conserves c i j s s' sent got tx rx flow = (
    subst (λ k. mpsc.queued (s.cell k) ++ sent ≡ mpsc.queued (s'.cell k)) tx (sym flow.0),
    append-nil _ ∙ subst (λ k. mpsc.queued (s.cell k) ≡ got ++ mpsc.queued (s'.cell k)) rx flow.1,
  )

  move-Conserves :
      (i j : ℕ) (m : Move mpsc) (w : World mpsc)
      → DropsNothing m
      → Linked i j w
      → let (t, w') = move mpsc m w in Conserves i j w t w' × Linked i j w'
  unfolding move
  move-Conserves i j (near a) w safe l =
      let done = act mpsc a w.near w.store in
      let law = act-Flow mpsc a w.near w.store safe l.near_end in
      (
        Flow-Conserves w.near.chan i j w.store done.2 done.0.0 done.0.1 l.near_tx l.near_rx law.0,
        Linked-near i j w done.1 done.2 l law.1,
      )
  move-Conserves i j (far a) w safe l =
      let done = act mpsc a w.far w.store in
      let law = act-Flow mpsc a w.far w.store safe l.far_end in
      let (out, back) =
        Flow-Conserves w.far.chan j i w.store done.2 done.0.0 done.0.1 l.far_tx l.far_rx law.0 in
      ((back, out), Linked-far i j w done.1 done.2 l law.1)

  -- Two stretches of a run, one after the other.
  conserve_twice :
      (a b c s s' g g' : List Bytes)
      → a ++ s ≡ g ++ b
      → b ++ s' ≡ g' ++ c
      → a ++ (s ++ s') ≡ (g ++ g') ++ c
  conserve_twice a b c s s' g g' e f =
      sym (append_assoc a s s')
      ∙ ap (λ t. t ++ s') e
      ∙ append_assoc g b s'
      ∙ ap (λ t. g ++ t) f
      ∙ sym (append_assoc g g' c)

  Conserves-plus :
      (i j : ℕ) (w w1 w2 : World mpsc) (t u : Tally mpsc)
      → Conserves i j w t w1
      → Conserves i j w1 u w2
      → Conserves i j w (plus mpsc t u) w2
  Conserves-plus i j w w1 w2 t u first rest = (
    conserve_twice (at i w) (at i w1) (at i w2) t.near_sent u.near_sent t.far_got u.far_got first.0
        rest.0,
    conserve_twice (at j w) (at j w1) (at j w2) t.far_sent u.far_sent t.near_got u.near_got first.1
        rest.1,
  )

  run-Conserves :
      (i j : ℕ) (ms : List (Move mpsc)) (w : World mpsc)
      → All DropsNothing ms
      → Linked i j w
      → let (t, w') = run mpsc ms w in Conserves i j w t w'
  unfolding run
  run-Conserves i j [] w safe l = (append-nil _, append-nil _)
  run-Conserves i j (m ∷ ms) w safe l =
      let (first, linked) = move-Conserves i j m w safe.0 l in
      let rest = run-Conserves i j ms (move mpsc m w).1 safe.1 linked in
      Conserves-plus i j w (move mpsc m w).1 (run mpsc ms (move mpsc m w).1).1 (move mpsc m w).0
        (run mpsc ms (move mpsc m w).1).0 first rest

  pub new_pipe-Linked :
      (cfg : MemConfig) (s : Store Q)
      → cfg.delivery ≡ confirmed
      → Linked s.next (s.next + 1) (new_pipe mpsc cfg s)
  unfolding new_pipe alloc put
  new_pipe-Linked cfg s mode = record {
    near_end = record { mode = mode; no_drops = refl; crossed = λ h. omega (arith, h) };
    far_end = record { mode = mode; no_drops = refl; crossed = λ h. omega (arith, h) };
    near_tx = refl;
    near_rx = refl;
    far_tx = refl;
    far_rx = refl;
  }

  pub new_pipe_cells :
      (cfg : MemConfig) (s : Store Q)
      → let w = new_pipe mpsc cfg s in
        let q = mpsc.channel (unwrap_or cfg.capacity 1) in
        (w.store.cell s.next ≡ q) × (w.store.cell (s.next + 1) ≡ q)
  unfolding new_pipe alloc
  new_pipe_cells cfg s =
      let q = mpsc.channel (unwrap_or cfg.capacity 1) in
      let first = alloc q s in
      (
        put_ne (s.next + 1) s.next q first (λ h. omega (arith, h)) ∙ put_self s.next q s,
        put_self (s.next + 1) q first,
      )

  -- A new pipe whose sends are confirmed, with any sends, polls, receives and injected failures at its
  -- two ends in any order, but no injected drop: the messages whose sends returned `Ok` at one end are,
  -- in order, the messages received at the other followed by those that wait in the queue.
  pub pipe-Conserves :
      (cfg : MemConfig) (s : Store Q) (ms : List (Move mpsc))
      → HasRoom cfg
      → cfg.delivery ≡ confirmed
      → All DropsNothing ms
      → let (t, w) = run mpsc ms (new_pipe mpsc cfg s) in
        (t.near_sent ≡ t.far_got ++ at s.next w) × (t.far_sent ≡ t.near_got ++ at (s.next + 1) w)
  pipe-Conserves cfg s ms room mode safe =
      let law =
        run-Conserves s.next (s.next + 1) ms (new_pipe mpsc cfg s) safe
          (new_pipe-Linked cfg s mode) in
      let cells = new_pipe_cells cfg s in
      let empty = (mpsc.channel_law _ room).0 in
      (
        ap (λ u. u ++ (run mpsc ms (new_pipe mpsc cfg s)).0.near_sent)
              (sym (ap mpsc.queued cells.0 ∙ empty))
            ∙ law.0,
        ap (λ u. u ++ (run mpsc ms (new_pipe mpsc cfg s)).0.far_sent)
              (sym (ap mpsc.queued cells.1 ∙ empty))
            ∙ law.1,
      )
