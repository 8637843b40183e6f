-- ===== src/Mem/Bounds.antt =====
-- The capacity of a pipe of mem.rs: its queues stay within it, and confirmed sends press back.
use fungi_transport_ci_test.Prelude.{
  ℕ, ◌+◌, ◌≤◌, ◌≡◌, sym, ap, ◌∙◌, subst, inl, inr, Option, none, some, Bool-cases, ok, err, arith,
  All, List, [], ◌∷◌, ◌==◌, ==_iff, length, length-append,
}
use fungi_transport_ci_test.Text.{Bytes}
use fungi_transport_ci_test.Mpsc.{Mpsc, Offers, Takes}
use fungi_transport_ci_test.Mem.{
  confirmed, MemConfig, MemChannel, Store, put, unwrap_or, Sending, Polled, finished, pending,
  Timers, poll, Received, recv,
}
use fungi_transport_ci_test.Mem.Effect.{
  message, Appended, Effect, poll-Sends, Receives, recv-Receives,
}
use fungi_transport_ci_test.Mem.World.{
  Act, start, wake, receive, inject_drop, inject_failure, End, progress, act, World, Move, near,
  far, move, run, new_pipe,
}
use fungi_transport_ci_test.Mem.Flow.{put_self, put_ne}
use fungi_transport_ci_test.Mem.Fifo.{HasRoom, at, new_pipe_cells, DropsNothing, pipe-Conserves}

module _ {Q : Type 0} (mpsc : Mpsc Bytes Q) where
  -- The queue at `k` holds at most `n` messages, and is one of capacity `n`.
  abbrev pub Fits : ℕ → ℕ → Store Q → Type 0
  Fits n k s = (mpsc.capacity (s.cell k) ≡ n) × (length (mpsc.queued (s.cell k)) ≤ n)

  put-Fits :
      (n i k : ℕ) (q : Q) (s : Store Q)
      → ((mpsc.capacity (s.cell i) ≡ n)
          → length (mpsc.queued (s.cell i)) ≤ n
          → (mpsc.capacity q ≡ n) × (length (mpsc.queued q) ≤ n))
      → Fits n k s
      → Fits n k (put i q s)
  put-Fits n i k q s keep fits = elim (Bool-cases (k == i)) [
    | inl e ↦
        let same = (==_iff k i).0 e in
        let new =
          keep (subst (λ x. mpsc.capacity (s.cell x) ≡ n) same fits.0)
            (subst (λ x. length (mpsc.queued (s.cell x)) ≤ n) same fits.1) in
        subst (λ x. Fits n x (put i q s)) (sym same)
          (subst (λ c. (mpsc.capacity c ≡ n) × (length (mpsc.queued c) ≤ n)) (sym (put_self i q s))
            new)
    | inr e ↦
        subst (λ c. (mpsc.capacity c ≡ n) × (length (mpsc.queued c) ≤ n))
          (sym (put_ne i k q s (λ h. cc ((==_iff k i).1 h)))) fits
  ]

  Appended-Fits :
      (msg : Bytes) (c : MemChannel) (n k : ℕ) (s s' : Store Q)
      → Appended mpsc msg c s s'
      → Fits n k s
      → Fits n k s'
  Appended-Fits msg c n k s s' (q, taken, e) fits =
      let law =
        subst (Offers mpsc.queued mpsc.capacity mpsc.receiving mpsc.sending (s.cell c.tx) msg) taken
          (mpsc.offer_law msg (s.cell c.tx)) in
      subst (Fits n k) (sym e) (
        put-Fits n c.tx k q s
          (λ cap len. (
            law.3.0 ∙ cap,
            omega (
              arith,
              cap,
              law.1,
              ap length law.0,
              length-append {0} (mpsc.queued (s.cell c.tx)) (msg ∷ []),
            ),
          ))
          fits)

  Effect-Fits :
      (msg : Option Bytes) (c : MemChannel) (n k : ℕ) (s s' : Store Q) (p : Polled)
      → Effect mpsc msg c s p s'
      → Fits n k s
      → Fits n k s'
  Effect-Fits (some msg) c n k s s' (finished (ok _)) (inl a) fits =
      Appended-Fits msg c n k s s' a fits
  Effect-Fits (some msg) c n k s s' (finished (ok _)) (inr h) fits = subst (Fits n k) (sym h.0) fits
  Effect-Fits none c n k s s' (finished (ok _)) h fits = absurd h
  Effect-Fits (some msg) c n k s s' (finished (err x)) h fits = subst (Fits n k) (sym h) fits
  Effect-Fits none c n k s s' (finished (err x)) h fits = subst (Fits n k) (sym h) fits
  Effect-Fits (some msg) c n k s s' (pending st) h fits = subst (Fits n k) (sym h.0) fits
  Effect-Fits none c n k s s' (pending st) h fits = subst (Fits n k) (sym h.0) fits

  Receives-Fits :
      (c : MemChannel) (n k : ℕ) (s : Store Q) (r : Received mpsc)
      → Receives mpsc c s r
      → Fits n k s
      → Fits n k r.1
  Receives-Fits c n k s (some (ok msg), s') (q, taken, e) fits =
      let law =
        subst (Takes mpsc.queued mpsc.capacity mpsc.receiving mpsc.sending (s.cell c.rx)) taken
          (mpsc.take_law (s.cell c.rx)) in
      subst (Fits n k) (sym e) (
        put-Fits n c.rx k q s (λ cap len. (law.1.0 ∙ cap, omega (arith, len, ap length law.0)))
          fits)
  Receives-Fits c n k s (some (err x), s') h fits = subst (Fits n k) (sym h) fits
  Receives-Fits c n k s (none, s') h fits = subst (Fits n k) (sym h) fits

  progress-Fits :
      (t : Timers) (c : MemChannel) (n k : ℕ) (s : Store Q) (busy : Option Sending)
      → Fits n k s
      → Fits n k (progress mpsc t c s busy).2
  unfolding progress
  progress-Fits t c n k s none fits = fits
  progress-Fits t c n k s (some st) fits =
      let turn = poll mpsc t st c s in
      Effect-Fits (message st) c n k s turn.2 turn.0 (poll-Sends mpsc t st c s).1 fits

  act-Fits : (a : Act) (e : End) (n k : ℕ) (s : Store Q) → Fits n k s → Fits n k (act mpsc a e s).2
  unfolding act
  act-Fits (start msg) e n k s fits = fits
  act-Fits (wake t) e n k s fits = progress-Fits t e.chan n k s e.busy fits
  act-Fits receive e n k s fits =
      Receives-Fits e.chan n k s (recv mpsc e.chan s) (recv-Receives mpsc e.chan s) fits
  act-Fits (inject_drop m) e n k s fits = fits
  act-Fits (inject_failure m) e n k s fits = fits

  run-Fits :
      (n k : ℕ) (ms : List (Move mpsc)) (w : World mpsc)
      → Fits n k w.store
      → Fits n k (run mpsc ms w).1.store
  unfolding run move
  run-Fits n k [] w fits = fits
  run-Fits n k (near a ∷ ms) w fits =
      run-Fits n k ms (move mpsc (near a) w).1 (act-Fits a w.near n k w.store fits)
  run-Fits n k (far a ∷ ms) w fits =
      run-Fits n k ms (move mpsc (far a) w).1 (act-Fits a w.far n k w.store fits)

  -- Whatever its two ends do, in either mode and with any losses and failures injected, no queue of a
  -- new pipe ever holds more messages than the capacity of the configuration, or one if none is set.
  pipe-le-capacity :
      (cfg : MemConfig) (s : Store Q) (ms : List (Move mpsc))
      → HasRoom cfg
      → let w = (run mpsc ms (new_pipe mpsc cfg s)).1 in
        (length (at mpsc s.next w) ≤ unwrap_or cfg.capacity 1)
        × (length (at mpsc (s.next + 1) w) ≤ unwrap_or cfg.capacity 1)
  pipe-le-capacity cfg s ms room =
      let cap = unwrap_or cfg.capacity 1 in
      let cells = new_pipe_cells mpsc cfg s in
      let law = mpsc.channel_law cap room in
      let start : (q : Q)
          → q ≡ mpsc.channel cap
          → (mpsc.capacity q ≡ cap) × (length (mpsc.queued q) ≤ cap) =
        λ q e. (ap mpsc.capacity e ∙ law.1, omega (arith, ap length (ap mpsc.queued e ∙ law.0))) in
      (
        (run-Fits cap s.next ms (new_pipe mpsc cfg s) (start _ cells.0)).1,
        (run-Fits cap (s.next + 1) ms (new_pipe mpsc cfg s) (start _ cells.1)).1,
      )

  -- Confirmed sends press back: in a new pipe whose sends are confirmed, whatever its ends do without an
  -- injected drop, one end has at any time been told `Ok` for at most as many messages more than the other
  -- has received as the capacity of the configuration, or one if none is set.
  pub sent-le-got :
      (cfg : MemConfig) (s : Store Q) (ms : List (Move mpsc))
      → HasRoom cfg
      → cfg.delivery ≡ confirmed
      → All (DropsNothing mpsc) ms
      → let (t, w) = run mpsc ms (new_pipe mpsc cfg s) in
        (length t.near_sent ≤ length t.far_got + unwrap_or cfg.capacity 1)
        × (length t.far_sent ≤ length t.near_got + unwrap_or cfg.capacity 1)
  sent-le-got cfg s ms room mode safe =
      let (t, w) = run mpsc ms (new_pipe mpsc cfg s) in
      let flow = pipe-Conserves mpsc cfg s ms room mode safe in
      let fits = pipe-le-capacity cfg s ms room in
      (
        omega (arith, ap length flow.0, length-append t.far_got (at mpsc s.next w), fits.0),
        omega (arith, ap length flow.1, length-append t.near_got (at mpsc (s.next + 1) w), fits.1),
      )
