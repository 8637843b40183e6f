-- ===== src/Mem/Effect.antt =====
-- What a poll of `send` and of `recv` (mem.rs) does to the queues, on every branch.
use fungi_transport_ci_test.Prelude.{
  ℕ, zero, suc, ◌<◌, ◌≡◌, refl, ◌⊎◌, inl, inr, Option, none, some, Bool, true, false, Bool-cases,
  Result, ok, err, arith, List, [], ◌∷◌,
}
use fungi_transport_ci_test.Text.{Bytes}
use fungi_transport_ci_test.Errors.{RecvError}
use fungi_transport_ci_test.Mpsc.{Mpsc, Offered, Taken}
use fungi_transport_ci_test.Mem.{
  Delivery, confirmed, best_effort, MemChannel, Store, put, take_one, Sending, created, sleeping,
  offering, Timers, Polled, finished, pending, Turn, wait_for_room, confirm, try_send, deliver,
  lose, sleep, delay, fail, poll, Received, received, recv,
}

abbrev pub message : Sending → Option Bytes
message (created (ok msg)) = some msg
message (created (err max)) = none
message (sleeping msg) = some msg
message (offering msg) = some msg

-- The messages of the sends that this poll has ended with success.
abbrev pub sent_by : Option Bytes → Polled → List Bytes
sent_by (some msg) (finished (ok _)) = msg ∷ []
sent_by _ _ = []

abbrev pub got_by : Option (Result RecvError Bytes) → List Bytes
got_by (some (ok msg)) = msg ∷ []
got_by _ = []

-- The same end: its queues, its configuration, and no more losses to inject than before.
abbrev pub SameChannel : MemChannel → MemChannel → Type 0
SameChannel c c' =
    (c'.tx ≡ c.tx) × (c'.rx ≡ c.rx) × (c'.cfg ≡ c.cfg) × (c.drop_next ≡ 0 → c'.drop_next ≡ 0)

-- A message may be lost without an error.
abbrev pub Lossy : MemChannel → Type 0
Lossy c = (c.cfg.delivery ≡ best_effort) ⊎ (0 < c.drop_next)

module _ {Q : Type 0} (mpsc : Mpsc Bytes Q) where
  abbrev pub Appended : Bytes → MemChannel → Store Q → Store Q → Type 0
  Appended msg c s s' =
      (q : Q) × (mpsc.offer msg (s.cell c.tx) ≡ Offered.accepted q) × (s' ≡ put c.tx q s)

  abbrev pub Effect : Option Bytes → MemChannel → Store Q → Polled → Store Q → Type 0
  Effect (some msg) c s (finished (ok _)) s' = Appended msg c s s' ⊎ ((s' ≡ s) × Lossy c)
  Effect none c s (finished (ok _)) s' = ⊥
  Effect msg c s (finished (err e)) s' = s' ≡ s
  Effect msg c s (pending st) s' = (s' ≡ s) × (message st ≡ msg)

  abbrev pub Sends : Option Bytes → MemChannel → Store Q → Turn mpsc → Type 0
  Sends msg c s (p, c', s') = SameChannel c c' × Effect msg c s p s'

  wait_for_room-Sends :
      (t : Timers) (deadline : Option ℕ) (msg : Bytes) (c : MemChannel) (s : Store Q)
      → Sends (some msg) c s (wait_for_room mpsc t deadline msg, c, s)
  unfolding wait_for_room
  wait_for_room-Sends t none msg c s = ((refl, refl, refl, λ h. h), (refl, refl))
  wait_for_room-Sends t (some d) msg c s = elim (Bool-cases t.expired) [
    | inl e ↦ rw e ((refl, refl, refl, λ h. h), refl)
    | inr e ↦ rw e ((refl, refl, refl, λ h. h), (refl, refl))
  ]

  confirm-Sends :
      (t : Timers) (msg : Bytes) (c : MemChannel) (s : Store Q) (o : Offered Q)
      → mpsc.offer msg (s.cell c.tx) ≡ o
      → Sends (some msg) c s (confirm mpsc t msg c s o)
  unfolding confirm
  confirm-Sends t msg c s (Offered.accepted q) e = ((refl, refl, refl, λ h. h), inl (q, e, refl))
  confirm-Sends t msg c s Offered.closed e = ((refl, refl, refl, λ h. h), refl)
  confirm-Sends t msg c s Offered.full e = wait_for_room-Sends t c.cfg.send_timeout msg c s

  try_send-Sends :
      (msg : Bytes) (c : MemChannel) (s : Store Q) (o : Offered Q)
      → c.cfg.delivery ≡ best_effort
      → mpsc.offer msg (s.cell c.tx) ≡ o
      → Sends (some msg) c s (try_send mpsc c s o)
  unfolding try_send
  try_send-Sends msg c s (Offered.accepted q) mode e =
      ((refl, refl, refl, λ h. h), inl (q, e, refl))
  try_send-Sends msg c s Offered.closed mode e = ((refl, refl, refl, λ h. h), inr (refl, inl mode))
  try_send-Sends msg c s Offered.full mode e = ((refl, refl, refl, λ h. h), inr (refl, inl mode))

  deliver-Sends :
      (t : Timers) (msg : Bytes) (c : MemChannel) (s : Store Q) (mode : Delivery)
      → c.cfg.delivery ≡ mode
      → Sends (some msg) c s (deliver mpsc t msg c s mode)
  unfolding deliver
  deliver-Sends t msg c s confirmed e = confirm-Sends t msg c s _ refl
  deliver-Sends t msg c s best_effort e = try_send-Sends msg c s _ e refl

  lose-Sends :
      (t : Timers) (msg : Bytes) (c : MemChannel) (s : Store Q) (n : ℕ)
      → c.drop_next ≡ n
      → Sends (some msg) c s (lose mpsc t msg c s (take_one n))
  unfolding lose take_one
  lose-Sends t msg c s zero e = deliver-Sends t msg c s c.cfg.delivery refl
  lose-Sends t msg c s (suc n) e =
      ((refl, refl, refl, λ h. absurd (omega arith)), inr (refl, inr (omega arith)))

  sleep-Sends :
      (t : Timers) (msg : Bytes) (c : MemChannel) (s : Store Q)
      → Sends (some msg) c s (sleep mpsc t msg c s)
  unfolding sleep
  sleep-Sends t msg c s = elim (Bool-cases t.slept) [
    | inl e ↦ rw e (lose-Sends t msg c s c.drop_next refl)
    | inr e ↦ rw e ((refl, refl, refl, λ h. h), (refl, refl))
  ]

  delay-Sends :
      (t : Timers) (msg : Bytes) (c : MemChannel) (s : Store Q) (latency : Option ℕ)
      → Sends (some msg) c s (delay mpsc t msg c s latency)
  unfolding delay
  delay-Sends t msg c s none = lose-Sends t msg c s c.drop_next refl
  delay-Sends t msg c s (some latency) = sleep-Sends t msg c s

  fail-Sends :
      (t : Timers) (msg : Bytes) (c : MemChannel) (s : Store Q) (took : Bool × ℕ)
      → Sends (some msg) c s (fail mpsc t msg c s took)
  unfolding fail
  fail-Sends t msg c s (true, n) = ((refl, refl, refl, λ h. h), refl)
  fail-Sends t msg c s (false, n) = delay-Sends t msg c s c.cfg.latency

  -- A poll of a send leaves the end as it is, but for its counters, and either appends the message of
  -- the send to the queue and succeeds, or leaves the queues alone; it succeeds without appending only
  -- when a message may be lost, and one that is not over keeps its message.
  pub poll-Sends :
      (t : Timers) (st : Sending) (c : MemChannel) (s : Store Q)
      → Sends (message st) c s (poll mpsc t st c s)
  unfolding poll
  poll-Sends t (created (err max)) c s = ((refl, refl, refl, λ h. h), refl)
  poll-Sends t (created (ok msg)) c s = fail-Sends t msg c s (take_one c.fail_next)
  poll-Sends t (sleeping msg) c s = sleep-Sends t msg c s
  poll-Sends t (offering msg) c s = confirm-Sends t msg c s _ refl

  abbrev pub Receives : MemChannel → Store Q → Received mpsc → Type 0
  Receives c s (some (ok msg), s') =
      (q : Q) × (mpsc.take (s.cell c.rx) ≡ Taken.got msg q) × (s' ≡ put c.rx q s)
  Receives c s (_, s') = s' ≡ s

  received-Receives :
      (c : MemChannel) (s : Store Q) (r : Taken Bytes Q)
      → mpsc.take (s.cell c.rx) ≡ r
      → Receives c s (received mpsc c s r)
  unfolding received
  received-Receives c s (Taken.got msg q) e = (q, e, refl)
  received-Receives c s Taken.waiting e = refl
  received-Receives c s Taken.ended e = refl

  pub recv-Receives : (c : MemChannel) (s : Store Q) → Receives c s (recv mpsc c s)
  unfolding recv
  recv-Receives c s = received-Receives c s _ refl
