-- ===== src/Mpsc.antt =====
-- The bounded queues of `tokio::sync::mpsc`, which the program does not implement: operations, with what
-- their documentation promises. `queued`, `capacity`, `receiving` and `sending` are not operations: they
-- are what stands in the queue, how much it holds, and whether a receiver and a sender are alive.
-- A `send` that waits for room is polled again later: each poll is an `offer`, as `try_send` is.
pub mod Bounded
use fungi_transport_ci_test.Prelude.{
  ℕ, ◌≤◌, ◌<◌, ◌≡◌, List, [], ◌∷◌, ◌++◌, length, Bool, true, false,
}

pub data Offered (Q : Type 0) : Type 0 where
  accepted : Q → Offered Q
  full closed : Offered Q

-- What one poll of `recv` yields.
pub data Taken (T Q : Type 0) : Type 0 where
  got : T → Q → Taken T Q
  waiting ended : Taken T Q

module _ {T Q : Type 0} (queued : Q → List T) (capacity : Q → ℕ)
    (receiving sending : Q → Bool) where
  abbrev pub SameEnds : Q → Q → Type 0
  SameEnds q q' =
      (capacity q' ≡ capacity q) × (receiving q' ≡ receiving q) × (sending q' ≡ sending q)

  abbrev pub Offers : Q → T → Offered Q → Type 0
  Offers q x (Offered.accepted q') =
      (queued q' ≡ queued q ++ x ∷ [])
      × (length (queued q) < capacity q)
      × (receiving q ≡ true)
      × SameEnds q q'
  Offers q x Offered.full = (receiving q ≡ true) × (capacity q ≤ length (queued q))
  Offers q x Offered.closed = receiving q ≡ false

  -- The end is reached only when the queue is empty and no sender is left.
  abbrev pub Takes : Q → Taken T Q → Type 0
  Takes q (Taken.got x q') = (queued q ≡ x ∷ queued q') × SameEnds q q'
  Takes q Taken.waiting = (queued q ≡ []) × (sending q ≡ true)
  Takes q Taken.ended = (queued q ≡ []) × (sending q ≡ false)

  abbrev pub IsNew : ℕ → Q → Type 0
  IsNew n q = (queued q ≡ []) × (capacity q ≡ n) × (receiving q ≡ true) × (sending q ≡ true)

pub record Mpsc (T Q : Type 0) : Type 0 where
  pub channel : ℕ → Q
  pub offer : T → Q → Offered Q
  pub take : Q → Taken T Q
  pub queued : Q → List T
  pub capacity : Q → ℕ
  pub receiving : Q → Bool
  pub sending : Q → Bool
  pub channel_law : (n : ℕ) → 0 < n → IsNew queued capacity receiving sending n (channel n)
  pub offer_law : (x : T) (q : Q) → Offers queued capacity receiving sending q x (offer x q)
  pub take_law : (q : Q) → Takes queued capacity receiving sending q (take q)
