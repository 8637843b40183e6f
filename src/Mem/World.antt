-- ===== src/Mem/World.antt =====
-- The two ends of one pipe of mem.rs and what their tasks do to it, one act at a time in any order. An
-- end has at most one send under way, since `send` and `recv` borrow it; the next call drops it.
use fungi_transport_ci_test.Prelude.{ℕ, Option, none, some, List, [], ◌∷◌, ◌++◌}
use fungi_transport_ci_test.Text.{Bytes}
use fungi_transport_ci_test.Mpsc.{Mpsc}
use fungi_transport_ci_test.Mem.{
  MemConfig, MemChannel, Store, Sending, Timers, Polled, finished, pending, send, poll, recv,
  drop_next, fail_next, duplex,
}
use fungi_transport_ci_test.Mem.Effect.{message, sent_by, got_by}

pub record End : Type 0 where
  pub chan : MemChannel
  pub busy : Option Sending

pub data Act : Type 0 where
  start : Bytes → Act
  wake : Timers → Act
  receive : Act
  inject_drop : ℕ → Act
  inject_failure : ℕ → Act

abbrev busy_after : Polled → Option Sending
busy_after (finished r) = none
busy_after (pending st) = some st

-- What was sent and what was received by an act, the end and the queues after it.
abbrev pub Done : Type 0 → Type 0
Done Q = (List Bytes × List Bytes) × End × Store Q

module _ {Q : Type 0} (mpsc : Mpsc Bytes Q) where
  unfoldable pub progress : Timers → MemChannel → Store Q → Option Sending → Done Q
  progress t c s none = (([], []), record { chan = c; busy = none }, s)
  progress t c s (some st) =
      let (p, c', s') = poll mpsc t st c s in
      ((sent_by (message st) p, []), record { chan = c'; busy = busy_after p }, s')

  unfoldable pub act : Act → End → Store Q → Done Q
  unfolding progress
  act (start msg) e s = (([], []), record e { busy = some (send msg e.chan) }, s)
  act (wake t) e s = progress t e.chan s e.busy
  act receive e s =
      let (got, s') = recv mpsc e.chan s in (([], got_by got), record e { busy = none }, s')
  act (inject_drop n) e s = (([], []), record e { chan = drop_next n e.chan }, s)
  act (inject_failure n) e s = (([], []), record e { chan = fail_next n e.chan }, s)

  pub record World : Type 0 where
    pub near : End
    pub far : End
    pub store : Store Q

  pub data Move : Type 0 where
    near : Act → Move
    far : Act → Move

  -- What each end has sent and received.
  pub record Tally : Type 0 where
    pub near_sent : List Bytes
    pub near_got : List Bytes
    pub far_sent : List Bytes
    pub far_got : List Bytes

  abbrev pub nothing : Tally
  nothing = record { near_sent = []; near_got = []; far_sent = []; far_got = [] }

  unfoldable pub move : Move → World → Tally × World
  unfolding act
  move (near a) w =
      let ((sent, got), e, s) = act a w.near w.store in
      (record nothing { near_sent = sent; near_got = got }, record w { near = e; store = s })
  move (far a) w =
      let ((sent, got), e, s) = act a w.far w.store in
      (record nothing { far_sent = sent; far_got = got }, record w { far = e; store = s })

  abbrev pub plus : Tally → Tally → Tally
  plus t u = record {
    near_sent = t.near_sent ++ u.near_sent;
    near_got = t.near_got ++ u.near_got;
    far_sent = t.far_sent ++ u.far_sent;
    far_got = t.far_got ++ u.far_got;
  }

  unfoldable pub run : List Move → World → Tally × World
  unfolding move
  run [] w = (nothing, w)
  run (m ∷ ms) w = let (t, w1) = move m w in let (u, w2) = run ms w1 in (plus t u, w2)

  abbrev pub world_of : (MemChannel × MemChannel) × Store Q → World
  world_of ((a, b), s) = record {
    near = record { chan = a; busy = none };
    far = record { chan = b; busy = none };
    store = s;
  }

  -- Two ends that `duplex` has just made.
  unfoldable pub new_pipe : MemConfig → Store Q → World
  unfolding duplex
  new_pipe cfg s = world_of (duplex mpsc cfg s)
