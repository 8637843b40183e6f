-- ===== src/Mem.antt =====
-- crates/fungi-transport/src/mem.rs: a channel over two crossed bounded queues. The queues stand in a
-- store, so that the two ends share them. A `send` is a state that is polled: the sleep of the latency
-- and the deadline of a confirmed send are tokio's timers, and each poll is told whether they are over.
pub mod Effect
pub mod World
pub mod Flow
pub mod Fifo
pub mod Bounds
pub mod Network
pub mod Site
pub mod Paired
mod Tests
use fungi_transport_ci_test.Prelude.{
  ℕ, zero, suc, ◌+◌, Option, none, some, Bool, true, false, Result, ok, err, length, ltb, ◌==◌,
  if◌then◌else◌, ◌≡◌, ◌≤◌,
}
use fungi_transport_ci_test.Text.{Bytes, codes}
use fungi_transport_ci_test.Errors.{SendError, RecvError, box_text}
use fungi_transport_ci_test.Mpsc.{Mpsc, Offered, Taken}

pub data Delivery : Type 0 where
  confirmed best_effort : Delivery

-- Durations are numbers of nanoseconds.
pub record MemConfig : Type 0 where
  pub capacity : Option ℕ
  pub max_msg_len : Option ℕ
  pub latency : Option ℕ
  pub send_timeout : Option ℕ
  pub delivery : Delivery

-- `tx` and `rx` are the places of its two queues in the store.
pub record MemChannel : Type 0 where
  pub tx : ℕ
  pub rx : ℕ
  pub cfg : MemConfig
  pub drop_next : ℕ
  pub fail_next : ℕ

pub record Store (Q : Type 0) : Type 0 where
  pub cell : ℕ → Q
  pub next : ℕ

unfoldable pub put : {Q : Type 0} → ℕ → Q → Store Q → Store Q
put i q s = record s { cell = λ j. if j == i then q else s.cell j }

-- A new queue takes the next free place.
unfoldable pub alloc : {Q : Type 0} → Q → Store Q → Store Q
unfolding put
alloc q s = record (put s.next q s) { next = s.next + 1 }

unfoldable pub drop_next : ℕ → MemChannel → MemChannel
drop_next n c = record c { drop_next = n }

unfoldable pub fail_next : ℕ → MemChannel → MemChannel
fail_next n c = record c { fail_next = n }

unfoldable pub unwrap_or : Option ℕ → ℕ → ℕ
unwrap_or none d = d
unwrap_or (some n) d = n

-- Whether one was left to take, and the counter after it.
unfoldable pub take_one : ℕ → Bool × ℕ
take_one zero = (false, zero)
take_one (suc n) = (true, n)

-- A `send` that has not returned: its message, or the limit that it exceeds; asleep for the latency;
-- waiting for room.
pub data Sending : Type 0 where
  created : Result ℕ Bytes → Sending
  sleeping : Bytes → Sending
  offering : Bytes → Sending

-- What tokio's timers say at a poll: the sleep is over, the deadline has passed.
pub record Timers : Type 0 where
  pub slept : Bool
  pub expired : Bool

pub data Polled : Type 0 where
  finished : Result SendError (Unit {0}) → Polled
  pending : Sending → Polled

abbrev limit : Option ℕ → Bytes → Result ℕ Bytes
limit none msg = ok msg
limit (some max) msg = if ltb max (length msg) then err max else ok msg

-- The part of `send` in front of its `async` block.
unfoldable pub send : Bytes → MemChannel → Sending
send msg c = Sending.created (limit c.cfg.max_msg_len msg)

abbrev mk : MemConfig → ℕ → ℕ → MemChannel
mk cfg tx rx = record { tx = tx; rx = rx; cfg = cfg; drop_next = 0; fail_next = 0 }

module _ {Q : Type 0} (mpsc : Mpsc Bytes Q) where
  unfoldable pub duplex : MemConfig → Store Q → (MemChannel × MemChannel) × Store Q
  unfolding alloc unwrap_or
  duplex cfg s =
      let cap = unwrap_or cfg.capacity 1 in
      let s1 = alloc (mpsc.channel cap) s in
      let s2 = alloc (mpsc.channel cap) s1 in ((mk cfg s.next s1.next, mk cfg s1.next s.next), s2)

  abbrev pub Turn : Type 0
  Turn = Polled × MemChannel × Store Q

  -- The deadline is looked at when the queue has no room.
  unfoldable pub wait_for_room : Timers → Option ℕ → Bytes → Polled
  wait_for_room t none msg = Polled.pending (Sending.offering msg)
  wait_for_room t (some deadline) msg =
      if t.expired
      then Polled.finished (err (SendError.transport (box_text (codes "send timed out"))))
      else Polled.pending (Sending.offering msg)

  unfoldable pub confirm : Timers → Bytes → MemChannel → Store Q → Offered Q → Turn
  unfolding put wait_for_room
  confirm t msg c s (Offered.accepted q) = (Polled.finished (ok tt), c, put c.tx q s)
  confirm t msg c s Offered.closed = (Polled.finished (err SendError.closed), c, s)
  confirm t msg c s Offered.full = (wait_for_room t c.cfg.send_timeout msg, c, s)

  -- `try_send`: when the queue is full or closed the loss is silent.
  unfoldable pub try_send : MemChannel → Store Q → Offered Q → Turn
  unfolding put
  try_send c s (Offered.accepted q) = (Polled.finished (ok tt), c, put c.tx q s)
  try_send c s Offered.closed = (Polled.finished (ok tt), c, s)
  try_send c s Offered.full = (Polled.finished (ok tt), c, s)

  unfoldable pub deliver : Timers → Bytes → MemChannel → Store Q → Delivery → Turn
  unfolding confirm try_send
  deliver t msg c s Delivery.confirmed = confirm t msg c s (mpsc.offer msg (s.cell c.tx))
  deliver t msg c s Delivery.best_effort = try_send c s (mpsc.offer msg (s.cell c.tx))

  unfoldable pub lose : Timers → Bytes → MemChannel → Store Q → Bool × ℕ → Turn
  unfolding deliver
  lose t msg c s (true, n) = (Polled.finished (ok tt), record c { drop_next = n }, s)
  lose t msg c s (false, n) = deliver t msg c s c.cfg.delivery

  unfoldable pub sleep : Timers → Bytes → MemChannel → Store Q → Turn
  unfolding lose take_one
  sleep t msg c s =
      if t.slept
      then lose t msg c s (take_one c.drop_next)
      else (Polled.pending (Sending.sleeping msg), c, s)

  unfoldable pub delay : Timers → Bytes → MemChannel → Store Q → Option ℕ → Turn
  unfolding sleep lose take_one
  delay t msg c s none = lose t msg c s (take_one c.drop_next)
  delay t msg c s (some latency) = sleep t msg c s

  unfoldable pub fail : Timers → Bytes → MemChannel → Store Q → Bool × ℕ → Turn
  unfolding delay
  fail t msg c s (true, n) = (
    Polled.finished (err (SendError.transport (box_text (codes "injected failure")))),
    record c { fail_next = n },
    s,
  )
  fail t msg c s (false, n) = delay t msg c s c.cfg.latency

  -- One poll of a `send`.
  unfoldable pub poll : Timers → Sending → MemChannel → Store Q → Turn
  unfolding fail sleep deliver confirm take_one
  poll t (Sending.created (err max)) c s = (Polled.finished (err (SendError.too_large max)), c, s)
  poll t (Sending.created (ok msg)) c s = fail t msg c s (take_one c.fail_next)
  poll t (Sending.sleeping msg) c s = sleep t msg c s
  poll t (Sending.offering msg) c s = confirm t msg c s (mpsc.offer msg (s.cell c.tx))

  -- A receive that has ended; `none` while it waits.
  abbrev pub Received : Type 0
  Received = Option (Result RecvError Bytes) × Store Q

  unfoldable pub received : MemChannel → Store Q → Taken Bytes Q → Received
  unfolding put
  received c s (Taken.got msg q) = (some (ok msg), put c.rx q s)
  received c s Taken.waiting = (none, s)
  received c s Taken.ended = (some (err RecvError.closed), s)

  -- One poll of `recv`.
  unfoldable pub recv : MemChannel → Store Q → Received
  unfolding received
  recv c s = received c s (mpsc.take (s.cell c.rx))
