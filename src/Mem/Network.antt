-- ===== src/Mem/Network.antt =====
-- The connector, the listener and the transport of mem.rs. A network is a queue of channels, from its
-- connectors to its listener; the queues of networks stand in a store of their own.
use fungi_transport_ci_test.Prelude.{ℕ, Option, none, some, Result, ok, err, ok_or}
use fungi_transport_ci_test.Text.{Bytes, Text, codes}
use fungi_transport_ci_test.Errors.{ConnectError}
use fungi_transport_ci_test.Channel.{ListenParams}
use fungi_transport_ci_test.Mpsc.{Mpsc, Offered, Taken}
use fungi_transport_ci_test.Mem.{MemConfig, MemChannel, Store, put, alloc, duplex}

pub data MemAddr : Type 0 where
  mem_addr : MemAddr

unfoldable pub show_addr : MemAddr → Text
show_addr a = codes "mem"

-- Any text names the one endpoint; no error is possible.
unfoldable pub parse_addr : {E : Type 0} → Text → Result E MemAddr
parse_addr t = ok mem_addr

-- The queues of the channels, and those of the networks.
pub record Nets (Q N : Type 0) : Type 0 where
  pub pipes : Store Q
  pub inbounds : Store N

pub record MemConnector : Type 0 where
  pub cfg : MemConfig
  pub to_listener : ℕ

pub record MemListener : Type 0 where
  pub inbound : ℕ

pub record MemTransport : Type 0 where
  pub own : MemConnector
  pub listener : Option MemListener

-- A `connect` that has not returned: the end for its caller, and the end for the listener.
pub record Connecting : Type 0 where
  pub near : MemChannel
  pub far : MemChannel
  pub to_listener : ℕ

unfoldable pub connector : MemTransport → MemConnector
connector t = t.own

-- The listener is taken out, so that a second call finds none.
unfoldable pub listen :
    ListenParams → MemTransport → Result ConnectError (MemListener × MemAddr) × MemTransport
listen params t =
    (listened (ok_or t.listener ConnectError.unreachable), record t { listener = none })
  where
    listened : Result ConnectError MemListener → Result ConnectError (MemListener × MemAddr)
    listened (ok l) = ok (l, mem_addr)
    listened (err e) = err e

module _ {Q N : Type 0} (mpsc : Mpsc Bytes Q) (channels : Mpsc MemChannel N) where
  unfoldable pub network : MemConfig → Nets Q N → (MemConnector × MemListener) × Nets Q N
  unfolding alloc
  network cfg s =
      let place = s.inbounds.next in
      (
        (record { cfg = cfg; to_listener = place }, record { inbound = place }),
        record s { inbounds = alloc (channels.channel 8) s.inbounds },
      )

  unfoldable pub new_transport : MemConfig → Nets Q N → MemTransport × Nets Q N
  unfolding network
  new_transport cfg s =
      let ((c, l), s') = network cfg s in (record { own = c; listener = some l }, s')

  -- The part of `connect` in front of its `async` block.
  unfoldable pub connect : MemConnector → Nets Q N → Connecting × Nets Q N
  unfolding duplex
  connect c s =
      let ((a, b), pipes) = duplex mpsc c.cfg s.pipes in
      (record { near = a; far = b; to_listener = c.to_listener }, record s { pipes = pipes })

  -- `none` while it waits for room.
  abbrev pub Connected : Type 0
  Connected = Option (Result ConnectError MemChannel) × Nets Q N

  unfoldable pub handed : Connecting → Nets Q N → Offered N → Connected
  unfolding put
  handed d s (Offered.accepted q) =
      (some (ok d.near), record s { inbounds = put d.to_listener q s.inbounds })
  handed d s Offered.closed = (some (err ConnectError.unreachable), s)
  handed d s Offered.full = (none, s)

  -- One poll of `connect`.
  unfoldable pub poll_connect : Connecting → Nets Q N → Connected
  unfolding handed
  poll_connect d s = handed d s (channels.offer d.far (s.inbounds.cell d.to_listener))

  unfoldable pub accepted : MemListener → Nets Q N → Taken MemChannel N → Connected
  unfolding put
  accepted l s (Taken.got c q) = (some (ok c), record s { inbounds = put l.inbound q s.inbounds })
  accepted l s Taken.waiting = (none, s)
  accepted l s Taken.ended = (some (err ConnectError.unreachable), s)

  -- One poll of `accept`.
  unfoldable pub accept : MemListener → Nets Q N → Connected
  unfolding accepted
  accept l s = accepted l s (channels.take (s.inbounds.cell l.inbound))
