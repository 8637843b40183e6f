-- ===== src/Mem/Tests.antt =====
-- Runs of the in-memory transport of crates/fungi-transport/src/mem.rs, and the theorems about it at
-- concrete inputs.
use fungi_transport_ci_test.Prelude.{
  ◌≡◌, ◌≤◌, ◌+◌, refl, List, [], ◌∷◌, ◌++◌, length, none, some, true, false, arith, ok, err,
}
use fungi_transport_ci_test.Text.{Bytes, codes}
use fungi_transport_ci_test.Errors.{SendError, ConnectError, box_text}
use fungi_transport_ci_test.Channel.{listen_params}
use fungi_transport_ci_test.Mpsc.Bounded.{Bounded, fresh_queue, bounded}
use fungi_transport_ci_test.Mem.{
  confirmed, MemConfig, MemChannel, Store, alloc, unwrap_or, Timers, finished, pending, offering,
  send, poll, drop_next, fail_next, recv,
}
use fungi_transport_ci_test.Mem.World.{
  start, wake, receive, inject_failure, Move, near, far, run, new_pipe,
}
use fungi_transport_ci_test.Mem.Fifo.{at, pipe-Conserves}
use fungi_transport_ci_test.Mem.Bounds.{sent-le-got}
use fungi_transport_ci_test.Mem.Network.{Nets, mem_addr, listen, connector, new_transport}
use fungi_transport_ci_test.Mem.Site.{dial, poll as poll_nth, take, Event, events}
use fungi_transport_ci_test.Mem.Paired.{waiting_at, AllCrossed, connect-AllCrossed}

-- `MemConfig::default()`.
abbrev slow : MemConfig
slow = record {
  capacity = none;
  max_msg_len = none;
  latency = none;
  send_timeout = none;
  delivery = confirmed;
}

abbrev strict : MemConfig
strict = record slow { max_msg_len = some 2; send_timeout = some 50 }

abbrev at_once : Timers
at_once = record { slept = true; expired = false }

abbrev late : Timers
late = record { slept = true; expired = true }

abbrev no_queues : {T : Type 0} → Store (Bounded T)
no_queues = record { cell = λ i. fresh_queue 0; next = 0 }

-- Two sends of which the second waits for room until the first is received, a failure, and a reply.
abbrev talk : List (Move bounded)
talk =
    near (start (1 ∷ []))
    ∷ near (wake at_once)
    ∷ near (start (2 ∷ []))
    ∷ near (wake at_once)
    ∷ far receive
    ∷ near (wake at_once)
    ∷ near (inject_failure 1)
    ∷ near (start (3 ∷ []))
    ∷ near (wake at_once)
    ∷ far (start (9 ∷ []))
    ∷ far (wake at_once)
    ∷ near receive
    ∷ []

talk_sent :
    let (t, w) = run bounded talk (new_pipe bounded slow no_queues) in
    (t.near_sent ≡ (1 ∷ []) ∷ (2 ∷ []) ∷ [])
    × (t.far_got ≡ (1 ∷ []) ∷ [])
    × (t.near_got ≡ (9 ∷ []) ∷ [])
    × (at bounded 0 w ≡ (2 ∷ []) ∷ [])
unfolding run new_pipe alloc unwrap_or send poll recv fail_next
talk_sent = (refl, refl, refl, refl)

pipe-Conserves_example :
    let (t, w) = run bounded talk (new_pipe bounded slow no_queues) in
    (t.near_sent ≡ t.far_got ++ at bounded 0 w) × (t.far_sent ≡ t.near_got ++ at bounded 1 w)
unfolding unwrap_or
pipe-Conserves_example = pipe-Conserves bounded slow no_queues talk (omega arith) refl (omega arith)

sent-le-got_example :
    let (t, w) = run bounded talk (new_pipe bounded slow no_queues) in
    (length t.near_sent ≤ length t.far_got + 1) × (length t.far_sent ≤ length t.near_got + 1)
unfolding unwrap_or
sent-le-got_example = sent-le-got bounded slow no_queues talk (omega arith) refl (omega arith)

-- The peer's end of a full pipe.
abbrev sender : MemChannel
sender = record { tx = 0; rx = 1; cfg = strict; drop_next = 0; fail_next = 0 }

abbrev full_store : Store (Bounded Bytes)
full_store = record {
  cell = λ i. record { items = (7 ∷ []) ∷ []; room = 1; alive = true; open_end = true };
  next = 2;
}

too_long :
    (poll bounded at_once (send (1 ∷ 2 ∷ 3 ∷ []) sender) sender full_store).0
    ≡ finished (err (SendError.too_large 2))
unfolding poll send
too_long = refl

waits_for_room :
    (poll bounded at_once (send (1 ∷ []) sender) sender full_store).0 ≡ pending (offering (1 ∷ []))
unfolding poll send
waits_for_room = refl

times_out :
    (poll bounded late (offering (1 ∷ [])) sender full_store).0
    ≡ finished (err (SendError.transport (box_text (codes "send timed out"))))
unfolding poll
times_out = refl

dropped_once :
    let (r, c, s) = poll bounded at_once (send (1 ∷ []) sender) (drop_next 2 sender) full_store in
    (r ≡ finished (ok tt)) × (c.drop_next ≡ 1)
unfolding poll send drop_next
dropped_once = (refl, refl)

failed_once :
    let (r, c, s) = poll bounded at_once (send (1 ∷ []) sender) (fail_next 1 sender) full_store in
    (r ≡ finished (err (SendError.transport (box_text (codes "injected failure")))))
    × (c.fail_next ≡ 0)
unfolding poll send fail_next
failed_once = (refl, refl)

abbrev empty_nets : Nets (Bounded Bytes) (Bounded MemChannel)
empty_nets = record { pipes = no_queues; inbounds = no_queues }

-- Two connects that return in the other order than they were started, and one accept.
abbrev meeting : List (Event bounded bounded)
meeting = dial ∷ dial ∷ poll_nth 0 ∷ poll_nth 0 ∷ take ∷ []

listen_once :
    let (t, s) = new_transport bounded bounded slow empty_nets in
    let (first, t') = listen (listen_params 80) t in
    (first ≡ ok (record { inbound = 0 }, mem_addr))
    × ((listen (listen_params 80) t').0 ≡ err ConnectError.unreachable)
unfolding listen new_transport listen_params
listen_once = (refl, refl)

connect-AllCrossed_example :
    let (t, s) = new_transport bounded bounded slow empty_nets in
    let ((dialed, got), site) =
      events bounded bounded
        (connector t)
        (record { inbound = 0 })
        meeting
        (record { nets = s; dialing = [] }) in
    AllCrossed dialed (got ++ waiting_at bounded bounded 0 site.nets)
unfolding listen new_transport listen_params
connect-AllCrossed_example =
    connect-AllCrossed bounded bounded slow empty_nets (listen_params 80) (record { inbound = 0 })
      mem_addr meeting refl
