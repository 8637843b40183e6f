-- ===== src/Harness/Tests.antt =====
-- Tests of crates/fungi-transport/src/channel.rs and harness.rs on a channel that plays a script, and
-- the theorems there.
use fungi_transport_ci_test.Prelude.{
  ℕ, ◌≤◌, ◌<◌, ◌≡◌, refl, ap, List, [], ◌∷◌, ◌++◌, length, some, false, Result, ok, err, arith,
}
use fungi_transport_ci_test.Text.{Bytes, codes, text_eq, show_nat, digits}
use fungi_transport_ci_test.Errors.{SendError, RecvError}
use fungi_transport_ci_test.Channel.{Channel, into_stream, stream_next}
use fungi_transport_ci_test.Channel.Stream.{Streams, into_stream-Streams}
use fungi_transport_ci_test.Harness.{echo_one_peer, dial_from}
use fungi_transport_ci_test.Harness.Sessions.{Ends, echo_one_peer-Ends}

-- The messages to receive, and those sent.
record Line : Type 0 where
  inbox : List Bytes
  outbox : List Bytes

abbrev line_recv : List Bytes → List Bytes → Result RecvError Bytes × Line
line_recv [] out = (err RecvError.closed, record { inbox = []; outbox = out })
line_recv (m ∷ ms) out = (ok m, record { inbox = ms; outbox = out })

abbrev line : Channel Line
line = record {
  send = λ m c. (ok tt, record c { outbox = c.outbox ++ m ∷ [] });
  recv = λ c. line_recv c.inbox c.outbox;
}

abbrev holds : List Bytes → Line
holds ms = record { inbox = ms; outbox = [] }

abbrev left : Line → ℕ
left c = length c.inbox

hi_echoed :
    dial_from line 0 (codes "hi" ∷ []) (holds (codes "hi" ∷ []))
    ≡ (ok tt, record { inbox = []; outbox = codes "hi" ∷ [] })
unfolding dial_from text_eq
hi_echoed = refl

hi_garbled :
    (dial_from line 0 (codes "hi" ∷ []) (holds (codes "ho!" ∷ []))).0
    ≡ err (codes "echo 0 mismatch: 3 vs 2 bytes")
unfolding dial_from text_eq show_nat digits
hi_garbled = refl

two_back :
    echo_one_peer line 3 (holds (codes "a" ∷ codes "b" ∷ []))
    ≡ some (ok tt, record { inbox = []; outbox = codes "a" ∷ codes "b" ∷ [] })
unfolding echo_one_peer
two_back = refl

streams :
    into_stream line 5 (holds (codes "a" ∷ []), false) ≡ ok (codes "a") ∷ err RecvError.closed ∷ []
unfolding into_stream stream_next
streams = refl

into_stream-Streams_example :
    Streams line 5 (into_stream line 5 (holds (codes "a" ∷ []), false)) (holds (codes "a" ∷ []))
into_stream-Streams_example = into_stream-Streams line 5 (holds (codes "a" ∷ []))

line_less : (c c1 : Line) (m : Bytes) → line.recv c ≡ (ok m, c1) → left c1 < left c
line_less c c1 m h = by_inbox c.inbox h
  where
    size : Result RecvError Bytes × Line → ℕ
    size r = left r.1

    by_inbox : (ms : List Bytes) → line_recv ms c.outbox ≡ (ok m, c1) → left c1 < length ms
    by_inbox [] h = cc
    by_inbox (x ∷ ms) h = omega (arith, ap size h)

line_same : (c c1 : Line) (m : Bytes) → line.send m c ≡ (ok tt, c1) → left c1 ≤ left c
line_same c c1 m h = omega (arith, ap size h)
  where
    size : Result SendError (Unit {0}) × Line → ℕ
    size r = left r.1

echo_one_peer-Ends_example :
    Ends line
      (echo_one_peer line 3 (holds (codes "a" ∷ codes "b" ∷ [])))
      (holds (codes "a" ∷ codes "b" ∷ []))
echo_one_peer-Ends_example =
    echo_one_peer-Ends line left line_less line_same 3 (holds (codes "a" ∷ codes "b" ∷ []))
      (omega arith)
