-- ===== src/Harness.antt =====
-- crates/fungi-transport/src/harness.rs: the two drivers of a channel, the one that echoes and the one
-- that dials. The channel is a parameter.
pub mod Sessions
pub mod Tests
use fungi_transport_ci_test.Prelude.{
  ℕ, zero, suc, ◌*◌, List, [], ◌∷◌, ◌++◌, length, replicate, Option, none, some, Result, ok, err,
  if◌then◌else◌,
}
use fungi_transport_ci_test.Text.{Bytes, Text, codes, text_eq, show_nat}
use fungi_transport_ci_test.Errors.{SendError, RecvError, show_send_error, show_recv_error}
use fungi_transport_ci_test.Channel.{Channel}

unfoldable pub sequence : List Bytes
sequence = codes "hello over tor" ∷ [] ∷ replicate (64 * 1024) 0xAB ∷ codes "last" ∷ []

abbrev pub step_failed : Text → ℕ → Text → Text
step_failed what i why = what ++ (show_nat i ++ (codes ": " ++ why))

abbrev pub mismatch : ℕ → Bytes → Bytes → Text
mismatch i back msg =
    codes "echo "
    ++ (show_nat i
        ++ (codes " mismatch: "
            ++ (show_nat (length back)
                ++ (codes " vs " ++ (show_nat (length msg) ++ codes " bytes")))))

module _ {C : Type 0} (ch : Channel C) where
  abbrev pub echo_sent :
      (C → Option (Result Text (Unit {0}) × C))
      → Result SendError (Unit {0}) × C
      → Option (Result Text (Unit {0}) × C)
  echo_sent next (ok _, c) = next c
  echo_sent next (err e, c) = some (err (show_send_error e), c)

  abbrev pub echo_got :
      (C → Option (Result Text (Unit {0}) × C))
      → Result RecvError Bytes × C
      → Option (Result Text (Unit {0}) × C)
  echo_got next (ok m, c) = echo_sent next (ch.send m c)
  echo_got next (err e, c) = some (ok tt, c)

  -- The loop, with a bound on its rounds; `none` is a loop that outlives it.
  unfoldable pub echo_one_peer : ℕ → C → Option (Result Text (Unit {0}) × C)
  echo_one_peer zero c = none
  echo_one_peer (suc rounds) c = echo_got (echo_one_peer rounds) (ch.recv c)

  abbrev pub dial_got :
      (C → Result Text (Unit {0}) × C)
      → ℕ
      → Bytes
      → Result RecvError Bytes × C
      → Result Text (Unit {0}) × C
  dial_got next i msg (ok back, c) =
      if text_eq back msg then next c else (err (mismatch i back msg), c)
  dial_got next i msg (err e, c) = (err (step_failed (codes "recv ") i (show_recv_error e)), c)

  abbrev pub dial_sent :
      (C → Result Text (Unit {0}) × C)
      → ℕ
      → Bytes
      → Result SendError (Unit {0}) × C
      → Result Text (Unit {0}) × C
  dial_sent next i msg (ok _, c) = dial_got next i msg (ch.recv c)
  dial_sent next i msg (err e, c) = (err (step_failed (codes "send ") i (show_send_error e)), c)

  -- The loop from message `i` on.
  unfoldable pub dial_from : ℕ → List Bytes → C → Result Text (Unit {0}) × C
  dial_from i [] c = (ok tt, c)
  dial_from i (msg ∷ msgs) c = dial_sent (dial_from (suc i) msgs) i msg (ch.send msg c)

  unfoldable pub dial_sequence : C → Result Text (Unit {0}) × C
  unfolding sequence
  dial_sequence c = dial_from 0 sequence c
