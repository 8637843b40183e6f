-- ===== src/Channel.antt =====
-- crates/fungi-transport/src/channel.rs: the interface of a channel, the parameters of a listener, and a
-- channel as a stream of its messages.
pub mod Stream
use fungi_transport_ci_test.Prelude.{
  ℕ, zero, suc, List, [], ◌∷◌, Option, none, some, Bool, true, false, Result, ok, err,
}
use fungi_transport_ci_test.Text.{Bytes, Text}
use fungi_transport_ci_test.Errors.{SendError, RecvError}

-- The trait `Channel`, with its futures awaited to the end.
pub record Channel (C : Type 0) : Type 0 where
  pub send : Bytes → C → Result SendError (Unit {0}) × C
  pub recv : C → Result RecvError Bytes × C

pub record ListenParams : Type 0 where
  pub virt_port : ℕ
  pub nickname : Option Text

-- `ListenParams::new` and `with_nickname`.
unfoldable pub listen_params : ℕ → ListenParams
listen_params virt_port = record { virt_port = virt_port; nickname = none }

unfoldable pub with_nickname : Text → ListenParams → ListenParams
with_nickname nickname p = record p { nickname = some nickname }

abbrev pub is_err : {E A : Type 0} → Result E A → Bool
is_err (ok a) = false
is_err (err e) = true

module _ {C : Type 0} (ch : Channel C) where
  -- The step of the stream that `into_stream` unfolds: the channel, and whether it is done.
  unfoldable pub stream_next : C × Bool → Option (Result RecvError Bytes × (C × Bool))
  stream_next (c, true) = none
  stream_next (c, false) = let (item, c') = ch.recv c in some (item, (c', is_err item))

  abbrev pub collect :
      (C × Bool → List (Result RecvError Bytes))
      → Option (Result RecvError Bytes × (C × Bool))
      → List (Result RecvError Bytes)
  collect rest none = []
  collect rest (some (item, s)) = item ∷ rest s

  -- The first items of the stream, `n` at most.
  unfoldable pub into_stream : ℕ → C × Bool → List (Result RecvError Bytes)
  into_stream zero s = []
  into_stream (suc n) s = collect (into_stream n) (stream_next s)
