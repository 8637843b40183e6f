-- ===== src/Channel/Stream.antt =====
-- `into_stream` of crates/fungi-transport/src/channel.rs against a plain sequence of receives.
use fungi_transport_ci_test.Prelude.{
  ℕ, zero, suc, ◌≡◌, refl, ap, List, [], ◌∷◌, ◌++◌, length, ◌<◌, arith, map, ◌⊎◌, inl, inr, true,
  false, Result, ok, err,
}
use fungi_transport_ci_test.Text.{Bytes}
use fungi_transport_ci_test.Errors.{RecvError}
use fungi_transport_ci_test.Channel.{Channel, is_err, stream_next, into_stream}

module _ {C : Type 0} (ch : Channel C) where
  -- From `c`, receives return these messages in turn, and lead to `t`.
  abbrev pub Receives : List Bytes → C → C → Type 0
  Receives [] c t = c ≡ t
  Receives (m ∷ ms) c t = (c1 : C) × (ch.recv c ≡ (ok m, c1)) × Receives ms c1 t

  -- `n` messages, or fewer and then the first error, which is the last item.
  abbrev pub Streams : ℕ → List (Result RecvError Bytes) → C → Type 0
  Streams n items c =
      (ms : List Bytes) × (t : C) × Receives ms c t
      × (((items ≡ map ok ms) × (length ms ≡ n))
          ⊎ ((e : RecvError) × (t' : C) × (ch.recv t ≡ (err e, t'))
              × (items ≡ map ok ms ++ err e ∷ [])
              × (length ms < n)))

  stream_done : (n : ℕ) (c : C) → into_stream ch n (c, true) ≡ []
  unfolding into_stream stream_next
  stream_done zero c = refl
  stream_done (suc n) c = refl

  received-Streams :
      (n : ℕ) (c : C) (r : Result RecvError Bytes × C)
      → ch.recv c ≡ r
      → ((c1 : C) → Streams n (into_stream ch n (c1, false)) c1)
      → Streams (suc n) (r.0 ∷ into_stream ch n (r.1, is_err r.0)) c
  received-Streams n c (ok m, c1) got ih =
      let (ms, t, all, end) = ih c1 in
      (
        m ∷ ms,
        t,
        (c1, got, all),
        elim end [
          | inl (items, len) ↦ inl (ap (◌∷◌ (ok m)) items, omega arith)
          | inr (e, t', failed, items, len) ↦
              inr (e, t', failed, ap (◌∷◌ (ok m)) items, omega arith)
        ],
      )
  received-Streams n c (err e, t) got ih =
      ([], c, refl, inr (e, t, got, ap (◌∷◌ (err e)) (stream_done n t), omega arith))

  -- The stream of a channel gives what receives in turn give, in order: as many messages as are asked
  -- for, or those in front of the first error, then that error, and then it ends.
  pub into_stream-Streams : (n : ℕ) (c : C) → Streams n (into_stream ch n (c, false)) c
  unfolding into_stream stream_next
  into_stream-Streams zero c = ([], c, refl, inl (refl, refl))
  into_stream-Streams (suc n) c = received-Streams n c (ch.recv c) refl (into_stream-Streams n)
