-- ===== src/Harness/Sessions.antt =====
-- What the drivers of crates/fungi-transport/src/harness.rs do with a channel from start to end.
use fungi_transport_ci_test.Prelude.{
  ℕ, zero, suc, ◌≤◌, ◌<◌, ◌≡◌, refl, ap, ◌∙◌, List, [], ◌∷◌, ◌⊎◌, inl, inr, ◌↔◌, Option, some,
  Result, ok, err, Bool-cases, arith, if-true,
}
use fungi_transport_ci_test.Text.{Bytes, Text, text_eq, text_eq_sound, text_eq_refl}
use fungi_transport_ci_test.Errors.{SendError, RecvError, show_send_error}
use fungi_transport_ci_test.Channel.{Channel}
use fungi_transport_ci_test.Harness.{
  sequence, echo_sent, echo_got, echo_one_peer, dial_got, dial_sent, dial_from, dial_sequence,
}

module _ {C : Type 0} (ch : Channel C) where
  -- Each message was sent, and the next receive returned it.
  abbrev pub Echoed : List Bytes → C → C → Type 0
  Echoed [] c t = c ≡ t
  Echoed (m ∷ ms) c t =
      (c1 c2 : C) × (ch.send m c ≡ (ok tt, c1)) × (ch.recv c1 ≡ (ok m, c2)) × Echoed ms c2 t

  dial_got-ok :
      (next : C → Result Text (Unit {0}) × C) (i : ℕ) (msg : Bytes) (r : Result RecvError Bytes × C)
      (t : C)
      → dial_got ch next i msg r ≡ (ok tt, t)
      → (c : C) × (r ≡ (ok msg, c)) × (next c ≡ (ok tt, t))
  dial_got-ok next i msg (ok back, c) t h = elim (Bool-cases (text_eq back msg)) [
    | inl e ↦ (c, ap (λ m. (ok m, c)) (text_eq_sound back msg e), rw e at h)
    | inr e ↦ cc (rw e at h)
  ]
  dial_got-ok next i msg (err e, c) t h = cc

  dial_sent-ok :
      (next : C → Result Text (Unit {0}) × C) (i : ℕ) (msg : Bytes)
      (r : Result SendError (Unit {0}) × C) (t : C)
      → dial_sent ch next i msg r ≡ (ok tt, t)
      → (c1 c2 : C) × (r ≡ (ok tt, c1)) × (ch.recv c1 ≡ (ok msg, c2)) × (next c2 ≡ (ok tt, t))
  dial_sent-ok next i msg (ok _, c) t h =
      let (c2, got, on) = dial_got-ok next i msg (ch.recv c) t h in (c, c2, refl, got, on)
  dial_sent-ok next i msg (err e, c) t h = cc

  dial_from-ok :
      (i : ℕ) (msgs : List Bytes) (c t : C) → dial_from ch i msgs c ≡ (ok tt, t) → Echoed msgs c t
  unfolding dial_from
  dial_from-ok i [] c t h = cc
  dial_from-ok i (msg ∷ msgs) c t h =
      let (c1, c2, sent, got, on) =
        dial_sent-ok (dial_from ch (suc i) msgs) i msg (ch.send msg c) t h in
      (c1, c2, sent, got, dial_from-ok (suc i) msgs c2 t on)

  dial_from-Echoed :
      (i : ℕ) (msgs : List Bytes) (c t : C) → Echoed msgs c t → dial_from ch i msgs c ≡ (ok tt, t)
  unfolding dial_from
  dial_from-Echoed i [] c t h = ap (λ x. (ok tt, x)) h
  dial_from-Echoed i (msg ∷ msgs) c t (c1, c2, sent, got, rest) =
      let next = dial_from ch (suc i) msgs in
      ap (dial_sent ch next i msg) sent
      ∙ ap (dial_got ch next i msg) got
      ∙ if-true (text_eq msg msg) _ _ (text_eq_refl msg)
      ∙ dial_from-Echoed (suc i) msgs c2 t rest

  -- The dialler succeeds exactly if each message of its sequence was sent, and the next receive
  -- returned that message unchanged.
  pub dial_sequence-Echoed : (c t : C) → (dial_sequence ch c ≡ (ok tt, t)) ↔ Echoed sequence c t
  unfolding dial_sequence
  dial_sequence-Echoed c t = (dial_from-ok 0 sequence c t, dial_from-Echoed 0 sequence c t)

  -- How an echo session goes on from `c`: each of these messages was received and sent back, and then a
  -- receive failed, which ends the session well, or a message could not be sent back.
  abbrev pub Session : List Bytes → Result Text (Unit {0}) → C → C → Type 0
  Session [] r c t =
      ((e : RecvError) × (ch.recv c ≡ (err e, t)) × (r ≡ ok tt))
      ⊎ ((m : Bytes) × (c1 : C) × (e : SendError) × (ch.recv c ≡ (ok m, c1))
          × (ch.send m c1 ≡ (err e, t))
          × (r ≡ err (show_send_error e)))
  Session (m ∷ ms) r c t =
      (c1 c2 : C) × (ch.recv c ≡ (ok m, c1)) × (ch.send m c1 ≡ (ok tt, c2)) × Session ms r c2 t

  abbrev pub Ends : Option (Result Text (Unit {0}) × C) → C → Type 0
  Ends out c =
      (ms : List Bytes) × (r : Result Text (Unit {0})) × (t : C) × (out ≡ some (r, t))
      × Session ms r c t

  module _ (left : C → ℕ)
      (recv_less : (c c1 : C) (m : Bytes) → ch.recv c ≡ (ok m, c1) → left c1 < left c)
      (send_same : (c c1 : C) (m : Bytes) → ch.send m c ≡ (ok tt, c1) → left c1 ≤ left c) where
    echo_sent-Ends :
        (next : C → Option (Result Text (Unit {0}) × C)) (c c1 : C) (m : Bytes)
        (r : Result SendError (Unit {0}) × C)
        → ch.recv c ≡ (ok m, c1)
        → ch.send m c1 ≡ r
        → ((c2 : C) → left c2 < left c → Ends (next c2) c2)
        → Ends (echo_sent ch next r) c
    echo_sent-Ends next c c1 m (ok tt, c2) got sent ih =
        let (ms, r, t, e, session) =
          ih c2 (omega (arith, recv_less c c1 m got, send_same c1 c2 m sent)) in
        (m ∷ ms, r, t, e, (c1, c2, got, sent, session))
    echo_sent-Ends next c c1 m (err e, t) got sent ih =
        ([], err (show_send_error e), t, refl, inr (m, c1, e, got, sent, refl))

    echo_got-Ends :
        (next : C → Option (Result Text (Unit {0}) × C)) (c : C) (r : Result RecvError Bytes × C)
        → ch.recv c ≡ r
        → ((c2 : C) → left c2 < left c → Ends (next c2) c2)
        → Ends (echo_got ch next r) c
    echo_got-Ends next c (ok m, c1) got ih = echo_sent-Ends next c c1 m (ch.send m c1) got refl ih
    echo_got-Ends next c (err e, t) got ih = ([], ok tt, t, refl, inl (e, got, refl))

    -- If only so many messages are left to receive, and sending adds none, then that many rounds and
    -- one more end the echo loop, and it has done what it is for: it sent each message back that it
    -- received, in order, until a receive failed, or a message could not be sent back.
    pub echo_one_peer-Ends :
        (rounds : ℕ) (c : C) → left c < rounds → Ends (echo_one_peer ch rounds c) c
    unfolding echo_one_peer
    echo_one_peer-Ends zero c few = absurd (omega arith)
    echo_one_peer-Ends (suc rounds) c few =
        echo_got-Ends (echo_one_peer ch rounds) c (ch.recv c) refl
          (λ c2 less. echo_one_peer-Ends rounds c2 (omega arith))
