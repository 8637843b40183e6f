-- ===== src/Framed/Cancel.antt =====
-- `recv` of framed.rs is cancel safe: all its state is in the channel.
use fungi_transport_ci_test.Prelude.{
  ℕ, suc, ◌≡◌, refl, ap, ◌∙◌, [], ◌∷◌, length, map, List, Bool, true, false, if◌then◌else◌, ltb,
  le→ltb, ◌==◌, ==_iff, if-true, if-false, arith, subst, ◌≤◌, ok, err, inl, inr,
}
use fungi_transport_ci_test.Text.{Bytes}
use fungi_transport_ci_test.Io.{ByteStream}
use fungi_transport_ci_test.Framed.Invariant.{IsValid, InPayload, AtPoint, Decodes, input}
use fungi_transport_ci_test.Framed.Decode.{header_loop_done, start-Decodes, resume-Decodes}
use fungi_transport_ci_test.Framed.{
  FramedChannel, Point, in_header, in_payload, Poll, payload_loop, after_header, start, resume,
}

module _ {S : Type 0} (io : ByteStream S) where
  -- A future that is awaited: each wake either polls it again, or, if `true`, comes after it was
  -- dropped, and polls a new `recv`.
  unfoldable pub drive : List Bool → Poll S → Poll S
  drive [] r = r
  drive (w ∷ ws) (Poll.pending p c) = drive ws (if w then start io c else resume io p c)
  drive (w ∷ ws) (Poll.ready r c) = Poll.ready r c
  drive (w ∷ ws) Poll.exhausted = Poll.exhausted

  after_header_resumes :
      (len : ℕ) (c : FramedChannel S)
      → InPayload len c
      → after_header io c ≡ payload_loop io (suc len) len c
  unfolding after_header
  after_header_resumes len c h = rw h.announced (
      if-false (ltb c.max_msg_len len) _ _ (le→ltb _ _ h.bounded)
      ∙ ap (payload_loop io (suc len) len)
          (if-true (length c.payload == len) _ _ ((==_iff _ _).1 h.payload_len)))

  start-resume :
      (p : Point) (c : FramedChannel S)
      → AtPoint p c
      → c.poisoned ≡ false
      → start io c ≡ resume io p c
  unfolding start resume
  start-resume in_header c h live = if-false c.poisoned _ _ live
  start-resume (in_payload len) c (h, more) live =
      if-false c.poisoned _ _ live
      ∙ header_loop_done io c (omega (arith, h.header_done))
      ∙ after_header_resumes len c h

  pub poll_again :
      (w : Bool) (p : Point) (c : FramedChannel S)
      → AtPoint p c
      → c.poisoned ≡ false
      → (if w then start io c else resume io p c) ≡ resume io p c
  poll_again true p c h live = start-resume p c h live
  poll_again false p c h live = refl

  drive_cancelled :
      (ws : List Bool) (r : Poll S) (u : Bytes) (max : ℕ)
      → Decodes io u max r
      → drive ws r ≡ drive (map (λ _. false) ws) r
  unfolding drive
  drive_cancelled [] r u max d = refl
  drive_cancelled (w ∷ ws) (Poll.pending p c) u max (h, _, live, _) =
      let r = resume io p c in
      rw (poll_again w p c h live)
        (drive_cancelled ws r (input io.unread c) c.max_msg_len (resume-Decodes io p c h live))
  drive_cancelled (w ∷ ws) (Poll.ready r c) u max d = refl
  drive_cancelled (w ∷ ws) Poll.exhausted u max d = refl

  -- However often a `recv` is dropped while it waits and started anew, the outcome is that of the
  -- `recv` that is awaited throughout: the same message or error, and the same channel.
  pub recv_cancel_safe :
      (ws : List Bool) (c : FramedChannel S)
      → IsValid c
      → c.poisoned ≡ false
      → drive ws (start io c) ≡ drive (map (λ _. false) ws) (start io c)
  recv_cancel_safe ws c v live =
      drive_cancelled ws (start io c) (input io.unread c) c.max_msg_len (start-Decodes io c v live)

  drive-Decodes_from :
      (ws : List Bool) (r : Poll S) (u : Bytes) (max : ℕ)
      → Decodes io u max r
      → Decodes io u max (drive ws r)
  unfolding drive
  drive-Decodes_from [] r u max d = d
  drive-Decodes_from (w ∷ ws) (Poll.pending p c) u max (h, size, live, same) =
      rw (poll_again w p c h live) (
        drive-Decodes_from ws (resume io p c) u max (
          subst (λ x. Decodes io x max (resume io p c)) same
            (subst (λ x. Decodes io (input io.unread c) x (resume io p c)) size
              (resume-Decodes io p c h live))))
  drive-Decodes_from (w ∷ ws) (Poll.ready r c) u max d = d
  drive-Decodes_from (w ∷ ws) Poll.exhausted u max d = d

  -- A `recv` that is awaited and cancelled in any way decodes the input as one poll does: the frame taken
  -- off, the wait with nothing lost, and each failure with its cause, on the input or in a failed read, and
  -- the poison mark just where a frame was cut short or too long.
  pub drive-Decodes :
      (ws : List Bool) (c : FramedChannel S)
      → IsValid c
      → c.poisoned ≡ false
      → Decodes io (input io.unread c) c.max_msg_len (drive ws (start io c))
  drive-Decodes ws c v live =
      drive-Decodes_from ws (start io c) (input io.unread c) c.max_msg_len
        (start-Decodes io c v live)

  -- The buffer for a payload, and a message that comes out, are within `max`.
  abbrev pub WithinLimit : ℕ → Poll S → Type 0
  WithinLimit max (Poll.pending p c) = length c.payload ≤ max
  WithinLimit max (Poll.ready (ok m) c) = (length c.payload ≤ max) × (length m ≤ max)
  WithinLimit max (Poll.ready (err e) c) = length c.payload ≤ max
  WithinLimit max Poll.exhausted = ⊥

  payload-le : (c : FramedChannel S) → IsValid c → length c.payload ≤ c.max_msg_len
  payload-le c v = elim v.payload_state [
    | inl (none, _) ↦ omega (arith, ap length none)
    | inr (_, _, _, bounded) ↦ bounded
  ]

  Decodes-WithinLimit : (u : Bytes) (max : ℕ) (r : Poll S) → Decodes io u max r → WithinLimit max r
  Decodes-WithinLimit u max (Poll.pending in_header c) ((h, _), _, _, _) =
      omega (arith, ap length h.no_payload)
  Decodes-WithinLimit u max (Poll.pending (in_payload len) c) ((h, _), size, _, _) =
      omega (arith, h.payload_len, h.bounded)
  Decodes-WithinLimit u max (Poll.ready (ok m) c) (v, size, _, small, _, _) =
      (omega (arith, payload-le c v), small)
  Decodes-WithinLimit u max (Poll.ready (err e) c) (v, size, _) = omega (arith, payload-le c v)
  Decodes-WithinLimit u max Poll.exhausted d = d

  -- Whatever lengths the peer announces, the buffer that `recv` sizes for a payload never exceeds the
  -- limit of the channel, nor does a message that it returns, however often it is woken or cancelled.
  pub drive-WithinLimit :
      (ws : List Bool) (c : FramedChannel S)
      → IsValid c
      → c.poisoned ≡ false
      → WithinLimit c.max_msg_len (drive ws (start io c))
  drive-WithinLimit ws c v live =
      Decodes-WithinLimit (input io.unread c) c.max_msg_len (drive ws (start io c))
        (drive-Decodes ws c v live)
