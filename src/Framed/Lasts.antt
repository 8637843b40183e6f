-- ===== src/Framed/Lasts.antt =====
-- The polls of `recv` of framed.rs on a stream that keeps up: they wait less often each time.
use fungi_transport_ci_test.Prelude.{
  ℕ, zero, suc, ◌+◌, ◌-◌, ◌≤◌, ◌<◌, ◌≡◌, refl, sym, ◌∙◌, [], ◌∷◌, length, true, false, subst, ◌==◌,
  ==_iff, ltb, if-false, Bool-cases, ◌⊎◌, inl, inr, arith, ok, err, ltb→lt,
}
use fungi_transport_ci_test.Io.{ByteStream, ReadPoll, Reads, Delivers}
use fungi_transport_ci_test.Framed.Buffer.{length-write_at}
use fungi_transport_ci_test.Framed.Invariant.{IsValid, AtPoint}
use fungi_transport_ci_test.Framed.{
  FramedChannel, Point, in_header, in_payload, Poll, from_be_bytes, payload_loop, payload_read,
  header_read, got_header, header_loop, after_header, start, resume,
}

module _ {S : Type 0} (io : ByteStream S) (Live : S → Type 0) (wakes : S → ℕ) where
  -- A poll on such a stream: it waits less often each time, and does not fail by an error of it.
  abbrev pub Lasts : ℕ → Poll S → Type 0
  Lasts k (Poll.pending p c) = Live c.stream × (wakes c.stream < k)
  Lasts k (Poll.ready (ok m) c) = Live c.stream × (wakes c.stream ≤ k)
  Lasts k (Poll.ready (err e) c) =
      (c.poisoned ≡ true) ⊎ ((io.unread c.stream ≡ []) × (c.header_filled ≡ 0))
  Lasts k Poll.exhausted = Unit

module _ {S : Type 0} (io : ByteStream S) (Live : S → Type 0) (wakes : S → ℕ)
    (up : (n : ℕ) (s : S) → Live s → Delivers Live wakes (wakes s) (io.read n s)) where
  Lasts-mono : (j k : ℕ) (r : Poll S) → j ≤ k → Lasts io Live wakes j r → Lasts io Live wakes k r
  Lasts-mono j k (Poll.pending p c) h (l, w) = (l, omega arith)
  Lasts-mono j k (Poll.ready (ok m) c) h (l, w) = (l, omega arith)
  Lasts-mono j k (Poll.ready (err e) c) h l = l
  Lasts-mono j k Poll.exhausted h l = tt

  payload_read-Lasts :
      (next : FramedChannel S → Poll S) (len : ℕ) (c : FramedChannel S) (r : ReadPoll S)
      → ((c' : FramedChannel S) → Live c'.stream → Lasts io Live wakes (wakes c'.stream) (next c'))
      → Delivers Live wakes (wakes c.stream) r
      → Lasts io Live wakes (wakes c.stream) (payload_read next len c r)
  unfolding payload_read
  payload_read-Lasts next len c (ReadPoll.pending s) ih d = d
  payload_read-Lasts next len c (ReadPoll.failed e s) ih d = elim d [ ]
  payload_read-Lasts next len c (ReadPoll.ready [] s) ih d = inl refl
  payload_read-Lasts next len c (ReadPoll.ready (b ∷ bs) s) ih (l, w) = Lasts-mono _ _ _ w (ih _ l)

  payload_loop-Lasts :
      (f len : ℕ) (c : FramedChannel S)
      → Live c.stream
      → Lasts io Live wakes (wakes c.stream) (payload_loop io f len c)
  unfolding payload_loop
  payload_loop-Lasts zero len c l = tt
  payload_loop-Lasts (suc f) len c l = elim (Bool-cases (ltb c.payload_filled len)) [
    | inl more ↦ rw more (
        payload_read-Lasts (payload_loop io f len) len c _ (payload_loop-Lasts f len)
          (up (length c.payload - c.payload_filled) c.stream l))
    | inr full ↦ rw full (l, omega arith)
  ]

  after_header-Lasts :
      (c : FramedChannel S)
      → Live c.stream
      → Lasts io Live wakes (wakes c.stream) (after_header io c)
  unfolding after_header
  after_header-Lasts c l =
      let len = from_be_bytes c.header in
      elim (Bool-cases (ltb c.max_msg_len len)) [
        | inl long ↦ rw long (inl refl)
        | inr fits ↦ rw fits (elim (Bool-cases (length c.payload == len)) [
          | inl same ↦ rw same (payload_loop-Lasts (suc len) len c l)
          | inr other ↦ rw other (payload_loop-Lasts (suc len) len _ l)
        ])
      ]

  header_read-Lasts :
      (next : FramedChannel S → Poll S) (c : FramedChannel S) (r : ReadPoll S)
      → length c.header ≡ 4
      → c.header_filled < 4
      → Reads io.unread io.written
          (io.unread c.stream)
          (io.written c.stream)
          (length c.header - c.header_filled)
          r
      → Delivers Live wakes (wakes c.stream) r
      → ((c' : FramedChannel S)
          → Live c'.stream
          → length c'.header ≡ 4
          → c'.header_filled ≤ 4
          → Lasts io Live wakes (wakes c'.stream) (next c'))
      → Lasts io Live wakes (wakes c.stream) (header_read next c r)
  unfolding header_read
  header_read-Lasts next c (ReadPoll.pending s) len more law d ih = d
  header_read-Lasts next c (ReadPoll.failed e s) len more law d ih = elim d [ ]
  header_read-Lasts next c (ReadPoll.ready [] s) len more law d ih =
      elim (Bool-cases (c.header_filled == 0)) [
        | inl none ↦
            rw none (inr (sym law.0 ∙ law.4 refl (omega arith), (==_iff c.header_filled 0).0 none))
        | inr some_bytes ↦ rw some_bytes (inl refl)
      ]
  header_read-Lasts next c (ReadPoll.ready (b ∷ bs) s) len more law (l, w) ih =
      let c' = got_header c (b ∷ bs) s in
      let room : c.header_filled + length (b ∷ bs) ≤ length c.header = omega arith in
      Lasts-mono _ _ _ w
        (ih c' l (length-write_at c.header c.header_filled (b ∷ bs) room ∙ len) (omega arith))

  header_loop-Lasts :
      (f : ℕ) (c : FramedChannel S)
      → Live c.stream
      → length c.header ≡ 4
      → c.header_filled ≤ 4
      → Lasts io Live wakes (wakes c.stream) (header_loop io f c)
  unfolding header_loop
  header_loop-Lasts zero c l len filled = tt
  header_loop-Lasts (suc f) c l len filled = elim (Bool-cases (ltb c.header_filled 4)) [
    | inl more ↦ rw more (
        header_read-Lasts (header_loop io f) c _ len (ltb→lt _ _ more)
          (io.read_law (length c.header - c.header_filled) c.stream)
          (up (length c.header - c.header_filled) c.stream l) (header_loop-Lasts f))
    | inr full ↦ rw full (after_header-Lasts c l)
  ]

  pub start-Lasts :
      (c : FramedChannel S)
      → Live c.stream
      → IsValid c
      → c.poisoned ≡ false
      → Lasts io Live wakes (wakes c.stream) (start io c)
  unfolding start
  start-Lasts c l v live =
      subst (Lasts io Live wakes (wakes c.stream)) (sym (if-false c.poisoned _ _ live))
        (header_loop-Lasts 5 c l v.header_len v.header_room)

  pub resume-Lasts :
      (p : Point) (c : FramedChannel S)
      → Live c.stream
      → AtPoint p c
      → Lasts io Live wakes (wakes c.stream) (resume io p c)
  unfolding resume
  resume-Lasts in_header c l (h, _) = header_loop-Lasts 5 c l h.header_len h.header_room
  resume-Lasts (in_payload len) c l _ = payload_loop-Lasts (suc len) len c l
