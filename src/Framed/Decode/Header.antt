-- ===== src/Framed/Decode/Header.antt =====
-- The first loop of `recv_inner`, and `recv` as a whole.
use fungi_transport_ci_test.Prelude.{
  ℕ, zero, suc, ◌+◌, ◌-◌, ◌≤◌, ◌<◌, ◌≡◌, refl, sym, ◌∙◌, [], ◌∷◌, length, Bool-cases, true, false,
  subst, ltb, ltb→lt, ltb→le, le→ltb, if-false, ◌==◌, ==_iff, inl, inr, arith,
}
use fungi_transport_ci_test.Io.{ByteStream, ReadPoll, Reads}
use fungi_transport_ci_test.Framed.Invariant.{
  InHeader, InHeader-IsValid, Decodes, input, broken, map_recv_io-Reports, at_end, cut_short,
  IsValid, AtPoint,
}
use fungi_transport_ci_test.Framed.Decode.Payload.{payload_loop-Decodes}
use fungi_transport_ci_test.Framed.{
  FramedChannel, Point, in_header, in_payload, Poll, header_read, header_loop, after_header,
  got_header, with_stream, start, resume,
}
use fungi_transport_ci_test.Framed.Decode.Channels.{
  got_header-input, got_header-InHeader, moved, cut_header, no_input,
}
use fungi_transport_ci_test.Framed.Decode.Sized.{after_header-Decodes}

module _ {S : Type 0} (io : ByteStream S) where
  header_read-Decodes :
      (next : FramedChannel S → Poll S) (c : FramedChannel S) (r : ReadPoll S)
      → InHeader c
      → c.header_filled < 4
      → c.poisoned ≡ false
      → io.read (length c.header - c.header_filled) c.stream ≡ r
      → Reads io.unread io.written
          (io.unread c.stream)
          (io.written c.stream)
          (length c.header - c.header_filled)
          r
      → ((c' : FramedChannel S)
          → InHeader c'
          → c'.poisoned ≡ false
          → c.header_filled < c'.header_filled
          → Decodes io (input io.unread c') c'.max_msg_len (next c'))
      → Decodes io (input io.unread c) c.max_msg_len (header_read next c r)
  unfolding header_read
  header_read-Decodes next c (ReadPoll.pending s) h more live came law ih =
      ((moved io s c.poisoned h, more), refl, live, rw (law.0) refl)
  header_read-Decodes next c (ReadPoll.failed e s) h more live came law ih = (
    InHeader-IsValid (moved io s c.poisoned h),
    refl,
    broken e ((length c.header - c.header_filled), c.stream, came) (map_recv_io-Reports e) live
        (rw (law.0) refl),
  )
  header_read-Decodes next c (ReadPoll.ready [] s) h more live came law ih =
      let ended : io.unread c.stream ≡ [] = law.4 refl (omega (arith, h.header_len)) in
      elim (Bool-cases (c.header_filled == 0)) [
        | inl none ↦
            let zero_filled = (==_iff _ _).0 none in
            rw none (
              InHeader-IsValid (moved io s c.poisoned h),
              refl,
              at_end refl live (no_input io c h zero_filled ended) (
                  no_input io (with_stream c s) (moved io s c.poisoned h) zero_filled
                    (sym law.0 ∙ ended)),
            )
        | inr some_bytes ↦ rw some_bytes (
          InHeader-IsValid (moved io s true h),
          refl,
          cut_short refl refl (cut_header io c h more ended (ground arith)),
        )
      ]
  header_read-Decodes next c (ReadPoll.ready (b ∷ bs) s) h more live came law ih =
      let room : c.header_filled + length (b ∷ bs) ≤ length c.header =
        omega (arith, h.header_len) in
      let c' = got_header c (b ∷ bs) s in
      subst (λ u. Decodes io u c.max_msg_len (next c'))
        (got_header-input io c (b ∷ bs) s h room law.0)
        (ih c' (got_header-InHeader io (b ∷ bs) s h room law.3) live (omega arith))

  header_loop-Decodes :
      (f : ℕ) (c : FramedChannel S)
      → 4 - c.header_filled < f
      → InHeader c
      → c.poisoned ≡ false
      → Decodes io (input io.unread c) c.max_msg_len (header_loop io f c)
  unfolding header_loop
  header_loop-Decodes zero c fuel h live = elim fuel [ ]
  header_loop-Decodes (suc f) c fuel h live = elim (Bool-cases (ltb c.header_filled 4)) [
    | inl more ↦ rw more (
        header_read-Decodes (header_loop io f) c _ h (ltb→lt _ _ more) live refl
          (io.read_law (length c.header - c.header_filled) c.stream)
          (λ c' h' live' grows. header_loop-Decodes f c' (omega arith) h' live'))
    | inr full ↦ rw full (
        after_header-Decodes io c (InHeader-IsValid h)
          (omega (arith, h.header_room, ltb→le _ _ full)) live)
  ]

  pub header_loop_done :
      (c : FramedChannel S) → 4 ≤ c.header_filled → header_loop io 5 c ≡ after_header io c
  unfolding header_loop
  header_loop_done c whole = if-false (ltb c.header_filled 4) _ _ (le→ltb _ _ whole)

  loop-Decodes :
      (c : FramedChannel S)
      → IsValid c
      → c.poisoned ≡ false
      → Decodes io (input io.unread c) c.max_msg_len (header_loop io 5 c)
  loop-Decodes c v live = elim v.payload_state [
    | inl (none, unfilled) ↦
        header_loop-Decodes 5 c (omega arith)
          (record {
            header_len = v.header_len;
            header_bytes = v.header_bytes;
            header_room = v.header_room;
            limit = v.limit;
            no_payload = none;
            none_filled = unfilled;
          })
          live
    | inr (whole, _, _, _) ↦
        subst (Decodes io (input io.unread c) c.max_msg_len)
          (sym (header_loop_done c (omega arith))) (after_header-Decodes io c v whole live)
  ]

  -- On a valid channel that is not poisoned, whatever the stream does: a new `recv` that ends with a
  -- message has taken exactly that message's frame off the input, within the limit. One that waits has
  -- taken nothing, and neither has one that fails by an error that a read of the stream returned, which
  -- is reported as closed if the connection is gone and does not poison the channel. It reports a clean
  -- close only at the end of an empty input, a truncation only on a frame that ends too soon, and an
  -- oversized frame only on a length over the limit, and the last two poison the channel. It never runs
  -- out of rounds.
  pub start-Decodes :
      (c : FramedChannel S)
      → IsValid c
      → c.poisoned ≡ false
      → Decodes io (input io.unread c) c.max_msg_len (start io c)
  unfolding start
  start-Decodes c v live =
      subst (Decodes io (input io.unread c) c.max_msg_len) (sym (if-false c.poisoned _ _ live))
        (loop-Decodes c v live)

  -- The same of a `recv` that goes on where it waits.
  pub resume-Decodes :
      (p : Point) (c : FramedChannel S)
      → AtPoint p c
      → c.poisoned ≡ false
      → Decodes io (input io.unread c) c.max_msg_len (resume io p c)
  unfolding resume
  resume-Decodes in_header c (h, more) live = header_loop-Decodes 5 c (omega arith) h live
  resume-Decodes (in_payload len) c (h, more) live =
      payload_loop-Decodes io len (suc len) c (omega arith) h live
