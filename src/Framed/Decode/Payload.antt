-- ===== src/Framed/Decode/Payload.antt =====
-- The second loop of `recv_inner`, and what is behind it.
use fungi_transport_ci_test.Prelude.{
  ℕ, zero, suc, ◌+◌, ◌-◌, ◌%◌, ◌≤◌, ◌<◌, ◌≡◌, refl, sym, ap, ◌∙◌, [], ◌∷◌, ◌++◌, length, take, Bool,
  Bool-cases, true, false, subst, ltb, ltb→lt, ltb→le, inl, inr, arith, append_assoc, length-append,
  length-take,
}
use fungi_transport_ci_test.Text.{Bytes}
use fungi_transport_ci_test.Io.{ByteStream, ReadPoll, Reads}
use fungi_transport_ci_test.Framed.Prefix.{to_be_bytes-from_be_bytes}
use fungi_transport_ci_test.Framed.Buffer.{take-write_at, length-write_at, take_all}
use fungi_transport_ci_test.Framed.Invariant.{
  InPayload, InPayload-IsValid, Decodes, input, broken, map_recv_io-Reports, cut_short, Truncated,
  IsValid,
}
use fungi_transport_ci_test.Framed.{
  FramedChannel, Poll, from_be_bytes, to_be_bytes, u32_mod, payload_read, payload_loop, deliver,
  got_payload, with_stream,
}

module _ {S : Type 0} (io : ByteStream S) (len : ℕ) where
  -- Bytes of the payload move from the stream to the buffer, and the input stays.
  got_payload-input :
      (c : FramedChannel S) (bs : Bytes) (s : S)
      → c.payload_filled + length bs ≤ length c.payload
      → io.unread c.stream ≡ bs ++ io.unread s
      → input io.unread (got_payload c bs s) ≡ input io.unread c
  got_payload-input c bs s room next =
      ap (◌++◌ (take c.header_filled c.header))
        (rw (take-write_at c.payload c.payload_filled bs room, append_assoc, next) refl)

  got_payload-InPayload :
      {c : FramedChannel S} (bs : Bytes) (s : S)
      → InPayload len c
      → c.payload_filled + length bs ≤ length c.payload
      → InPayload len (got_payload c bs s)
  got_payload-InPayload {c} bs s h room =
      let same : length (got_payload c bs s).payload ≡ length c.payload =
        length-write_at c.payload c.payload_filled bs room in
      record {
        header_len = h.header_len;
        header_bytes = h.header_bytes;
        header_done = h.header_done;
        limit = h.limit;
        announced = h.announced;
        payload_len = same ∙ h.payload_len;
        room = omega arith;
        bounded = h.bounded;
      }

  -- The header, whole, spells the announced length.
  header_spells :
      (c : FramedChannel S) → InPayload len c → take c.header_filled c.header ≡ to_be_bytes len
  header_spells c h =
      take_all c.header_filled c.header (omega arith)
      ∙ sym (to_be_bytes-from_be_bytes c.header h.header_len h.header_bytes)
      ∙ ap to_be_bytes h.announced

  same_input :
      (c : FramedChannel S) (s : S)
      → io.unread s ≡ io.unread c.stream
      → input io.unread (with_stream c s) ≡ input io.unread c
  same_input c s e = rw e refl

  -- Neither the stream nor the poison mark matters.
  moved :
      {c : FramedChannel S} (s : S) (b : Bool)
      → InPayload len c
      → InPayload len (record c { stream = s; poisoned = b })
  moved s b h = record {
    header_len = h.header_len;
    header_bytes = h.header_bytes;
    header_done = h.header_done;
    limit = h.limit;
    announced = h.announced;
    payload_len = h.payload_len;
    room = h.room;
    bounded = h.bounded;
  }

  InPayload-IsEmpty :
      {c : FramedChannel S}
      → InPayload len c
      → IsValid (record c { header_filled = 0; payload_filled = 0; payload = [] })
  InPayload-IsEmpty h = record {
    header_len = h.header_len;
    header_bytes = h.header_bytes;
    header_room = omega arith;
    limit = h.limit;
    payload_state = inl (refl, refl);
  }

  cut_payload :
      (c : FramedChannel S)
      → InPayload len c
      → c.payload_filled < len
      → io.unread c.stream ≡ []
      → Truncated (input io.unread c)
  cut_payload c h more e =
      let header : take c.header_filled c.header ≡ c.header =
        take_all c.header_filled c.header (omega arith) in
      let rest = take c.payload_filled c.payload ++ io.unread c.stream in
      let short : length rest < from_be_bytes c.header = omega (
        arith,
        length-append (take c.payload_filled c.payload) (io.unread c.stream),
        length-take c.payload_filled c.payload,
        ap length e,
      ) in
      (
        λ none. absurd (
            omega (
              arith,
              ap length none,
              length-append (take c.header_filled c.header) rest,
              ap length header,
            )),
        inr (c.header, rest, ap (λ t. t ++ rest) header, h.header_len, short),
      )

  deliver-Decodes :
      (c : FramedChannel S)
      → InPayload len c
      → len ≤ c.payload_filled
      → c.poisoned ≡ false
      → Decodes io (input io.unread c) c.max_msg_len (deliver c)
  deliver-Decodes c h full live = (
    InPayload-IsEmpty h,
    refl,
    live,
    omega arith,
    rw
        (
          header_spells c h,
          take_all c.payload_filled c.payload (omega arith),
          announced_len,
          append_assoc,
        )
        refl,
    refl,
  )
    where
      announced_len : length c.payload % u32_mod ≡ len
      announced_len = omega arith

  payload_read-Decodes :
      (next : FramedChannel S → Poll S) (c : FramedChannel S) (r : ReadPoll S)
      → InPayload len c
      → c.payload_filled < len
      → c.poisoned ≡ false
      → io.read (length c.payload - c.payload_filled) c.stream ≡ r
      → Reads io.unread io.written
          (io.unread c.stream)
          (io.written c.stream)
          (length c.payload - c.payload_filled)
          r
      → ((c' : FramedChannel S)
          → InPayload len c'
          → c'.poisoned ≡ false
          → c.payload_filled < c'.payload_filled
          → Decodes io (input io.unread c') c'.max_msg_len (next c'))
      → Decodes io (input io.unread c) c.max_msg_len (payload_read next len c r)
  unfolding payload_read
  payload_read-Decodes next c (ReadPoll.pending s) h more live came law ih =
      ((moved s c.poisoned h, more), refl, live, same_input c s law.0)
  payload_read-Decodes next c (ReadPoll.failed e s) h more live came law ih = (
    InPayload-IsValid len (moved s c.poisoned h),
    refl,
    broken e ((length c.payload - c.payload_filled), c.stream, came) (map_recv_io-Reports e) live
        (same_input c s law.0),
  )
  payload_read-Decodes next c (ReadPoll.ready [] s) h more live came law ih = (
    InPayload-IsValid len (moved s true h),
    refl,
    cut_short refl refl (cut_payload c h more (law.4 refl (omega arith))),
  )
  payload_read-Decodes next c (ReadPoll.ready (b ∷ bs) s) h more live came law ih =
      let room : c.payload_filled + length (b ∷ bs) ≤ length c.payload = omega arith in
      let c' = got_payload c (b ∷ bs) s in
      subst (λ u. Decodes io u c.max_msg_len (next c')) (got_payload-input c (b ∷ bs) s room law.0)
        (ih c' (got_payload-InPayload (b ∷ bs) s h room) live (omega arith))

  pub payload_loop-Decodes :
      (f : ℕ) (c : FramedChannel S)
      → len - c.payload_filled < f
      → InPayload len c
      → c.poisoned ≡ false
      → Decodes io (input io.unread c) c.max_msg_len (payload_loop io f len c)
  unfolding payload_loop
  payload_loop-Decodes zero c fuel h live = elim fuel [ ]
  payload_loop-Decodes (suc f) c fuel h live = elim (Bool-cases (ltb c.payload_filled len)) [
    | inl more ↦ rw more (
        payload_read-Decodes (payload_loop io f len) c _ h (ltb→lt _ _ more) live refl
          (io.read_law (length c.payload - c.payload_filled) c.stream)
          (λ c' h' live' grows. payload_loop-Decodes f c' (omega arith) h' live'))
    | inr full ↦ rw full (deliver-Decodes c h (ltb→le _ _ full) live)
  ]
