-- ===== src/Framed/Decode/Channels.antt =====
-- The states of a channel in `recv` of framed.rs: a step keeps what is due on the input.
use fungi_transport_ci_test.Prelude.{
  ◌+◌, ◌≤◌, ◌<◌, ◌≡◌, ◌≢◌, refl, sym, ap, ◌∙◌, [], ◌++◌, length, take, All, Bool, false, ◌==◌, inl,
  inr, arith, append_assoc, length-append, length-take,
}
use fungi_transport_ci_test.Text.{Bytes}
use fungi_transport_ci_test.Io.{ByteStream, IsByte}
use fungi_transport_ci_test.Framed.Buffer.{take-write_at, length-write_at, write_at-IsByte}
use fungi_transport_ci_test.Framed.Invariant.{InHeader, InPayload, input, Truncated, IsValid}
use fungi_transport_ci_test.Framed.{FramedChannel, from_be_bytes, got_header, poison}

module _ {S : Type 0} (io : ByteStream S) where
  pub got_header-input :
      (c : FramedChannel S) (bs : Bytes) (s : S)
      → InHeader c
      → c.header_filled + length bs ≤ length c.header
      → io.unread c.stream ≡ bs ++ io.unread s
      → input io.unread (got_header c bs s) ≡ input io.unread c
  got_header-input c bs s h room next =
      rw (take-write_at c.header c.header_filled bs room, h.none_filled, append_assoc, next) refl

  pub got_header-InHeader :
      {c : FramedChannel S} (bs : Bytes) (s : S)
      → InHeader c
      → c.header_filled + length bs ≤ length c.header
      → All IsByte bs
      → InHeader (got_header c bs s)
  got_header-InHeader {c} bs s h room bytes = record {
    header_len = length-write_at c.header c.header_filled bs room ∙ h.header_len;
    header_bytes = write_at-IsByte c.header c.header_filled bs h.header_bytes bytes;
    header_room = omega arith;
    limit = h.limit;
    no_payload = h.no_payload;
    none_filled = h.none_filled;
  }

  pub moved :
      {c : FramedChannel S} (s : S) (b : Bool)
      → InHeader c
      → InHeader (record c { stream = s; poisoned = b })
  moved s b h = record {
    header_len = h.header_len;
    header_bytes = h.header_bytes;
    header_room = h.header_room;
    limit = h.limit;
    no_payload = h.no_payload;
    none_filled = h.none_filled;
  }

  pub to_InPayload :
      (c : FramedChannel S) (payload : Bytes)
      → IsValid c
      → c.header_filled ≡ 4
      → from_be_bytes c.header ≤ c.max_msg_len
      → length payload ≡ from_be_bytes c.header
      → c.payload_filled ≤ length payload
      → InPayload (from_be_bytes c.header) (record c { payload = payload })
  to_InPayload c payload v whole fits len room = record {
    header_len = v.header_len;
    header_bytes = v.header_bytes;
    header_done = whole;
    limit = v.limit;
    announced = refl;
    payload_len = len;
    room = omega arith;
    bounded = fits;
  }

  pub poison-IsValid : {c : FramedChannel S} → IsValid c → IsValid (poison c)
  poison-IsValid v = record {
    header_len = v.header_len;
    header_bytes = v.header_bytes;
    header_room = v.header_room;
    limit = v.limit;
    payload_state = v.payload_state;
  }

  pub within_payload : (c : FramedChannel S) → IsValid c → c.payload_filled ≤ length c.payload
  within_payload c v = elim v.payload_state [
    | inl (_, unfilled) ↦ omega arith
    | inr (_, _, room, _) ↦ room
  ]

  -- A buffer of another length is one that holds nothing yet.
  pub unsized :
      (c : FramedChannel S)
      → IsValid c
      → (length c.payload == from_be_bytes c.header) ≡ false
      → c.payload_filled ≡ 0
  unsized c v other = elim v.payload_state [
    | inl (_, unfilled) ↦ unfilled
    | inr (_, same, _, _) ↦ absurd (ground arith)
  ]

  pub empty_input :
      (c : FramedChannel S) (payload : Bytes)
      → c.payload_filled ≡ 0
      → input io.unread (record c { payload = payload }) ≡ input io.unread c
  empty_input c payload e = rw e refl

  pub cut_header :
      (c : FramedChannel S)
      → InHeader c
      → c.header_filled < 4
      → io.unread c.stream ≡ []
      → c.header_filled ≢ 0
      → Truncated (input io.unread c)
  cut_header c h more e some_bytes =
      let len : length (input io.unread c) ≡ c.header_filled = omega (
        arith,
        length-append (take c.header_filled c.header)
            (take c.payload_filled c.payload ++ io.unread c.stream),
        length-append (take c.payload_filled c.payload) (io.unread c.stream),
        length-take c.header_filled c.header,
        length-take c.payload_filled c.payload,
        ap length e,
        h.header_len,
        h.none_filled,
      ) in
      (λ none. some_bytes (sym len ∙ ap length none), inl (omega arith))

  pub no_input :
      (c : FramedChannel S)
      → InHeader c
      → c.header_filled ≡ 0
      → io.unread c.stream ≡ []
      → input io.unread c ≡ []
  no_input c h none e = rw (none, h.none_filled, e) refl
