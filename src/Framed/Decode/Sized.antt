-- ===== src/Framed/Decode/Sized.antt =====
-- The check of the announced length in `recv_inner` of framed.rs, and the buffer it sizes.
use fungi_transport_ci_test.Prelude.{
  suc, ◌≤◌, ◌≡◌, refl, sym, ap, ◌∙◌, ◌++◌, length, take, Bool-cases, false, subst, ltb, ltb→lt,
  ltb→le, ◌==◌, ==_iff, inl, inr, arith,
}
use fungi_transport_ci_test.Io.{ByteStream}
use fungi_transport_ci_test.Framed.Prefix.{to_be_bytes-from_be_bytes, from_be_bytes-lt}
use fungi_transport_ci_test.Framed.Buffer.{take_all, length-resize}
use fungi_transport_ci_test.Framed.Invariant.{Decodes, input, too_long, IsValid}
use fungi_transport_ci_test.Framed.Decode.Payload.{payload_loop-Decodes}
use fungi_transport_ci_test.Framed.{
  FramedChannel, from_be_bytes, to_be_bytes, payload_loop, after_header, sized, resize,
}
use fungi_transport_ci_test.Framed.Decode.Channels.{
  to_InPayload, poison-IsValid, within_payload, unsized, empty_input,
}

module _ {S : Type 0} (io : ByteStream S) where
  -- The code sizes the buffer and enters the second loop; the input stays.
  sized-Decodes :
      (c : FramedChannel S)
      → IsValid c
      → c.header_filled ≡ 4
      → c.poisoned ≡ false
      → from_be_bytes c.header ≤ c.max_msg_len
      → let len = from_be_bytes c.header in
        Decodes io (input io.unread c) c.max_msg_len (payload_loop io (suc len) len (sized c len))
  sized-Decodes c v whole live fits =
      let len = from_be_bytes c.header in
      elim (Bool-cases (length c.payload == len)) [
        | inl same ↦ rw same (
            payload_loop-Decodes io len (suc len) c (omega arith)
              (to_InPayload io c c.payload v whole fits ((==_iff _ _).0 same)
                (within_payload io c v))
              live)
        | inr other ↦
            let unfilled = unsized io c v other in
            let c' = record c { payload = resize c.payload len } in
            let sized_len = length-resize c.payload len in
            rw other (
              subst (λ u. Decodes io u c.max_msg_len (payload_loop io (suc len) len c'))
                (empty_input io c (resize c.payload len) unfilled)
                (payload_loop-Decodes io len (suc len) c' (omega arith)
                  (to_InPayload io c (resize c.payload len) v whole fits sized_len (omega arith))
                  live))
      ]

  whole_header :
      (c : FramedChannel S)
      → IsValid c
      → c.header_filled ≡ 4
      → take c.header_filled c.header ≡ to_be_bytes (from_be_bytes c.header)
  whole_header c v whole =
      take_all c.header_filled c.header (omega (arith, v.header_len))
      ∙ sym (to_be_bytes-from_be_bytes c.header v.header_len v.header_bytes)

  -- From the check of the length on.
  pub after_header-Decodes :
      (c : FramedChannel S)
      → IsValid c
      → c.header_filled ≡ 4
      → c.poisoned ≡ false
      → Decodes io (input io.unread c) c.max_msg_len (after_header io c)
  unfolding after_header
  after_header-Decodes c v whole live =
      let len = from_be_bytes c.header in
      elim (Bool-cases (ltb c.max_msg_len len)) [
        | inl long ↦ rw long (
          poison-IsValid io v,
          refl,
          too_long len (take c.payload_filled c.payload ++ io.unread c.stream) refl refl
              (ap (λ t. t ++ (take c.payload_filled c.payload ++ io.unread c.stream))
                (whole_header c v whole))
              (ltb→lt _ _ long) (from_be_bytes-lt c.header v.header_bytes),
        )
        | inr fits ↦ rw fits (sized-Decodes c v whole live (ltb→le _ _ fits))
      ]
