-- ===== src/Framed/Send.antt =====
-- `send` of framed.rs, and a channel that sends to one that receives.
use fungi_transport_ci_test.Prelude.{
  ◌%◌, ◌≤◌, ◌<◌, ◌≡◌, refl, sym, ap, ◌∙◌, [], ◌++◌, length, ltb, Bool-cases, ltb→lt, ltb→le, ◌⊎◌,
  inl, inr, Result, ok, err, append_assoc, append-nil,
}
use fungi_transport_ci_test.Text.{Bytes}
use fungi_transport_ci_test.Errors.{SendError, IoError}
use fungi_transport_ci_test.Io.{ByteStream, WriteDone, Writes, Flushes}
use fungi_transport_ci_test.Framed.Prefix.{frame}
use fungi_transport_ci_test.Framed.{
  FramedChannel, to_be_bytes, u32_mod, map_send_io, flushed, payload_sent, prefix_sent, send,
  with_stream,
}

module _ {S : Type 0} (io : ByteStream S) where
  -- How a `send` of `msg` may end, with `w` written and `u` unread before: all of the frame is out;
  -- or the message is refused whole; or an error of the stream leaves a prefix of the frame out.
  -- Only the stream of the channel changes, and what is to be read stays.
  abbrev pub Sends :
      Bytes → FramedChannel S → Result SendError (Unit {0}) × FramedChannel S → Type 0
  Sends msg c (ok _, c') =
      (length msg ≤ c.max_msg_len)
      × (c' ≡ with_stream c c'.stream)
      × (io.written c'.stream ≡ io.written c.stream ++ frame msg)
      × (io.unread c'.stream ≡ io.unread c.stream)
  Sends msg c (err e, c') =
      ((c.max_msg_len < length msg) × (e ≡ SendError.too_large c.max_msg_len) × (c' ≡ c))
      ⊎ ((length msg ≤ c.max_msg_len)
          × (c' ≡ with_stream c c'.stream)
          × (io.unread c'.stream ≡ io.unread c.stream)
          × ((x : IoError) × (e ≡ map_send_io x))
          × ((sent rest : Bytes) × (frame msg ≡ sent ++ rest)
              × (io.written c'.stream ≡ io.written c.stream ++ sent)))

  module _ (msg : Bytes) (c : FramedChannel S) (fits : length msg ≤ c.max_msg_len) where
    flushed-Sends :
        (s : S) (r : WriteDone S)
        → io.written s ≡ io.written c.stream ++ frame msg
        → io.unread s ≡ io.unread c.stream
        → Flushes io.unread io.written (io.unread s) (io.written s) r
        → Sends msg c (flushed io c r)
    unfolding flushed
    flushed-Sends s (WriteDone.done s') w u law = (fits, refl, law.0 ∙ w, law.1 ∙ u)
    flushed-Sends s (WriteDone.failed e s') w u law =
        inr (
          fits,
          refl,
          law.1 ∙ u,
          (e, refl),
          (frame msg, [], sym (append-nil (frame msg)), law.0 ∙ w),
        )

    payload_sent-Sends :
        (s : S) (r : WriteDone S)
        → io.written s ≡ io.written c.stream ++ to_be_bytes (length msg % u32_mod)
        → io.unread s ≡ io.unread c.stream
        → Writes io.unread io.written (io.unread s) (io.written s) msg r
        → Sends msg c (payload_sent io c r)
    unfolding payload_sent
    payload_sent-Sends s (WriteDone.done s') w u law =
        flushed-Sends s' (io.flush s')
          (law.0
            ∙ ap (λ x. x ++ msg) w
            ∙ append_assoc (io.written c.stream) (to_be_bytes (length msg % u32_mod)) msg)
          (law.1 ∙ u) (io.flush_law s')
    payload_sent-Sends s (WriteDone.failed e s') w u (sent, rest, split, out, same) =
        let head = to_be_bytes (length msg % u32_mod) in
        inr (
          fits,
          refl,
          same ∙ u,
          (e, refl),
          (
            head ++ sent,
            rest,
            ap (◌++◌ head) split ∙ sym (append_assoc head sent rest),
            out ∙ ap (λ x. x ++ sent) w ∙ append_assoc (io.written c.stream) head sent,
          ),
        )

    prefix_sent-Sends :
        (r : WriteDone S)
        → Writes io.unread io.written
            (io.unread c.stream)
            (io.written c.stream)
            (to_be_bytes (length msg % u32_mod))
            r
        → Sends msg c (prefix_sent io msg c r)
    unfolding prefix_sent
    prefix_sent-Sends (WriteDone.done s) law =
        payload_sent-Sends s (io.write_all msg s) law.0 law.1 (io.write_law msg s)
    prefix_sent-Sends (WriteDone.failed e s) (sent, rest, split, out, same) = inr (
      fits,
      refl,
      same,
      (e, refl),
      (sent, rest ++ msg, ap (λ x. x ++ msg) split ∙ append_assoc sent rest msg, out),
    )

  pub send-Sends : (msg : Bytes) (c : FramedChannel S) → Sends msg c (send io msg c)
  unfolding send
  send-Sends msg c = elim (Bool-cases (ltb c.max_msg_len (length msg))) [
    | inl long ↦ rw long (inl (ltb→lt _ _ long, refl, refl))
    | inr fits ↦ rw fits (
        prefix_sent-Sends msg c (ltb→le _ _ fits) _
          (io.write_law (to_be_bytes (length msg % u32_mod)) c.stream))
  ]
