-- ===== src/Framed/Live.antt =====
-- `recv` of framed.rs returns: on a stream that keeps up, each message comes out.
use fungi_transport_ci_test.Prelude.{
  append_cancel, ℕ, ◌%◌, ◌≤◌, ◌<◌, ◌≡◌, ◌≢◌, refl, sym, ap, ◌∙◌, [], ◌∷◌, ◌++◌, length, List, Bool,
  true, false, subst, ◌⊎◌, inl, inr, arith, Result, ok, err, length-append, append_assoc,
}
use fungi_transport_ci_test.Text.{Bytes}
use fungi_transport_ci_test.Io.{ByteStream, Delivers}
use fungi_transport_ci_test.Errors.{RecvError}
use fungi_transport_ci_test.Framed.Prefix.{
  frame, frame-injective, to_be_bytes-injective, length-to_be_bytes, from_be_bytes-to_be_bytes,
}
use fungi_transport_ci_test.Framed.Invariant.{
  IsValid, AtPoint, Decodes, input, Failure, broken, at_end, cut_short, too_long, Truncated,
}
use fungi_transport_ci_test.Framed.Decode.{start-Decodes, resume-Decodes}
use fungi_transport_ci_test.Framed.Cancel.{drive, poll_again}
use fungi_transport_ci_test.Framed.{
  FramedChannel, Point, Poll, from_be_bytes, to_be_bytes, u32_mod, start, resume,
}
use fungi_transport_ci_test.Framed.Lasts.{Lasts, start-Lasts, resume-Lasts}

-- The frame of a message is not one that ends too soon.
not-Truncated : (m rest : Bytes) → length m < u32_mod → ¬ Truncated (frame m ++ rest)
not-Truncated m rest fits (_, inl short) = absurd (
    omega (
      arith,
      length-append (frame m) rest,
      length-append (to_be_bytes (length m % u32_mod)) m,
      length-to_be_bytes (length m % u32_mod),
    ))
not-Truncated m rest fits (_, inr (h, r, e, len, short)) =
    let (same, behind) =
      append_cancel (to_be_bytes (length m % u32_mod)) h (m ++ rest) r
        (length-to_be_bytes (length m % u32_mod) ∙ sym len)
        (sym (append_assoc (to_be_bytes (length m % u32_mod)) m rest) ∙ e) in
    absurd (
      omega (
        arith,
        ap from_be_bytes same,
        from_be_bytes-to_be_bytes (length m % u32_mod) (omega arith),
        ap length behind,
        length-append m rest,
      ))

module _ {S : Type 0} (io : ByteStream S) (Live : S → Type 0) (wakes : S → ℕ)
    (up : (n : ℕ) (s : S) → Live s → Delivers Live wakes (wakes s) (io.read n s)) where
  -- What a `recv` comes to, if the input begins with the frame of `msg`: the message, and a channel
  -- before the next frame whose stream still keeps up.
  abbrev pub Returns : Bytes → Bytes → ℕ → ℕ → Poll S → Type 0
  Returns msg rest max k r =
      (c : FramedChannel S) × (r ≡ Poll.ready (ok msg) c)
      × IsValid c
      × (c.poisoned ≡ false)
      × (input io.unread c ≡ rest)
      × (c.header_filled ≡ 0)
      × Live c.stream
      × (wakes c.stream ≤ k)
      × (c.max_msg_len ≡ max)

  Returns-mono :
      {msg rest : Bytes} (max j k : ℕ) {r : Poll S}
      → j ≤ k
      → Returns msg rest max j r
      → Returns msg rest max k r
  Returns-mono max j k h (c, e, v, live, same, none, l, fewer, limit) =
      (c, e, v, live, same, none, l, omega arith, limit)

  frame-ne-nil : (msg rest : Bytes) → frame msg ++ rest ≢ []
  frame-ne-nil msg rest e = absurd (
      omega (
        arith,
        ap length e,
        length-append (frame msg) rest,
        length-append (to_be_bytes (length msg % u32_mod)) msg,
        length-to_be_bytes (length msg % u32_mod),
      ))

  ended_input :
      (c : FramedChannel S)
      → IsValid c
      → io.unread c.stream ≡ []
      → c.header_filled ≡ 0
      → input io.unread c ≡ []
  ended_input c v ended none =
      let unfilled : c.payload_filled ≡ 0 = elim v.payload_state [
        | inl (_, zero_filled) ↦ zero_filled
        | inr (whole, _, _, _) ↦ absurd (omega arith)
      ] in
      rw (none, unfilled, ended) refl

  no-Failure :
      (msg rest : Bytes) (max : ℕ) (e : RecvError) (c : FramedChannel S)
      → length msg ≤ max
      → max < u32_mod
      → IsValid c
      → Failure io (frame msg ++ rest) max e c
      → (c.poisoned ≡ true) ⊎ ((io.unread c.stream ≡ []) × (c.header_filled ≡ 0))
      → ⊥
  no-Failure msg rest max e c fits small v (broken x _ _ live same) (inl dead) = cc
  no-Failure msg rest max e c fits small v (broken x _ _ live same) (inr (ended, none)) =
      frame-ne-nil msg rest (sym same ∙ ended_input c v ended none)
  no-Failure msg rest max e c fits small v (at_end _ _ none _) l = frame-ne-nil msg rest none
  no-Failure msg rest max e c fits small v (cut_short _ _ cut) l =
      not-Truncated msg rest (omega arith) cut
  no-Failure msg rest max e c fits small v (too_long len r _ _ same long u32) l =
      let (lens, _) =
        to_be_bytes-injective (length msg % u32_mod) len (msg ++ rest) r (omega arith) u32
          (sym (append_assoc (to_be_bytes (length msg % u32_mod)) msg rest) ∙ same) in
      absurd (omega arith)

  drive_ready :
      (ws : List Bool) (r : Result RecvError Bytes) (c : FramedChannel S)
      → drive io ws (Poll.ready r c) ≡ Poll.ready r c
  unfolding drive
  drive_ready [] r c = refl
  drive_ready (w ∷ ws) r c = refl

  drive_pending :
      (w : Bool) (ws : List Bool) (p : Point) (c : FramedChannel S)
      → AtPoint p c
      → c.poisoned ≡ false
      → drive io (w ∷ ws) (Poll.pending p c) ≡ drive io ws (resume io p c)
  unfolding drive
  drive_pending w ws p c h live = ap (drive io ws) (poll_again io w p c h live)

  drive-Returns :
      (ws : List Bool) (msg rest : Bytes) (k max : ℕ) (r : Poll S)
      → length msg ≤ max
      → max < u32_mod
      → k ≤ length ws
      → Decodes io (frame msg ++ rest) max r
      → Lasts io Live wakes k r
      → Returns msg rest max k (drive io ws r)
  drive-Returns ws msg rest k max (Poll.ready (ok m) c) fits small enough d l =
      let (v, limit, live, bounded, same, none) = d in
      let (msg_eq, rest_eq) =
        frame-injective msg m rest (input io.unread c) (omega arith) (omega arith) same in
      (
        c,
        drive_ready ws (ok m) c ∙ ap (λ x. Poll.ready (ok x) c) (sym msg_eq),
        v,
        live,
        sym rest_eq,
        none,
        l.0,
        l.1,
        limit,
      )
  drive-Returns ws msg rest k max (Poll.ready (err e) c) fits small enough d l =
      absurd (no-Failure msg rest max e c fits small d.0 d.2 l)
  drive-Returns ws msg rest k max Poll.exhausted fits small enough d l = elim d [ ]
  drive-Returns [] msg rest k max (Poll.pending p c) fits small enough d l = absurd (omega arith)
  drive-Returns (w ∷ ws) msg rest k max (Poll.pending p c) fits small enough (h, size, live, same)
        l =
      let again : Decodes io (frame msg ++ rest) max (resume io p c) =
        subst (λ x. Decodes io x max (resume io p c)) same
          (subst (λ x. Decodes io (input io.unread c) x (resume io p c)) size
            (resume-Decodes io p c h live)) in
      subst (Returns msg rest max k) (sym (drive_pending w ws p c h live)) (
        Returns-mono max (wakes c.stream) k (omega arith) (
          drive-Returns ws msg rest (wakes c.stream) max (resume io p c) fits small (omega arith)
            again (resume-Lasts io Live wakes up p c l.0 h)))

  -- On a stream that keeps up, if a frame within the limit is due, then `recv` returns its message,
  -- and what follows the frame stays. It is enough to wake it as often as the stream can make it
  -- wait, and it does not matter at which wakes it was dropped and called again.
  pub recv-Returns :
      (ws : List Bool) (msg rest : Bytes) (c : FramedChannel S)
      → Live c.stream
      → wakes c.stream ≤ length ws
      → IsValid c
      → c.poisoned ≡ false
      → length msg ≤ c.max_msg_len
      → input io.unread c ≡ frame msg ++ rest
      → Returns msg rest c.max_msg_len (wakes c.stream) (drive io ws (start io c))
  recv-Returns ws msg rest c l enough v live fits due =
      drive-Returns ws msg rest (wakes c.stream) c.max_msg_len (start io c) fits v.limit enough
        (subst (λ u. Decodes io u c.max_msg_len (start io c)) due (start-Decodes io c v live))
        (start-Lasts io Live wakes up c l v live)
