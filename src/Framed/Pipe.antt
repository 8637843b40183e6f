-- ===== src/Framed/Pipe.antt =====
-- Two channels of framed.rs at the ends of a pipe: what one sends is what the other receives.
use fungi_transport_ci_test.Prelude.{
  ℕ, ◌≤◌, ◌≡◌, refl, sym, ap, ◌∙◌, [], ◌∷◌, ◌++◌, length, Bool, false, arith, Result, ok, err,
  append_assoc, append-nil, subst, List, All, Option, none, some,
}
use fungi_transport_ci_test.Text.{Bytes}
use fungi_transport_ci_test.Errors.{SendError}
use fungi_transport_ci_test.Io.{ByteStream, Delivers}
use fungi_transport_ci_test.Framed.Prefix.{frame}
use fungi_transport_ci_test.Framed.Invariant.{IsValid, input}
use fungi_transport_ci_test.Framed.Cancel.{drive}
use fungi_transport_ci_test.Framed.Send.{Sends, send-Sends}
use fungi_transport_ci_test.Framed.Live.{recv-Returns}
use fungi_transport_ci_test.Framed.{FramedChannel, Poll, send, start}

-- Messages on the wire.
abbrev pub frames : List Bytes → Bytes
frames [] = []
frames (m ∷ ms) = frame m ++ frames ms

module _ {S : Type 0} (io : ByteStream S) where
  abbrev pub then_send :
      (FramedChannel S → Option (FramedChannel S))
      → Result SendError (Unit {0}) × FramedChannel S
      → Option (FramedChannel S)
  then_send next (ok _, c) = next c
  then_send next (err e, c) = none

  -- The messages sent one by one; `none` if one fails.
  unfoldable pub send_all : List Bytes → FramedChannel S → Option (FramedChannel S)
  send_all [] c = some c
  send_all (m ∷ ms) c = then_send (send_all ms) (send io m c)

  abbrev pub then_recv :
      (FramedChannel S → Option (List Bytes × FramedChannel S))
      → Poll S
      → Option (List Bytes × FramedChannel S)
  then_recv next (Poll.ready (ok m) c) = elim (next c) [
    | none ↦ none
    | some (ms, c') ↦ some (m ∷ ms, c')
  ]
  then_recv next (Poll.ready (err e) c) = none
  then_recv next (Poll.pending p c) = none
  then_recv next Poll.exhausted = none

  -- As many messages as there are schedules, each received under its own.
  unfoldable pub recv_all :
      List (List Bool) → FramedChannel S → Option (List Bytes × FramedChannel S)
  recv_all [] c = some ([], c)
  recv_all (ws ∷ wss) c = then_recv (recv_all wss) (drive io ws (start io c))

  then_send-written :
      (m : Bytes) (ms : List Bytes) (c c' : FramedChannel S)
      (r : Result SendError (Unit {0}) × FramedChannel S)
      → Sends io m c r
      → then_send (send_all ms) r ≡ some c'
      → ((d : FramedChannel S)
          → send_all ms d ≡ some c'
          → (io.written c'.stream ≡ io.written d.stream ++ frames ms)
            × All (λ x. length x ≤ d.max_msg_len) ms)
      → (io.written c'.stream ≡ io.written c.stream ++ frames (m ∷ ms))
        × All (λ x. length x ≤ c.max_msg_len) (m ∷ ms)
  then_send-written m ms c c' (ok _, d) (fits, same, out, _) e ih =
      let (rest, all) = ih d e in
      (
        rest
            ∙ ap (λ x. x ++ frames ms) out
            ∙ append_assoc (io.written c.stream) (frame m) (frames ms),
        (
          fits,
          subst (λ n. All (λ x. length x ≤ n) ms) (ap (λ (x : FramedChannel S). x.max_msg_len) same)
              all,
        ),
      )
  then_send-written m ms c c' (err x, d) s e ih = cc

  pub send_all-written :
      (ms : List Bytes) (c c' : FramedChannel S)
      → send_all ms c ≡ some c'
      → (io.written c'.stream ≡ io.written c.stream ++ frames ms)
        × All (λ x. length x ≤ c.max_msg_len) ms
  unfolding send_all
  send_all-written [] c c' e = (cc (append-nil (io.written c.stream)), tt)
  send_all-written (m ∷ ms) c c' e =
      then_send-written m ms c c' (send io m c) (send-Sends io m c) e
        (λ d e'. send_all-written ms d c' e')

-- The schedules suffice for streams that wait `k` times, and there is one for each message.
abbrev pub Serves : ℕ → List (List Bool) → List Bytes → Type 0
Serves k [] [] = Unit
Serves k [] (m ∷ ms) = ⊥
Serves k (ws ∷ wss) [] = ⊥
Serves k (ws ∷ wss) (m ∷ ms) = (k ≤ length ws) × Serves k wss ms

module _ {S : Type 0} (io : ByteStream S) (Live : S → Type 0) (wakes : S → ℕ)
    (up : (n : ℕ) (s : S) → Live s → Delivers Live wakes (wakes s) (io.read n s)) where
  recv_all-frames :
      (wss : List (List Bool)) (ms : List Bytes) (rest : Bytes) (k max : ℕ) (c : FramedChannel S)
      → Live c.stream
      → wakes c.stream ≤ k
      → Serves k wss ms
      → IsValid c
      → c.poisoned ≡ false
      → c.max_msg_len ≡ max
      → All (λ x. length x ≤ max) ms
      → input io.unread c ≡ frames ms ++ rest
      → (c' : FramedChannel S) × (recv_all io wss c ≡ some (ms, c')) × (input io.unread c' ≡ rest)
  unfolding recv_all
  recv_all-frames [] [] rest k max c l few serves v live size fit due = (c, refl, due)
  recv_all-frames [] (m ∷ ms) rest k max c l few serves v live size fit due = elim serves [ ]
  recv_all-frames (ws ∷ wss) [] rest k max c l few serves v live size fit due = elim serves [ ]
  recv_all-frames (ws ∷ wss) (m ∷ ms) rest k max c l few serves v live size fit due =
      let (c', got, v', live', behind, _, l', fewer, size') =
        recv-Returns io Live wakes up ws m (frames ms ++ rest) c l (omega arith) v live
          (omega arith) (due ∙ append_assoc (frame m) (frames ms) rest) in
      let (d, rest_got, left) =
        recv_all-frames wss ms rest k max c' l' (omega arith) serves.1 v' live' (size' ∙ size) fit.1
          behind in
      (d, ap (then_recv io (recv_all io wss)) got ∙ got_rest m c' rest_got, left)
    where
      got_rest :
          (m : Bytes) (c' : FramedChannel S) {ms : List Bytes} {d : FramedChannel S}
          → recv_all io wss c' ≡ some (ms, d)
          → then_recv io (recv_all io wss) (Poll.ready (ok m) c') ≡ some (m ∷ ms, d)
      got_rest m c' e = rw (e, then_recv) refl

-- If every `send` of the messages returned `Ok` on a stream that had carried nothing yet, then a
-- receiver at the other end of the pipe, on a valid channel with the same limit and a stream that keeps
-- up, receives exactly these messages, in order, however the bytes are cut up, and however its receives
-- are cancelled and repeated, each woken often enough; nothing is left over.
pub pipe_delivers :
    {R S : Type 0} (out : ByteStream R) (io : ByteStream S) (Live : S → Type 0) (wakes : S → ℕ)
    (up : (n : ℕ) (s : S) → Live s → Delivers Live wakes (wakes s) (io.read n s)) (ms : List Bytes)
    (wss : List (List Bool)) (a a' : FramedChannel R) (b : FramedChannel S)
    → send_all out ms a ≡ some a'
    → out.written a.stream ≡ []
    → input io.unread b ≡ out.written a'.stream
    → a.max_msg_len ≡ b.max_msg_len
    → IsValid b
    → b.poisoned ≡ false
    → Live b.stream
    → Serves (wakes b.stream) wss ms
    → (b' : FramedChannel S) × (recv_all io wss b ≡ some (ms, b')) × (input io.unread b' ≡ [])
pipe_delivers out io Live wakes up ms wss a a' b sent clean due size v live l serves =
    let (written, fit) = send_all-written out ms a a' sent in
    recv_all-frames io Live wakes up wss ms [] (wakes b.stream) a.max_msg_len b l (omega arith)
      serves v live (sym size) fit
      (due ∙ written ∙ ap (λ x. x ++ frames ms) clean ∙ sym (append-nil (frames ms)))
