-- ===== src/Socks5/Connect.antt =====
-- `connect` of socks5.rs as a whole: soundness on any stream, and the outcome on one that works.
use fungi_transport_ci_test.Prelude.{
  ℕ, ◌≤◌, ◌<◌, ◌≡◌, ◌≢◌, refl, sym, ap, ◌∙◌, ◌∷◌, ◌++◌, length, true, inl, inr, Result, ok, err,
  ltb, ltb→lt, ltb→le, le→ltb, lt→ltb, Bool-cases, if-true, if-false,
}
use fungi_transport_ci_test.Text.{Bytes, Text, codes, as_bytes}
use fungi_transport_ci_test.Errors.{ConnectError, IoError}
use fungi_transport_ci_test.Io.Socket.{Socket}
use fungi_transport_ci_test.Action.{Action, then, ◌>>=◌, >>=-run}
use fungi_transport_ci_test.Socks5.Bound.{Bound}
use fungi_transport_ci_test.Socks5.Reply.{handshake-ok}
use fungi_transport_ci_test.Socks5.Classify.{handshake-unreachable}
use fungi_transport_ci_test.Socks5.Complete.{
  IsSteady, after_ask, skip_bound_runs, check_code_refuses, Verdict,
}
use fungi_transport_ci_test.Socks5.{
  io_err, other, greeting, request, check_code, handshake, keep_stream, on_stream, connect,
  skip_bound,
}

module _ {S : Type 0} (io : Socket S) (dial : Unit {0} → Result IoError S) (host : Text)
    (port : ℕ) where
  -- A name of more than 255 bytes is refused, and the proxy is never dialled.
  pub connect_long_name :
      255 < length (as_bytes host)
      → connect io dial host port
        ≡ err (other (codes "hostname longer than SOCKS5's 255-byte limit"))
  unfolding connect
  connect_long_name long = if-true (ltb 255 (length (as_bytes host))) _ _ (lt→ltb _ _ long)

  -- Any other outcome is out of reach for such a name.
  too_long :
      {P : Type 0} {r : Result ConnectError S}
      → ltb 255 (length (as_bytes host)) ≡ true
      → connect io dial host port ≡ r
      → (err (other (codes "hostname longer than SOCKS5's 255-byte limit")) ≢ r)
      → P
  too_long long h ne = absurd (ne (sym (connect_long_name (ltb→lt _ _ long)) ∙ h))

  connect_short :
      (s : S)
      → length (as_bytes host) ≤ 255
      → dial tt ≡ ok s
      → connect io dial host port ≡ on_stream io (handshake io (as_bytes host) port) (ok s)
  unfolding connect
  connect_short s short dialled =
      if-false (ltb 255 (length (as_bytes host))) _ _ (le→ltb _ _ short)
      ∙ ap (on_stream io (handshake io (as_bytes host) port)) dialled

  keep_stream-ok :
      (r : Result ConnectError (Unit {0}) × S) (t : S) → keep_stream io r ≡ ok t → r ≡ (ok tt, t)
  keep_stream-ok (ok _, t') t h = cc
  keep_stream-ok (err e, t') t h = cc

  keep_stream-err :
      (r : Result ConnectError (Unit {0}) × S) (e : ConnectError)
      → keep_stream io r ≡ err e
      → (t : S) × (r ≡ (err e, t))
  keep_stream-err (ok _, t) e h = cc
  keep_stream-err (err x, t) e h = (t, cc)

  -- What a successful connection rests on.
  abbrev pub Tunnelled : S → Type 0
  Tunnelled t =
      (length (as_bytes host) ≤ 255)
      × ((s : S) × (dial tt ≡ ok s)
          × ((rsv : ℕ) × (bound : Bytes) × (io.unread s
                ≡ 0x05 ∷ 0x00 ∷ 0x05 ∷ 0x00 ∷ rsv ∷ (bound ++ io.unread t))
              × Bound bound
              × (io.written t ≡ io.written s ++ (greeting ++ request (as_bytes host) port))))

  dialled-ok :
      (r : Result IoError S) (t : S)
      → on_stream io (handshake io (as_bytes host) port) r ≡ ok t
      → (s : S) × (r ≡ ok s) × (handshake io (as_bytes host) port s ≡ (ok tt, t))
  dialled-ok (ok s) t h = (s, refl, keep_stream-ok _ t h)
  dialled-ok (err e) t h = cc

  -- On any stream, a stream is returned only if the name is short enough, the proxy was reached, chose
  -- "no authentication" and granted the request; then exactly the greeting and the request, with the
  -- name unresolved, were sent, and the stream is at the first byte behind the reply.
  pub connect-Tunnelled : (t : S) → connect io dial host port ≡ ok t → Tunnelled t
  unfolding connect
  connect-Tunnelled t h = elim (Bool-cases (ltb 255 (length (as_bytes host)))) [
    | inl long ↦ too_long long h (λ e. cc)
    | inr short ↦
        let (s, reached, ran) =
          dialled-ok (dial tt) t
            (sym (if-false (ltb 255 (length (as_bytes host))) _ _ short) ∙ h) in
        (ltb→le _ _ short, (s, reached, handshake-ok io (as_bytes host) port s t ran))
  ]

  dialled-unreachable :
      (r : Result IoError S)
      → on_stream io (handshake io (as_bytes host) port) r ≡ err ConnectError.unreachable
      → (s t : S) × (r ≡ ok s)
        × (handshake io (as_bytes host) port s ≡ (err ConnectError.unreachable, t))
  unfolding io_err
  dialled-unreachable (ok s) h =
      let (t, e) = keep_stream-err _ ConnectError.unreachable h in (s, t, refl, e)
  dialled-unreachable (err e) h = cc

  -- "Unreachable" is returned only for the reply codes 3 to 5 of a proxy that was reached.
  pub connect-unreachable :
      connect io dial host port ≡ err ConnectError.unreachable
      → (s : S) × (dial tt ≡ ok s)
        × ((code rsv atyp : ℕ) × (rest : Bytes) × (io.unread s
              ≡ 0x05 ∷ 0x00 ∷ 0x05 ∷ code ∷ rsv ∷ atyp ∷ rest)
            × (3 ≤ code)
            × (code ≤ 5))
  unfolding connect
  connect-unreachable h = elim (Bool-cases (ltb 255 (length (as_bytes host)))) [
    | inl long ↦ too_long long h (λ e. cc)
    | inr short ↦
        let (s, t, reached, ran) =
          dialled-unreachable (dial tt)
            (sym (if-false (ltb 255 (length (as_bytes host))) _ _ short) ∙ h) in
        let (code, rsv, atyp, due, low, high) =
          handshake-unreachable io (as_bytes host) port s t ran in
        (s, reached, (code, rsv, atyp, io.unread t, due, low, high))
  ]

  bind_fails :
      {A B : Type 0} {e : ConnectError} (m : Action S ConnectError A)
      (f : A → Action S ConnectError B) (s : S)
      → m s ≡ (err e, s)
      → (m >>= f) s ≡ (err e, s)
  bind_fails m f s h = ap (then f) h

  module _ (steady : IsSteady io) (s : S) (short : length (as_bytes host) ≤ 255)
      (dialled : dial tt ≡ ok s) where
    -- Over a stream that works, a proxy that grants the request gives the tunnel, whatever the kind of
    -- its bound address, and what the peer sent behind the reply is still to be read.
    pub connect_granted :
        (rsv atyp : ℕ) (body rest : Bytes)
        → Bound (atyp ∷ body)
        → io.unread s ≡ 0x05 ∷ 0x00 ∷ 0x05 ∷ 0x00 ∷ rsv ∷ atyp ∷ (body ++ rest)
        → (t : S) × (connect io dial host port ≡ ok t) × (io.unread t ≡ rest)
    connect_granted rsv atyp body rest bound due =
        let (s1, ran, left) =
          after_ask io steady (as_bytes host) port 0x00 rsv atyp (body ++ rest) s due in
        let (t, skipped, behind) = skip_bound_runs io steady atyp body rest s1 bound left in
        (
          t,
          connect_short s short dialled
              ∙ ap (keep_stream io)
                  (ran ∙ >>=-run (check_code 0x00) (λ _. skip_bound io atyp) s1 refl ∙ skipped),
          behind,
        )

    -- Any other code is an error: "unreachable" for 3 to 5, and otherwise a message that names it.
    pub connect_refused :
        (code rsv atyp : ℕ) (rest : Bytes)
        → code ≢ 0
        → io.unread s ≡ 0x05 ∷ 0x00 ∷ 0x05 ∷ code ∷ rsv ∷ atyp ∷ rest
        → (e : ConnectError) × (connect io dial host port ≡ err e) × Verdict io steady code e
    connect_refused code rsv atyp rest ne due =
        let (t, ran, _) = after_ask io steady (as_bytes host) port code rsv atyp rest s due in
        let (e, failed, verdict) = check_code_refuses io steady code t ne in
        (
          e,
          connect_short s short dialled
              ∙ ap (keep_stream io)
                  (ran ∙ bind_fails (check_code code) (λ _. skip_bound io atyp) t failed),
          verdict,
        )
