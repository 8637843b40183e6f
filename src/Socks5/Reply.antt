-- ===== src/Socks5/Reply.antt =====
-- What the handshake of socks5.rs makes of the proxy's bytes.
use mathlib.Core.Path.{ap₂}
use fungi_transport_ci_test.Prelude.{
  ℕ, ◌≡◌, sym, ap, subst, ◌∙◌, [], ◌∷◌, ◌++◌, ok, append_assoc, ◌==◌, ==_iff,
}
use fungi_transport_ci_test.Text.{Bytes}
use fungi_transport_ci_test.Errors.{ConnectError}
use fungi_transport_ci_test.Io.Socket.{Socket}
use fungi_transport_ci_test.Action.{Action, ◌>>=◌, ◌>>◌, pure, check, >>=-ok}
use fungi_transport_ci_test.Socks5.{
  get_or, bytes_eq, greeting, request, check_code, write, read, handshake, negotiate, ask,
  skip_bound, refused, wrong_version,
}
use fungi_transport_ci_test.Socks5.Bound.{
  Bound, four_bytes, write-ok, read-ok, check-ok, check_code-ok, method_chosen, skip_bound-ok,
}

module _ {S : Type 0} (io : Socket S) where
  pub negotiate-ok :
      (s t : S)
      → negotiate io s ≡ (ok tt, t)
      → (io.unread s ≡ 0x05 ∷ 0x00 ∷ io.unread t) × (io.written t ≡ io.written s ++ greeting)
  unfolding negotiate
  negotiate-ok s t h =
      let (_, s1, greeted, h1) =
        >>=-ok (write io greeting)
          (λ _. read io 2 >>= λ chosen. check (bytes_eq chosen (0x05 ∷ 0x00 ∷ [])) (refused io)) s
          h in
      let (chosen, s2, read2, h2) =
        >>=-ok (read io 2) (λ chosen. check (bytes_eq chosen (0x05 ∷ 0x00 ∷ [])) (refused io)) s1
          h1 in
      let (method, same) = check-ok io (bytes_eq chosen (0x05 ∷ 0x00 ∷ [])) (refused io) s2 t h2 in
      let (written, kept) = write-ok io greeting s s1 greeted in
      let (split, _, silent) = read-ok io 2 chosen s1 s2 read2 in
      (
        sym kept ∙ split ∙ ap₂ (λ x y. x ++ io.unread y) (method_chosen io chosen method) same,
        ap io.written (sym same) ∙ silent ∙ written,
      )

  pub ask-ok :
      (host : Bytes) (port : ℕ) (head : Bytes) (s t : S)
      → ask io host port s ≡ (ok head, t)
      → (code rsv atyp : ℕ) × (head ≡ 0x05 ∷ code ∷ rsv ∷ atyp ∷ [])
        × (io.unread s ≡ head ++ io.unread t)
        × (io.written t ≡ io.written s ++ request host port)
  unfolding ask
  ask-ok host port head s t h =
      let behind : Bytes → Action S ConnectError Bytes =
        λ head. check (get_or head 0 0 == 0x05) (wrong_version io) >> pure head in
      let (_, s1, asked, h1) =
        >>=-ok (write io (request host port)) (λ _. read io 4 >>= behind) s h in
      let (got, s2, read4, h2) = >>=-ok (read io 4) behind s1 h1 in
      let (_, s3, checked, h3) =
        >>=-ok (check (get_or got 0 0 == 0x05) (wrong_version io)) (λ _. pure got) s2 h2 in
      let (version, same) = check-ok io (get_or got 0 0 == 0x05) (wrong_version io) s2 s3 checked in
      let (written, kept) = write-ok io (request host port) s s1 asked in
      let (split, len, silent) = read-ok io 4 got s1 s2 read4 in
      let (v, code, rsv, atyp, four) = four_bytes got len in
      let returned : (got ≡ head) × (s3 ≡ t) = (cc, cc) in
      let five : v ≡ 0x05 =
        sym (ap (λ x. get_or x 0 0) four) ∙ (==_iff (get_or got 0 0) 0x05).0 version in
      (
        code,
        rsv,
        atyp,
        sym returned.0 ∙ four ∙ ap (λ x. x ∷ code ∷ rsv ∷ atyp ∷ []) five,
        sym kept ∙ split ∙ ap₂ (λ x y. x ++ io.unread y) returned.0 (same ∙ returned.1),
        ap io.written (sym (same ∙ returned.1)) ∙ silent ∙ written,
      )

  -- A handshake that succeeds: the proxy chose "no authentication" and granted the request, the bytes
  -- sent are the greeting and the request, and the stream is just behind the bound address.
  pub handshake-ok :
      (host : Bytes) (port : ℕ) (s t : S)
      → handshake io host port s ≡ (ok tt, t)
      → (rsv : ℕ) × (bound : Bytes) × (io.unread s
          ≡ 0x05 ∷ 0x00 ∷ 0x05 ∷ 0x00 ∷ rsv ∷ (bound ++ io.unread t))
        × Bound bound
        × (io.written t ≡ io.written s ++ (greeting ++ request host port))
  unfolding handshake
  handshake-ok host port s t h =
      let behind : Bytes → Action S ConnectError (Unit {0}) =
        λ head. check_code (get_or head 1 0) >> skip_bound io (get_or head 3 0) in
      let (_, s1, negotiated, h1) = >>=-ok (negotiate io) (λ _. ask io host port >>= behind) s h in
      let (head, s2, asked, h2) = >>=-ok (ask io host port) behind s1 h1 in
      let (_, s3, granted, h3) =
        >>=-ok (check_code (get_or head 1 0)) (λ _. skip_bound io (get_or head 3 0)) s2 h2 in
      let (u1, w1) = negotiate-ok s s1 negotiated in
      let (code, rsv, atyp, four, u2, w2) = ask-ok host port head s1 s2 asked in
      let (zero_code, same) = check_code-ok io (get_or head 1 0) s2 s3 granted in
      let (rest, u3, is_bound, w3) = skip_bound-ok io (get_or head 3 0) s3 t h3 in
      let code_eq : code ≡ 0 = sym (ap (λ x. get_or x 1 0) four) ∙ zero_code in
      let atyp_eq : get_or head 3 0 ≡ atyp = ap (λ x. get_or x 3 0) four in
      (
        rsv,
        atyp ∷ rest,
        u1
            ∙ ap (λ x. 0x05 ∷ 0x00 ∷ x)
                (u2
                  ∙ ap₂ (λ x y. x ++ y) four (ap io.unread same ∙ u3)
                  ∙ ap (λ c. 0x05 ∷ c ∷ rsv ∷ atyp ∷ (rest ++ io.unread t)) code_eq),
        subst (λ a. Bound (a ∷ rest)) atyp_eq is_bound,
        w3
            ∙ ap io.written (sym same)
            ∙ w2
            ∙ ap (λ x. x ++ request host port) w1
            ∙ append_assoc (io.written s) greeting (request host port),
      )
