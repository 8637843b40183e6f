-- ===== src/Socks5/Classify.antt =====
-- How the handshake of socks5.rs ends, by the reply code.
use mathlib.Core.Path.{ap₂}
use fungi_transport_ci_test.Prelude.{
  ℕ, ◌+◌, ◌≤◌, ◌≡◌, ◌≢◌, ap, ◌∙◌, ◌∷◌, ◌++◌, Bool, true, false, inl, inr, arith, Result, ok, err,
  map_err, ◌==◌, Bool-cases,
}
use fungi_transport_ci_test.Text.{Bytes}
use fungi_transport_ci_test.Errors.{ConnectError, IoError}
use fungi_transport_ci_test.Io.Socket.{Socket}
use fungi_transport_ci_test.Action.{Action, ◌>>=◌, ◌>>◌, pure, check, >>=-err}
use fungi_transport_ci_test.Socks5.Reply.{negotiate-ok, ask-ok}
use fungi_transport_ci_test.Socks5.{
  io_err, get_or, greeting, request, check_code, write, read, addr_len, handshake, negotiate, ask,
  skip_bound, refused, wrong_version,
}

module _ {S : Type 0} (io : Socket S) where
  -- No step but the check of the code says "unreachable".
  abbrev NeverUnreachable : {A : Type 0} → Action S ConnectError A → Type 0
  NeverUnreachable m = (s t : S) → m s ≢ (err ConnectError.unreachable, t)

  map_io_err :
      {A : Type 0} (r : Result IoError A × S) (t : S)
      → ◌≢◌ {A = Result ConnectError A × S}
          (map_err io_err r.0, r.1)
          (err ConnectError.unreachable, t)
  unfolding io_err
  map_io_err (ok a, s) t h = cc
  map_io_err (err e, s) t h = cc

  check-never :
      (b : Bool) (e : ConnectError) → e ≢ ConnectError.unreachable → NeverUnreachable (check b e)
  check-never true e ne s t h = cc
  check-never false e ne s t h = ne (cc)

  bind-never :
      {A B : Type 0} (m : Action S ConnectError A) (f : A → Action S ConnectError B)
      → NeverUnreachable m
      → ((a : A) → NeverUnreachable (f a))
      → NeverUnreachable (m >>= f)
  bind-never m f hm hf s t h = elim (>>=-err m f s h) [
    | inl e ↦ hm s t e
    | inr (a, s', _, e) ↦ hf a s' t e
  ]

  pure-never : {A : Type 0} (a : A) → NeverUnreachable (pure a)
  pure-never a s t h = cc

  write-never : (bs : Bytes) → NeverUnreachable (write io bs)
  write-never bs s t = map_io_err (io.write_all bs s) t

  read-never : (n : ℕ) → NeverUnreachable (read io n)
  read-never n s t = map_io_err (io.read_exact n s) t

  negotiate-never : NeverUnreachable (negotiate io)
  unfolding negotiate
  negotiate-never =
      bind-never (write io greeting) _ (write-never greeting)
        λ _. bind-never (read io 2) _ (read-never 2) λ chosen. check-never _ (refused io) (λ e. cc)

  ask-never : (host : Bytes) (port : ℕ) → NeverUnreachable (ask io host port)
  unfolding ask
  ask-never host port =
      bind-never (write io (request host port)) _ (write-never (request host port)) λ _.
        bind-never (read io 4) _ (read-never 4) λ head.
          bind-never (check _ (wrong_version io)) _ (check-never _ (wrong_version io) (λ e. cc))
            λ _. pure-never head

  addr_len-never : (atyp : ℕ) → NeverUnreachable (addr_len io atyp)
  unfolding addr_len
  addr_len-never atyp = elim (Bool-cases (atyp == 0x01)) [
    | inl e ↦ rw e (pure-never 4)
    | inr e ↦ rw e (elim (Bool-cases (atyp == 0x04)) [
      | inl e ↦ rw e (pure-never 16)
      | inr e ↦ rw e (elim (Bool-cases (atyp == 0x03)) [
        | inl e ↦ rw e (bind-never (read io 1) _ (read-never 1) λ l. pure-never (get_or l 0 0))
        | inr e ↦ rw e (λ s t h. cc)
      ])
    ])
  ]

  skip_bound-never : (atyp : ℕ) → NeverUnreachable (skip_bound io atyp)
  unfolding skip_bound
  skip_bound-never atyp =
      bind-never (addr_len io atyp) _ (addr_len-never atyp)
        λ len. bind-never (read io (len + 2)) _ (read-never (len + 2)) λ _. pure-never tt

  check_code-unreachable :
      (code : ℕ) (s t : S)
      → check_code code s ≡ (err ConnectError.unreachable, t)
      → (3 ≤ code) × (code ≤ 5) × (s ≡ t)
  check_code-unreachable code s t h = ground arith

  by_code :
      (host : Bytes) (port : ℕ) (s s1 s2 t : S) (head : Bytes)
      → negotiate io s ≡ (ok tt, s1)
      → ask io host port s1 ≡ (ok head, s2)
      → check_code (get_or head 1 0) s2 ≡ (err ConnectError.unreachable, t)
      → (code rsv atyp : ℕ) × (io.unread s ≡ 0x05 ∷ 0x00 ∷ 0x05 ∷ code ∷ rsv ∷ atyp ∷ io.unread t)
        × (3 ≤ code)
        × (code ≤ 5)
  by_code host port s s1 s2 t head negotiated asked e =
      let (u1, _) = negotiate-ok io s s1 negotiated in
      let (code, rsv, atyp, four, u2, _) = ask-ok io host port head s1 s2 asked in
      let (low, high, same) = check_code-unreachable (get_or head 1 0) s2 t e in
      let code_eq : get_or head 1 0 ≡ code = ap (λ x. get_or x 1 0) four in
      (
        code,
        rsv,
        atyp,
        u1 ∙ ap (λ x. 0x05 ∷ 0x00 ∷ x) (u2 ∙ ap₂ (λ x y. x ++ io.unread y) four same),
        omega arith,
        omega arith,
      )

  -- "Unreachable", the cue to try later, is returned only if the proxy chose "no authentication" and
  -- answered the request with one of the codes 3 to 5, and never for an error of the stream.
  pub handshake-unreachable :
      (host : Bytes) (port : ℕ) (s t : S)
      → handshake io host port s ≡ (err ConnectError.unreachable, t)
      → (code rsv atyp : ℕ) × (io.unread s ≡ 0x05 ∷ 0x00 ∷ 0x05 ∷ code ∷ rsv ∷ atyp ∷ io.unread t)
        × (3 ≤ code)
        × (code ≤ 5)
  unfolding handshake
  handshake-unreachable host port s t h =
      let behind : Bytes → Action S ConnectError (Unit {0}) =
        λ head. check_code (get_or head 1 0) >> skip_bound io (get_or head 3 0) in
      elim (>>=-err (negotiate io) (λ _. ask io host port >>= behind) s h) [
        | inl e ↦ absurd (negotiate-never s t e)
        | inr (_, s1, negotiated, h1) ↦ elim (>>=-err (ask io host port) behind s1 h1) [
          | inl e ↦ absurd (ask-never host port s1 t e)
          | inr (head, s2, asked, h2) ↦
              elim (>>=-err (check_code (get_or head 1 0)) (λ _. skip_bound io (get_or head 3 0)) s2
                h2) [
                  | inl e ↦ by_code host port s s1 s2 t head negotiated asked e
                  | inr (_, s3, _, e) ↦ absurd (skip_bound-never (get_or head 3 0) s3 t e)
                ]
        ]
      ]
