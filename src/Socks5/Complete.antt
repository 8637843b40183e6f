-- ===== src/Socks5/Complete.antt =====
-- The handshake of socks5.rs over a stream that works: the proxy's answer alone decides.
use fungi_transport_ci_test.Prelude.{
  ℕ, ◌+◌, ◌≤◌, ◌<◌, ◌≡◌, ◌≢◌, refl, sym, ap, ◌∙◌, [], ◌∷◌, ◌++◌, length, false, ◌&&◌, ◌⊎◌, inl, inr,
  arith, Result, ok, err, map_err, append_cancel, length-append, leb, ◌==◌, ==_iff, Bool-cases,
}
use fungi_transport_ci_test.Text.{Bytes, codes, show_nat}
use fungi_transport_ci_test.Errors.{ConnectError, IoError}
use fungi_transport_ci_test.Io.Socket.{Socket}
use fungi_transport_ci_test.Action.{Action, ◌>>=◌, ◌>>◌, pure, check, >>=-run}
use fungi_transport_ci_test.Socks5.Bound.{Bound, ipv4, ipv6, name, read-ok, write-ok}
use fungi_transport_ci_test.Socks5.{
  io_err, other, get_or, bytes_eq, greeting, request, check_code, write, read, addr_len, handshake,
  negotiate, ask, skip_bound, refused, wrong_version,
}

-- Writes succeed, and reads do while bytes are due.
pub record IsSteady {S : Type 0} (io : Socket S) : Type 0 where
  pub writes : (bs : Bytes) (s : S) → (t : S) × (io.write_all bs s ≡ (ok tt, t))
  pub reads :
      (n : ℕ) (s : S)
      → n ≤ length (io.unread s)
      → (bs : Bytes) × (t : S) × (io.read_exact n s ≡ (ok bs, t))

module _ {S : Type 0} (io : Socket S) (steady : IsSteady io) where
  write_runs :
      (bs : Bytes) (s : S) → (t : S) × (write io bs s ≡ (ok tt, t)) × (io.unread t ≡ io.unread s)
  write_runs bs s =
      let (t, e) = steady.writes bs s in
      let ran : write io bs s ≡ (ok tt, t) =
        ap (λ (r : Result IoError (Unit {0}) × S). (map_err io_err r.0, r.1)) e in
      (t, ran, (write-ok io bs s t ran).1)

  read_runs :
      (n : ℕ) (front rest : Bytes) (s : S)
      → length front ≡ n
      → io.unread s ≡ front ++ rest
      → (t : S) × (read io n s ≡ (ok front, t)) × (io.unread t ≡ rest)
  read_runs n front rest s len due =
      let (bs, t, e) = steady.reads n s (omega (arith, ap length due, length-append front rest)) in
      let ran : read io n s ≡ (ok bs, t) =
        ap (λ (r : Result IoError Bytes × S). (map_err io_err r.0, r.1)) e in
      let (split, long, _) = read-ok io n bs s t ran in
      let (same, left) =
        append_cancel bs front (io.unread t) rest (omega arith) (sym split ∙ due) in
      (t, ran ∙ ap (λ x. (ok x, t)) same, left)

  negotiate_runs :
      (rest : Bytes) (s : S)
      → io.unread s ≡ 0x05 ∷ 0x00 ∷ rest
      → (t : S) × (negotiate io s ≡ (ok tt, t)) × (io.unread t ≡ rest)
  unfolding negotiate
  negotiate_runs rest s due =
      let (s1, wrote, kept) = write_runs greeting s in
      let (s2, got, left) = read_runs 2 (0x05 ∷ 0x00 ∷ []) rest s1 (omega arith) (kept ∙ due) in
      (
        s2,
        >>=-run (write io greeting)
              (λ _. read io 2 >>= λ chosen. check (bytes_eq chosen (0x05 ∷ 0x00 ∷ [])) (refused io))
              s wrote
            ∙ >>=-run (read io 2)
                (λ chosen. check (bytes_eq chosen (0x05 ∷ 0x00 ∷ [])) (refused io)) s1 got,
        left,
      )

  ask_runs :
      (host : Bytes) (port code rsv atyp : ℕ) (rest : Bytes) (s : S)
      → io.unread s ≡ 0x05 ∷ code ∷ rsv ∷ atyp ∷ rest
      → (t : S) × (ask io host port s ≡ (ok (0x05 ∷ code ∷ rsv ∷ atyp ∷ []), t))
        × (io.unread t ≡ rest)
  unfolding ask
  ask_runs host port code rsv atyp rest s due =
      let behind : Bytes → Action S ConnectError Bytes =
        λ head. check (get_or head 0 0 == 0x05) (wrong_version io) >> pure head in
      let (s1, wrote, kept) = write_runs (request host port) s in
      let (s2, got, left) =
        read_runs 4 (0x05 ∷ code ∷ rsv ∷ atyp ∷ []) rest s1 (omega arith) (kept ∙ due) in
      (
        s2,
        >>=-run (write io (request host port)) (λ _. read io 4 >>= behind) s wrote
            ∙ >>=-run (read io 4) behind s1 got,
        left,
      )

  addr_len_runs :
      (bound rest : Bytes) (s : S)
      → Bound bound
      → (atyp : ℕ) (body : Bytes) → bound ≡ atyp ∷ body
      → io.unread s ≡ body ++ rest
      → (len : ℕ) × (a : Bytes) × (t : S) × (addr_len io atyp s ≡ (ok len, t))
        × (length a ≡ len + 2)
        × (io.unread t ≡ a ++ rest)
  unfolding addr_len
  addr_len_runs bound rest s (ipv4 a e len) atyp body e' due =
      let same : (atyp ≡ 0x01) × (body ≡ a) = (cc, cc) in
      (4, a, s, ap (λ x. addr_len io x s) same.0, len, due ∙ ap (λ x. x ++ rest) same.1)
  addr_len_runs bound rest s (ipv6 a e len) atyp body e' due =
      let same : (atyp ≡ 0x04) × (body ≡ a) = (cc, cc) in
      (16, a, s, ap (λ x. addr_len io x s) same.0, len, due ∙ ap (λ x. x ++ rest) same.1)
  addr_len_runs bound rest s (name n a e len) atyp body e' due =
      let same : (atyp ≡ 0x03) × (body ≡ n ∷ a) = (cc, cc) in
      let (t, got, left) =
        read_runs 1 (n ∷ []) (a ++ rest) s (omega arith) (due ∙ ap (λ x. x ++ rest) same.1) in
      (
        n,
        a,
        t,
        ap (λ x. addr_len io x s) same.0 ∙ >>=-run (read io 1) (λ l. pure (get_or l 0 0)) s got,
        len,
        left,
      )

  pub skip_bound_runs :
      (atyp : ℕ) (body rest : Bytes) (s : S)
      → Bound (atyp ∷ body)
      → io.unread s ≡ body ++ rest
      → (t : S) × (skip_bound io atyp s ≡ (ok tt, t)) × (io.unread t ≡ rest)
  unfolding skip_bound
  skip_bound_runs atyp body rest s b due =
      let (len, a, s1, sized, long, left) =
        addr_len_runs (atyp ∷ body) rest s b atyp body refl due in
      let (t, got, behind) = read_runs (len + 2) a rest s1 long left in
      (
        t,
        >>=-run (addr_len io atyp) (λ len. read io (len + 2) >>= λ _. pure tt) s sized
            ∙ >>=-run (read io (len + 2)) (λ _. pure tt) s1 got,
        behind,
      )

  -- The error that a reply code other than 0 stands for.
  abbrev pub Verdict : ℕ → ConnectError → Type 0
  Verdict code e =
      ((3 ≤ code) × (code ≤ 5) × (e ≡ ConnectError.unreachable))
      ⊎ ((code < 3 ⊎ 5 < code)
          × (e ≡ other (codes "SOCKS5 CONNECT failed with reply code " ++ show_nat code)))

  not_zero : (code : ℕ) → code ≢ 0 → (code == 0x00) ≡ false
  not_zero code ne = elim (Bool-cases (code == 0x00)) [
    | inl e ↦ absurd (ne ((==_iff code 0x00).0 e))
    | inr e ↦ e
  ]

  -- Such a code ends the handshake where it stands.
  pub check_code_refuses :
      (code : ℕ) (s : S)
      → code ≢ 0
      → (e : ConnectError) × (check_code code s ≡ (err e, s)) × Verdict code e
  check_code_refuses code s ne = elim (Bool-cases (leb 0x03 code && leb code 0x05)) [
    | inl e ↦ (ConnectError.unreachable, rw (not_zero code ne, e) refl, inl (ground arith))
    | inr e ↦ (_, rw (not_zero code ne, e) refl, inr (ground arith, refl))
  ]

  module _ (host : Bytes) (port code rsv atyp : ℕ) (body : Bytes) (s : S)
      (due : io.unread s ≡ 0x05 ∷ 0x00 ∷ 0x05 ∷ code ∷ rsv ∷ atyp ∷ body) where
    pub after_ask :
        (t : S) × (handshake io host port s ≡ (check_code code >> skip_bound io atyp) t)
        × (io.unread t ≡ body)
    unfolding handshake
    after_ask =
        let behind : Bytes → Action S ConnectError (Unit {0}) =
          λ head. check_code (get_or head 1 0) >> skip_bound io (get_or head 3 0) in
        let (s1, negotiated, left1) = negotiate_runs (0x05 ∷ code ∷ rsv ∷ atyp ∷ body) s due in
        let (s2, asked, left2) = ask_runs host port code rsv atyp body s1 left1 in
        (
          s2,
          >>=-run (negotiate io) (λ _. ask io host port >>= behind) s negotiated
              ∙ >>=-run (ask io host port) behind s1 asked,
          left2,
        )
