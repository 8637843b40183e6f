-- ===== src/Socks5/Bound.antt =====
-- The single reads and writes of the handshake of socks5.rs, and the bound address of a reply.
use fungi_transport_ci_test.Prelude.{
  ℕ, ◌+◌, ◌≡◌, refl, sym, ap, ◌∙◌, [], ◌∷◌, ◌++◌, length, Bool, true, false, inl, inr, arith,
  Result, ok, err, map_err, append_assoc, ◌==◌, ==_iff, Bool-cases,
}
use fungi_transport_ci_test.Text.{Bytes}
use fungi_transport_ci_test.Errors.{ConnectError, IoError}
use fungi_transport_ci_test.Io.Socket.{Socket, WritesAll, ReadsExact}
use fungi_transport_ci_test.Action.{◌>>=◌, pure, check, >>=-ok}
use fungi_transport_ci_test.Socks5.{
  io_err, get_or, bytes_eq, check_code, write, read, addr_len, skip_bound,
}

-- The bound address of a reply, with its port: its type, and as many bytes as the type says.
pub data Bound (b : Bytes) : Type 0 where
  ipv4 : (a : Bytes) → b ≡ 0x01 ∷ a → length a ≡ 6 → Bound b
  ipv6 : (a : Bytes) → b ≡ 0x04 ∷ a → length a ≡ 18 → Bound b
  name : (n : ℕ) (a : Bytes) → b ≡ 0x03 ∷ n ∷ a → length a ≡ n + 2 → Bound b

one_byte : (l : Bytes) → length l ≡ 1 → (b : ℕ) × (l ≡ b ∷ [])
one_byte [] h = absurd (omega arith)
one_byte (b ∷ []) h = (b, refl)
one_byte (b ∷ c ∷ l) h = absurd (omega arith)

pub four_bytes : (l : Bytes) → length l ≡ 4 → (a b c d : ℕ) × (l ≡ a ∷ b ∷ c ∷ d ∷ [])
four_bytes [] h = absurd (omega arith)
four_bytes (a ∷ []) h = absurd (omega arith)
four_bytes (a ∷ b ∷ []) h = absurd (omega arith)
four_bytes (a ∷ b ∷ c ∷ []) h = absurd (omega arith)
four_bytes (a ∷ b ∷ c ∷ d ∷ []) h = (a, b, c, d, refl)
four_bytes (a ∷ b ∷ c ∷ d ∷ e ∷ l) h = absurd (omega arith)

module _ {S : Type 0} (io : Socket S) where
  write_result :
      (bs : Bytes) (s t : S) (r : Result IoError (Unit {0}) × S)
      → WritesAll io.unread io.written (io.unread s) (io.written s) bs r
      → ◌≡◌ {A = Result ConnectError (Unit {0}) × S} (map_err io_err r.0, r.1) (ok tt, t)
      → (io.written t ≡ io.written s ++ bs) × (io.unread t ≡ io.unread s)
  write_result bs s t (ok _, s') law h = (cc (law.0), cc (law.1))
  write_result bs s t (err e, s') law h = cc

  pub write-ok :
      (bs : Bytes) (s t : S)
      → write io bs s ≡ (ok tt, t)
      → (io.written t ≡ io.written s ++ bs) × (io.unread t ≡ io.unread s)
  write-ok bs s t h = write_result bs s t (io.write_all bs s) (io.write_law bs s) h

  read_result :
      (n : ℕ) (bs : Bytes) (s t : S) (r : Result IoError Bytes × S)
      → ReadsExact io.unread io.written (io.unread s) (io.written s) n r
      → ◌≡◌ {A = Result ConnectError Bytes × S} (map_err io_err r.0, r.1) (ok bs, t)
      → (io.unread s ≡ bs ++ io.unread t) × (length bs ≡ n) × (io.written t ≡ io.written s)
  read_result n bs s t (ok xs, s') law h = (cc (law.0), cc (law.1), cc (law.2))
  read_result n bs s t (err e, s') law h = cc

  pub read-ok :
      (n : ℕ) (bs : Bytes) (s t : S)
      → read io n s ≡ (ok bs, t)
      → (io.unread s ≡ bs ++ io.unread t) × (length bs ≡ n) × (io.written t ≡ io.written s)
  read-ok n bs s t h = read_result n bs s t (io.read_exact n s) (io.read_law n s) h

  pub check-ok :
      (b : Bool) (e : ConnectError) (s t : S) → check b e s ≡ (ok tt, t) → (b ≡ true) × (s ≡ t)
  check-ok true e s t h = (refl, cc)
  check-ok false e s t h = cc

  pub check_code-ok : (code : ℕ) (s t : S) → check_code code s ≡ (ok tt, t) → (code ≡ 0) × (s ≡ t)
  check_code-ok code s t h = ground arith

  pub method_chosen : (bs : Bytes) → bytes_eq bs (0x05 ∷ 0x00 ∷ []) ≡ true → bs ≡ 0x05 ∷ 0x00 ∷ []
  method_chosen [] h = cc
  method_chosen (x ∷ []) h = ground arith
  method_chosen (x ∷ y ∷ []) h = ground arith
  method_chosen (x ∷ y ∷ z ∷ bs) h = ground arith

  named_len :
      {atyp : ℕ} (n : ℕ) (s t : S)
      → atyp ≡ 0x03
      → (read io 1 >>= λ l. pure (get_or l 0 0)) s ≡ (ok n, t)
      → (front : Bytes) × (io.unread s ≡ front ++ io.unread t)
        × (io.written t ≡ io.written s)
        × ((a : Bytes) → length a ≡ n + 2 → Bound (atyp ∷ front ++ a))
  named_len {atyp} n s t e h =
      let (l, s', got, rest) = >>=-ok (read io 1) (λ l. pure (get_or l 0 0)) s h in
      let (split, len, same) = read-ok 1 l s s' got in
      let (b, one) = one_byte l len in
      let value : (n ≡ b) × (s' ≡ t) = (cc (ap (λ x. get_or x 0 0) one), cc) in
      (
        l,
        split ∙ ap (λ x. l ++ io.unread x) value.1,
        ap io.written (sym value.1) ∙ same,
        λ a la. name n a (rw (e, one, value.0) refl) la,
      )

  addr_len-ok :
      (atyp n : ℕ) (s t : S)
      → addr_len io atyp s ≡ (ok n, t)
      → (front : Bytes) × (io.unread s ≡ front ++ io.unread t)
        × (io.written t ≡ io.written s)
        × ((a : Bytes) → length a ≡ n + 2 → Bound (atyp ∷ front ++ a))
  unfolding addr_len
  addr_len-ok atyp n s t h = elim (Bool-cases (atyp == 0x01)) [
    | inl four ↦
        let len : (n ≡ 4) × (s ≡ t) = ground arith in
        let e = (==_iff atyp 0x01).0 four in
        (
          [],
          ap io.unread len.1,
          ap io.written (sym len.1),
          λ a la. ipv4 a (rw e refl) (omega arith),
        )
    | inr not_four ↦ elim (Bool-cases (atyp == 0x04)) [
      | inl six ↦
          let len : (n ≡ 16) × (s ≡ t) = ground arith in
          let e = (==_iff atyp 0x04).0 six in
          (
            [],
            ap io.unread len.1,
            ap io.written (sym len.1),
            λ a la. ipv6 a (rw e refl) (omega arith),
          )
      | inr not_six ↦ elim (Bool-cases (atyp == 0x03)) [
        | inl named ↦
            named_len n s t ((==_iff atyp 0x03).0 named) (rw (not_four, not_six, named) at h)
        | inr unknown ↦ cc (rw (not_four, not_six, unknown) at h)
      ]
    ]
  ]

  pub skip_bound-ok :
      (atyp : ℕ) (s t : S)
      → skip_bound io atyp s ≡ (ok tt, t)
      → (rest : Bytes) × (io.unread s ≡ rest ++ io.unread t)
        × Bound (atyp ∷ rest)
        × (io.written t ≡ io.written s)
  unfolding skip_bound
  skip_bound-ok atyp s t h =
      let (len, s1, sized, h1) =
        >>=-ok (addr_len io atyp) (λ len. read io (len + 2) >>= λ _. pure tt) s h in
      let (bound, s2, got, h2) = >>=-ok (read io (len + 2)) (λ _. pure tt) s1 h1 in
      let (front, split, silent, is_bound) = addr_len-ok atyp len s s1 sized in
      let (split2, long, silent2) = read-ok (len + 2) bound s1 s2 got in
      let same : s2 ≡ t = cc in
      (
        front ++ bound,
        split
            ∙ ap (◌++◌ front) (split2 ∙ ap (λ x. bound ++ io.unread x) same)
            ∙ sym (append_assoc front bound (io.unread t)),
        is_bound bound long,
        ap io.written (sym same) ∙ silent2 ∙ silent,
      )
