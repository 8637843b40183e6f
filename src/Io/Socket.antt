-- ===== src/Io/Socket.antt =====
-- A connected `TcpStream` as the handshakes use it: `write_all` and `read_exact`, awaited to the end,
-- with what tokio documents of them.
use fungi_transport_ci_test.Prelude.{ℕ, ◌≡◌, ◌++◌, length, Result, ok, err}
use fungi_transport_ci_test.Text.{Bytes}
use fungi_transport_ci_test.Errors.{IoError}

-- In these laws `u` and `w` are the bytes unread and written before the call.
module _ {S : Type 0} (unread written : S → Bytes) where
  -- All the bytes go out, or a prefix of them.
  abbrev pub WritesAll : Bytes → Bytes → Bytes → Result IoError (Unit {0}) × S → Type 0
  WritesAll u w bs (ok _, s') = (written s' ≡ w ++ bs) × (unread s' ≡ u)
  WritesAll u w bs (err e, s') =
      (sent rest : Bytes) × (bs ≡ sent ++ rest) × (written s' ≡ w ++ sent) × (unread s' ≡ u)

  -- Exactly `n` bytes are read, the next ones; or some are, and the read fails.
  abbrev pub ReadsExact : Bytes → Bytes → ℕ → Result IoError Bytes × S → Type 0
  ReadsExact u w n (ok bs, s') = (u ≡ bs ++ unread s') × (length bs ≡ n) × (written s' ≡ w)
  ReadsExact u w n (err e, s') = (got : Bytes) × (u ≡ got ++ unread s') × (written s' ≡ w)

pub record Socket (S : Type 0) : Type 0 where
  pub write_all : Bytes → S → Result IoError (Unit {0}) × S
  pub read_exact : ℕ → S → Result IoError Bytes × S
  pub unread : S → Bytes
  pub written : S → Bytes
  pub write_law :
      (bs : Bytes) (s : S) → WritesAll unread written (unread s) (written s) bs (write_all bs s)
  pub read_law :
      (n : ℕ) (s : S) → ReadsExact unread written (unread s) (written s) n (read_exact n s)
