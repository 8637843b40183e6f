-- ===== src/Socks5/Tests.antt =====
-- Tests of crates/fungi-transport-socks5h/src/socks5.rs against a stream that holds the proxy's answer,
-- and the theorems at such answers.
use fungi_transport_ci_test.Prelude.{
  ℕ, zero, suc, ◌≤◌, ◌≡◌, refl, sym, ap, [], ◌∷◌, ◌++◌, length, take, drop, inl, inr, Result, ok,
  err, ltb, ltb→le, le→ltb, Bool-cases, if◌then◌else◌, if-false, arith, append-nil,
  take-append-drop, some,
}
use fungi_transport_ci_test.Text.{Bytes, Text, codes, as_bytes, show_nat}
use fungi_transport_ci_test.Errors.{ConnectError, IoError, unexpected_eof}
use fungi_transport_ci_test.Io.Socket.{Socket, ReadsExact}
use fungi_transport_ci_test.Socks5.Bound.{ipv4}
use fungi_transport_ci_test.Socks5.Complete.{IsSteady, Verdict}
use fungi_transport_ci_test.Socks5.Connect.{
  Tunnelled, connect_long_name, connect-Tunnelled, connect-unreachable, connect_granted,
  connect_refused,
}
use fungi_transport_ci_test.Socks5.Request.{read_request, read_request-request}
use fungi_transport_ci_test.Socks5.{
  io_err, other, request, connect, handshake, negotiate, ask, skip_bound, addr_len,
}

-- What the proxy sends, and what it has been sent.
pub record Wire : Type 0 where
  pub inbox : Bytes
  pub sent : Bytes

abbrev due : Wire → Bytes
due s = s.inbox

abbrev gone : Wire → Bytes
gone s = s.sent

abbrev eof : IoError
eof = record { kind = unexpected_eof; message = codes "early eof" }

abbrev wire_write : Bytes → Wire → Result IoError (Unit {0}) × Wire
wire_write bs s = (ok tt, record s { sent = s.sent ++ bs })

abbrev wire_read : ℕ → Wire → Result IoError Bytes × Wire
wire_read n s =
    if ltb (length s.inbox) n
    then (err eof, record s { inbox = [] })
    else (ok (take n s.inbox), record s { inbox = drop n s.inbox })

length-take_all : (n : ℕ) (xs : Bytes) → n ≤ length xs → length (take n xs) ≡ n
length-take_all zero xs h = refl
length-take_all (suc n) [] h = absurd (omega arith)
length-take_all (suc n) (x ∷ xs) h = ap suc (length-take_all n xs (omega arith))

pub wire_read_lem : (n : ℕ) (s : Wire) → ReadsExact due gone s.inbox s.sent n (wire_read n s)
wire_read_lem n s = elim (Bool-cases (ltb (length s.inbox) n)) [
  | inl e ↦ rw e (s.inbox, sym (append-nil s.inbox), refl)
  | inr e ↦ rw e (sym (take-append-drop n s.inbox), length-take_all n s.inbox (ltb→le _ _ e), refl)
]

abbrev pub wire : Socket Wire
wire = record {
  write_all = wire_write;
  read_exact = wire_read;
  unread = due;
  written = gone;
  write_law = λ bs s. (refl, refl);
  read_law = wire_read_lem;
}

wire_steady : IsSteady wire
wire_steady = record {
  writes = λ bs s. (record s { sent = s.sent ++ bs }, refl);
  reads = λ n s long.
      (take n s.inbox, record s { inbox = drop n s.inbox }, if-false _ _ _ (le→ltb _ _ long));
}

abbrev pub reached : Bytes → Unit {0} → Result IoError Wire
reached bs _ = ok (record { inbox = bs; sent = [] })

abbrev pub onion : Text
onion = codes "a.onion"

abbrev pub granted : Bytes
granted = 5 ∷ 0 ∷ 5 ∷ 0 ∷ 0 ∷ 1 ∷ 127 ∷ 0 ∷ 0 ∷ 1 ∷ 0 ∷ 80 ∷ 42 ∷ []

abbrev pub tunnel : Wire
tunnel = record {
  inbox = 42 ∷ [];
  sent = 5 ∷ 1 ∷ 0 ∷ 5 ∷ 1 ∷ 0 ∷ 3 ∷ 7 ∷ (as_bytes onion ++ 0 ∷ 80 ∷ []);
}

pub wire_grants : connect wire (reached granted) onion 80 ≡ ok tunnel
unfolding connect handshake negotiate ask skip_bound addr_len request as_bytes
wire_grants = refl

unreachable :
    connect wire (reached (5 ∷ 0 ∷ 5 ∷ 4 ∷ 0 ∷ 1 ∷ [])) onion 80 ≡ err ConnectError.unreachable
unfolding connect handshake negotiate ask skip_bound addr_len request as_bytes
unreachable = refl

no_method :
    connect wire (reached (5 ∷ 255 ∷ [])) onion 80
    ≡ err (other (codes "SOCKS5 proxy refused no-auth method"))
unfolding connect handshake negotiate as_bytes
no_method = refl

unknown_address :
    connect wire (reached (5 ∷ 0 ∷ 5 ∷ 0 ∷ 0 ∷ 9 ∷ [])) onion 80
    ≡ err (other (codes "SOCKS5 reply with unknown address type 9"))
unfolding connect handshake negotiate ask skip_bound addr_len request as_bytes show_nat
unknown_address = refl

cut_short : connect wire (reached (5 ∷ [])) onion 80 ≡ err (io_err eof)
unfolding connect handshake negotiate as_bytes
cut_short = refl

abbrev endless : Text
endless =
    codes
      "0123456789abcdef0123456789abcdef0123456789abcdef0123456789abcdef0123456789abcdef0123456789abcdef0123456789abcdef0123456789abcdef0123456789abcdef0123456789abcdef0123456789abcdef0123456789abcdef0123456789abcdef0123456789abcdef0123456789abcdef0123456789abcdef"

connect_long_name_example :
    connect wire (reached granted) endless 80
    ≡ err (other (codes "hostname longer than SOCKS5's 255-byte limit"))
unfolding as_bytes
connect_long_name_example = connect_long_name wire (reached granted) endless 80 (omega arith)

connect-Tunnelled_example : Tunnelled wire (reached granted) onion 80 tunnel
connect-Tunnelled_example = connect-Tunnelled wire (reached granted) onion 80 tunnel wire_grants

connect-unreachable_example :
    (s : Wire) × (reached (5 ∷ 0 ∷ 5 ∷ 4 ∷ 0 ∷ 1 ∷ []) tt ≡ ok s)
    × ((code rsv atyp : ℕ) × (rest : Bytes) × (s.inbox
          ≡ 0x05 ∷ 0x00 ∷ 0x05 ∷ code ∷ rsv ∷ atyp ∷ rest)
        × (3 ≤ code)
        × (code ≤ 5))
connect-unreachable_example =
    connect-unreachable wire (reached (5 ∷ 0 ∷ 5 ∷ 4 ∷ 0 ∷ 1 ∷ [])) onion 80 unreachable

connect_granted_example :
    (t : Wire) × (connect wire (reached granted) onion 80 ≡ ok t) × (t.inbox ≡ 42 ∷ [])
unfolding as_bytes
connect_granted_example =
    connect_granted wire (reached granted) onion 80 wire_steady
      (record { inbox = granted; sent = [] }) (omega arith) refl 0 1 (127 ∷ 0 ∷ 0 ∷ 1 ∷ 0 ∷ 80 ∷ [])
      (42 ∷ []) (ipv4 _ refl refl) refl

connect_refused_example :
    (e : ConnectError) × (connect wire (reached (5 ∷ 0 ∷ 5 ∷ 2 ∷ 0 ∷ 1 ∷ [])) onion 80 ≡ err e)
    × Verdict wire wire_steady 2 e
unfolding as_bytes
connect_refused_example =
    connect_refused wire (reached (5 ∷ 0 ∷ 5 ∷ 2 ∷ 0 ∷ 1 ∷ [])) onion 80 wire_steady
      (record { inbox = 5 ∷ 0 ∷ 5 ∷ 2 ∷ 0 ∷ 1 ∷ []; sent = [] }) (omega arith) refl 2 0 1 []
      (omega arith) refl

read_request-request_example :
    read_request (request (as_bytes onion) 9735) ≡ some (as_bytes onion, 9735)
unfolding as_bytes
read_request-request_example =
    read_request-request (as_bytes onion) 9735 (omega arith) (omega arith)
