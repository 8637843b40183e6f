-- ===== src/Socks5.antt =====
-- crates/fungi-transport-socks5h/src/socks5.rs: the client side of SOCKS5 CONNECT, with the host name
-- sent to the proxy. The connection to the proxy is the parameter `io`, and dialling it is `dial`.
pub mod Request
pub mod Bound
pub mod Reply
pub mod Classify
pub mod Complete
pub mod Connect
pub mod Tests
use fungi_transport_ci_test.Prelude.{
  ℕ, zero, suc, ◌+◌, ◌/◌, ◌%◌, [], ◌∷◌, ◌++◌, length, Bool, true, false, ◌&&◌, Result, ok, err,
  map_err, ltb, leb, ◌==◌, if◌then◌else◌,
}
use fungi_transport_ci_test.Text.{Bytes, Text, codes, as_bytes, show_nat}
use fungi_transport_ci_test.Errors.{ConnectError, IoError, box_io, box_text}
use fungi_transport_ci_test.Io.Socket.{Socket}
use fungi_transport_ci_test.Action.{Action, ◌>>=◌, ◌>>◌, pure, throw, check}

unfoldable pub io_err : IoError → ConnectError
io_err e = ConnectError.transport (box_io e)

abbrev pub other : Text → ConnectError
other t = ConnectError.transport (box_text t)

-- `v[i]` on an array that is long enough.
abbrev pub get_or : Bytes → ℕ → ℕ → ℕ
get_or [] i d = d
get_or (b ∷ bs) zero d = b
get_or (b ∷ bs) (suc i) d = get_or bs i d

abbrev pub bytes_eq : Bytes → Bytes → Bool
bytes_eq [] [] = true
bytes_eq [] (y ∷ ys) = false
bytes_eq (x ∷ xs) [] = false
bytes_eq (x ∷ xs) (y ∷ ys) = (x == y) && bytes_eq xs ys

abbrev pub greeting : Bytes
greeting = 0x05 ∷ 0x01 ∷ 0x00 ∷ []

-- The CONNECT request: the length of the name is cast to `u8`, the port is `u16::to_be_bytes`.
unfoldable pub request : Bytes → ℕ → Bytes
request host port =
    (0x05 ∷ 0x01 ∷ 0x00 ∷ 0x03 ∷ (length host % 256) ∷ [])
    ++ (host ++ (port / 256 % 256) ∷ (port % 256) ∷ [])

-- The reply code.
abbrev pub check_code : {S : Type 0} → ℕ → Action S ConnectError (Unit {0})
check_code code =
    if code == 0x00
    then pure tt
    else if leb 0x03 code && leb code 0x05
    then throw ConnectError.unreachable
    else throw (other (codes "SOCKS5 CONNECT failed with reply code " ++ show_nat code))

module _ {S : Type 0} (io : Socket S) where
  abbrev pub write : Bytes → Action S ConnectError (Unit {0})
  write bs s = (map_err io_err (io.write_all bs s).0, (io.write_all bs s).1)

  abbrev pub read : ℕ → Action S ConnectError Bytes
  read n s = (map_err io_err (io.read_exact n s).0, (io.read_exact n s).1)

  -- The length of the bound address, which a name says itself.
  unfoldable pub addr_len : ℕ → Action S ConnectError ℕ
  addr_len atyp =
      if atyp == 0x01
      then pure 4
      else if atyp == 0x04
      then pure 16
      else if atyp == 0x03
      then (read 1 >>= λ l. pure (get_or l 0 0))
      else throw (other (codes "SOCKS5 reply with unknown address type " ++ show_nat atyp))

  abbrev pub refused : ConnectError
  refused = other (codes "SOCKS5 proxy refused no-auth method")

  abbrev pub wrong_version : ConnectError
  wrong_version = other (codes "SOCKS5 reply with wrong version byte")

  -- The greeting, and the method that the proxy chooses.
  unfoldable pub negotiate : Action S ConnectError (Unit {0})
  negotiate = do write greeting; chosen ← read 2; check (bytes_eq chosen (0x05 ∷ 0x00 ∷ [])) refused

  -- The request, and the first four bytes of the reply.
  unfoldable pub ask : Bytes → ℕ → Action S ConnectError Bytes
  ask host port = do
    write (request host port)
    head ← read 4
    check (get_or head 0 0 == 0x05) wrong_version
    pure head

  -- The bound address is consumed, so that the stream starts at the first byte of the tunnel.
  unfoldable pub skip_bound : ℕ → Action S ConnectError (Unit {0})
  skip_bound atyp = do len ← addr_len atyp; bound ← read (len + 2); pure tt

  -- From the greeting on, over a stream to the proxy.
  unfoldable pub handshake : Bytes → ℕ → Action S ConnectError (Unit {0})
  handshake host port = do
    negotiate
    head ← ask host port
    check_code (get_or head 1 0)
    skip_bound (get_or head 3 0)

  abbrev pub keep_stream : {A : Type 0} → Result ConnectError A × S → Result ConnectError S
  keep_stream (ok a, t) = ok t
  keep_stream (err e, t) = err e

  abbrev pub on_stream :
      {A : Type 0} → Action S ConnectError A → Result IoError S → Result ConnectError S
  on_stream m (err e) = err (io_err e)
  on_stream m (ok s) = keep_stream (m s)

  -- `connect`: `dial` is `TcpStream::connect(proxy)`, and is called only if the name is short enough.
  unfoldable pub connect : (Unit {0} → Result IoError S) → Text → ℕ → Result ConnectError S
  connect dial host port =
      if ltb 255 (length (as_bytes host))
      then err (other (codes "hostname longer than SOCKS5's 255-byte limit"))
      else on_stream (handshake (as_bytes host) port) (dial tt)
