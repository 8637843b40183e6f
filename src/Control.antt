-- ===== src/Control.antt =====
-- crates/fungi-transport-socks5h/src/control.rs: the client of the tor daemon's control port, which
-- authenticates and publishes one onion service. The connection is the parameter `io`; dialling it and
-- reading the cookie file are `dial` and `read_file`.
pub mod Reply
pub mod Rounds
pub mod Published
pub mod Complete
pub mod Steady
pub mod Granted
pub mod Tests
use fungi_transport_ci_test.Prelude.{
  ℕ, zero, suc, ◌+◌, [], ◌∷◌, ◌++◌, List, Option, none, some, Bool, true, false, ◌||◌, Result, ok,
  err, map_err, if◌then◌else◌,
}
use fungi_transport_ci_test.Text.{
  Bytes, Text, codes, as_bytes, show_nat, text_eq, strip_prefix, starts_with, trim_end, hex,
}
use fungi_transport_ci_test.Errors.{ConnectError, IoError, box_io, box_text}
use fungi_transport_ci_test.Io.Lines.{LineStream}
use fungi_transport_ci_test.Action.{Action, then, ◌>>=◌, ◌>>◌, pure, throw}

pub data ControlAuth : Type 0 where
  null : ControlAuth
  cookie_file : Text → ControlAuth

-- The connection is held: the daemon removes the service when it closes.
pub record OnionService (S : Type 0) : Type 0 where
  pub service_id : Text
  pub conn : S

-- Why `create_onion` does not return a service. `exhausted` stands for a loop that outlives its rounds;
-- with a round for each line that the daemon sends, and one more, it does not happen.
pub data Stop : Type 0 where
  failed : ConnectError → Stop
  exhausted : Stop

abbrev pub io_failed : IoError → Stop
io_failed e = failed (ConnectError.transport (box_io e))

abbrev pub says : Text → Stop
says t = failed (ConnectError.transport (box_text t))

abbrev pub continued : Text
continued = codes "250-"

abbrev pub service_id_mark : Text
service_id_mark = codes "250-ServiceID="

abbrev pub desynchronized : Text → Stop
desynchronized rest = says (
    codes
      "control port desynchronized: expected a single-line reply but got a continuation line: 250-"
    ++ rest)

abbrev pub no_service_id : Stop
no_service_id = says (codes "ADD_ONION reply carried no ServiceID")

unfoldable pub is_ok_line : Text → Bool
is_ok_line line = text_eq line (codes "250") || starts_with (codes "250 ") line

-- The command that publishes the service.
unfoldable pub add_onion : ℕ → ℕ → Text
add_onion virt_port local_port =
    codes "ADD_ONION NEW:ED25519-V3 Flags=DiscardPK Port="
    ++ (show_nat virt_port ++ (codes ",127.0.0.1:" ++ (show_nat local_port ++ b'\r' ∷ b'\n' ∷ [])))

unfoldable pub auth_command : Option Bytes → Text
auth_command none = codes "AUTHENTICATE" ++ b'\r' ∷ b'\n' ∷ []
auth_command (some cookie) = codes "AUTHENTICATE " ++ (hex cookie ++ b'\r' ∷ b'\n' ∷ [])

-- The line to send first; it takes the cookie from its file.
unfoldable pub auth_line : (Text → Result IoError Bytes) → ControlAuth → Result IoError Text
auth_line read_file null = ok (auth_command none)
auth_line read_file (cookie_file path) = elim (read_file path) [
  | ok cookie ↦ ok (auth_command (some cookie))
  | err e ↦ err e
]

module _ {S : Type 0} where
  abbrev pub take_line : Result IoError Text × S → Result Stop Text × S
  take_line (ok [], s) = (err (says (codes "control connection closed by daemon")), s)
  take_line (ok (c ∷ line), s) = (ok (trim_end (c ∷ line)), s)
  take_line (err e, s) = (err (io_failed e), s)

  -- A continuation line is not the one line that was expected.
  unfoldable pub accept_ok : Text → Option Text → Action S Stop (Unit {0})
  accept_ok line (some rest) = throw (desynchronized rest)
  accept_ok line none =
      if is_ok_line line then pure tt else throw (says (codes "control port replied: " ++ line))

  -- One round of the loop over the reply to ADD_ONION, at its line; `next` is the next round.
  unfoldable pub reply_line :
      (Option Text → Action S Stop (Option Text))
      → Option Text
      → Text
      → Option Text
      → Action S Stop (Option Text)
  reply_line next service_id line (some id) = next (some id)
  reply_line next service_id line none =
      if starts_with continued line
      then next service_id
      else if text_eq line (codes "250 OK")
      then pure service_id
      else throw (says (codes "ADD_ONION failed: " ++ line))

  abbrev pub with_service : Option Text × S → Result Stop (OnionService S)
  with_service (none, s) = err no_service_id
  with_service (some id, s) = ok (record { service_id = id; conn = s })

  abbrev pub serve : Result Stop (Option Text) × S → Result Stop (OnionService S)
  serve (ok id, s) = with_service (id, s)
  serve (err e, s) = err e

module _ {S : Type 0} (io : LineStream S) where
  abbrev pub write : Text → Action S Stop (Unit {0})
  write t s = (map_err io_failed (io.write_all (as_bytes t) s).0, (io.write_all (as_bytes t) s).1)

  unfoldable pub read_reply_line : Action S Stop Text
  read_reply_line s = take_line (io.read_line s)

  unfoldable pub expect_ok : Action S Stop (Unit {0})
  expect_ok = read_reply_line >>= λ line. accept_ok line (strip_prefix continued line)

  unfoldable pub reply_loop : ℕ → Option Text → Action S Stop (Option Text)
  reply_loop zero service_id = throw exhausted
  reply_loop (suc rounds) service_id = read_reply_line >>= λ line.
      reply_line (reply_loop rounds) service_id line (strip_prefix service_id_mark line)

  -- `create_onion` from its first write on.
  unfoldable pub publish : ℕ → Text → ℕ → ℕ → Action S Stop (Option Text)
  publish rounds auth virt_port local_port = do
    write auth
    expect_ok
    write (add_onion virt_port local_port)
    reply_loop rounds none

  abbrev pub authenticate : ℕ → ℕ → ℕ → S → Result IoError Text → Result Stop (OnionService S)
  authenticate rounds virt_port local_port s (ok auth) =
      serve (publish rounds auth virt_port local_port s)
  authenticate rounds virt_port local_port s (err e) = err (io_failed e)

  -- The cookie is read only when the daemon was reached.
  unfoldable pub create_onion :
      (Text → Result IoError Bytes)
      → ControlAuth
      → ℕ
      → ℕ
      → ℕ
      → Result IoError S
      → Result Stop (OnionService S)
  create_onion read_file auth rounds virt_port local_port (err e) = err (io_failed e)
  create_onion read_file auth rounds virt_port local_port (ok s) =
      authenticate rounds virt_port local_port s (auth_line read_file auth)
