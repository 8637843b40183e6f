-- ===== src/Control/Tests.antt =====
-- Tests of crates/fungi-transport-socks5h/src/control.rs against a daemon that sends given lines, and
-- the theorems at such replies.
use fungi_transport_ci_test.Prelude.{
  ◌≡◌, ◌≢◌, refl, [], ◌∷◌, ◌++◌, List, All, inr, none, Result, ok, err, arith,
}
use fungi_transport_ci_test.Text.{
  Bytes, Text, codes, as_bytes, trim_end, text_eq, strip_prefix, starts_with, is_whitespace,
}
use fungi_transport_ci_test.Errors.{IoError, other_kind}
use fungi_transport_ci_test.Io.Lines.{LineStream, ReadsLine}
use fungi_transport_ci_test.Control.Reply.{Continues, LastNamed}
use fungi_transport_ci_test.Control.Rounds.{unnamed}
use fungi_transport_ci_test.Control.Published.{Published, create_onion-Published}
use fungi_transport_ci_test.Control.Complete.{create_onion_ends}
use fungi_transport_ci_test.Control.Steady.{IsSteady}
use fungi_transport_ci_test.Control.Granted.{create_onion_granted}
use fungi_transport_ci_test.Control.{
  null, OnionService, says, no_service_id, desynchronized, exhausted, create_onion, auth_line,
  auth_command, add_onion, publish, expect_ok, accept_ok, reply_loop, reply_line, read_reply_line,
  is_ok_line,
}

-- The lines that the daemon sends, and what it has been sent.
pub record Daemon : Type 0 where
  pub lines : List Text
  pub sent : Bytes

abbrev due : Daemon → List Text
due s = s.lines

abbrev gone : Daemon → Bytes
gone s = s.sent

abbrev daemon_write : Bytes → Daemon → Result IoError (Unit {0}) × Daemon
daemon_write bs s = (ok tt, record s { sent = s.sent ++ bs })

-- An empty line cannot be sent: it ends the connection.
abbrev next_line : List Text → Bytes → Result IoError Text × Daemon
next_line [] w = (ok [], record { lines = []; sent = w })
next_line ([] ∷ ls) w = (
  err (record { kind = other_kind 0; message = codes "no line" }),
  record { lines = ls; sent = w },
)
next_line ((c ∷ l) ∷ ls) w = (ok (c ∷ l), record { lines = ls; sent = w })

abbrev daemon_read : Daemon → Result IoError Text × Daemon
daemon_read s = next_line s.lines s.sent

pub next_line_lem : (u : List Text) (w : Bytes) → ReadsLine due gone u w (next_line u w)
next_line_lem [] w = (refl, refl, refl)
next_line_lem ([] ∷ ls) w = ([] ∷ [], refl, refl)
next_line_lem ((c ∷ l) ∷ ls) w = (refl, refl)

abbrev pub daemon : LineStream Daemon
daemon = record {
  write_all = daemon_write;
  read_line = daemon_read;
  unread = due;
  written = gone;
  write_law = λ bs s. (refl, refl);
  read_law = λ s. next_line_lem s.lines s.sent;
}

daemon_steady : IsSteady daemon
daemon_steady = record {
  writes = λ bs s. (record s { sent = s.sent ++ bs }, refl);
  reads = λ c line rest s h. (record { lines = rest; sent = s.sent }, rw h refl);
}

abbrev crlf : Text → Text
crlf t = t ++ b'\r' ∷ b'\n' ∷ []

abbrev pub sends : List Text → Daemon
sends ls = record { lines = ls; sent = [] }

abbrev pub no_file : Text → Result IoError Bytes
no_file path = err (record { kind = other_kind 2; message = codes "no such file" })

abbrev pub grant : List Text
grant =
    crlf (codes "250 OK")
    ∷ crlf (codes "250-ServiceID=a")
    ∷ crlf (codes "250-PrivateKey=x")
    ∷ crlf (codes "250 OK")
    ∷ []

abbrev commands : Bytes
commands = as_bytes (auth_command none) ++ as_bytes (add_onion 80 4)

abbrev pub service : OnionService Daemon
service = record { service_id = codes "a"; conn = record { lines = []; sent = commands } }

pub daemon_grants : create_onion daemon no_file null 4 80 4 (ok (sends grant)) ≡ ok service
unfolding create_onion auth_line publish expect_ok accept_ok reply_loop reply_line read_reply_line
    is_ok_line text_eq strip_prefix starts_with trim_end is_whitespace
daemon_grants = refl

no_service :
    create_onion daemon no_file null 4 80 4 (ok (sends (codes "250 OK" ∷ codes "250 OK" ∷ [])))
    ≡ err no_service_id
unfolding create_onion auth_line publish expect_ok accept_ok reply_loop reply_line read_reply_line
    is_ok_line text_eq strip_prefix starts_with trim_end is_whitespace
no_service = refl

two_lines :
    create_onion daemon no_file null 4 80 4 (ok (sends (codes "250-x" ∷ [])))
    ≡ err (desynchronized (codes "x"))
unfolding create_onion auth_line publish expect_ok accept_ok read_reply_line strip_prefix trim_end
    is_whitespace
two_lines = refl

refused :
    create_onion daemon no_file null 4 80 4 (ok (sends (codes "250 OK" ∷ codes "551 no" ∷ [])))
    ≡ err (says (codes "ADD_ONION failed: 551 no"))
unfolding create_onion auth_line publish expect_ok accept_ok reply_loop reply_line read_reply_line
    is_ok_line text_eq strip_prefix starts_with trim_end is_whitespace
refused = refl

create_onion-Published_example :
    (s : Daemon) × (line : Text) × (◌≡◌ {A = Result IoError Daemon} (ok (sends grant)) (ok s))
    × (auth_line no_file null ≡ ok line)
    × Published daemon line 80 4 service.service_id s service.conn
create_onion-Published_example =
    create_onion-Published daemon no_file null 4 80 4 (ok (sends grant)) service daemon_grants

create_onion_ends_example :
    create_onion daemon no_file null 4 80 4 (ok (sends grant)) ≢ err exhausted
create_onion_ends_example = create_onion_ends daemon no_file null 4 80 4 (sends grant) (omega arith)

named_last :
    LastNamed (codes "a") (crlf (codes "250-ServiceID=a") ∷ crlf (codes "250-PrivateKey=x") ∷ [])
unfolding trim_end is_whitespace strip_prefix
named_last = (
  [],
  crlf (codes "250-PrivateKey=x") ∷ [],
  crlf (codes "250-ServiceID=a"),
  refl,
  refl,
  (unnamed (codes "250-PrivateKey=x") refl, tt),
)

trims_ok : trim_end (crlf (codes "250 OK")) ≡ codes "250 OK"
unfolding trim_end is_whitespace
trims_ok = refl

both_continue :
    All Continues (crlf (codes "250-ServiceID=a") ∷ crlf (codes "250-PrivateKey=x") ∷ [])
unfolding trim_end is_whitespace
both_continue = ((codes "ServiceID=a", refl), ((codes "PrivateKey=x", refl), tt))

create_onion_granted_example :
    (t : Daemon) × (create_onion daemon no_file null 4 80 4 (ok (sends grant))
      ≡ ok (record { service_id = codes "a"; conn = t }))
    × (t.lines ≡ [])
unfolding auth_line
create_onion_granted_example =
    create_onion_granted daemon daemon_steady no_file null (auth_command none)
      (crlf (codes "250 OK")) (crlf (codes "250 OK")) (codes "a")
      (crlf (codes "250-ServiceID=a") ∷ crlf (codes "250-PrivateKey=x") ∷ []) [] 4 80 4
      (sends grant) refl (omega arith) (inr (codes "OK", trims_ok)) both_continue named_last
      trims_ok refl
