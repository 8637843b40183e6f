-- ===== src/Control/Complete.antt =====
-- The loop of `create_onion` of control.rs ends, and over a connection that works the daemon's reply
-- alone decides.
use fungi_transport_ci_test.Prelude.{
  ℕ, zero, suc, ◌≤◌, ◌<◌, ◌≢◌, ap, [], ◌∷◌, length, inl, inr, Option, none, some, Result, ok, err,
  map_err, arith, Bool-cases,
}
use fungi_transport_ci_test.Text.{Bytes, Text, codes, as_bytes, text_eq, strip_prefix, starts_with}
use fungi_transport_ci_test.Errors.{IoError}
use fungi_transport_ci_test.Io.Lines.{LineStream}
use fungi_transport_ci_test.Action.{Action, ◌>>◌, >>=-err}
use fungi_transport_ci_test.Control.Reply.{read_reply_line-ok, write-ok, expect_ok-ok}
use fungi_transport_ci_test.Control.{
  Stop, exhausted, ControlAuth, continued, service_id_mark, is_ok_line, add_onion, auth_line,
  reply_line, serve, authenticate, take_line, accept_ok, write, read_reply_line, expect_ok,
  reply_loop, publish, create_onion, io_failed,
}

module _ {S : Type 0} (io : LineStream S) where
  -- An action that always ends.
  abbrev Finishes : {A : Type 0} → Result Stop A × S → Type 0
  Finishes {A} r = (t : S) → r ≢ (err exhausted, t)

  write-Finishes : (t : Text) (s : S) → Finishes (write io t s)
  write-Finishes t s = by_result (io.write_all (as_bytes t) s)
    where
      by_result : (r : Result IoError (Unit {0}) × S) → Finishes (map_err io_failed r.0, r.1)
      by_result (ok a, s') t h = cc
      by_result (err e, s') t h = cc

  take_line-Finishes : (r : Result IoError Text × S) → Finishes (take_line r)
  take_line-Finishes (ok [], s) t h = cc
  take_line-Finishes (ok (c ∷ line), s) t h = cc
  take_line-Finishes (err e, s) t h = cc

  read_reply_line-Finishes : (s : S) → Finishes (read_reply_line io s)
  unfolding read_reply_line
  read_reply_line-Finishes s = take_line-Finishes (io.read_line s)

  accept_ok-Finishes : (line : Text) (o : Option Text) (s : S) → Finishes (accept_ok line o s)
  unfolding accept_ok
  accept_ok-Finishes line (some rest) s t h = cc
  accept_ok-Finishes line none s t h = elim (Bool-cases (is_ok_line line)) [
    | inl e ↦ cc (rw e at h)
    | inr e ↦ cc (rw e at h)
  ]

  expect_ok-Finishes : (s : S) → Finishes (expect_ok io s)
  unfolding expect_ok
  expect_ok-Finishes s t h =
      elim (>>=-err (read_reply_line io) (λ line. accept_ok line (strip_prefix continued line)) s
        h) [
          | inl e ↦ read_reply_line-Finishes s t e
          | inr (line, s1, _, e) ↦ accept_ok-Finishes line (strip_prefix continued line) s1 t e
        ]

  reply_line-Finishes :
      (next : Option Text → Action S Stop (Option Text)) (id : Option Text) (line : Text)
      (o : Option Text) (s : S)
      → ((r : Option Text) → Finishes (next r s))
      → Finishes (reply_line next id line o s)
  unfolding reply_line
  reply_line-Finishes next id line (some new) s ih t h = ih (some new) t h
  reply_line-Finishes next id line none s ih t h = elim (Bool-cases (starts_with continued line)) [
    | inl e ↦ ih id t (rw e at h)
    | inr e ↦ elim (Bool-cases (text_eq line (codes "250 OK"))) [
      | inl e' ↦ cc (rw (e, e') at h)
      | inr e' ↦ cc (rw (e, e') at h)
    ]
  ]

  reply_loop-Finishes :
      (rounds : ℕ) (id : Option Text) (s : S)
      → length (io.unread s) < rounds
      → Finishes (reply_loop io rounds id s)
  unfolding reply_loop
  reply_loop-Finishes zero id s few t h = absurd (omega arith)
  reply_loop-Finishes (suc rounds) id s few t h =
      let behind : Text → Action S Stop (Option Text) =
        λ line. reply_line (reply_loop io rounds) id line (strip_prefix service_id_mark line) in
      elim (>>=-err (read_reply_line io) behind s h) [
        | inl e ↦ read_reply_line-Finishes s t e
        | inr (line, s1, got, e) ↦
            let (_, due, _, _) = read_reply_line-ok io line s s1 got in
            reply_line-Finishes (reply_loop io rounds) id line (strip_prefix service_id_mark line)
              s1 (λ r. reply_loop-Finishes rounds r s1 (omega (arith, ap length due))) t e
      ]

  publish-Finishes :
      (rounds : ℕ) (auth : Text) (virt_port local_port : ℕ) (s : S)
      → length (io.unread s) ≤ rounds
      → Finishes (publish io rounds auth virt_port local_port s)
  unfolding publish
  publish-Finishes rounds auth virt_port local_port s few t h =
      let cmd = add_onion virt_port local_port in
      elim (>>=-err (write io auth)
        (λ _. expect_ok io >> (write io cmd >> reply_loop io rounds none)) s h) [
          | inl e ↦ write-Finishes auth s t e
          | inr (_, s1, sent, h1) ↦
              elim (>>=-err (expect_ok io) (λ _. write io cmd >> reply_loop io rounds none) s1 h1) [
                | inl e ↦ expect_ok-Finishes s1 t e
                | inr (_, s2, answered, h2) ↦
                    elim (>>=-err (write io cmd) (λ _. reply_loop io rounds none) s2 h2) [
                      | inl e ↦ write-Finishes cmd s2 t e
                      | inr (_, s3, asked, h3) ↦
                          let (_, u1) = write-ok io auth s s1 sent in
                          let (_, u2, _, _) = expect_ok-ok io s1 s2 answered in
                          let (_, u3) = write-ok io cmd s2 s3 asked in
                          reply_loop-Finishes rounds none s3
                            (omega (arith, ap length u1, ap length u2, ap length u3)) t h3
                    ]
              ]
        ]

  serve-Finishes : (r : Result Stop (Option Text) × S) → Finishes r → serve r ≢ err exhausted
  serve-Finishes (ok none, t) ih h = cc
  serve-Finishes (ok (some id), t) ih h = cc
  serve-Finishes (err e, t) ih h = ih t (cc)

  -- The loop over the reply ends: with a round for each line that the daemon sends, `create_onion`
  -- returns a service or an error of its own, whatever the lines are.
  pub create_onion_ends :
      (read_file : Text → Result IoError Bytes) (auth : ControlAuth)
      (rounds virt_port local_port : ℕ) (s : S)
      → length (io.unread s) ≤ rounds
      → create_onion io read_file auth rounds virt_port local_port (ok s) ≢ err exhausted
  unfolding create_onion
  create_onion_ends read_file auth rounds virt_port local_port s few =
      by_line (auth_line read_file auth)
    where
      by_line :
          (r : Result IoError Text)
          → authenticate io rounds virt_port local_port s r ≢ err exhausted
      by_line (ok line) = serve-Finishes _ (publish-Finishes rounds line virt_port local_port s few)
      by_line (err e) = λ h. cc
