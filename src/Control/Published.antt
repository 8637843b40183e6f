-- ===== src/Control/Published.antt =====
-- `create_onion` of control.rs: what a published service rests on.
use fungi_transport_ci_test.Prelude.{
  ℕ, ◌≡◌, refl, sym, ap, ◌∙◌, ◌∷◌, ◌++◌, List, All, inl, inr, Option, none, some, Result, ok, err,
  append_assoc, subst,
}
use fungi_transport_ci_test.Text.{Bytes, Text, codes, as_bytes, trim_end}
use fungi_transport_ci_test.Errors.{IoError}
use fungi_transport_ci_test.Io.Lines.{LineStream}
use fungi_transport_ci_test.Action.{◌>>◌, >>=-ok}
use fungi_transport_ci_test.Control.Reply.{Continues, LastNamed, IsAccepted, write-ok, expect_ok-ok}
use fungi_transport_ci_test.Control.{
  Stop, ControlAuth, OnionService, add_onion, auth_line, serve, authenticate, write, expect_ok,
  reply_loop, publish, create_onion,
}
use fungi_transport_ci_test.Control.Rounds.{Outcome, reply_loop-ok}

module _ {S : Type 0} (io : LineStream S) where
  -- The replies and the commands of a published service: the daemon accepted the authentication, the
  -- reply to ADD_ONION is whole, and the service is the last one that it names.
  abbrev pub Published : Text → ℕ → ℕ → Text → S → S → Type 0
  Published auth virt_port local_port id s t =
      (accepted final : Text) × (body : List Text) × (io.unread s
        ≡ accepted ∷ (body ++ final ∷ io.unread t))
      × IsAccepted accepted
      × All Continues body
      × (trim_end final ≡ codes "250 OK")
      × LastNamed id body
      × (io.written t
          ≡ io.written s ++ (as_bytes auth ++ as_bytes (add_onion virt_port local_port)))

  named : (id : Text) (body : List Text) → Outcome none (some id) body → LastNamed id body
  named id body (inl (e, _)) = cc
  named id body (inr (x, e, last)) =
      let same : id ≡ x = cc in subst (λ x. LastNamed x body) (sym same) last

  publish-ok :
      (rounds : ℕ) (auth : Text) (virt_port local_port : ℕ) (id : Text) (s t : S)
      → publish io rounds auth virt_port local_port s ≡ (ok (some id), t)
      → Published auth virt_port local_port id s t
  unfolding publish
  publish-ok rounds auth virt_port local_port id s t h =
      let cmd = add_onion virt_port local_port in
      let (_, s1, sent, h1) =
        >>=-ok (write io auth) (λ _. expect_ok io >> (write io cmd >> reply_loop io rounds none)) s
          h in
      let (_, s2, answered, h2) =
        >>=-ok (expect_ok io) (λ _. write io cmd >> reply_loop io rounds none) s1 h1 in
      let (_, s3, asked, h3) = >>=-ok (write io cmd) (λ _. reply_loop io rounds none) s2 h2 in
      let (w1, u1) = write-ok io auth s s1 sent in
      let (line, u2, accepted, w2) = expect_ok-ok io s1 s2 answered in
      let (w3, u3) = write-ok io cmd s2 s3 asked in
      let ((body, final, u4, more, fine, out), w4) =
        reply_loop-ok io rounds none (some id) s3 t h3 in
      (
        line,
        final,
        body,
        sym u1 ∙ u2 ∙ ap (◌∷◌ line) (sym u3 ∙ u4),
        accepted,
        more,
        fine,
        named id body out,
        w4
            ∙ w3
            ∙ ap (λ x. x ++ as_bytes cmd) (w2 ∙ w1)
            ∙ append_assoc (io.written s) (as_bytes auth) (as_bytes cmd),
      )

  serve-ok :
      (r : Result Stop (Option Text) × S) (service : OnionService S)
      → serve r ≡ ok service
      → r ≡ (ok (some service.service_id), service.conn)
  serve-ok (ok none, t) service h = cc
  serve-ok (ok (some id), t) service h = cc
  serve-ok (err e, t) service h = cc

  authenticate-ok :
      (rounds virt_port local_port : ℕ) (s : S) (r : Result IoError Text) (service : OnionService S)
      → authenticate io rounds virt_port local_port s r ≡ ok service
      → (auth : Text) × (r ≡ ok auth)
        × Published auth virt_port local_port service.service_id s service.conn
  authenticate-ok rounds virt_port local_port s (ok auth) service h = (
    auth,
    refl,
    publish-ok rounds auth virt_port local_port service.service_id s service.conn
        (serve-ok _ service h),
  )
  authenticate-ok rounds virt_port local_port s (err e) service h = cc

  -- On any connection, a service is returned only if the daemon was reached, the line to authenticate
  -- with could be made, the daemon accepted it with one line, and its reply to ADD_ONION is a run of
  -- continuation lines and the line "250 OK"; then the service is the last one that the reply names,
  -- exactly the two commands were sent, and the connection is just behind the reply.
  pub create_onion-Published :
      (read_file : Text → Result IoError Bytes) (auth : ControlAuth)
      (rounds virt_port local_port : ℕ) (reached : Result IoError S) (service : OnionService S)
      → create_onion io read_file auth rounds virt_port local_port reached ≡ ok service
      → (s : S) × (line : Text) × (reached ≡ ok s)
        × (auth_line read_file auth ≡ ok line)
        × Published line virt_port local_port service.service_id s service.conn
  unfolding create_onion
  create_onion-Published read_file auth rounds virt_port local_port (ok s) service h =
      let (line, made, published) =
        authenticate-ok rounds virt_port local_port s (auth_line read_file auth) service h in
      (s, line, refl, made, published)
  create_onion-Published read_file auth rounds virt_port local_port (err e) service h = cc
