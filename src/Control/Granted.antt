-- ===== src/Control/Granted.antt =====
-- `create_onion` of control.rs over a connection that works, to a daemon that grants the service.
use fungi_transport_ci_test.Prelude.{
  ℕ, zero, suc, ◌+◌, ◌-◌, ◌≤◌, ◌<◌, ◌≡◌, ◌≢◌, refl, ap, ◌∙◌, [], ◌∷◌, ◌++◌, List, length, All,
  Option, none, some, Result, ok, arith, append_assoc, subst, length-append,
}
use fungi_transport_ci_test.Text.{Bytes, Text, codes, strip_prefix, trim_end}
use fungi_transport_ci_test.Errors.{IoError}
use fungi_transport_ci_test.Io.Lines.{LineStream}
use fungi_transport_ci_test.Action.{◌>>◌, >>=-run}
use fungi_transport_ci_test.Control.Reply.{Continues, Names, Nameless, LastNamed, IsAccepted}
use fungi_transport_ci_test.Control.{
  ControlAuth, service_id_mark, add_onion, auth_line, reply_line, serve, authenticate, write,
  read_reply_line, expect_ok, reply_loop, publish, create_onion,
}
use fungi_transport_ci_test.Control.Steady.{
  IsSteady, at_named, at_continued, at_final, write_runs, read_runs, expect_ok_runs, All-split,
}

module _ {S : Type 0} (io : LineStream S) (steady : IsSteady io) where
  loop_round :
      (rounds : ℕ) (id : Option Text) (raw : Text) (rest : List Text) (s : S)
      → trim_end raw ≢ []
      → io.unread s ≡ raw ∷ rest
      → (t : S) × (reply_loop io (suc rounds) id s
          ≡ reply_line
              (reply_loop io rounds)
              id
              (trim_end raw)
              (strip_prefix service_id_mark (trim_end raw))
              t)
        × (io.unread t ≡ rest)
  unfolding reply_loop
  loop_round rounds id raw rest s ne due =
      let (t, ran, left) = read_runs io steady raw rest s ne due in
      (
        t,
        >>=-run (read_reply_line io)
            (λ line. reply_line (reply_loop io rounds) id line (strip_prefix service_id_mark line))
            s ran,
        left,
      )

  loop_skips :
      (body rest : List Text) (rounds more : ℕ) (id : Option Text) (s : S)
      → rounds ≡ length body + more
      → All Continues body
      → io.unread s ≡ body ++ rest
      → (r : Option Text) × (t : S) × (reply_loop io rounds id s ≡ reply_loop io more r t)
        × (io.unread t ≡ rest)
        × (All Nameless body → r ≡ id)
  loop_skips [] rest rounds more id s n all due =
      (id, s, ap (λ k. reply_loop io k id s) (omega arith), due, λ _. refl)
  loop_skips (line ∷ body) rest zero more id s n all due = absurd (omega arith)
  loop_skips (line ∷ body) rest (suc rounds) more id s n ((u, continues), all) due =
      let (t, ran, left) = loop_round rounds id line (body ++ rest) s (λ e. cc) due in
      let (r, on, same) = at_continued (reply_loop io rounds) id (trim_end line) t u continues in
      let (r', t', ran', left', same') =
        loop_skips body rest rounds more r t (omega arith) all left in
      (r', t', ran ∙ on ∙ ran', left', λ (first, nameless). same' nameless ∙ same first)

  -- The reply of a daemon that grants the service, and what the loop makes of it.
  loop_publishes :
      (before after rest : List Text) (line final id : Text) (rounds : ℕ) (s : S)
      → length before + (length after + 2) ≤ rounds
      → All Continues before
      → All Continues after
      → Names id line
      → All Nameless after
      → trim_end final ≡ codes "250 OK"
      → io.unread s ≡ before ++ line ∷ (after ++ final ∷ rest)
      → (t : S) × (reply_loop io rounds none s ≡ (ok (some id), t)) × (io.unread t ≡ rest)
  loop_publishes before after rest line final id rounds s enough more1 more2 names nameless fine
        due =
      let (spare, count) : (k : ℕ) × (rounds ≡ length before + suc (length after + suc k)) =
        (rounds - (length before + (length after + 2)), omega arith) in
      let (r1, s1, ran1, left1, _) =
        loop_skips before (line ∷ (after ++ final ∷ rest)) rounds (suc (length after + suc spare))
          none s count more1 due in
      let (s2, ran2, left2) =
        loop_round (length after + suc spare) r1 line (after ++ final ∷ rest) s1 (λ e. cc) left1 in
      let (r3, s3, ran3, left3, same) =
        loop_skips after (final ∷ rest) (length after + suc spare) (suc spare) (some id) s2 refl
          more2 left2 in
      let (s4, ran4, left4) = loop_round spare r3 final rest s3 (λ e. cc) left3 in
      (
        s4,
        ran1
            ∙ ran2
            ∙ at_named (reply_loop io (length after + suc spare)) r1 (trim_end line) s2 id names
            ∙ ran3
            ∙ ran4
            ∙ at_final (reply_loop io spare) r3 (trim_end final) s4 fine
            ∙ ap (λ x. (ok x, s4)) (same nameless),
        left4,
      )

  publish_runs :
      (auth : Text) (accepted final id : Text) (body rest : List Text)
      (rounds virt_port local_port : ℕ) (s : S)
      → length body < rounds
      → IsAccepted accepted
      → All Continues body
      → LastNamed id body
      → trim_end final ≡ codes "250 OK"
      → io.unread s ≡ accepted ∷ (body ++ final ∷ rest)
      → (t : S) × (publish io rounds auth virt_port local_port s ≡ (ok (some id), t))
        × (io.unread t ≡ rest)
  unfolding publish
  publish_runs auth accepted final id body rest rounds virt_port local_port s enough fine more
        (before, after, line, split, names, nameless) done due =
      let cmd = add_onion virt_port local_port in
      let (more1, (_, more2)) =
        All-split Continues before line after (subst (All Continues) split more) in
      let (s1, ran1, left1) = write_runs io steady auth s in
      let (s2, ran2, left2) =
        expect_ok_runs io steady accepted (body ++ final ∷ rest) s1 fine (left1 ∙ due) in
      let (s3, ran3, left3) = write_runs io steady cmd s2 in
      let (t, ran4, left4) =
        loop_publishes before after rest line final id rounds s3
          (omega (arith, ap length split, length-append before (line ∷ after))) more1 more2 names
          nameless done
          (left3
            ∙ left2
            ∙ ap (λ b. b ++ final ∷ rest) split
            ∙ append_assoc before (line ∷ after) (final ∷ rest)) in
      (
        t,
        >>=-run (write io auth) (λ _. expect_ok io >> (write io cmd >> reply_loop io rounds none)) s
              ran1
            ∙ >>=-run (expect_ok io) (λ _. write io cmd >> reply_loop io rounds none) s1 ran2
            ∙ >>=-run (write io cmd) (λ _. reply_loop io rounds none) s2 ran3
            ∙ ran4,
        left4,
      )

  -- Over a connection that works, to a daemon that accepts the authentication and answers ADD_ONION
  -- with continuation lines and then "250 OK", the service that the last such line names is returned,
  -- and no line behind the reply is taken.
  pub create_onion_granted :
      (read_file : Text → Result IoError Bytes) (auth : ControlAuth) (auth_text : Text)
      (accepted final id : Text) (body rest : List Text) (rounds virt_port local_port : ℕ) (s : S)
      → auth_line read_file auth ≡ ok auth_text
      → length body < rounds
      → IsAccepted accepted
      → All Continues body
      → LastNamed id body
      → trim_end final ≡ codes "250 OK"
      → io.unread s ≡ accepted ∷ (body ++ final ∷ rest)
      → (t : S) × (create_onion io read_file auth rounds virt_port local_port (ok s)
          ≡ ok (record { service_id = id; conn = t }))
        × (io.unread t ≡ rest)
  unfolding create_onion
  create_onion_granted read_file auth auth_text accepted final id body rest rounds virt_port
        local_port s made enough fine more last done due =
      let (t, ran, left) =
        publish_runs auth_text accepted final id body rest rounds virt_port local_port s enough fine
          more last done due in
      (t, ap (authenticate io rounds virt_port local_port s) made ∙ ap serve ran, left)
