-- ===== src/Control/Steady.antt =====
-- The single steps of `create_onion` of control.rs over a connection that works.
use fungi_transport_ci_test.Prelude.{
  ℕ, ◌≡◌, ◌≢◌, refl, ap, ◌∙◌, [], ◌∷◌, ◌++◌, List, All, inl, inr, Option, none, some, Bool, true,
  false, ◌||◌, Result, ok, map_err, Option-cases, if-true,
}
use fungi_transport_ci_test.Text.{
  Bytes, Text, codes, as_bytes, text_eq, text_eq_refl, strip_prefix, strip_prefix-append,
  strip_prefix_sound, starts_with, trim_end, is_some,
}
use fungi_transport_ci_test.Errors.{IoError}
use fungi_transport_ci_test.Io.Lines.{LineStream}
use fungi_transport_ci_test.Action.{Action, >>=-run}
use fungi_transport_ci_test.Control.Reply.{IsAccepted, read_reply_line-ok, write-ok}
use fungi_transport_ci_test.Control.{
  Stop, continued, service_id_mark, is_ok_line, reply_line, take_line, accept_ok, write,
  read_reply_line, expect_ok, io_failed,
}

-- Writes succeed, and a line that is due can be read.
pub record IsSteady {S : Type 0} (io : LineStream S) : Type 0 where
  pub writes : (bs : Bytes) (s : S) → (t : S) × (io.write_all bs s ≡ (ok tt, t))
  pub reads :
      (c : ℕ) (line : Text) (rest : List Text) (s : S)
      → io.unread s ≡ (c ∷ line) ∷ rest
      → (t : S) × (io.read_line s ≡ (ok (c ∷ line), t))

pub All-split :
    (P : Text → Type 0) (xs : List Text) (y : Text) (ys : List Text)
    → All P (xs ++ y ∷ ys)
    → All P xs × (P y × All P ys)
All-split P [] y ys h = (tt, h)
All-split P (x ∷ xs) y ys (p, h) = let (before, rest) = All-split P xs y ys h in ((p, before), rest)

accepted_line : (line : Text) → IsAccepted line → is_ok_line (trim_end line) ≡ true
unfolding is_ok_line starts_with
accepted_line line (inl e) =
    ap (λ l. text_eq l (codes "250") || is_some (strip_prefix (codes "250 ") l)) e
    ∙ ap (λ b. b || is_some (strip_prefix (codes "250 ") (codes "250")))
        (text_eq_refl (codes "250"))
accepted_line line (inr (t, e)) =
    ap (λ l. text_eq l (codes "250") || is_some (strip_prefix (codes "250 ") l)) e
    ∙ ap (λ o. text_eq (codes "250 " ++ t) (codes "250") || is_some o)
        (strip_prefix-append (codes "250 ") t)
    ∙ or_true (text_eq (codes "250 " ++ t) (codes "250"))
  where
    or_true : (b : Bool) → (b || true) ≡ true
    or_true true = refl
    or_true false = refl

not_continued : (line : Text) → IsAccepted line → strip_prefix continued (trim_end line) ≡ none
unfolding strip_prefix
not_continued line (inl e) = ap (strip_prefix continued) e
not_continued line (inr (t, e)) = ap (strip_prefix continued) e

-- A round of the loop at a line of each kind.
module _ {S : Type 0} (next : Option Text → Action S Stop (Option Text)) (id : Option Text)
    (line : Text) (s : S) where
  pub at_named :
      (new : Text)
      → line ≡ service_id_mark ++ new
      → reply_line next id line (strip_prefix service_id_mark line) s ≡ next (some new) s
  unfolding reply_line
  at_named new e =
      ap (λ o. reply_line next id line o s)
        (ap (strip_prefix service_id_mark) e ∙ strip_prefix-append service_id_mark new)

  pub at_continued :
      (u : Text)
      → line ≡ continued ++ u
      → (r : Option Text) × (reply_line next id line (strip_prefix service_id_mark line) s
          ≡ next r s)
        × (((new : Text) → line ≢ service_id_mark ++ new) → r ≡ id)
  unfolding reply_line starts_with
  at_continued u e = elim (Option-cases (strip_prefix service_id_mark line)) [
    | inl none_e ↦ (
      id,
      ap (λ o. reply_line next id line o s) none_e
          ∙ ap (λ (a : Action S Stop (Option Text)). a s)
              (if-true (starts_with continued line) _ _
                (ap is_some (ap (strip_prefix continued) e ∙ strip_prefix-append continued u))),
      λ _. refl,
    )
    | inr (new, some_e) ↦ (
      some new,
      ap (λ o. reply_line next id line o s) some_e,
      λ nameless. absurd (nameless new (strip_prefix_sound service_id_mark line new some_e)),
    )
  ]

  pub at_final :
      line ≡ codes "250 OK"
      → reply_line next id line (strip_prefix service_id_mark line) s ≡ (ok id, s)
  unfolding reply_line starts_with strip_prefix text_eq
  at_final e = ap (λ l. reply_line next id l (strip_prefix service_id_mark l) s) e

module _ {S : Type 0} (io : LineStream S) (steady : IsSteady io) where
  pub write_runs :
      (text : Text) (s : S) → (t : S) × (write io text s ≡ (ok tt, t)) × (io.unread t ≡ io.unread s)
  write_runs text s =
      let (t, e) = steady.writes (as_bytes text) s in
      let ran : write io text s ≡ (ok tt, t) =
        ap (λ (r : Result IoError (Unit {0}) × S). (map_err io_failed r.0, r.1)) e in
      (t, ran, (write-ok io text s t ran).1)

  pub read_runs :
      (raw : Text) (rest : List Text) (s : S)
      → trim_end raw ≢ []
      → io.unread s ≡ raw ∷ rest
      → (t : S) × (read_reply_line io s ≡ (ok (trim_end raw), t)) × (io.unread t ≡ rest)
  unfolding read_reply_line trim_end
  read_runs [] rest s ne due = absurd (ne refl)
  read_runs (c ∷ line) rest s ne due =
      let (t, e) = steady.reads c line rest s due in
      let ran = ap take_line e in
      let (_, split, _, _) = read_reply_line-ok io (trim_end (c ∷ line)) s t ran in
      (t, ran, cc (split, due))

  pub expect_ok_runs :
      (line : Text) (rest : List Text) (s : S)
      → IsAccepted line
      → io.unread s ≡ line ∷ rest
      → (t : S) × (expect_ok io s ≡ (ok tt, t)) × (io.unread t ≡ rest)
  unfolding expect_ok accept_ok
  expect_ok_runs line rest s accepted due =
      let (t, ran, left) = read_runs line rest s (not_blank accepted) due in
      (
        t,
        >>=-run (read_reply_line io) (λ line. accept_ok line (strip_prefix continued line)) s ran
            ∙ ap (λ o. accept_ok (trim_end line) o t) (not_continued line accepted)
            ∙ ap (λ (a : Action S Stop (Unit {0})). a t)
                (if-true (is_ok_line (trim_end line)) _ _ (accepted_line line accepted)),
        left,
      )
    where
      not_blank : IsAccepted line → trim_end line ≢ []
      not_blank (inl e) h = cc
      not_blank (inr (u, e)) h = cc
