-- ===== src/Control/Rounds.antt =====
-- The loop of `create_onion` in control.rs over the lines of a reply.
use fungi_transport_ci_test.Prelude.{
  ℕ, zero, suc, ◌≡◌, ◌≢◌, refl, sym, ap, ◌∙◌, [], ◌∷◌, ◌++◌, List, All, ◌⊎◌, inl, inr, Option, none,
  some, Result, ok, Bool-cases,
}
use fungi_transport_ci_test.Text.{
  Text, codes, text_eq, text_eq_sound, strip_prefix, strip_prefix_sound, strip_prefix-append,
  starts_with, trim_end,
}
use fungi_transport_ci_test.Io.Lines.{LineStream}
use fungi_transport_ci_test.Action.{Action, >>=-ok}
use fungi_transport_ci_test.Control.Reply.{
  Continues, Names, Nameless, LastNamed, starts_with_sound, read_reply_line-ok,
}
use fungi_transport_ci_test.Control.{
  Stop, continued, service_id_mark, reply_line, read_reply_line, reply_loop,
}

-- The service that the loop has in the end, from the one it had.
abbrev pub Outcome : Option Text → Option Text → List Text → Type 0
Outcome id r body = ((r ≡ id) × All Nameless body) ⊎ ((x : Text) × (r ≡ some x) × LastNamed x body)

-- The lines `u` begin with a whole reply, `rest` is behind it, and it makes `r` of `id`.
abbrev pub Ends : Option Text → Option Text → List Text → List Text → Type 0
Ends id r u rest =
    (body : List Text) × (final : Text) × (u ≡ body ++ final ∷ rest)
    × All Continues body
    × (trim_end final ≡ codes "250 OK")
    × Outcome id r body

named_first :
    (id r : Option Text) (new line : Text) (body : List Text)
    → Names new line
    → Outcome (some new) r body
    → Outcome id r (line ∷ body)
named_first id r new line body named (inl (e, nameless)) =
    inr (new, e, ([], body, line, refl, named, nameless))
named_first id r new line body named (inr (x, e, (before, after, l, split, n, later))) =
    inr (x, e, (line ∷ before, after, l, ap (◌∷◌ line) split, n, later))

Nameless-first :
    (id r : Option Text) (line : Text) (body : List Text)
    → Nameless line
    → Outcome id r body
    → Outcome id r (line ∷ body)
Nameless-first id r line body first (inl (e, nameless)) = inl (e, (first, nameless))
Nameless-first id r line body first (inr (x, e, (before, after, l, split, n, later))) =
    inr (x, e, (line ∷ before, after, l, ap (◌∷◌ line) split, n, later))

-- The three ways on from a line of the reply.
abbrev Step :
    {S : Type 0}
    → (Option Text → Action S Stop (Option Text))
    → Option Text
    → Text
    → Result Stop (Option Text) × S
    → S
    → Type 0
Step next id line out s =
    ((new : Text) × (line ≡ service_id_mark ++ new) × (next (some new) s ≡ out))
    ⊎ (((new : Text) → line ≢ service_id_mark ++ new)
        × ((u : Text) × (line ≡ continued ++ u))
        × (next id s ≡ out))
    ⊎ ((line ≡ codes "250 OK") × (out ≡ (ok id, s)))

pub unnamed :
    (line : Text)
    → strip_prefix service_id_mark line ≡ none
    → (new : Text) → line ≢ service_id_mark ++ new
unnamed line e new named =
    cc (sym e ∙ ap (strip_prefix service_id_mark) named ∙ strip_prefix-append service_id_mark new)

reply_line-ok :
    {S : Type 0} (next : Option Text → Action S Stop (Option Text)) (id r : Option Text)
    (line : Text) (o : Option Text) (s t : S)
    → strip_prefix service_id_mark line ≡ o
    → reply_line next id line o s ≡ (ok r, t)
    → Step next id line (ok r, t) s
unfolding reply_line
reply_line-ok next id r line (some new) s t e h =
    inl (new, strip_prefix_sound service_id_mark line new e, h)
reply_line-ok next id r line none s t e h = elim (Bool-cases (starts_with continued line)) [
  | inl more ↦ inr (inl (unnamed line e, starts_with_sound continued line more, rw more at h))
  | inr last ↦ elim (Bool-cases (text_eq line (codes "250 OK"))) [
    | inl fine ↦ inr (inr (text_eq_sound line (codes "250 OK") fine, sym (rw (last, fine) at h)))
    | inr odd ↦ cc (rw (last, odd) at h)
  ]
]

module _ {S : Type 0} (io : LineStream S) where
  pub reply_loop-ok :
      (rounds : ℕ) (id r : Option Text) (s t : S)
      → reply_loop io rounds id s ≡ (ok r, t)
      → Ends id r (io.unread s) (io.unread t) × (io.written t ≡ io.written s)
  unfolding reply_loop
  reply_loop-ok zero id r s t h = cc
  reply_loop-ok (suc rounds) id r s t h =
      let behind : Text → Action S Stop (Option Text) =
        λ line. reply_line (reply_loop io rounds) id line (strip_prefix service_id_mark line) in
      let (line, s1, got, h1) = >>=-ok (read_reply_line io) behind s h in
      let (raw, due, trimmed, silent) = read_reply_line-ok io line s s1 got in
      elim (reply_line-ok (reply_loop io rounds) id r line (strip_prefix service_id_mark line) s1 t
        refl h1) [
          | inl (new, named, ran) ↦
              let ((body, final, split, more, fine, out), quiet) =
                reply_loop-ok rounds (some new) r s1 t ran in
              (
                (
                  raw ∷ body,
                  final,
                  due ∙ ap (◌∷◌ raw) split,
                  ((codes "ServiceID=" ++ new, trimmed ∙ named), more),
                  fine,
                  named_first id r new raw body (trimmed ∙ named) out,
                ),
                quiet ∙ silent,
              )
          | inr (inl (nameless, (u, continues), ran)) ↦
              let ((body, final, split, more, fine, out), quiet) =
                reply_loop-ok rounds id r s1 t ran in
              (
                (
                  raw ∷ body,
                  final,
                  due ∙ ap (◌∷◌ raw) split,
                  ((u, trimmed ∙ continues), more),
                  fine,
                  Nameless-first id r raw body (λ new e. nameless new (sym trimmed ∙ e)) out,
                ),
                quiet ∙ silent,
              )
          | inr (inr (fine, e)) ↦
              let same : (r ≡ id) × (t ≡ s1) = (cc, cc) in
              (
                (
                  [],
                  raw,
                  due ∙ ap (λ x. raw ∷ io.unread x) (sym same.1),
                  tt,
                  trimmed ∙ fine,
                  inl (same.0, tt),
                ),
                ap io.written same.1 ∙ silent,
              )
        ]
