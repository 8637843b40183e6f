-- ===== src/Control/Reply.antt =====
-- What the replies of the daemon must be for `create_onion` of control.rs to publish a service.
use fungi_transport_ci_test.Prelude.{
  ◌≡◌, ◌≢◌, refl, sym, ap, ◌∙◌, [], ◌∷◌, ◌++◌, List, All, ◌⊎◌, inl, inr, Option, none, some, Bool,
  true, false, ◌||◌, Result, ok, err, map_err, Bool-cases, Option-cases,
}
use fungi_transport_ci_test.Text.{
  Bytes, Text, codes, as_bytes, text_eq, text_eq_sound, strip_prefix, strip_prefix_sound,
  starts_with, trim_end, is_some,
}
use fungi_transport_ci_test.Errors.{IoError}
use fungi_transport_ci_test.Io.Lines.{LineStream, WritesAll, ReadsLine}
use fungi_transport_ci_test.Action.{>>=-ok}
use fungi_transport_ci_test.Control.{
  Stop, io_failed, continued, service_id_mark, is_ok_line, take_line, accept_ok, write,
  read_reply_line, expect_ok,
}

-- A line of the reply that another one follows, and one that names no service.
abbrev pub Continues : Text → Type 0
Continues line = (t : Text) × (trim_end line ≡ continued ++ t)

abbrev pub Names : Text → Text → Type 0
Names id line = trim_end line ≡ service_id_mark ++ id

abbrev pub Nameless : Text → Type 0
Nameless line = (id : Text) → trim_end line ≢ service_id_mark ++ id

-- The last line that names a service names this one.
abbrev pub LastNamed : Text → List Text → Type 0
LastNamed id body =
    (before after : List Text) × (line : Text) × (body ≡ before ++ line ∷ after)
    × Names id line
    × All Nameless after

abbrev pub IsAccepted : Text → Type 0
IsAccepted line = (trim_end line ≡ codes "250") ⊎ ((t : Text) × (trim_end line ≡ codes "250 " ++ t))

pub starts_with_sound : (p s : Text) → starts_with p s ≡ true → (t : Text) × (s ≡ p ++ t)
unfolding starts_with
starts_with_sound p s h = elim (Option-cases (strip_prefix p s)) [
  | inl e ↦ cc (ap is_some e)
  | inr (t, e) ↦ (t, strip_prefix_sound p s t e)
]

or-true : (a b : Bool) → (a || b) ≡ true → (a ≡ true) ⊎ (b ≡ true)
or-true true b h = inl refl
or-true false b h = inr h

is_ok_line_sound :
    (line : Text)
    → is_ok_line line ≡ true
    → (line ≡ codes "250") ⊎ ((t : Text) × (line ≡ codes "250 " ++ t))
unfolding is_ok_line
is_ok_line_sound line h = elim (or-true (text_eq line (codes "250")) _ h) [
  | inl e ↦ inl (text_eq_sound line (codes "250") e)
  | inr e ↦ inr (starts_with_sound (codes "250 ") line e)
]

module _ {S : Type 0} (io : LineStream S) where
  write_result :
      (t : Text) (s s' : S) (r : Result IoError (Unit {0}) × S)
      → WritesAll io.unread io.written (io.unread s) (io.written s) (as_bytes t) r
      → ◌≡◌ {A = Result Stop (Unit {0}) × S} (map_err io_failed r.0, r.1) (ok tt, s')
      → (io.written s' ≡ io.written s ++ as_bytes t) × (io.unread s' ≡ io.unread s)
  write_result t s s' (ok _, u) law h = (cc (law.0), cc (law.1))
  write_result t s s' (err e, u) law h = cc

  pub write-ok :
      (t : Text) (s s' : S)
      → write io t s ≡ (ok tt, s')
      → (io.written s' ≡ io.written s ++ as_bytes t) × (io.unread s' ≡ io.unread s)
  write-ok t s s' h =
      write_result t s s' (io.write_all (as_bytes t) s) (io.write_law (as_bytes t) s) h

  take_line-ok :
      (u : List Text) (w : Bytes) (r : Result IoError Text × S) (line : Text) (t : S)
      → ReadsLine io.unread io.written u w r
      → take_line r ≡ (ok line, t)
      → (raw : Text) × (u ≡ raw ∷ io.unread t) × (trim_end raw ≡ line) × (io.written t ≡ w)
  take_line-ok u w (ok [], s) line t law h = cc
  take_line-ok u w (ok (c ∷ raw), s) line t law h = (c ∷ raw, cc (law.0), cc, cc (law.1))
  take_line-ok u w (err e, s) line t law h = cc

  pub read_reply_line-ok :
      (line : Text) (s t : S)
      → read_reply_line io s ≡ (ok line, t)
      → (raw : Text) × (io.unread s ≡ raw ∷ io.unread t)
        × (trim_end raw ≡ line)
        × (io.written t ≡ io.written s)
  unfolding read_reply_line
  read_reply_line-ok line s t h =
      take_line-ok (io.unread s) (io.written s) (io.read_line s) line t (io.read_law s) h

  accept_ok-ok :
      (line : Text) (o : Option Text) (s t : S)
      → accept_ok line o s ≡ (ok tt, t)
      → (is_ok_line line ≡ true) × (s ≡ t)
  unfolding accept_ok
  accept_ok-ok line (some rest) s t h = cc
  accept_ok-ok line none s t h = elim (Bool-cases (is_ok_line line)) [
    | inl e ↦ (e, cc (rw e at h))
    | inr e ↦ cc (rw e at h)
  ]

  pub expect_ok-ok :
      (s t : S)
      → expect_ok io s ≡ (ok tt, t)
      → (line : Text) × (io.unread s ≡ line ∷ io.unread t)
        × IsAccepted line
        × (io.written t ≡ io.written s)
  unfolding expect_ok
  expect_ok-ok s t h =
      let (line, s1, got, h1) =
        >>=-ok (read_reply_line io) (λ line. accept_ok line (strip_prefix continued line)) s h in
      let (raw, due, trimmed, silent) = read_reply_line-ok line s s1 got in
      let (fine, same) = accept_ok-ok line (strip_prefix continued line) s1 t h1 in
      (
        raw,
        due ∙ ap (λ x. raw ∷ io.unread x) same,
        elim (is_ok_line_sound line fine) [
          | inl e ↦ inl (trimmed ∙ e)
          | inr (u, e) ↦ inr (u, trimmed ∙ e)
        ],
        ap io.written (sym same) ∙ silent,
      )
