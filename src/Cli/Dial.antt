-- ===== src/Cli/Dial.antt =====
-- The arguments of crates/fungi-transport-capnp/src/bin/harness/run.rs against the texts of addresses.
use mathlib.Core.Path.{ap₂}
use fungi_transport_ci_test.Prelude.{
  ◌≤◌, ◌≡◌, refl, ap, ◌∙◌, List, [], ◌∷◌, ◌++◌, none, some, true, false, not, ◌&&◌, ok, ◌>>=◌,
  if-true, if-false, Bool-cases, inl, inr, arith,
}
use fungi_transport_ci_test.Text.{
  Text, codes, text_eq, starts_with, strip_prefix, is_some, show_nat, max_u16, rsplit_once-append,
  parse_u16-show_nat, show_nat-IsDigit, text_eq_sound, strip_prefix-append,
}
use fungi_transport_ci_test.Addr.{OnionAddr, show_addr}
use fungi_transport_ci_test.Addr.RoundTrip.{digits-Lacks}
use fungi_transport_ci_test.Cli.{
  dial, Found, nothing_found, arm_of, other_arm, read_target, other_arg, read_args, command,
  parse_args, cli_of, is_none, no_value, with_value,
}

-- A text that is one of the options begins with two dashes.
not_option : (t s : Text) → starts_with (codes "--") t ≡ false → text_eq t (codes "--" ++ s) ≡ false
unfolding starts_with
not_option t s plain = elim (Bool-cases (text_eq t (codes "--" ++ s))) [
  | inl e ↦
      let same : t ≡ codes "--" ++ s = text_eq_sound t (codes "--" ++ s) e in
      let dashed : is_some (strip_prefix (codes "--") t) ≡ true =
        ap is_some (ap (strip_prefix (codes "--")) same ∙ strip_prefix-append (codes "--") s) in
      cc (dashed, plain)
  | inr e ↦ e
]

arm_of_plain : (t : Text) → starts_with (codes "--") t ≡ false → arm_of t ≡ other_arm
unfolding arm_of
arm_of_plain t plain =
    if-false (text_eq t (codes "--private-net")) _ _ (not_option t (codes "private-net") plain)
    ∙ if-false (text_eq t (codes "--virt-port")) _ _ (not_option t (codes "virt-port") plain)
    ∙ if-false (text_eq t (codes "--state-dir")) _ _ (not_option t (codes "state-dir") plain)
    ∙ if-false (text_eq t (codes "--plugin")) _ _ (not_option t (codes "plugin") plain)

module _ (int_error : Text → Text) where
  read_target-show_addr :
      (a : OnionAddr) → a.port ≤ max_u16 → read_target int_error (show_addr a) ≡ ok a
  unfolding read_target show_addr
  read_target-show_addr a fits = ground (
    arith,
    rsplit_once-append b':' a.host (show_nat a.port) (digits-Lacks _ (show_nat-IsDigit a.port)),
    parse_u16-show_nat a.port fits,
  )

  -- Such a text is a target, whether more arguments are behind it or not.
  target_read :
      (a : OnionAddr) (f : Found)
      → a.port ≤ max_u16
      → starts_with (codes "--") (show_addr a) ≡ false
      → f.target ≡ none
      → other_arg int_error (show_addr a) f ≡ ok (record f { target = some a })
  unfolding other_arg
  target_read a f fits plain first =
      if-true (not (starts_with (codes "--") (show_addr a)) && is_none f.target) _ _
        (ap₂ (λ b o. not b && is_none {A = OnionAddr} o) plain first)
      ∙ ap (λ r. r >>= λ t. ok (record f { target = some t })) (read_target-show_addr a fits)

  in_front :
      (a : OnionAddr) (v : Text) (rest : List Text) (f : Found)
      → a.port ≤ max_u16
      → starts_with (codes "--") (show_addr a) ≡ false
      → f.target ≡ none
      → read_args int_error (show_addr a ∷ v ∷ rest) f
        ≡ read_args int_error (v ∷ rest) (record f { target = some a })
  unfolding read_args
  in_front a v rest f fits plain first =
      ap
        (with_value int_error (read_args int_error rest) (read_args int_error (v ∷ rest))
          (show_addr a) v f)
        (arm_of_plain (show_addr a) plain)
      ∙ ap (λ r. r >>= read_args int_error (v ∷ rest)) (target_read a f fits plain first)

  at_the_end :
      (a : OnionAddr) (f : Found)
      → a.port ≤ max_u16
      → starts_with (codes "--") (show_addr a) ≡ false
      → f.target ≡ none
      → read_args int_error (show_addr a ∷ []) f ≡ ok (record f { target = some a })
  unfolding read_args
  at_the_end a f fits plain first =
      ap (λ arm. no_value int_error (show_addr a) arm f) (arm_of_plain (show_addr a) plain)
      ∙ target_read a f fits plain first

  -- The address that the listening side prints can be given to the dialling side as it is, in front of
  -- the plugin or behind it: with a 16-bit port, and unless it begins with two dashes, it is the target.
  pub parse_args-show_addr :
      (a : OnionAddr) (program plugin : Text)
      → a.port ≤ max_u16
      → starts_with (codes "--") (show_addr a) ≡ false
      → (parse_args int_error
            (program ∷ codes "dial" ∷ show_addr a ∷ codes "--plugin" ∷ plugin ∷ [])
          ≡ ok (record { cmd = dial a; private_net = none; state_dir = none; plugin = plugin }))
        × (parse_args int_error
              (program ∷ codes "dial" ∷ codes "--plugin" ∷ plugin ∷ show_addr a ∷ [])
            ≡ ok (record { cmd = dial a; private_net = none; state_dir = none; plugin = plugin }))
  unfolding parse_args read_args command arm_of text_eq
  parse_args-show_addr a program plugin fits plain = (
    ap (λ r. r >>= cli_of int_error (codes "dial"))
        (in_front a (codes "--plugin") (plugin ∷ []) nothing_found fits plain refl),
    ap (λ r. r >>= cli_of int_error (codes "dial"))
        (at_the_end a (record nothing_found { plugin = some plugin }) fits plain refl),
  )
