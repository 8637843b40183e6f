-- ===== src/Addr/RoundTrip.antt =====
-- The text form of an address: `parse_addr` against `show_addr`.
use fungi_transport_ci_test.Prelude.{
  ◌≤◌, ◌≡◌, ◌≢◌, ◌++◌, [], ◌∷◌, some, ok, err, arith, All, Lacks, ◌⊎◌, inl, inr, Option-cases,
}
use fungi_transport_ci_test.Text.{
  Text, show_nat, parse_u16, rsplit_once, IsDigit, value, max_u16, show_nat-IsDigit,
  parse_u16-show_nat, parse_u16_sound, rsplit_once-append, rsplit_once_sound,
}
use fungi_transport_ci_test.Addr.{OnionAddr, show_addr, parse_addr, parse_onion_addr_error}

pub digits-Lacks : (s : Text) → All IsDigit s → Lacks b':' s
digits-Lacks [] h = tt
digits-Lacks (c ∷ s) h = (omega arith, digits-Lacks s h.1)

-- Any address with a host and a 16-bit port is read back from its text form, also when the host
-- holds colons itself.
pub parse_addr-show_addr :
    (a : OnionAddr) → a.host ≢ [] → a.port ≤ max_u16 → parse_addr (show_addr a) ≡ ok a
unfolding parse_addr show_addr
parse_addr-show_addr a nonempty fits = ground (
  arith,
  rsplit_once-append b':' a.host (show_nat a.port) (digits-Lacks _ (show_nat-IsDigit a.port)),
  parse_u16-show_nat a.port fits,
)

-- An address with no host is printed as a text that is not accepted.
pub show_addr_no_host :
    (a : OnionAddr) → a.host ≡ [] → parse_addr (show_addr a) ≡ err parse_onion_addr_error
unfolding parse_addr show_addr
show_addr_no_host a e = ground (
  arith,
  rsplit_once-append b':' a.host (show_nat a.port) (digits-Lacks _ (show_nat-IsDigit a.port)),
)

parse_addr_parts :
    (s : Text) (a : OnionAddr)
    → parse_addr s ≡ ok a
    → (text : Text) × (rsplit_once b':' s ≡ some (a.host, text))
      × (a.host ≢ [])
      × (parse_u16 text ≡ some a.port)
unfolding parse_addr
parse_addr_parts s a h = elim (Option-cases (rsplit_once b':' s)) [
  | inl e ↦ ground arith
  | inr (([], text), e) ↦ ground arith
  | inr ((c ∷ host, text), e) ↦ elim (Option-cases (parse_u16 text)) [
    | inl e' ↦ ground arith
    | inr (p, e') ↦ (text, ground arith, ground arith, ground arith)
  ]
]

-- An accepted text is a host that is not empty, a colon, and the decimal digits of a port in the
-- range of `u16`, which a `+` may stand before; the split is at the last colon.
pub parse_addr_sound :
    (s : Text) (a : OnionAddr)
    → parse_addr s ≡ ok a
    → (t : Text) × ((s ≡ a.host ++ b':' ∷ t) ⊎ (s ≡ a.host ++ b':' ∷ b'+' ∷ t))
      × (a.host ≢ [])
      × (t ≢ [])
      × All IsDigit t
      × (a.port ≡ value 0 t)
      × (a.port ≤ max_u16)
unfolding parse_addr
parse_addr_sound s a h =
    let (text, split, nonempty, parsed) = parse_addr_parts s a h in
    let (joined, _) = rsplit_once_sound b':' s a.host text split in
    let (t, sign, some_digit, all, exact, fits) = parse_u16_sound text parsed in
    (t, ground arith, nonempty, some_digit, all, exact, fits)
