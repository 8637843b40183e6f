-- ===== src/Text/Decimal.antt =====
-- Decimal numbers: `Display` of an unsigned integer, and `u16::from_str`.
use mathlib.Core.List.{cons-ne-nil}
use fungi_transport_ci_test.Prelude.{
  ℕ, zero, suc, ◌+◌, ◌-◌, ◌*◌, ◌/◌, ◌%◌, ◌≤◌, ◌<◌, ◌≡◌, ◌≢◌, refl, Bool, ◌&&◌, [], ◌∷◌, Option,
  none, some, arith, ltb, leb, ◌==◌, if◌then◌else◌, All, ◌⊎◌, inl, inr, ◌∙◌, Bool-cases,
}
use fungi_transport_ci_test.Text.Base.{Text}

-- The digits of `n` in front of `out`, the last one first. `n < fuel` is enough.
unfoldable pub digits : ℕ → ℕ → Text → Text
digits zero n out = out
digits (suc f) n out =
    let more = digits f (n / 10) ((b'0' + n % 10) ∷ out) in
    if ltb n 10 then (b'0' + n) ∷ out else more

unfoldable pub show_nat : ℕ → Text
unfolding digits
show_nat n = digits (suc n) n []

unfoldable pub is_digit : ℕ → Bool
is_digit c = leb b'0' c && leb c b'9'

abbrev pub max_u16 : ℕ
max_u16 = 65535

-- The loop of `from_str_radix(s, 10)` for `u16`, from the value `n` of the digits read.
unfoldable pub parse_digits : ℕ → Text → Option ℕ
unfolding is_digit
parse_digits n [] = some n
parse_digits n (c ∷ s) =
    let rest = parse_digits (n * 10 + (c - b'0')) s in
    if is_digit c && leb (n * 10 + (c - b'0')) max_u16 then rest else none

-- `u16::from_str`: no empty text, one leading `+` allowed, not alone.
unfoldable pub parse_u16 : Text → Option ℕ
unfolding parse_digits
parse_u16 [] = none
parse_u16 (c ∷ []) = parse_digits 0 (c ∷ [])
parse_u16 (c ∷ d ∷ s) = if c == b'+' then parse_digits 0 (d ∷ s) else parse_digits 0 (c ∷ d ∷ s)

abbrev pub IsDigit : ℕ → Type 0
IsDigit c = (b'0' ≤ c) × (c ≤ b'9')

-- The number that digits spell behind `n`, with no bound.
abbrev pub value : ℕ → Text → ℕ
value n [] = n
value n (c ∷ s) = value (n * 10 + (c - b'0')) s

parse_digits-digits :
    (f n : ℕ) (out : Text)
    → n < f
    → n ≤ max_u16
    → parse_digits 0 (digits f n out) ≡ parse_digits n out
unfolding digits parse_digits
parse_digits-digits zero n out h k = elim h [ ]
parse_digits-digits (suc f) n out h k =
    ground (arith, parse_digits-digits f (n / 10) ((b'0' + n % 10) ∷ out))

digits-IsDigit : (f n : ℕ) (out : Text) → n < f → All IsDigit out → All IsDigit (digits f n out)
unfolding digits
digits-IsDigit zero n out h a = elim h [ ]
digits-IsDigit (suc f) n out h a = ground (arith, digits-IsDigit f (n / 10) ((b'0' + n % 10) ∷ out))

digits-cons-ne-nil : (f n d : ℕ) (out : Text) → digits f n (d ∷ out) ≢ []
unfolding digits
digits-cons-ne-nil zero n d out = cons-ne-nil d out
digits-cons-ne-nil (suc f) n d out =
    ground (arith, digits-cons-ne-nil f (n / 10) (b'0' + n % 10) (d ∷ out))

show_nat-ne-nil : (n : ℕ) → show_nat n ≢ []
unfolding show_nat
show_nat-ne-nil n = ground (arith, digits-cons-ne-nil n (n / 10) (b'0' + n % 10) [])

pub show_nat-IsDigit : (n : ℕ) → All IsDigit (show_nat n)
unfolding show_nat
show_nat-IsDigit n = digits-IsDigit (suc n) n [] (omega arith) tt

parse_u16_digits : (s : Text) → s ≢ [] → All IsDigit s → parse_u16 s ≡ parse_digits 0 s
unfolding parse_u16
parse_u16_digits [] e h = absurd (e refl)
parse_u16_digits (c ∷ []) e h = refl
parse_u16_digits (c ∷ d ∷ s) e h = ground arith

-- Every `u16` is read back from its print.
pub parse_u16-show_nat : (n : ℕ) → n ≤ max_u16 → parse_u16 (show_nat n) ≡ some n
parse_u16-show_nat n h =
    parse_u16_digits (show_nat n) (show_nat-ne-nil n) (show_nat-IsDigit n)
    ∙ unfold show_nat parse_digits in parse_digits-digits (suc n) n [] (omega arith) h

parse_digits_sound :
    (s : Text) (n m : ℕ)
    → n ≤ max_u16
    → parse_digits n s ≡ some m
    → All IsDigit s × (m ≡ value n s) × (m ≤ max_u16)
unfolding parse_digits
parse_digits_sound [] n m k h = ground arith
parse_digits_sound (c ∷ s) n m k h = ground (arith, parse_digits_sound s (n * 10 + (c - b'0')) m)

-- An accepted text is digits, with one `+` at most in front, and the result is their exact value.
pub parse_u16_sound :
    (s : Text) {m : ℕ}
    → parse_u16 s ≡ some m
    → (t : Text) × ((s ≡ t) ⊎ (s ≡ b'+' ∷ t))
      × (t ≢ [])
      × All IsDigit t
      × (m ≡ value 0 t)
      × (m ≤ max_u16)
unfolding parse_u16
parse_u16_sound [] h = cc
parse_u16_sound (c ∷ []) {m} h =
    let (all, exact, fits) = parse_digits_sound (c ∷ []) 0 m (omega arith) h in
    (c ∷ [], inl refl, cons-ne-nil c [], all, exact, fits)
parse_u16_sound (c ∷ d ∷ s) {m} h = elim (Bool-cases (c == b'+')) [
  | inl plus ↦
      let (all, exact, fits) = parse_digits_sound (d ∷ s) 0 m (omega arith) (rw plus at h) in
      (d ∷ s, inr (ground arith), cons-ne-nil d s, all, exact, fits)
  | inr other ↦
      let (all, exact, fits) = parse_digits_sound (c ∷ d ∷ s) 0 m (omega arith) (rw other at h) in
      (c ∷ d ∷ s, inl refl, cons-ne-nil c (d ∷ s), all, exact, fits)
]
