-- ===== src/Text/Hex.antt =====
-- `{:02X}` on bytes, and its reading.
use fungi_transport_ci_test.Prelude.{
  ℕ, ◌+◌, ◌-◌, ◌*◌, ◌/◌, ◌%◌, ◌<◌, ◌≡◌, ap, [], ◌∷◌, Option, none, some, arith, ltb, leb, refl,
  ◌&&◌, if◌then◌else◌, All,
}
use fungi_transport_ci_test.Text.Base.{Text, Bytes}

unfoldable pub hex_digit : ℕ → ℕ
hex_digit n = if ltb n 10 then b'0' + n else b'A' + (n - 10)

-- The bytes in upper-case hexadecimal, two digits each.
unfoldable pub hex : Bytes → Text
hex [] = []
hex (b ∷ bs) = hex_digit (b / 16) ∷ hex_digit (b % 16) ∷ hex bs

-- The value of such a digit, and the bytes that a text of them stands for.
abbrev pub hex_value : ℕ → Option ℕ
hex_value c =
    if leb b'0' c && leb c b'9'
    then some (c - b'0')
    else if leb b'A' c && leb c b'F'
    then some (c - b'A' + 10)
    else none

abbrev pub join_byte : Option ℕ → Option ℕ → Option Bytes → Option Bytes
join_byte (some hi) (some lo) (some bs) = some ((hi * 16 + lo) ∷ bs)
join_byte _ _ _ = none

unfoldable pub unhex : Text → Option Bytes
unhex [] = some []
unhex (c ∷ []) = none
unhex (c ∷ d ∷ s) = join_byte (hex_value c) (hex_value d) (unhex s)

hex_value-hex_digit : (n : ℕ) → n < 16 → hex_value (hex_digit n) ≡ some n
unfolding hex_digit
hex_value-hex_digit n h = ground arith

whole : (b : ℕ) → b / 16 * 16 + b % 16 ≡ b
whole b = omega arith

-- The hexadecimal form of bytes is read back as these bytes.
pub unhex-hex : (bs : Bytes) → All (λ b. b < 256) bs → unhex (hex bs) ≡ some bs
unfolding hex unhex
unhex-hex [] h = refl
unhex-hex (b ∷ bs) (small, rest) =
    rw
      (
        hex_value-hex_digit (b / 16) (omega arith),
        hex_value-hex_digit (b % 16) (omega arith),
        unhex-hex bs rest,
      )
      (ap (λ x. some (x ∷ bs)) (whole b))
