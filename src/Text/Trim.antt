-- ===== src/Text/Trim.antt =====
-- `str::trim_end` and `str::starts_with`.
use fungi_transport_ci_test.Prelude.{
  ℕ, [], ◌∷◌, Option, none, some, leb, ◌==◌, Bool, true, false, ◌&&◌, ◌||◌, if◌then◌else◌,
}
use fungi_transport_ci_test.Text.Base.{Text}
use fungi_transport_ci_test.Text.Split.{strip_prefix}

-- `char::is_whitespace`: the Unicode property White_Space.
unfoldable pub is_whitespace : ℕ → Bool
is_whitespace c =
    (leb 9 c && leb c 13)
    || (c == 0x20
        || (c == 0x85
            || (c == 0xA0
                || (c == 0x1680
                    || ((leb 0x2000 c && leb c 0x200A)
                        || (c == 0x2028
                            || (c == 0x2029 || (c == 0x202F || (c == 0x205F || c == 0x3000)))))))))

abbrev pub before_trimmed : ℕ → Text → Text
before_trimmed c [] = if is_whitespace c then [] else c ∷ []
before_trimmed c (d ∷ s) = c ∷ d ∷ s

unfoldable pub trim_end : Text → Text
trim_end [] = []
trim_end (c ∷ s) = before_trimmed c (trim_end s)

abbrev pub is_some {ℓ} : {A : Type ℓ} → Option A → Bool
is_some (some a) = true
is_some none = false

unfoldable pub starts_with : Text → Text → Bool
starts_with p s = is_some (strip_prefix p s)
