-- ===== src/Framed/Prefix.antt =====
-- The length prefix of framed.rs: `u32::to_be_bytes` against `u32::from_be_bytes`, and the frame of a
-- message.
use fungi_transport_ci_test.Prelude.{ℕ, ◌%◌, ◌<◌, ◌≡◌, refl, [], ◌∷◌, ◌++◌, length, All, arith}
use fungi_transport_ci_test.Text.{Bytes}
use fungi_transport_ci_test.Io.{IsByte}
use fungi_transport_ci_test.Prelude.{ap, sym, ◌∙◌, append_assoc, append_cancel}
use fungi_transport_ci_test.Framed.{to_be_bytes, from_be_bytes, u32_mod}

-- What a message looks like on the wire.
abbrev pub frame : Bytes → Bytes
frame msg = to_be_bytes (length msg % u32_mod) ++ msg

pub from_be_bytes-to_be_bytes : (n : ℕ) → n < u32_mod → from_be_bytes (to_be_bytes n) ≡ n
unfolding from_be_bytes to_be_bytes
from_be_bytes-to_be_bytes n h = omega arith

pub to_be_bytes-from_be_bytes :
    (h : Bytes) → length h ≡ 4 → All IsByte h → to_be_bytes (from_be_bytes h) ≡ h
unfolding from_be_bytes to_be_bytes
to_be_bytes-from_be_bytes [] e a = absurd (omega arith)
to_be_bytes-from_be_bytes (w ∷ []) e a = absurd (omega arith)
to_be_bytes-from_be_bytes (w ∷ x ∷ []) e a = absurd (omega arith)
to_be_bytes-from_be_bytes (w ∷ x ∷ y ∷ []) e a = absurd (omega arith)
to_be_bytes-from_be_bytes (w ∷ x ∷ y ∷ z ∷ []) e a = ground arith
to_be_bytes-from_be_bytes (w ∷ x ∷ y ∷ z ∷ u ∷ h) e a = absurd (omega arith)

pub from_be_bytes-lt : (h : Bytes) → All IsByte h → from_be_bytes h < u32_mod
unfolding from_be_bytes
from_be_bytes-lt [] a = omega arith
from_be_bytes-lt (w ∷ []) a = omega arith
from_be_bytes-lt (w ∷ x ∷ []) a = omega arith
from_be_bytes-lt (w ∷ x ∷ y ∷ []) a = omega arith
from_be_bytes-lt (w ∷ x ∷ y ∷ z ∷ []) a = omega arith
from_be_bytes-lt (w ∷ x ∷ y ∷ z ∷ u ∷ h) a = omega arith

pub length-to_be_bytes : (n : ℕ) → length (to_be_bytes n) ≡ 4
unfolding to_be_bytes
length-to_be_bytes n = refl

-- What is on the wire determines the length.
pub to_be_bytes-injective :
    (m n : ℕ) (us vs : Bytes)
    → m < u32_mod
    → n < u32_mod
    → to_be_bytes m ++ us ≡ to_be_bytes n ++ vs
    → (m ≡ n) × (us ≡ vs)
to_be_bytes-injective m n us vs hm hn e =
    let (same, rest) =
      append_cancel (to_be_bytes m) (to_be_bytes n) us vs
        (length-to_be_bytes m ∙ sym (length-to_be_bytes n)) e in
    (
      sym (from_be_bytes-to_be_bytes m hm) ∙ ap from_be_bytes same ∙ from_be_bytes-to_be_bytes n hn,
      rest,
    )

-- No two messages have frames of which one begins the other: a wire is read in one way.
pub frame-injective :
    (m n us vs : Bytes)
    → length m < u32_mod
    → length n < u32_mod
    → frame m ++ us ≡ frame n ++ vs
    → (m ≡ n) × (us ≡ vs)
frame-injective m n us vs hm hn e =
    let (len, rest) =
      to_be_bytes-injective (length m % u32_mod) (length n % u32_mod) (m ++ us) (n ++ vs)
        (omega arith) (omega arith)
        (sym (append_assoc (to_be_bytes (length m % u32_mod)) m us)
          ∙ e
          ∙ append_assoc (to_be_bytes (length n % u32_mod)) n vs) in
    append_cancel m n us vs (omega arith) rest
