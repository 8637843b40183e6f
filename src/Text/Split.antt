-- ===== src/Text/Split.antt =====
-- `str::rsplit_once` and `str::strip_prefix`.
use fungi_transport_ci_test.Prelude.{
  ℕ, ◌≡◌, refl, [], ◌∷◌, ◌++◌, Option, none, some, arith, ◌==◌, if◌then◌else◌, Lacks, inl, inr,
  Option-cases,
}
use fungi_transport_ci_test.Text.Base.{Text}

-- What is in front of the last `b`, and what is behind it.
unfoldable pub rsplit_once : ℕ → Text → Option (Text × Text)
rsplit_once b [] = none
rsplit_once b (c ∷ s) = elim (rsplit_once b s) [
  | some (front, back) ↦ some (c ∷ front, back)
  | none ↦ if c == b then some ([], s) else none
]

unfoldable pub strip_prefix : Text → Text → Option Text
strip_prefix [] s = some s
strip_prefix (c ∷ p) [] = none
strip_prefix (c ∷ p) (d ∷ s) = if c == d then strip_prefix p s else none

rsplit_once-Lacks : (b : ℕ) (s : Text) → Lacks b s → rsplit_once b s ≡ none
unfolding rsplit_once
rsplit_once-Lacks b [] h = refl
rsplit_once-Lacks b (c ∷ s) h = ground (arith, rsplit_once-Lacks b s h.1)

rsplit_once-none : (b : ℕ) (s : Text) → rsplit_once b s ≡ none → Lacks b s
unfolding rsplit_once
rsplit_once-none b [] h = tt
rsplit_once-none b (c ∷ s) h = elim (Option-cases (rsplit_once b s)) [
  | inl e ↦ ground (arith, rsplit_once-none b s e)
  | inr ((f, k), e) ↦ ground arith
]

-- The split takes the last separator: it undoes a join whose second part has none.
pub rsplit_once-append : (b : ℕ) (s t : Text) → Lacks b t → rsplit_once b (s ++ b ∷ t) ≡ some (s, t)
unfolding rsplit_once
rsplit_once-append b [] t h = ground (arith, rsplit_once-Lacks b t h)
rsplit_once-append b (c ∷ s) t h = ground (arith, rsplit_once-append b s t h)

-- A split is a join, and its second part has no separator.
pub rsplit_once_sound :
    (b : ℕ) (s front back : Text)
    → rsplit_once b s ≡ some (front, back)
    → (s ≡ front ++ b ∷ back) × Lacks b back
unfolding rsplit_once
rsplit_once_sound b [] front back h = ground arith
rsplit_once_sound b (c ∷ s) front back h = elim (Option-cases (rsplit_once b s)) [
  | inl e ↦ ground (arith, rsplit_once-none b s e)
  | inr ((f, k), e) ↦ ground (arith, rsplit_once_sound b s f k e)
]

pub strip_prefix-append : (p s : Text) → strip_prefix p (p ++ s) ≡ some s
unfolding strip_prefix
strip_prefix-append [] s = refl
strip_prefix-append (c ∷ p) s = ground (arith, strip_prefix-append p s)

pub strip_prefix_sound : (p s t : Text) → strip_prefix p s ≡ some t → s ≡ p ++ t
unfolding strip_prefix
strip_prefix_sound [] s t h = ground arith
strip_prefix_sound (c ∷ p) [] t h = ground arith
strip_prefix_sound (c ∷ p) (d ∷ s) t h = ground (arith, strip_prefix_sound p s t)
