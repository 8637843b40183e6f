-- ===== src/Capnp/Map.antt =====
-- `HashMap<u64, A>` as the function that looks a key up.
use fungi_transport_ci_test.Prelude.{
  ℕ, ◌≡◌, ◌≢◌, refl, Option, none, some, ◌==◌, ==_iff, if◌then◌else◌, Bool-cases, inl, inr, arith,
}

abbrev pub Map : Type 0 → Type 0
Map A = ℕ → Option A

module _ {A : Type 0} where
  abbrev pub empty : Map A
  empty k = none

  unfoldable pub insert : ℕ → A → Map A → Map A
  insert k a m j = if j == k then some a else m j

  unfoldable pub remove : ℕ → Map A → Map A
  remove k m j = if j == k then none else m j

  -- `entry(k).or_insert(d)`: the value that is there, or `d`.
  abbrev pub or_insert : A → Option A → A
  or_insert d (some a) = a
  or_insert d none = d

  pub insert_same : (k : ℕ) (a : A) (m : Map A) → insert k a m k ≡ some a
  unfolding insert
  insert_same k a m = ground (arith)

  pub insert_other : (k : ℕ) (a : A) (m : Map A) (j : ℕ) → j ≢ k → insert k a m j ≡ m j
  unfolding insert
  insert_other k a m j ne = elim (Bool-cases (j == k)) [
    | inl e ↦ absurd (ne ((==_iff j k).0 e))
    | inr e ↦ rw e refl
  ]

  pub remove_same : (k : ℕ) (m : Map A) → remove k m k ≡ none
  unfolding remove
  remove_same k m = ground (arith)

  pub remove_other : (k : ℕ) (m : Map A) (j : ℕ) → j ≢ k → remove k m j ≡ m j
  unfolding remove
  remove_other k m j ne = elim (Bool-cases (j == k)) [
    | inl e ↦ absurd (ne ((==_iff j k).0 e))
    | inr e ↦ rw e refl
  ]
