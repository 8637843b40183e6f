-- ===== src/Action.antt =====
-- Async code that runs to its end on one state: an action returns a result and the new state, and
-- `?` on an error ends it. The inversions take a run apart at its binds.
use fungi_transport_ci_test.Prelude.{
  ◌≡◌, refl, ap, ◌⊎◌, inl, inr, Result, ok, err, Bool, true, false,
}

abbrev pub Action : Type 0 → Type 0 → Type 0 → Type 0
Action S E A = S → Result E A × S

module _ {S E : Type 0} where
  abbrev pub then : {A B : Type 0} → (A → Action S E B) → Result E A × S → Result E B × S
  then f (ok a, s) = f a s
  then f (err e, s) = (err e, s)

  infixl 5 ◌>>=◌ ◌>>◌
  abbrev pub ◌>>=◌ : {A B : Type 0} → Action S E A → (A → Action S E B) → Action S E B
  ◌>>=◌ m f s = then f (m s)

  abbrev pub ◌>>◌ : {B : Type 0} → Action S E (Unit {0}) → Action S E B → Action S E B
  m >> k = m >>= λ _. k

  abbrev pub pure : {A : Type 0} → A → Action S E A
  pure a s = (ok a, s)

  abbrev pub throw : {A : Type 0} → E → Action S E A
  throw e s = (err e, s)

  abbrev pub lift : {A : Type 0} → Result E A → Action S E A
  lift r s = (r, s)

  abbrev pub check : Bool → E → Action S E (Unit {0})
  check true e = pure tt
  check false e = throw e

  then-ok :
      {A B : Type 0} (f : A → Action S E B) (r : Result E A × S) {b : B} {t : S}
      → then f r ≡ (ok b, t)
      → (a : A) × (s : S) × (r ≡ (ok a, s)) × (f a s ≡ (ok b, t))
  then-ok f (ok a, s) h = (a, s, refl, h)
  then-ok f (err e, s) h = cc

  -- A run that succeeds: so did its first part, and then the rest.
  pub >>=-ok :
      {A B : Type 0} (m : Action S E A) (f : A → Action S E B) (s : S) {b : B} {t : S}
      → (m >>= f) s ≡ (ok b, t)
      → (a : A) × (s' : S) × (m s ≡ (ok a, s')) × (f a s' ≡ (ok b, t))
  >>=-ok m f s h = then-ok f (m s) h

  then-err :
      {A B : Type 0} (f : A → Action S E B) (r : Result E A × S) {e : E} {t : S}
      → then f r ≡ (err e, t)
      → (r ≡ (err e, t)) ⊎ ((a : A) × (s : S) × (r ≡ (ok a, s)) × (f a s ≡ (err e, t)))
  then-err f (ok a, s) h = inr (a, s, refl, h)
  then-err f (err e, s) h = inl (cc)

  -- A run that fails: its first part failed, or it succeeded and the rest failed.
  pub >>=-err :
      {A B : Type 0} (m : Action S E A) (f : A → Action S E B) (s : S) {e : E} {t : S}
      → (m >>= f) s ≡ (err e, t)
      → (m s ≡ (err e, t)) ⊎ ((a : A) × (s' : S) × (m s ≡ (ok a, s')) × (f a s' ≡ (err e, t)))
  >>=-err m f s h = then-err f (m s) h

  -- A first part that succeeds hands over to the rest.
  pub >>=-run :
      {A B : Type 0} (m : Action S E A) (f : A → Action S E B) (s : S) {a : A} {s' : S}
      → m s ≡ (ok a, s')
      → (m >>= f) s ≡ f a s'
  >>=-run m f s e = ap (then f) e
