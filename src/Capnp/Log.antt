-- ===== src/Capnp/Log.antt =====
-- What the logs of the actor's replies, of pulled messages and of its tasks say of one channel.
use fungi_transport_ci_test.Prelude.{
  ℕ, ◌+◌, ◌≡◌, ◌≢◌, refl, sym, ap, ◌∙◌, List, [], ◌∷◌, ◌++◌, append_assoc, append-nil, Bool, true,
  false, Result, ok, err, ◌==◌, ==_iff, if◌then◌else◌, if-true, if-false, Bool-cases, inl, inr,
  arith,
}
use fungi_transport_ci_test.Text.{Bytes}
use fungi_transport_ci_test.Errors.{RecvError}
use fungi_transport_ci_test.Capnp.Registry.{Caller}
use fungi_transport_ci_test.Capnp.Actor.{Reply, Task}
use fungi_transport_ci_test.Capnp.System.{messages, delivery, delivered, outstanding}

-- The message that a result carries.
abbrev pub carried : Result RecvError Bytes → List Bytes
carried (ok m) = m ∷ []
carried (err e) = []

pub unequal : (j k : ℕ) → j ≢ k → (j == k) ≡ false
unequal j k ne = elim (Bool-cases (j == k)) [ inl e ↦ absurd (ne ((==_iff j k).0 e)) | inr e ↦ e ]

-- A property of both branches.
pub either {ℓ κ} :
    {A : Type ℓ} (P : A → Type κ) (b : Bool) {x y : A} → P x → P y → P (if b then x else y)
either P true px py = px
either P false px py = py

delivered-append :
    (k : ℕ) (xs ys : List (Caller × Reply))
    → delivered k (xs ++ ys) ≡ delivered k xs ++ delivered k ys
delivered-append k [] ys = refl
delivered-append k (x ∷ xs) ys =
    ap (◌++◌ (delivery k x)) (delivered-append k xs ys)
    ∙ sym (append_assoc (delivery k x) (delivered k xs) (delivered k ys))

pub messages-append :
    (k : ℕ) (xs ys : List (ℕ × Bytes)) → messages k (xs ++ ys) ≡ messages k xs ++ messages k ys
messages-append k [] ys = refl
messages-append k ((j, m) ∷ xs) ys = elim (Bool-cases (j == k)) [
  | inl e ↦ rw e (ap (◌∷◌ m) (messages-append k xs ys))
  | inr e ↦ rw e (messages-append k xs ys)
]

pub outstanding-append :
    {Cap : Type 0} (k : ℕ) (xs ys : List (Task Cap))
    → outstanding k (xs ++ ys) ≡ outstanding k xs + outstanding k ys
outstanding-append k [] ys = omega arith
outstanding-append k (x ∷ xs) ys = omega (arith, outstanding-append k xs ys)

module _ (k : ℕ) (log : List (Caller × Reply)) where
  pub undelivered :
      (r : Caller × Reply) → delivery k r ≡ [] → delivered k (log ++ r ∷ []) ≡ delivered k log
  undelivered r e =
      delivered-append k log (r ∷ [])
      ∙ ap (λ x. delivered k log ++ (x ++ [])) e
      ∙ append-nil (delivered k log)

  pub delivered_here :
      (to : Caller) (r : Result RecvError Bytes)
      → to.handle ≡ k
      → delivered k (log ++ (to, Reply.received r) ∷ []) ≡ delivered k log ++ carried r
  delivered_here to (ok m) e =
      delivered-append k log ((to, Reply.received (ok m)) ∷ [])
      ∙ ap (λ x. delivered k log ++ x)
          (append-nil (delivery k (to, Reply.received (ok m)))
            ∙ if-true (to.handle == k) _ _ ((==_iff _ _).1 e))
  delivered_here to (err x) e = delivered-append k log ((to, Reply.received (err x)) ∷ [])

  pub delivered_elsewhere :
      (to : Caller) (r : Result RecvError Bytes)
      → to.handle ≢ k
      → delivered k (log ++ (to, Reply.received r) ∷ []) ≡ delivered k log
  delivered_elsewhere to (ok m) ne =
      undelivered (to, Reply.received (ok m)) (if-false (to.handle == k) _ _ (unequal _ _ ne))
  delivered_elsewhere to (err x) ne = undelivered (to, Reply.received (err x)) refl
