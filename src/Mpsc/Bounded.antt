-- ===== src/Mpsc/Bounded.antt =====
-- A concrete queue that keeps the laws of `tokio::sync::mpsc`.
use fungi_transport_ci_test.Prelude.{
  ℕ, refl, List, [], ◌∷◌, ◌++◌, length, Bool, true, false, ◌≡◌, ltb, ltb→lt, ltb→le, if◌then◌else◌,
  Bool-cases, inl, inr,
}
use fungi_transport_ci_test.Mpsc.{Offered, Taken, Mpsc, Offers, Takes}

pub record Bounded (T : Type 0) : Type 0 where
  pub items : List T
  pub room : ℕ
  pub alive : Bool
  pub open_end : Bool

module _ {T : Type 0} where
  abbrev pub fresh_queue : ℕ → Bounded T
  fresh_queue n = record { items = []; room = n; alive = true; open_end = true }

  abbrev pub offer_to : Bool → T → Bounded T → Offered (Bounded T)
  offer_to false x q = Offered.closed
  offer_to true x q =
      if ltb (length q.items) q.room
      then Offered.accepted (record q { items = q.items ++ x ∷ [] })
      else Offered.full

  abbrev pub take_from : List T → Bounded T → Taken T (Bounded T)
  take_from [] q = if q.open_end then Taken.waiting else Taken.ended
  take_from (x ∷ xs) q = Taken.got x (record q { items = xs })

  pub offer_to-Offers :
      (alive : Bool) (x : T) (q : Bounded T)
      → q.alive ≡ alive
      → Offers
          (λ (q : Bounded T). q.items)
          (λ q. q.room)
          (λ q. q.alive)
          (λ q. q.open_end)
          q
          x
          (offer_to alive x q)
  offer_to-Offers false x q e = e
  offer_to-Offers true x q e = elim (Bool-cases (ltb (length q.items) q.room)) [
    | inl room ↦ rw room (refl, ltb→lt _ _ room, e, (refl, refl, refl))
    | inr none_left ↦ rw none_left (e, ltb→le _ _ none_left)
  ]

  pub take_from-Takes :
      (items : List T) (q : Bounded T)
      → q.items ≡ items
      → Takes
          (λ (q : Bounded T). q.items)
          (λ q. q.room)
          (λ q. q.alive)
          (λ q. q.open_end)
          q
          (take_from items q)
  take_from-Takes [] q e = elim (Bool-cases q.open_end) [
    | inl open_end ↦ rw open_end (e, refl)
    | inr shut ↦ rw shut (e, refl)
  ]
  take_from-Takes (x ∷ xs) q e = (e, (refl, refl, refl))

abbrev pub bounded : {T : Type 0} → Mpsc T (Bounded T)
bounded = record {
  channel = fresh_queue;
  offer = λ x q. offer_to q.alive x q;
  take = λ q. take_from q.items q;
  queued = λ q. q.items;
  capacity = λ q. q.room;
  receiving = λ q. q.alive;
  sending = λ q. q.open_end;
  channel_law = λ n h. (refl, refl, refl, refl);
  offer_law = λ x q. offer_to-Offers q.alive x q refl;
  take_law = λ q. take_from-Takes q.items q refl;
}
