-- ===== src/Mem/Paired.antt =====
-- What the connectors of one network of mem.rs hand out against what its listener accepts.
use fungi_transport_ci_test.Prelude.{
  ℕ, zero, suc, ◌≡◌, ◌≢◌, refl, sym, ap, ◌∙◌, subst, Option, none, some, Result, ok, arith, List,
  [], ◌∷◌, ◌++◌, append-nil, append_assoc,
}
use fungi_transport_ci_test.Text.{Bytes}
use fungi_transport_ci_test.Errors.{ConnectError}
use fungi_transport_ci_test.Mpsc.{Mpsc, Offered, Taken, Offers, Takes}
use fungi_transport_ci_test.Mem.{MemConfig, MemChannel, put, alloc, duplex}
use fungi_transport_ci_test.Mem.Flow.{put_self}
use fungi_transport_ci_test.Mem.Site.{
  ok_of, still, poll_at, Event, dial, poll, take, Site, event, events,
}
use fungi_transport_ci_test.Mem.Network.{
  Nets, MemConnector, MemListener, Connecting, connect, handed, poll_connect, accepted, accept,
  MemAddr, listen, connector, new_transport,
}
use fungi_transport_ci_test.Channel.{ListenParams}

-- Two ends of one pipe: each sends into the queue that the other receives from, and those differ.
abbrev pub Crossed : MemChannel → MemChannel → Type 0
Crossed a b = (a.tx ≡ b.rx) × (a.rx ≡ b.tx) × (a.tx ≢ a.rx)

abbrev pub AllCrossed : List MemChannel → List MemChannel → Type 0
AllCrossed [] [] = Unit
AllCrossed (a ∷ xs) (b ∷ ys) = Crossed a b × AllCrossed xs ys
AllCrossed _ _ = ⊥

AllCrossed-append :
    (xs ys us vs : List MemChannel)
    → AllCrossed xs ys
    → AllCrossed us vs
    → AllCrossed (xs ++ us) (ys ++ vs)
AllCrossed-append [] [] us vs h k = k
AllCrossed-append [] (y ∷ ys) us vs h k = absurd h
AllCrossed-append (x ∷ xs) [] us vs h k = absurd h
AllCrossed-append (x ∷ xs) (y ∷ ys) us vs h k = (h.0, AllCrossed-append xs ys us vs h.1 k)

module _ {Q N : Type 0} (mpsc : Mpsc Bytes Q) (channels : Mpsc MemChannel N) where
  abbrev pub waiting_at : ℕ → Nets Q N → List MemChannel
  waiting_at i s = channels.queued (s.inbounds.cell i)

  -- Every connect that is under way has two crossed ends, for the listener at `i`.
  abbrev pub Sound : ℕ → List Connecting → Type 0
  Sound i [] = Unit
  Sound i (d ∷ ds) = (Crossed d.near d.far × (d.to_listener ≡ i)) × Sound i ds

  Sound-append : (i : ℕ) (ds es : List Connecting) → Sound i ds → Sound i es → Sound i (ds ++ es)
  Sound-append i [] es h k = k
  Sound-append i (d ∷ ds) es h k = (h.0, Sound-append i ds es h.1 k)

  still-Sound :
      (i : ℕ) (d : Connecting) (r : Option (Result ConnectError MemChannel))
      → Sound i (d ∷ [])
      → Sound i (still d r)
  still-Sound i d none h = h
  still-Sound i d (some r) h = tt

  -- `dialed` are crossed with channels that were appended to the queue at `i`.
  abbrev Appends : ℕ → List MemChannel → Nets Q N → Nets Q N → Type 0
  Appends i dialed s s' =
      (new : List MemChannel) × AllCrossed dialed new × (waiting_at i s' ≡ waiting_at i s ++ new)

  same-Appends : (i : ℕ) (s : Nets Q N) → Appends i [] s s
  same-Appends i s = ([], tt, sym (append-nil _))

  handed-Appends :
      (d : Connecting) (s : Nets Q N) (o : Offered N)
      → Crossed d.near d.far
      → channels.offer d.far (s.inbounds.cell d.to_listener) ≡ o
      → let (r, s') = handed mpsc channels d s o in Appends d.to_listener (ok_of r) s s'
  unfolding handed
  handed-Appends d s (Offered.accepted q) crossed e =
      let i = d.to_listener in
      let law =
        subst
          (Offers channels.queued channels.capacity channels.receiving channels.sending
            (s.inbounds.cell i) d.far)
          e (channels.offer_law d.far (s.inbounds.cell i)) in
      (d.far ∷ [], (crossed, tt), ap channels.queued (put_self i q s.inbounds) ∙ law.0)
  handed-Appends d s Offered.closed crossed e = same-Appends d.to_listener s
  handed-Appends d s Offered.full crossed e = same-Appends d.to_listener s

  poll_connect-Appends :
      (i : ℕ) (d : Connecting) (s : Nets Q N)
      → Crossed d.near d.far
      → d.to_listener ≡ i
      → let (r, s') = poll_connect mpsc channels d s in Appends i (ok_of r) s s'
  unfolding poll_connect
  poll_connect-Appends i d s crossed place =
      let r = poll_connect mpsc channels d s in
      subst (λ k. Appends k (ok_of r.0) s r.1) place (handed-Appends d s _ crossed refl)

  poll_at-Appends :
      (i n : ℕ) (ds : List Connecting) (s : Nets Q N)
      → Sound i ds
      → let ((done, ds'), s') = poll_at mpsc channels n ds s in Appends i done s s' × Sound i ds'
  unfolding poll_at
  poll_at-Appends i n [] s h = (same-Appends i s, tt)
  poll_at-Appends i zero (d ∷ ds) s h =
      let r = (poll_connect mpsc channels d s).0 in
      (
        poll_connect-Appends i d s h.0.0 h.0.1,
        Sound-append i (still d r) ds (still-Sound i d r (h.0, tt)) h.1,
      )
  poll_at-Appends i (suc n) (d ∷ ds) s h =
      let (law, sound) = poll_at-Appends i n ds s h.1 in (law, (h.0, sound))

  pub accepted_front :
      (l : MemListener) (s : Nets Q N) (r : Taken MemChannel N)
      → channels.take (s.inbounds.cell l.inbound) ≡ r
      → let (got, s') = accepted mpsc channels l s r in
        waiting_at l.inbound s ≡ ok_of got ++ waiting_at l.inbound s'
  unfolding accepted
  accepted_front l s (Taken.got c q) e =
      let i = l.inbound in
      let law =
        subst
          (Takes channels.queued channels.capacity channels.receiving channels.sending
            (s.inbounds.cell i))
          e (channels.take_law (s.inbounds.cell i)) in
      law.0 ∙ sym (ap (λ q. c ∷ channels.queued q) (put_self i q s.inbounds))
  accepted_front l s Taken.waiting e = refl
  accepted_front l s Taken.ended e = refl

  pub connect-Crossed :
      (c : MemConnector) (s : Nets Q N)
      → let (d, s') = connect mpsc channels c s in
        Crossed d.near d.far × (d.to_listener ≡ c.to_listener) × (s'.inbounds ≡ s.inbounds)
  unfolding connect duplex alloc put
  connect-Crossed c s = ((refl, refl, λ h. omega (arith, h)), refl, refl)

  module _ (c : MemConnector) (l : MemListener) (same_net : c.to_listener ≡ l.inbound) where
    abbrev Matches :
        List MemChannel → List MemChannel → Site mpsc channels → Site mpsc channels → Type 0
    Matches dialed got s s' =
        (new : List MemChannel) × AllCrossed dialed new
        × (waiting_at l.inbound s.nets ++ new ≡ got ++ waiting_at l.inbound s'.nets)

    event-Matches :
        (e : Event mpsc channels) (s : Site mpsc channels)
        → Sound l.inbound s.dialing
        → let ((dialed, got), s') = event mpsc channels c l e s in
          Matches dialed got s s' × Sound l.inbound s'.dialing
    unfolding event accept
    event-Matches dial s h =
        let (crossed, place, same) = connect-Crossed c s.nets in
        (
          ([], tt, append-nil _ ∙ ap (λ n. channels.queued (n.cell l.inbound)) (sym same)),
          ((crossed, place ∙ same_net), h),
        )
    event-Matches (poll i) s h =
        let ((new, all, e), sound) = poll_at-Appends l.inbound i s.dialing s.nets h in
        ((new, all, sym e), sound)
    event-Matches take s h = (([], tt, append-nil _ ∙ accepted_front l s.nets _ refl), h)

    events-Matches :
        (es : List (Event mpsc channels)) (s : Site mpsc channels)
        → Sound l.inbound s.dialing
        → let ((dialed, got), s') = events mpsc channels c l es s in Matches dialed got s s'
    unfolding events
    events-Matches [] s h = ([], tt, append-nil _)
    events-Matches (e ∷ es) s h =
        let ((new, all, eq), sound) = event-Matches e s h in
        let s1 = (event mpsc channels c l e s).1 in
        let s2 = (events mpsc channels c l es s1).1 in
        let got = (event mpsc channels c l e s).0.1 in
        let got' = (events mpsc channels c l es s1).0.1 in
        let (new', all', eq') = events-Matches es s1 sound in
        (
          new ++ new',
          AllCrossed-append _ new _ new' all all',
          sym (append_assoc _ new new')
              ∙ ap (λ t. t ++ new') eq
              ∙ append_assoc got (waiting_at l.inbound s1.nets) new'
              ∙ ap (λ t. got ++ t) eq'
              ∙ sym (append_assoc got got' (waiting_at l.inbound s2.nets)),
        )

-- `listen` gives the listener of the network that the transport's connectors dial.
listen-inbound :
    {Q N : Type 0} (mpsc : Mpsc Bytes Q) (channels : Mpsc MemChannel N) (cfg : MemConfig)
    (s : Nets Q N) (p : ListenParams) (l : MemListener) (a : MemAddr)
    → let (t, s') = new_transport mpsc channels cfg s in
      (listen p t).0 ≡ ok (l, a)
      → ((connector t).to_listener ≡ l.inbound) × (l.inbound ≡ s.inbounds.next)
unfolding listen connector new_transport
listen-inbound mpsc channels cfg s p l a h = ground arith

-- A new transport and the listener that it gives out, with any number of connects of its connectors
-- started and polled, and accepts, in any order: the channels that connects returned, in the order in
-- which they returned, are each crossed with the channel accepted in the same place, or that still waits
-- to be accepted.
pub connect-AllCrossed :
    {Q N : Type 0} (mpsc : Mpsc Bytes Q) (channels : Mpsc MemChannel N) (cfg : MemConfig)
    (s : Nets Q N) (p : ListenParams) (l : MemListener) (a : MemAddr)
    (es : List (Event mpsc channels))
    → let (t, s') = new_transport mpsc channels cfg s in
      (listen p t).0 ≡ ok (l, a)
      → let ((dialed, got), site) =
          events mpsc channels (connector t) l es (record { nets = s'; dialing = [] }) in
        AllCrossed dialed (got ++ waiting_at mpsc channels l.inbound site.nets)
unfolding new_transport
connect-AllCrossed mpsc channels cfg s p l a es h =
    let (t, s') = new_transport mpsc channels cfg s in
    let (same_net, place) = listen-inbound mpsc channels cfg s p l a h in
    let (new, all, e) =
      events-Matches mpsc channels (connector t) l same_net es (record { nets = s'; dialing = [] })
        tt in
    let empty : waiting_at mpsc channels l.inbound s' ≡ [] =
      subst (λ i. waiting_at mpsc channels i s' ≡ []) (sym place)
        (ap channels.queued (put_self s.inbounds.next (channels.channel 8) s.inbounds)
          ∙ (channels.channel_law 8 (omega arith)).0) in
    subst (AllCrossed _) (sym (ap (λ u. u ++ new) empty) ∙ e) all
