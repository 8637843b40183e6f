-- ===== src/Mem/Site.antt =====
-- The connectors and the listener of one network of mem.rs at work, one event at a time in any order.
use fungi_transport_ci_test.Prelude.{
  ℕ, zero, suc, Option, none, some, Result, ok, List, [], ◌∷◌, ◌++◌,
}
use fungi_transport_ci_test.Text.{Bytes}
use fungi_transport_ci_test.Errors.{ConnectError}
use fungi_transport_ci_test.Mpsc.{Mpsc}
use fungi_transport_ci_test.Mem.{MemChannel}
use fungi_transport_ci_test.Mem.Network.{
  Nets, MemConnector, MemListener, Connecting, connect, poll_connect, accept,
}

abbrev pub ok_of : Option (Result ConnectError MemChannel) → List MemChannel
ok_of (some (ok c)) = c ∷ []
ok_of _ = []

-- What is still under way after a poll.
abbrev pub still : Connecting → Option (Result ConnectError MemChannel) → List Connecting
still d none = d ∷ []
still d (some r) = []

module _ {Q N : Type 0} (mpsc : Mpsc Bytes Q) (channels : Mpsc MemChannel N) where
  -- Polls one of the connects that are under way.
  unfoldable pub poll_at :
      ℕ → List Connecting → Nets Q N → (List MemChannel × List Connecting) × Nets Q N
  poll_at i [] s = (([], []), s)
  poll_at zero (d ∷ ds) s =
      let (r, s') = poll_connect mpsc channels d s in ((ok_of r, still d r ++ ds), s')
  poll_at (suc i) (d ∷ ds) s = let ((done, ds'), s') = poll_at i ds s in ((done, d ∷ ds'), s')

  -- A caller starts a connect, one of those under way is polled, or the listener accepts.
  pub data Event : Type 0 where
    dial : Event
    poll : ℕ → Event
    take : Event

  pub record Site : Type 0 where
    pub nets : Nets Q N
    pub dialing : List Connecting

  module _ (c : MemConnector) (l : MemListener) where
    -- The channels that connects returned and those that were accepted, and what is left.
    unfoldable pub event : Event → Site → (List MemChannel × List MemChannel) × Site
    event dial s =
        let (d, nets) = connect mpsc channels c s.nets in
        (([], []), record { nets = nets; dialing = d ∷ s.dialing })
    event (poll i) s =
        let ((done, ds), nets) = poll_at i s.dialing s.nets in
        ((done, []), record { nets = nets; dialing = ds })
    event take s =
        let (r, nets) = accept mpsc channels l s.nets in (([], ok_of r), record s { nets = nets })

    unfoldable pub events : List Event → Site → (List MemChannel × List MemChannel) × Site
    events [] s = (([], []), s)
    events (e ∷ es) s =
        let ((dialed, got), s1) = event e s in
        let ((dialed', got'), s2) = events es s1 in ((dialed ++ dialed', got ++ got'), s2)
