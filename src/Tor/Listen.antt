-- ===== src/Tor/Listen.antt =====
-- `bind` of crates/fungi-transport-socks5h/src/lib.rs: what is published, and under which address.
use fungi_transport_ci_test.Prelude.{
  ℕ, ◌≤◌, ◌≡◌, ◌≢◌, refl, sym, subst, [], ◌∷◌, ◌++◌, Result, ok, err,
}
use fungi_transport_ci_test.Text.{Bytes, Text, codes, max_u16}
use fungi_transport_ci_test.Errors.{IoError}
use fungi_transport_ci_test.Addr.{onion_addr, show_addr, parse_addr}
use fungi_transport_ci_test.Addr.RoundTrip.{parse_addr-show_addr}
use fungi_transport_ci_test.Io.Lines.{LineStream}
use fungi_transport_ci_test.Control.{OnionService, Stop, create_onion, auth_line}
use fungi_transport_ci_test.Control.Published.{Published, create_onion-Published}
use fungi_transport_ci_test.Tor.{
  TorConfig, TorListener, Tcp, published, with_port, with_local, bind,
}

not_empty : (id : Text) → id ++ codes ".onion" ≢ []
not_empty [] h = cc
not_empty (c ∷ id) h = cc

module _ {L S C : Type 0} (tcp : Tcp L S) (lines : LineStream C)
    (read_file : Text → Result IoError Bytes) where
  -- What a bound listener rests on: the daemon was told to forward the virtual port to the listener's
  -- own local port, and the address is the service that it named.
  abbrev pub Bound : TorConfig → Result IoError C → ℕ → TorListener L C → Type 0
  Bound cfg reached virt_port l =
      (port : ℕ) × (s : C) × (line : Text) × (tcp.port l.local ≡ ok port)
      × (reached ≡ ok s)
      × (auth_line read_file cfg.auth ≡ ok line)
      × Published lines line virt_port port l.service.service_id s l.service.conn
      × (l.addr ≡ onion_addr (l.service.service_id ++ codes ".onion") virt_port)

  published-Bound :
      (cfg : TorConfig) (rounds : ℕ) (reached : Result IoError C) (virt_port port : ℕ) (local : L)
      (r : Result Stop (OnionService C)) (l : TorListener L C)
      → create_onion lines read_file cfg.auth rounds virt_port port reached ≡ r
      → tcp.port local ≡ ok port
      → published tcp lines read_file cfg virt_port local r ≡ ok l
      → Bound cfg reached virt_port l
  published-Bound cfg rounds reached virt_port port local (ok service) l e p h =
      let (s, line, at, made, all) =
        create_onion-Published lines read_file cfg.auth rounds virt_port port reached service e in
      subst (Bound cfg reached virt_port) (ok-injective h) (port, s, line, p, at, made, all, refl)
    where
      ok-injective :
          {a b : TorListener L C} → ◌≡◌ {A = Result Stop (TorListener L C)} (ok a) (ok b) → a ≡ b
      ok-injective h = cc
  published-Bound cfg rounds reached virt_port port local (err x) l e p h = cc

  with_port-Bound :
      (cfg : TorConfig) (rounds : ℕ) (reached : Result IoError C) (virt_port : ℕ) (local : L)
      (r : Result IoError ℕ) (l : TorListener L C)
      → tcp.port local ≡ r
      → with_port tcp lines read_file cfg rounds reached virt_port local r ≡ ok l
      → Bound cfg reached virt_port l
  with_port-Bound cfg rounds reached virt_port local (ok port) l e h =
      published-Bound cfg rounds reached virt_port port local _ l refl e h
  with_port-Bound cfg rounds reached virt_port local (err x) l e h = cc

  with_local-Bound :
      (cfg : TorConfig) (rounds : ℕ) (reached : Result IoError C) (virt_port : ℕ)
      (r : Result IoError L) (l : TorListener L C)
      → with_local tcp lines read_file cfg rounds reached virt_port r ≡ ok l
      → Bound cfg reached virt_port l
  with_local-Bound cfg rounds reached virt_port (ok local) l h =
      with_port-Bound cfg rounds reached virt_port local (tcp.port local) l refl h
  with_local-Bound cfg rounds reached virt_port (err x) l h = cc

  pub bind-Bound :
      (cfg : TorConfig) (rounds : ℕ) (reached : Result IoError C) (virt_port : ℕ)
      (l : TorListener L C)
      → bind tcp lines read_file cfg rounds reached virt_port ≡ ok l
      → Bound cfg reached virt_port l
  unfolding bind
  bind-Bound cfg rounds reached virt_port l h =
      with_local-Bound cfg rounds reached virt_port (tcp.bind tt) l h

  -- The address of a bound listener survives its text form, in which it is handed to peers and crosses
  -- to other processes, whatever the daemon named the service, for a 16-bit virtual port.
  pub bound_address_parses :
      (cfg : TorConfig) (rounds : ℕ) (reached : Result IoError C) (virt_port : ℕ)
      (l : TorListener L C)
      → virt_port ≤ max_u16
      → bind tcp lines read_file cfg rounds reached virt_port ≡ ok l
      → parse_addr (show_addr l.addr) ≡ ok l.addr
  bound_address_parses cfg rounds reached virt_port l fits h =
      let (_, _, _, _, _, _, _, same) = bind-Bound cfg rounds reached virt_port l h in
      subst (λ a. parse_addr (show_addr a) ≡ ok a) (sym same)
        (parse_addr-show_addr (onion_addr (l.service.service_id ++ codes ".onion") virt_port)
          (not_empty l.service.service_id) fits)
