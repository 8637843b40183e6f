-- ===== src/Arti/Accept.antt =====
-- `accept` of crates/fungi-transport-arti/src/listener.rs: which request it takes, and what it does to
-- the others.
use fungi_transport_ci_test.Prelude.{
  ℕ, ◌≡◌, refl, ap, List, [], ◌∷◌, ◌++◌, true, false, Bool-cases, inl, inr, some, ok, err, All,
  Result, lt→ltb, map_err, ◌<◌, ◌≢◌, ==_iff, arith, if-true, if-false, ◌∙◌,
}
use fungi_transport_ci_test.Text.{Text}
use fungi_transport_ci_test.Errors.{ConnectError, box_text}
use fungi_transport_ci_test.Framed.{u32_mod, fresh, new}
use fungi_transport_ci_test.Tor.{channel_over}
use fungi_transport_ci_test.Arti.{
  Arti, ArtiListener, StreamRequest, Opened, opaque, is_ours, accept_stream, accept_from, accept,
}

begins : (port : ℕ) (r : StreamRequest) → is_ours port r ≡ true → r ≡ StreamRequest.begin port
unfolding is_ours
begins port (StreamRequest.begin p) h = ap StreamRequest.begin ((==_iff p port).0 h)
begins port StreamRequest.other h = cc

not_begins : (port : ℕ) (r : StreamRequest) → is_ours port r ≡ false → r ≢ StreamRequest.begin port
unfolding is_ours
not_begins port (StreamRequest.begin p) h e = let same : p ≡ port = cc in absurd (ground arith)
not_begins port StreamRequest.other h e = cc

module _ {W Cfg K Nick SvcCfg Svc Rend Req D : Type 0}
    (arti : Arti W Cfg K Nick SvcCfg Svc Rend Req D) where
  -- The circuits of these requests are shut down, in their order.
  abbrev pub shut_all : List Req → W → W
  shut_all [] w = w
  shut_all (req ∷ reqs) w = shut_all reqs (arti.shutdown_circuit req w)

  -- A request to begin a stream to this port.
  abbrev pub IsFor : ℕ → Req → Type 0
  IsFor virt_port req = arti.request req ≡ StreamRequest.begin virt_port

  -- What is made of the stream of an accepted request: a new channel with the limit, or the error.
  abbrev pub Serves : ℕ → Result Text D → Opened arti → Type 0
  Serves max (ok d) o = max < u32_mod → o ≡ some (ok (fresh d max))
  Serves max (err e) o = o ≡ some (err (ConnectError.transport (box_text e)))

  -- How the loop ends when `next` is what is left behind the refused requests.
  abbrev pub EndsAt : ℕ → ℕ → List Req → (Opened arti × List Req) × W → W → Type 0
  EndsAt virt_port max [] r w = r ≡ ((some (err ConnectError.unreachable), []), w)
  EndsAt virt_port max (req ∷ later) r w =
      IsFor virt_port req
      × let (stream, w') = arti.accept req w in
        (o : Opened arti) × Serves max stream o × (r ≡ ((o, later), w'))

  abbrev pub Accepts : ℕ → ℕ → List Req → W → (Opened arti × List Req) × W → Type 0
  Accepts virt_port max incoming w r =
      (refused next : List Req) × (incoming ≡ refused ++ next)
      × All (λ req. ¬ IsFor virt_port req) refused
      × EndsAt virt_port max next r (shut_all refused w)

  serves : (max : ℕ) (r : Result Text D) → Serves max r (channel_over max (map_err opaque r))
  unfolding new
  serves max (ok d) = λ fits. rw (lt→ltb max u32_mod fits) refl
  serves max (err e) = refl

  served :
      (max : ℕ) (req : Req) (w : W)
      → Serves max (arti.accept req w).0 (accept_stream arti max req w).0
  unfolding accept_stream
  served max req w = serves max (arti.accept req w).0

  accept_from-Accepts :
      (virt_port max : ℕ) (incoming : List Req) (w : W)
      → Accepts virt_port max incoming w (accept_from arti virt_port max incoming w)
  unfolding accept_from
  accept_from-Accepts virt_port max [] w = ([], [], refl, tt, refl)
  accept_from-Accepts virt_port max (req ∷ incoming) w =
      elim (Bool-cases (is_ours virt_port (arti.request req))) [
        | inl ours ↦ (
          [],
          req ∷ incoming,
          refl,
          tt,
          (
            begins virt_port (arti.request req) ours,
            ((accept_stream arti max req w).0, served max req w, if-true _ _ _ ours),
          ),
        )
        | inr not_ours ↦
            let (refused, next, e, all, end) =
              accept_from-Accepts virt_port max incoming (arti.shutdown_circuit req w) in
            (
              req ∷ refused,
              next,
              ap (◌∷◌ req) e,
              ((λ same. not_begins virt_port (arti.request req) not_ours same), all),
              moved next (shut_all refused (arti.shutdown_circuit req w)) not_ours end,
            )
      ]
    where
      moved :
          (next : List Req) (w' : W)
          → is_ours virt_port (arti.request req) ≡ false
          → EndsAt virt_port max next
              (accept_from arti virt_port max incoming (arti.shutdown_circuit req w))
              w'
          → EndsAt virt_port max next (accept_from arti virt_port max (req ∷ incoming) w) w'
      moved [] w' not_ours end = if-false _ _ _ not_ours ∙ end
      moved (r ∷ later) w' not_ours (ours, (o, made, e)) =
          (ours, (o, made, if-false _ _ _ not_ours ∙ e))

  -- `accept` passes over the requests that do not begin a stream to the listener's port, shuts down the
  -- circuit of each in order, and takes the first that does. It accepts that one; its stream becomes a new
  -- channel with the listener's limit, if that fits the prefix, and an error of accepting it is opaque; the
  -- requests behind it are left. Without such a request it ends unreachable when the stream of requests
  -- ends.
  pub accept-Accepts :
      (l : ArtiListener Svc Req) (w : W)
      → let ((r, l'), w') = accept arti l w in
        Accepts l.virt_port l.max_msg_len l.incoming w ((r, l'.incoming), w')
  unfolding accept
  accept-Accepts l w = accept_from-Accepts l.virt_port l.max_msg_len l.incoming w
