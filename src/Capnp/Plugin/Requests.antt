-- ===== src/Capnp/Plugin/Requests.antt =====
-- A client's actor and the plugin's servers together (crates/fungi-transport-capnp/src/lib.rs): what
-- becomes of a command when its remote calls are served.
use fungi_transport_ci_test.Prelude.{
  ℕ, zero, suc, ◌≡◌, ap, ◌∙◌, List, [], ◌∷◌, ◌++◌, Option, some, Bool, false, Result, ok, err,
  map_err, ok_or, if-false,
}
use fungi_transport_ci_test.Action.{then as onwards, pure}
use fungi_transport_ci_test.Text.{Text, codes}
use fungi_transport_ci_test.Errors.{ConnectError}
use fungi_transport_ci_test.Capnp.Errors.{
  CapnpError, failed_error, backend_connect_error_to_capnp, map_connect_error,
}
use fungi_transport_ci_test.Capnp.Registry.{Caller}
use fungi_transport_ci_test.Capnp.Actor.{
  Command, Reply, Task, Actor, handle, finish, nickname_text, store_listener, store_channel, spawn,
}
use fungi_transport_ci_test.Capnp.Server.{served_params}
use fungi_transport_ci_test.Capnp.Plugin.{
  Backend, PluginFixtures, Object, Server, serve, listener_server, transport_listen,
  listener_onion_addr, connector_connect, listener_accept, transport_connector,
}

module _ {W T F Co L C Addr : Type 0} (backend : Backend W T Co L C Addr)
    (setup : PluginFixtures W F) (to_string : CapnpError → Text) (gone : Caller → Bool) where
  abbrev pub Client : Type 0
  Client = Actor (Server backend setup)

  pub record Rig : Type 0 where
    pub actor : Client
    pub world : W

  abbrev pub served : List (Task (Server backend setup)) → Client → W → Rig
  served [] a w = record { actor = a; world = w }
  served (t ∷ ts) a w =
      let (o, w') = serve backend setup t w in
      record {
        actor =
            finish to_string (transport_connector backend setup) gone t o (record a { tasks = ts });
        world = w';
      }

  -- The first tasks of the actor, one after the other, each up to its next remote call.
  unfoldable pub run_tasks : ℕ → Rig → Rig
  run_tasks zero r = r
  run_tasks (suc n) r = run_tasks n (served r.actor.tasks r.actor r.world)

  -- A command that is handled, and its calls served: at most two, those of `listen`.
  unfoldable pub request : Command → Rig → Rig
  unfolding run_tasks
  request cmd r =
      run_tasks 2
        (record r { actor = handle to_string (transport_connector backend setup) gone cmd r.actor })

  abbrev pub quiet : Client → Client
  quiet a = record a { tasks = [] }

  abbrev pub replied : Caller → Reply → Client → Client
  replied to r a = record a { replies = a.replies ++ (to, r) ∷ [] }

  -- An error of the backend, as the client gets it.
  abbrev pub crossed : ConnectError → ConnectError
  crossed e = map_connect_error to_string (backend_connect_error_to_capnp e)

  -- The actor after the reply to `listen`, `connect` or `accept`, from what the backend's call returned.
  abbrev pub listened : Caller → Result ConnectError (L × Addr) → Client → Client
  listened to (ok (l, addr)) a =
      replied to (Reply.listening (ok (a.registry.next_id, backend.display addr)))
        (store_listener (Object.listener l (backend.display addr)) a)
  listened to (err e) a = replied to (Reply.listening (err (crossed e))) a

  abbrev pub connected : Caller → Result ConnectError C → Client → Client
  connected to (ok c) a =
      replied to (Reply.connected (ok a.registry.next_id)) (store_channel (Object.channel c) a)
  connected to (err e) a = replied to (Reply.connected (err (crossed e))) a

  after_listen :
      (port : ℕ) (nickname : Text) (o : Server backend setup) (to : Caller) (a : Client)
      (r : Result ConnectError (L × Addr) × W)
      → gone to ≡ false
      → let (made, w) =
          onwards
            (λ made. pure (listener_server backend setup made))
            (map_err backend_connect_error_to_capnp r.0, r.1) in
        run_tasks 1 (record {
          actor =
              finish to_string
                (transport_connector backend setup)
                gone
                (Task.listen_task port nickname (some o) to)
                made
                (quiet a);
          world = w;
        })
        ≡ record { actor = listened to r.0 (quiet a); world = r.1 }
  unfolding run_tasks finish serve listener_onion_addr
  after_listen port nickname o to a (ok (l, addr), w) here =
      ap (λ x. record { actor = x; world = w }) (if-false _ _ _ here)
  after_listen port nickname o to a (err e, w) here =
      ap (λ x. run_tasks 1 (record { actor = x; world = w })) (if-false _ _ _ here)

  pub request-listen :
      (id port : ℕ) (nickname : Option Text) (to : Caller) (a : Client) (w : W) (t : T)
      → gone to ≡ false
      → a.registry.transports id ≡ some (Object.transport t)
      → let (r, w') = backend.listen (served_params port (nickname_text nickname)) t w in
        request (Command.listen id port nickname to) (record { actor = quiet a; world = w })
        ≡ record { actor = listened to r (quiet a); world = w' }
  unfolding request run_tasks handle serve transport_listen
  request-listen id port nickname to a w t here h =
      ap
        (λ o. run_tasks 2 (record {
          actor = spawn (Task.listen_task port (nickname_text nickname) o to) (quiet a);
          world = w;
        }))
        h
      ∙ after_listen port (nickname_text nickname) (Object.transport t) to a
          (backend.listen (served_params port (nickname_text nickname)) t w) here

  after_connect :
      (addr : Text) (o : Server backend setup) (to : Caller) (a : Client)
      (r : Result ConnectError C × W)
      → gone to ≡ false
      → let (made, w) =
          onwards
            (λ c. pure (Object.channel c))
            (map_err backend_connect_error_to_capnp r.0, r.1) in
        run_tasks 1 (record {
          actor =
              finish to_string
                (transport_connector backend setup)
                gone
                (Task.connect_task addr (some o) to)
                made
                (quiet a);
          world = w;
        })
        ≡ record { actor = connected to r.0 (quiet a); world = r.1 }
  unfolding run_tasks finish
  after_connect addr o to a (ok c, w) here =
      ap (λ x. run_tasks 1 (record { actor = x; world = w })) (if-false _ _ _ here)
  after_connect addr o to a (err e, w) here =
      ap (λ x. run_tasks 1 (record { actor = x; world = w })) (if-false _ _ _ here)

  connect_parsed :
      (text : Text) (co : Co) (to : Caller) (a : Client) (w : W) (addr : Option Addr) → Rig
  unfolding run_tasks finish
  connect_parsed text co to a w addr =
      let (made, w') =
        onwards
          (λ addr w.
            onwards (λ c. pure (Object.channel c))
              (let (r, w') = backend.connect addr co w in
                (map_err backend_connect_error_to_capnp r, w')))
          (ok_or addr (failed_error (codes "invalid address")), w) in
      run_tasks 1 (record {
        actor =
            finish to_string (transport_connector backend setup) gone
              (Task.connect_task text (some (Object.connector co)) to) made (quiet a);
        world = w';
      })

  -- An address that is read from its text form reaches the backend's connector.
  pub request-connect :
      (id : ℕ) (addr : Addr) (to : Caller) (a : Client) (w : W) (co : Co)
      → gone to ≡ false
      → a.registry.connectors id ≡ some (Object.connector co)
      → backend.from_str (backend.display addr) ≡ some addr
      → let (r, w') = backend.connect addr co w in
        request
          (Command.connect id (backend.display addr) to)
          (record { actor = quiet a; world = w })
        ≡ record { actor = connected to r (quiet a); world = w' }
  unfolding request run_tasks handle serve connector_connect connect_parsed
  request-connect id addr to a w co here h parses =
      ap
        (λ o. run_tasks 2 (record {
          actor = spawn (Task.connect_task (backend.display addr) o to) (quiet a);
          world = w;
        }))
        h
      ∙ ap (connect_parsed (backend.display addr) co to a w) parses
      ∙ after_connect (backend.display addr) (Object.connector co) to a (backend.connect addr co w)
          here

  after_accept :
      (o : Server backend setup) (to : Caller) (a : Client) (r : Result ConnectError C × W)
      → gone to ≡ false
      → let (made, w) =
          onwards
            (λ c. pure (Object.channel c))
            (map_err backend_connect_error_to_capnp r.0, r.1) in
        run_tasks 1 (record {
          actor =
              finish to_string
                (transport_connector backend setup)
                gone
                (Task.accept_task (some o) to)
                made
                (quiet a);
          world = w;
        })
        ≡ record { actor = connected to r.0 (quiet a); world = r.1 }
  unfolding run_tasks finish
  after_accept o to a (ok c, w) here =
      ap (λ x. run_tasks 1 (record { actor = x; world = w })) (if-false _ _ _ here)
  after_accept o to a (err e, w) here =
      ap (λ x. run_tasks 1 (record { actor = x; world = w })) (if-false _ _ _ here)

  pub request-accept :
      (id : ℕ) (to : Caller) (a : Client) (w : W) (l : L) (addr : Text)
      → gone to ≡ false
      → a.registry.listeners id ≡ some (Object.listener l addr)
      → let (r, w') = backend.accept l w in
        request (Command.accept id to) (record { actor = quiet a; world = w })
        ≡ record { actor = connected to r (quiet a); world = w' }
  unfolding request run_tasks handle serve listener_accept
  request-accept id to a w l addr here h =
      ap (λ o. run_tasks 2 (record { actor = spawn (Task.accept_task o to) (quiet a); world = w }))
        h
      ∙ after_accept (Object.listener l addr) to a (backend.accept l w) here
