-- ===== src/Capnp/Plugin/Channels.antt =====
-- The requests of a client for a connector, and to send on a channel, served by the plugin
-- (crates/fungi-transport-capnp/src/lib.rs).
use fungi_transport_ci_test.Prelude.{ℕ, ◌≡◌, ap, ◌∙◌, some, Bool, false, Result, map_err, if-false}
use fungi_transport_ci_test.Action.{Action}
use fungi_transport_ci_test.Text.{Bytes, Text}
use fungi_transport_ci_test.Errors.{SendError}
use fungi_transport_ci_test.Capnp.Errors.{CapnpError, backend_send_error_to_capnp, map_send_error}
use fungi_transport_ci_test.Capnp.Registry.{Caller}
use fungi_transport_ci_test.Capnp.Actor.{
  Command, Reply, Task, handle, finish, store_connector, spawn, handle_connector,
}
use fungi_transport_ci_test.Capnp.Plugin.{
  Backend, PluginFixtures, Object, serve, channel_send, transport_connector,
}
use fungi_transport_ci_test.Capnp.Plugin.Requests.{Client, run_tasks, request, quiet, replied}

module _ {W T F Co L C Addr : Type 0} (backend : Backend W T Co L C Addr)
    (setup : PluginFixtures W F) (to_string : CapnpError → Text) (gone : Caller → Bool) where
  pub request-connector :
      (id : ℕ) (to : Caller) (a : Client backend setup to_string gone) (w : W) (t : T)
      → gone to ≡ false
      → a.registry.transports id ≡ some (Object.transport t)
      → request backend setup to_string gone
          (Command.connector id to)
          (record { actor = quiet backend setup to_string gone a; world = w })
        ≡ record {
          actor =
              replied backend setup to_string gone to (Reply.connector_made a.registry.next_id) (
                store_connector
                  (Object.connector (backend.connector t))
                  (quiet backend setup to_string gone a));
          world = w;
        }
  unfolding request run_tasks handle transport_connector
  request-connector id to a w t here h =
      ap
        (λ o. run_tasks backend setup to_string gone 2 (record {
          actor =
              handle_connector to_string (transport_connector backend setup) gone o to
                (quiet backend setup to_string gone a);
          world = w;
        }))
        h
      ∙ ap (λ x. run_tasks backend setup to_string gone 2 (record { actor = x; world = w }))
          (if-false _ _ _ here)

  abbrev pub sent_on : C → Bytes → Action W SendError (Unit {0})
  sent_on c msg w = let ch = backend.channel c in ch.send msg w

  abbrev pub crossed_send : Result SendError (Unit {0}) → Result SendError (Unit {0})
  crossed_send r = map_err (map_send_error to_string) (map_err backend_send_error_to_capnp r)

  pub request-send :
      (id : ℕ) (msg : Bytes) (to : Caller) (a : Client backend setup to_string gone) (w : W) (c : C)
      → gone to ≡ false
      → a.registry.channels id ≡ some (Object.channel c)
      → let (r, w') = sent_on c msg w in
        request backend setup to_string gone
          (Command.send id msg to)
          (record { actor = quiet backend setup to_string gone a; world = w })
        ≡ record {
          actor =
              replied backend setup to_string gone to
                (Reply.sent (crossed_send r))
                (quiet backend setup to_string gone a);
          world = w';
        }
  unfolding request run_tasks handle finish serve channel_send
  request-send id msg to a w c here h =
      ap
        (λ o. run_tasks backend setup to_string gone 2 (record {
          actor = spawn (Task.send_task msg o to) (quiet backend setup to_string gone a);
          world = w;
        }))
        h
      ∙ ap
          (λ x.
            run_tasks backend setup to_string gone 1
              (record { actor = x; world = (sent_on c msg w).1 }))
          (if-false _ _ _ here)
