-- ===== src/Capnp/Plugin/Configure.antt =====
-- The fixtures of a plugin, called by a client's actor (crates/fungi-transport-capnp/src/lib.rs).
use fungi_transport_ci_test.Prelude.{◌≡◌, ap, ◌∙◌, some, Bool, false, Result, map_err, if-false}
use fungi_transport_ci_test.Text.{Bytes, Text}
use fungi_transport_ci_test.Errors.{ConnectError}
use fungi_transport_ci_test.Capnp.Errors.{CapnpError, failed_error, map_connect_error}
use fungi_transport_ci_test.Capnp.Registry.{Caller}
use fungi_transport_ci_test.Capnp.Actor.{Command, Reply, handle, finish, handle_configure}
use fungi_transport_ci_test.Capnp.Plugin.{
  Backend, PluginFixtures, Object, serve, plugin_fixtures, fixtures_configure, transport_connector,
}
use fungi_transport_ci_test.Capnp.Plugin.Requests.{Client, run_tasks, request, quiet, replied}

module _ {W T F Co L C Addr : Type 0} (backend : Backend W T Co L C Addr)
    (setup : PluginFixtures W F) (to_string : CapnpError → Text) (gone : Caller → Bool) where
  -- What the fixtures returned, as the client gets it.
  abbrev pub crossed_text : Result Text (Unit {0}) → Result ConnectError (Unit {0})
  crossed_text r = map_err (map_connect_error to_string) (map_err failed_error r)

  pub request-configure :
      (file : Bytes) (to : Caller) (a : Client backend setup to_string gone) (w : W) (t : T) (f : F)
      → gone to ≡ false
      → a.plugin ≡ some (Object.plugin t f)
      → let (r, w') = setup.configure_private_net file f w in
        request backend setup to_string gone
          (Command.configure_private_net file to)
          (record { actor = quiet backend setup to_string gone a; world = w })
        ≡ record {
          actor =
              replied backend setup to_string gone to
                (Reply.configured (crossed_text r))
                (quiet backend setup to_string gone a);
          world = w';
        }
  unfolding request run_tasks handle finish serve plugin_fixtures fixtures_configure
  request-configure file to a w t f here h =
      ap
        (λ o. run_tasks backend setup to_string gone 2 (record {
          actor =
              handle_configure to_string (transport_connector backend setup) gone o file to
                (quiet backend setup to_string gone a);
          world = w;
        }))
        h
      ∙ ap
          (λ x.
            run_tasks backend setup to_string gone 1
              (record { actor = x; world = (setup.configure_private_net file f w).1 }))
          (if-false _ _ _ here)
