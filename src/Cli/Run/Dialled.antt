-- ===== src/Cli/Run/Dialled.antt =====
-- What a successful dial of the harness (crates/fungi-transport-capnp/src/bin/harness/run.rs) rests on.
use fungi_transport_ci_test.Prelude.{◌≡◌, Option, none, some, ok}
use fungi_transport_ci_test.Action.{Action}
use fungi_transport_ci_test.Text.{Bytes, Text, codes}
use fungi_transport_ci_test.Addr.{OnionAddr}
use fungi_transport_ci_test.Capnp.Plugin.{Backend}
use fungi_transport_ci_test.Harness.{sequence}
use fungi_transport_ci_test.Harness.Sessions.{Echoed}
use fungi_transport_ci_test.Cli.{Cli}
use fungi_transport_ci_test.Cli.Run.{Os, step_timeout}

module _ {W T Co L C : Type 0} (backend : Backend W T Co L C OnionAddr) (os : Os W T) where
  -- The connector connected to the target in time; then each message of the sequence was sent, and the
  -- next receive returned it unchanged, in time; and then `OK` was printed.
  abbrev pub Dialled : Co → OnionAddr → W → W → Type 0
  Dialled co target w w' =
      (c : C) × (w1 : W) × (w2 : W) × (os.expires step_timeout w ≡ none)
      × (backend.connect target co w ≡ (ok c, w1))
      × (os.expires step_timeout w1 ≡ none)
      × Echoed (backend.channel c) sequence w1 w2
      × (w' ≡ os.print (codes "OK") w2)

  -- The private network, if one is asked for, was read and configured.
  abbrev pub Installed : Option Text → T → W → W → Type 0
  Installed none t w w' = w' ≡ w
  Installed (some path) t w w' =
      (file : Bytes) × (w1 : W) × (os.read_file path w ≡ (ok file, w1))
      × (os.configure_private_net file t w1 ≡ (ok tt, w'))
