-- ===== src/Capnp/Client/Tests.antt =====
-- Tests of the client handles of crates/fungi-transport-capnp/src/lib.rs with an actor that answers
-- everything and keeps the commands, and the theorems there.
use fungi_transport_ci_test.Prelude.{
  ◌≡◌, refl, List, [], ◌∷◌, ◌++◌, Option, none, some, Result, ok, err, arith,
}
use fungi_transport_ci_test.Text.{Text, codes}
use fungi_transport_ci_test.Errors.{SendError, ConnectError, box_text}
use fungi_transport_ci_test.Capnp.Actor.{Command}
use fungi_transport_ci_test.Capnp.Client.Limits.{made, dialled, limit_reaches_channels}
use fungi_transport_ci_test.Capnp.Client.{
  Answer, Link, CapnpTransport, CapnpConnector, CapnpChannel, transport_connector, channel_send,
  connector_connect, ensure_connector, transport_listen, drop_connector,
}

abbrev reply_to : (c : Command) → Option (Answer c)
reply_to (Command.connector id to) = some 3
reply_to (Command.listen id virt_port nickname to) = some (ok (4, codes "mem"))
reply_to (Command.connect id addr to) = some (ok 5)
reply_to (Command.accept id to) = some (ok 6)
reply_to (Command.send id msg to) = some (ok tt)
reply_to (Command.recv id to) = none
reply_to (Command.release_id id) = some tt
reply_to (Command.configure_private_net file to) = none

abbrev link : Link (List Command)
link = record { ask = λ c log. (reply_to c, log ++ c ∷ []); try_send = λ c log. log ++ c ∷ [] }

-- There is one address, which prints as "mem"; any text but the empty one parses.
abbrev parse : Text → Option (Unit {0})
parse [] = none
parse (c ∷ t) = some tt

abbrev display : Unit {0} → Text
display a = codes "mem"

abbrev transport : CapnpTransport
transport = record { transport_id = 0; max_msg_len = 4 }

abbrev dial : (Result ConnectError CapnpChannel × List Command) × CapnpConnector
dial = connector_connect link parse display (transport_connector transport) 0 tt []

abbrev five : CapnpChannel
five = record { channel_id = 5; max_msg_len = 4 }

abbrev two_commands : List Command
two_commands =
    Command.connector 0 (record { handle = 0; call = 0 })
    ∷ Command.connect 3 (codes "mem") (record { handle = 3; call = 0 })
    ∷ []

dials : dial.0 ≡ (ok five, two_commands)
unfolding connector_connect ensure_connector transport_connector
dials = refl

nothing_to_release : drop_connector link (transport_connector transport) [] ≡ []
unfolding drop_connector transport_connector
nothing_to_release = refl

no_listener :
    (transport_listen link (λ t. none) display transport 0 80 none []).0
    ≡ err (ConnectError.transport (box_text (codes "unparseable listener address")))
unfolding transport_listen
no_listener = refl

limit_reaches_channels_example :
    channel_send link five 1 (codes "hello") two_commands
    ≡ (err (SendError.too_large 4), two_commands)
limit_reaches_channels_example =
    limit_reaches_channels link parse display transport five
      (dialled (transport_connector transport) 0 tt [] two_commands five made dials) 1
      (codes "hello") two_commands (omega arith)
