-- ===== src/Capnp/Tests.antt =====
-- Tests of the actor of crates/fungi-transport-capnp/src/lib.rs on short runs, and the theorems there.
use fungi_transport_ci_test.Prelude.{
  ℕ, ◌+◌, ◌<◌, ◌≡◌, refl, [], ◌∷◌, ◌++◌, ◌⊎◌, ◌==◌, some, Bool, false, ok, arith,
}
use fungi_transport_ci_test.Text.{Text, codes}
use fungi_transport_ci_test.Capnp.Map.{insert}
use fungi_transport_ci_test.Capnp.Errors.{CapnpError}
use fungi_transport_ci_test.Capnp.Registry.{Caller, new_registry}
use fungi_transport_ci_test.Capnp.Actor.{
  Command, Reply, Task, recv_state, boot_channel, handle, handle_recv, finish, finish_recv,
}
use fungi_transport_ci_test.Capnp.System.{
  System, Reach, here, next, boot, command, outcome, messages, delivered, outstanding,
}
use fungi_transport_ci_test.Capnp.Delivery.{channel, buffered, each_message_once}
use fungi_transport_ci_test.Capnp.Ids.{IsOut, release_is_final}

-- Capabilities are numbers.
abbrev text_of : CapnpError → Text
text_of e = codes "Failed: " ++ e.extra

abbrev connector_of : ℕ → ℕ
connector_of cap = cap + 100

abbrev first : Caller
first = record { handle = 0; call = 1 }

abbrev second : Caller
second = record { handle = 0; call = 2 }

abbrev nobody_gone : Caller → Bool
nobody_gone to = false

abbrev first_gone : Caller → Bool
first_gone to = to.call == 1

abbrev s0 : System ℕ
s0 = boot (boot_channel 7)

abbrev run : Command → System ℕ → System ℕ
run c s = record s { actor = handle text_of connector_of nobody_gone c s.actor }

-- A receive whose caller drops its future: its message goes to the next receive.
abbrev s1 : System ℕ
s1 = run (Command.recv 0 first) s0

abbrev s2 : System ℕ
s2 = record {
  actor =
      finish text_of connector_of first_gone (Task.recv_task 0 (some 7)) (ok (codes "hi"))
        (record s1.actor { tasks = [] });
  pulled = (0, codes "hi") ∷ [];
  released = [];
}

abbrev s3 : System ℕ
s3 = run (Command.recv 0 second) s2

buffers : buffered (recv_state 0 s2.actor) ≡ codes "hi" ∷ []
unfolding handle handle_recv finish finish_recv boot_channel new_registry insert
buffers = refl

hands_on : s3.actor.replies ≡ (second, Reply.received (ok (codes "hi"))) ∷ []
unfolding handle handle_recv finish finish_recv boot_channel new_registry insert
hands_on = refl

one_task : s1.actor.tasks ≡ [] ++ Task.recv_task 0 (some 7) ∷ []
unfolding handle handle_recv boot_channel new_registry insert
one_task = refl

reached : Reach text_of connector_of s0 s3
reached =
    next
      (next (next here (command s0 (Command.recv 0 first) nobody_gone (refl, tt)))
        (outcome s1 [] [] (Task.recv_task 0 (some 7)) (ok (codes "hi")) first_gone one_task))
      (command s2 (Command.recv 0 second) nobody_gone (refl, tt))

each_message_once_example :
    (messages 0 s3.pulled ≡ delivered 0 s3.actor.replies ++ buffered (recv_state 0 s3.actor))
    × ((outstanding 0 s3.actor.tasks ≡ 0)
        ⊎ ((outstanding 0 s3.actor.tasks ≡ 1) × (buffered (recv_state 0 s3.actor) ≡ [])))
each_message_once_example = each_message_once text_of connector_of s3 (channel 7) reached 0 tt

-- The bootstrap channel is released while its receive is outstanding, which then ends.
abbrev r1 : System ℕ
r1 = record {
  actor = handle text_of connector_of nobody_gone (Command.release_id 0) s1.actor;
  pulled = [];
  released = 0 ∷ [];
}

abbrev r2 : System ℕ
r2 = record {
  actor =
      finish text_of connector_of nobody_gone (Task.recv_task 0 (some 7)) (ok (codes "hi"))
        (record r1.actor { tasks = [] });
  pulled = (0, codes "hi") ∷ [];
  released = 0 ∷ [];
}

still_running : r1.actor.tasks ≡ [] ++ Task.recv_task 0 (some 7) ∷ []
unfolding handle handle_recv boot_channel new_registry insert
still_running = refl

given_out : 0 < s1.actor.registry.next_id
unfolding handle handle_recv boot_channel new_registry
given_out = omega arith

release_is_final_example : IsOut 0 r2.actor.registry
release_is_final_example = release_is_final text_of connector_of s1 r2 0 nobody_gone given_out (
    next here
      (outcome r1 [] [] (Task.recv_task 0 (some 7)) (ok (codes "hi")) nobody_gone still_running))
