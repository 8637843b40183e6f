-- ===== src/Capnp/Registry.antt =====
-- The registry of the actor of crates/fungi-transport-capnp/src/lib.rs: the capabilities of one
-- connection by id, and the receive state of its channels.
use fungi_transport_ci_test.Prelude.{ℕ, ◌+◌, List, [], Option, none, Bool, false}
use fungi_transport_ci_test.Text.{Bytes}
use fungi_transport_ci_test.Capnp.Map.{Map, empty, remove}

-- The receiving end of a command's one-shot reply: the id of the handle whose call waits on it, and
-- which call of that handle it is.
pub record Caller : Type 0 where
  pub handle : ℕ
  pub call : ℕ

pub record RecvState : Type 0 where
  pub in_flight : Bool
  pub waiter : Option Caller
  pub buffer : List Bytes

-- `RecvState::default`.
abbrev pub idle : RecvState
idle = record { in_flight = false; waiter = none; buffer = [] }

pub record Registry (Cap : Type 0) : Type 0 where
  pub next_id : ℕ
  pub transports : Map Cap
  pub connectors : Map Cap
  pub listeners : Map Cap
  pub channels : Map Cap
  pub recv_states : Map RecvState

abbrev pub bootstrap_id : ℕ
bootstrap_id = 0

-- `Registry::new`.
unfoldable pub new_registry : {Cap : Type 0} → Registry Cap
new_registry = record {
  next_id = bootstrap_id + 1;
  transports = empty;
  connectors = empty;
  listeners = empty;
  channels = empty;
  recv_states = empty;
}

-- The registry after `alloc_id`, whose result is the old `next_id`.
abbrev pub after_alloc : {Cap : Type 0} → Registry Cap → Registry Cap
after_alloc r = record r { next_id = r.next_id + 1 }

-- `Command::Release`.
unfoldable pub release : {Cap : Type 0} → ℕ → Registry Cap → Registry Cap
release id r = record r {
  transports = remove id r.transports;
  connectors = remove id r.connectors;
  listeners = remove id r.listeners;
  channels = remove id r.channels;
  recv_states = remove id r.recv_states;
}
