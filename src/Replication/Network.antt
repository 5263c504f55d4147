-- ===== src/Replication/Network.antt =====
-- All nodes of a network at once, each with the worker of state/node_state_worker.py. A step is one access
-- to one worker: an event of a sensor, a round of the publisher (state/sensor_update_publisher.py), a
-- SENSOR_UPDATE that its handler (protocol/handlers.py) is called with, or a read of the web page. A
-- message that was sent may arrive at any node at any time, more than once, in any order, or never.
pub mod Moves
pub mod Invariant
pub mod Publishing
pub mod Steps
pub mod Agreement
use mathlib.Core.List.{Memᴰ}
use distributed_sensor_hub.Base.{
  ℕ, String, Option, none, some, List, [], ◌∷◌, ◌++◌, ◌==◌, string_eq, if◌then◌else◌,
}
use distributed_sensor_hub.Base.Int.{ℤ}
use distributed_sensor_hub.Membership.PeerTable.{Peer}
use distributed_sensor_hub.Protocol.Handlers.{handle_sensor_update}
use distributed_sensor_hub.Protocol.Message.{Message}
use distributed_sensor_hub.Replication.Messages.{round_messages}
use distributed_sensor_hub.State.Worker.{
  Worker, Update, init, event_update, run_once, get_updates_snapshot, pop_replication_updates,
}
use distributed_sensor_hub.Value.{Fields}

-- `sent` lists the messages that a publisher called `_send_to_peer` with, for whatever peers its table had,
-- `received` those that arrived, `unsent` those that were never built as no peer was known, and `events` the
-- calls of `merge_update` that events led to. No node reads these four.
pub record Network : Type 0 where
  pub workers : String → Worker
  pub sent : List Message
  pub unsent : List Message
  pub received : String → List Message
  pub events : List Update

abbrev pub put {ℓ} : {A : Type ℓ} → String → A → (String → A) → String → A
put i x f j = if j == i then x else f j

-- The call that an event leads to, if its fields can be read.
unfoldable pub event_calls : String → Option Fields → List Update
event_calls node_id none = []
event_calls node_id (some event) = elim (event_update node_id event) [ none ↦ [] | some u ↦ u ∷ [] ]

abbrev pub start : Network
start = record { workers = init; sent = []; unsent = []; received = λ i. []; events = [] }

-- A reading of a sensor at the node `i`, or a second without any
abbrev pub sense : String → Option Fields → Network → Network
sense i e net = record net {
  workers = put i (run_once (net.workers i) e) net.workers;
  events = event_calls (net.workers i).node_id e ++ net.events;
}

-- The test `if not peers` of `_publish_once`: what a round sends of the messages `ms`, and what it loses.
unfoldable pub sent_to : List Peer → List Message → List Message
sent_to [] ms = []
sent_to (p ∷ peers) ms = ms

unfoldable pub lost_without : List Peer → List Message → List Message
lost_without [] ms = ms
lost_without (p ∷ peers) ms = []

-- A round of the publisher at the node `i`, with the peers of its table: the pending entries are taken before
-- the test for peers.
abbrev pub publish : String → List Peer → (ℕ → ℤ) → Network → Network
publish i peers tick net = record net {
  workers = put i (pop_replication_updates (net.workers i)).0 net.workers;
  sent = sent_to peers (round_messages tick (net.workers i)) ++ net.sent;
  unsent = lost_without peers (round_messages tick (net.workers i)) ++ net.unsent;
}

-- A message at the node `i`
abbrev pub receive : String → Message → Network → Network
receive i m net = record net {
  workers = put i (handle_sensor_update (net.workers i) m) net.workers;
  received = put i (m ∷ net.received i) net.received;
}

-- `/api/updates` at the node `i`
abbrev pub view : String → Network → Network
view i net = record net { workers = put i (get_updates_snapshot (net.workers i)).0 net.workers }

pub data Step (nodes : List String) (net : Network) : Network → Type 0 where
  senses : (i : String) (e : Option Fields) → Memᴰ i nodes → Step nodes net (sense i e net)
  publishes :
      (i : String) (peers : List Peer) (tick : ℕ → ℤ)
      → Memᴰ i nodes
      → Step nodes net (publish i peers tick net)
  receives :
      (i : String) (m : Message) → Memᴰ i nodes → Memᴰ m net.sent → Step nodes net (receive i m net)
  views : (i : String) → Memᴰ i nodes → Step nodes net (view i net)

-- `net'` after some steps from `net`.
pub data Reach (nodes : List String) (net : Network) : Network → Type 0 where
  begin : Reach nodes net net
  next :
      {net' net'' : Network} → Reach nodes net net' → Step nodes net' net'' → Reach nodes net net''
