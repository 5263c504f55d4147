-- ===== src/State/Publisher/Loop.antt =====
-- The thread of state/sensor_update_publisher.py: `__init__`, `run` and `stop`. The other threads of the node
-- write to the state worker between two rounds; the table of peers is that of the whole run.
use distributed_sensor_hub.Base.{ℕ, String, Bool, true, false, List, [], ◌∷◌, if◌then◌else◌}
use distributed_sensor_hub.Base.Int.{ℤ}
use distributed_sensor_hub.Membership.PeerTable.{PeerTable}
use distributed_sensor_hub.Networking.Client.{TcpClient}
use distributed_sensor_hub.Protocol.Message.{Codec}
use distributed_sensor_hub.State.Convergence.{deliver}
use distributed_sensor_hub.State.Publisher.{publish_once}
use distributed_sensor_hub.State.Worker.{Worker, Update}

pub record SensorUpdatePublisher : Type 0 where
  pub self_node_id : String
  pub interval_ms : ℕ
  pub stopped : Bool

-- `__init__`
abbrev pub new_publisher : String → ℕ → SensorUpdatePublisher
new_publisher self_node_id interval_ms = record {
  self_node_id = self_node_id;
  interval_ms = interval_ms;
  stopped = false;
}

-- `stop`
abbrev pub stop : SensorUpdatePublisher → SensorUpdatePublisher
stop p = record p { stopped = true }

-- What happens before a round: the calls of `merge_update` since the last round, whether `stop` was called,
-- and the times that the messages of the round will read.
pub record Turn : Type 0 where
  pub updates : List Update
  pub stops : Bool
  pub clock : ℕ → ℤ

-- `run`: the test of the stop flag, a round, and again. No part of a round raises here, since
-- `_send_to_peer` catches what the client raises.
module _ (codec : Codec) (t : PeerTable) where
  unfoldable pub run : SensorUpdatePublisher → List Turn → Worker → TcpClient → Worker × TcpClient
  run p [] w c = (w, c)
  run p (turn ∷ turns) w c =
      let p' = if turn.stops then stop p else p in
      let w' = deliver w turn.updates in
      let (w'', c') = publish_once codec turn.clock p.self_node_id t w' c in
      let rest = run p' turns w'' c' in if p'.stopped then (w', c) else rest
