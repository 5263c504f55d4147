-- ===== src/State/Publisher.antt =====
-- `SensorUpdatePublisher` of state/sensor_update_publisher.py: it takes the pending updates from the state
-- worker and queues those of its own node for every peer of the table.
pub mod Delivery
pub mod Publishing
pub mod Replication
pub mod Loop
use distributed_sensor_hub.Base.{
  ℕ, suc, String, Option, none, some, List, [], ◌∷◌, ◌==◌, string_eq, if◌then◌else◌,
}
use distributed_sensor_hub.Base.Int.{ℤ}
use distributed_sensor_hub.Base.Dict
use distributed_sensor_hub.Base.Dict.{Dict}
use distributed_sensor_hub.Base.Result.{Exception, key_error, ok, raise}
use distributed_sensor_hub.Base.Text.{split_first}
use distributed_sensor_hub.Membership.PeerTable.{Peer, PeerTable, list_peers}
use distributed_sensor_hub.Networking.Client as Client
use distributed_sensor_hub.Networking.Client.{TcpPeer, TcpClient, send_json}
use distributed_sensor_hub.Protocol.Message.{Message, new_message, sensor_update, Codec, encode}
use distributed_sensor_hub.State.Record.{Meta, Record}
use distributed_sensor_hub.State.Worker.{Worker, pop_replication_updates}
use distributed_sensor_hub.Value.{Value, str, obj, Fields, end, field, of_int}

-- `global_sensor_id.split(":", 1)[1]`, or the whole id where it has no colon
unfoldable pub local_id : String → String
local_id global_sensor_id = elim (split_first b':' global_sensor_id) [
  | none ↦ global_sensor_id
  | some (before, after) ↦ after
]

-- The dict of a record's meta data.
unfoldable pub meta_value : Meta → Value
meta_value m = obj (field "unit" m.unit (field "period_ms" m.period_ms end))

-- The message of one update.
unfoldable pub update_message : String → String → Record → ℤ → Message
unfolding local_id meta_value
update_message self_node_id global_sensor_id r now =
    new_message sensor_update self_node_id
      (field "sensor_id" (str (local_id global_sensor_id)) (
        field "value" r.value (
          field "ts_ms" (of_int r.ts_ms)
            (field "origin" (str r.origin) (field "meta" (meta_value r.meta) end)))))
      now

abbrev pub tcp_peer : Peer → TcpPeer
tcp_peer p = record { node_id = p.node_id; host = p.host; port = p.port }

-- The second half of `_send_to_peer`, for a peer that the client does not know; exceptions are logged.
unfoldable pub add_and_send : TcpClient → Peer → List ℕ → TcpClient
add_and_send c p payload = elim (Client.add_peer c (tcp_peer p)) [
  | raise e ↦ c
  | ok c' ↦ elim (send_json c' p.node_id payload) [ raise e ↦ c' | ok c'' ↦ c'' ]
]

-- `_send_to_peer`, of a message that serialises to the bytes `payload`
unfoldable pub send_to_peer : TcpClient → Peer → List ℕ → TcpClient
unfolding add_and_send
send_to_peer c p payload = elim (send_json c p.node_id payload) [
  | ok c' ↦ c'
  | raise key_error ↦ add_and_send c p payload
  | raise e ↦ c
]

-- The inner loop of `_publish_once`
unfoldable pub send_to_peers : TcpClient → List Peer → List ℕ → TcpClient
send_to_peers c [] payload = c
send_to_peers c (p ∷ peers) payload = send_to_peers (send_to_peer c p payload) peers payload

-- The outer loop. `clock i` is the time that the message of round `i` reads.
module _ (codec : Codec) (self_node_id : String) (peers : List Peer) (clock : ℕ → ℤ) where
  unfoldable pub publish_updates : ℕ → Dict String Record → TcpClient → TcpClient
  publish_updates i [] c = c
  publish_updates i ((global_sensor_id, r) ∷ updates) c =
      let payload = encode codec (update_message self_node_id global_sensor_id r (clock i)) in
      publish_updates (suc i) updates
        (if r.origin == self_node_id then send_to_peers c peers payload else c)

-- `_publish_once`
module _ (codec : Codec) (clock : ℕ → ℤ) where
  unfoldable pub publish_once : String → PeerTable → Worker → TcpClient → Worker × TcpClient
  publish_once self_node_id t w c =
      let (w', snapshot) = pop_replication_updates w in
      elim (Dict.lookup self_node_id snapshot) [
        | none ↦ (w', c)
        | some updates ↦ (w', publish_updates codec self_node_id (list_peers t) clock 0 updates c)
      ]
