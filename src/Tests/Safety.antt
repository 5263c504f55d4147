-- ===== src/Tests/Safety.antt =====
-- The handlers of the node "b", and a connection to it that breaks in the middle of a frame, after a SENSOR_UPDATE of which the first
-- read times out.
use distributed_sensor_hub.Base.{◌≡◌, true, some, List, [], ◌∷◌, ◌++◌, arith}
use distributed_sensor_hub.Base.Int.{pos}
use distributed_sensor_hub.Membership.Handlers.Chain.{Keeps}
use distributed_sensor_hub.Membership.PeerTable.{Peer, list_peers}
use distributed_sensor_hub.Membership.PeerTable.Laws as PeerTable
use distributed_sensor_hub.Networking.Link.{receive_frame}
use distributed_sensor_hub.Networking.Server.{Arrival, bytes, timeout, reset, connection_loop}
use distributed_sensor_hub.Networking.Server.Recv.{content}
use distributed_sensor_hub.Base.Result.{ok}
use distributed_sensor_hub.Protocol.Dispatcher.{Dispatcher, dispatch}
use distributed_sensor_hub.Protocol.Message.{Message}
use distributed_sensor_hub.Protocol.Setup.{
  Node, setup_protocol, intended, setup_protocol_lem, setup_protocol-registered,
}
use distributed_sensor_hub.Replication.Safety.{connection_loop-Grows}
use distributed_sensor_hub.State.Convergence.{deliver}
use distributed_sensor_hub.State.Invariant.{IsValid, init-IsValid}
use distributed_sensor_hub.State.Worker.{Update}
use distributed_sensor_hub.Tests.Membership.{World, send, discovered}
use distributed_sensor_hub.Tests.Replication.{codec, clock, node_b, dispatcher}

setup_protocol_lem_example :
    (d : Dispatcher (Node World)) × (setup_protocol clock send "b" (some discovered) true ≡ ok d)
    × ((m : Message) (n : Node World)
        → dispatch d m n ≡ intended clock send "b" (some discovered) true m.msg_type m n)
setup_protocol_lem_example = setup_protocol_lem clock send "b" (some discovered) true

abbrev broken : List Arrival
broken = bytes (0 ∷ 0 ∷ []) ∷ timeout ∷ bytes (0 ∷ 1 ∷ 7 ∷ 0 ∷ 0 ∷ 0 ∷ 2 ∷ 7 ∷ []) ∷ reset ∷ []

connection_loop-Grows_example :
    (n' : Node World) × (connection_loop 16
        (receive_frame codec (λ n. pos 9) dispatcher)
        11
        broken
        node_b
      ≡ some n')
    × PeerTable.IsValid n'.table
    × Keeps node_b.table n'.table
    × ((ps : List Peer) × (list_peers n'.table ≡ list_peers node_b.table ++ ps))
    × IsValid n'.worker
    × ((us : List Update) × (n'.worker ≡ deliver node_b.worker us))
unfolding content
connection_loop-Grows_example =
    connection_loop-Grows clock send "b" (some discovered) true codec (λ n. pos 9) dispatcher 16 11
      broken node_b (setup_protocol-registered clock send "b" (some discovered) true)
      (PeerTable.init-IsValid "b") (init-IsValid "b") (omega arith)
