-- ===== src/Tests/Node.antt =====
-- A JOIN_REQUEST at a node (node.py), at a concrete input.
use mathlib.Core.List.{Memᴰ}
use distributed_sensor_hub.Base.{◌≡◌, refl, true, false, none, some, [], ◌∷◌, arith, string_eq}
use distributed_sensor_hub.Base.Int.{pos}
use distributed_sensor_hub.Base.Dict
use distributed_sensor_hub.Base.Dict.{lookup-nil}
use distributed_sensor_hub.Membership.PeerTable.{new}
use distributed_sensor_hub.Membership.Handlers.{reply}
use distributed_sensor_hub.Networking.Client.{enqueue}
use distributed_sensor_hub.Base.{List}
use distributed_sensor_hub.State.Publisher.{tcp_peer}
use distributed_sensor_hub.Networking.Client.{TcpPeer}
use distributed_sensor_hub.Config.{Config}
use distributed_sensor_hub.Node.{Links, make_join_request}
use distributed_sensor_hub.Node.Discovery.{IsLinked, link_of, Holds}
use distributed_sensor_hub.Node.Main.{
  Part, publisher, sensors, state_worker, web_api, server, client, stopping, starts, stops, Faults,
  main, run_stages, cleanup, stop_parts, main_stops,
}
use distributed_sensor_hub.Base.Result.{Exception, runtime_error}
use distributed_sensor_hub.Node.Join.{node_join, node_join_lem}
use distributed_sensor_hub.Protocol.Message.{encode}
use distributed_sensor_hub.Tests.Membership.{
  table_a, table_a-IsValid, peer_b, join, address_c, join_read, c_other,
}
use distributed_sensor_hub.Tests.Replication.{codec, client as tcp}
use distributed_sensor_hub.Value.Key.{text, hash, key_eq}

abbrev links : Links
links = record { client = tcp; known = [] }

abbrev config : Config
config = record {
  node_id = "a";
  host = "0.0.0.0";
  port = 9000;
  bootstrap_peers = [];
  log_level = "INFO";
  log_file = "node.log";
}

links-IsLinked : IsLinked links
links-IsLinked k h = absurd (ground (arith, lookup-nil {V = Unit {0}} k))

c_fresh : Dict.has (text "c") table_a.peers ≡ false
unfolding Dict.lookup key_eq string_eq
c_fresh = refl

b_key : hash peer_b.node_id ≡ some (text "b")
unfolding hash
b_key = refl

node_join_lem_example :
    let out = node_join codec config 8 (pos 100) join table_a links in
    let w = link_of links (text "c") (new address_c.node_id address_c.host address_c.port 8) in
    Holds links
      (text "c")
      (enqueue
        (encode codec (reply "a" out.table (pos 100)))
        (enqueue (encode codec (make_join_request config (pos 100))) w))
      out.world
    × (out.raised ≡ none)
    × (Dict.has (text "c") out.table.peers ≡ true)
unfolding encode
node_join_lem_example =
    node_join_lem codec config 8 (pos 100) join table_a links table_a-IsValid refl join_read refl
      c_other c_fresh links-IsLinked (omega arith) (omega arith)

abbrev peers : List TcpPeer
peers = tcp_peer peer_b ∷ tcp_peer peer_b ∷ []

-- Stopping the server raises; the client is not stopped.
abbrev server_fails : Faults
server_fails (stopping server) = some runtime_error
server_fails _ = none

main_stops_example :
    let (calls, raised) = main server_fails in
    (raised ≡ none → (p : Part) → Memᴰ (starts p) calls → Memᴰ (stops p) calls)
    × (raised ≡ none → server_fails (stopping server) ≡ none → Memᴰ (stops client) calls)
    × ((e : Exception) → raised ≡ some e → (p : Part) → Memᴰ (stops p) calls → ⊥)
main_stops_example = main_stops server_fails

client_left_running :
    (main server_fails).0
    ≡ starts state_worker
      ∷ starts server
      ∷ starts sensors
      ∷ starts publisher
      ∷ starts web_api
      ∷ stops publisher
      ∷ stops sensors
      ∷ stops state_worker
      ∷ stops web_api
      ∷ stops server
      ∷ []
unfolding main run_stages cleanup stop_parts
client_left_running = refl
