-- ===== src/Node.antt =====
-- node.py: how a node ties its parts together. Its handlers act on the TCP client and on the set of the
-- peers that were given to it.
pub mod Discovery
pub mod Join
pub mod Bootstrap
pub mod Configured
pub mod Main
pub mod WebPort
use distributed_sensor_hub.Base.{
  ℕ, suc, String, Option, none, some, List, [], ◌∷◌, ◌<>◌, map, if◌then◌else◌,
}
use distributed_sensor_hub.Base.Int.{ℤ, pos}
use distributed_sensor_hub.Base.Decimal.{show}
use distributed_sensor_hub.Base.Dict
use distributed_sensor_hub.Base.Dict.{Dict}
use distributed_sensor_hub.Base.Result.{Exception, Result, ok, raise, runtime_error, ◌>>=◌}
use distributed_sensor_hub.Config.{Config}
use distributed_sensor_hub.Membership.Handlers.{Effect}
use distributed_sensor_hub.Membership.PeerTable as Peers
use distributed_sensor_hub.Membership.PeerTable.{Peer, PeerTable}
use distributed_sensor_hub.Networking.Client as Client
use distributed_sensor_hub.Networking.Client.{TcpPeer, TcpClient, key_of, send_json}
use distributed_sensor_hub.Protocol.Message.{Message, new_message, join_request, Codec, encode}
use distributed_sensor_hub.Value.{Value, int, str, field, end, whole}
use distributed_sensor_hub.Value.Key.{Key, key_eq, is_text}

-- `client` and `known_client_peers` of `main`: a set is a dict without values.
pub record Links : Type 0 where
  pub client : TcpClient
  pub known : Dict Key (Unit {0})

-- `_make_join_request`
unfoldable pub make_join_request : Config → ℤ → Message
make_join_request cfg now =
    new_message join_request cfg.node_id
      (field "node_id" (str cfg.node_id)
        (field "host" (str cfg.host) (field "port" (int (pos cfg.port)) end)))
      now

-- `bootstrap`, of one JOIN_REQUEST for all peers: an exception of `send` is logged.
unfoldable pub bootstrap :
    {S : Type 0} → (Value → Message → Effect S) → Message → List TcpPeer → S → S
bootstrap send join [] s = s
bootstrap send join (p ∷ peers) s = bootstrap send join peers (send p.node_id join s).0

-- The host under which `_ensure_client_peer` tries a peer.
abbrev pub try_host : Peer → Value
try_host p = if is_text p.host "0.0.0.0" then p.node_id else p.host

abbrev pub reachable : Peer → TcpPeer
reachable p = record { node_id = p.node_id; host = try_host p; port = p.port }

-- `_ensure_client_peer` behind its test: a `RuntimeError` says that the client has the peer.
unfoldable pub connect : Peer → Key → Links → Result Links
connect p k s = elim (Client.add_peer s.client (reachable p)) [
  | ok c ↦ ok (record { client = c; known = Dict.insert k tt s.known })
  | raise runtime_error ↦ ok (record s { known = Dict.insert k tt s.known })
  | raise e ↦ raise e
]

-- `_ensure_client_peer`
unfoldable pub ensure_client_peer : Peer → Links → Result Links
unfolding connect
ensure_client_peer p s = do k ← key_of p.node_id; if Dict.has k s.known then ok s else connect p k s

module _ (codec : Codec) where
  -- `client.send_json` of a message, for an id of any type
  unfoldable pub send_value : Value → Message → Effect Links
  send_value id m s = elim (send_json s.client id (encode codec m)) [
    | raise e ↦ (s, some e)
    | ok c ↦ (record s { client = c }, none)
  ]

  -- The same for a text, as the handlers of membership call it.
  abbrev pub send_message : String → Message → Effect Links
  send_message id = send_value (str id)

  -- `on_peer_discovered`, at the time `now`; an exception of `send_json` is logged.
  unfoldable pub on_peer_discovered : Config → ℤ → Peer → Effect Links
  on_peer_discovered cfg now p s = elim (ensure_client_peer p s) [
    | raise e ↦ (s, some e)
    | ok s' ↦ ((send_value p.node_id (make_join_request cfg now) s').0, none)
  ]

-- The id `bootstrap@{host}:{port}`
abbrev pub bootstrap_id : String × ℕ → String
bootstrap_id address = "bootstrap@" <> (address.0 <> (":" <> show address.1))

-- `TcpPeer` of a configured address
abbrev pub bootstrap_peer : String × ℕ → TcpPeer
bootstrap_peer address = record {
  node_id = str (bootstrap_id address);
  host = str address.0;
  port = whole (pos address.1);
}

-- `bootstrap_peers` of `main`
abbrev pub bootstrap_peers : Config → List TcpPeer
bootstrap_peers cfg = map bootstrap_peer cfg.bootstrap_peers

-- The loop that gives the bootstrap peers to the client; the client has each peer's worker afterwards.
unfoldable pub add_bootstrap_peers : List TcpPeer → TcpClient → Result TcpClient
add_bootstrap_peers [] c = ok c
add_bootstrap_peers (p ∷ peers) c = elim (Client.add_peer c p) [
  | ok c' ↦ add_bootstrap_peers peers c'
  | raise runtime_error ↦ add_bootstrap_peers peers c
  | raise e ↦ raise e
]

-- The loop that puts them into the peer table; exceptions are logged. `clock i` is the time of round `i`.
unfoldable pub seed_peers : (ℕ → ℕ) → ℕ → List TcpPeer → PeerTable → PeerTable
seed_peers clock i [] t = t
seed_peers clock i (p ∷ peers) t =
    seed_peers clock (suc i) peers
      (elim (Peers.add_peer t (Peers.new p.node_id p.host p.port (clock i))) [
        | raise e ↦ t
        | ok (t', added) ↦ t'
      ])
