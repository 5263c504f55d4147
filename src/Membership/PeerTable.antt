-- ===== src/Membership/PeerTable.antt =====
-- `Peer` of membership/peer.py and `PeerTable` of membership/peer_table.py. An id that arrives in a
-- payload can be any JSON value, so the ids of peers are values and the keys of the table are what
-- they hash to. A float, such as the time of a heartbeat, is its 64-bit pattern.
pub mod Laws
use distributed_sensor_hub.Base.{
  ℕ, String, Bool, true, false, Option, none, some, List, [], if◌then◌else◌,
}
use distributed_sensor_hub.Base.Dict
use distributed_sensor_hub.Base.Dict.{Dict}
use distributed_sensor_hub.Base.Result.{Result, ok, raise, type_error}
use distributed_sensor_hub.Value.{Value, PyInt}
use distributed_sensor_hub.Value.Key.{Key, text, hash, key_eq, is_text}

pub data PeerStatus : Type 0 where
  alive suspected dead : PeerStatus

pub record Peer : Type 0 where
  pub node_id : Value
  pub host : Value
  pub port : PyInt
  pub last_heartbeat : ℕ
  pub phi : ℕ
  pub status : PeerStatus

-- `Peer.new`; the pattern of 0.0 is 0.
abbrev pub new : Value → Value → PyInt → ℕ → Peer
new node_id host port now = record {
  node_id = node_id;
  host = host;
  port = port;
  last_heartbeat = now;
  phi = 0;
  status = alive;
}

pub record PeerTable : Type 0 where
  pub self_node_id : String
  pub peers : Dict Key Peer

-- `__init__`
abbrev pub init : String → PeerTable
init self_node_id = record { self_node_id = self_node_id; peers = [] }

-- `self._peers[peer.node_id] = peer` behind its `in` test
unfoldable pub add_new : PeerTable → Key → Peer → PeerTable × Bool
add_new t k peer =
    if Dict.has k t.peers
    then (t, false)
    else (record t { peers = Dict.insert k peer t.peers }, true)

-- `add_peer`: the `in` test raises on an id that cannot be a key.
unfoldable pub add_peer : PeerTable → Peer → Result (PeerTable × Bool)
unfolding add_new
add_peer t peer =
    if is_text peer.node_id t.self_node_id
    then ok (t, false)
    else elim (hash peer.node_id) [ none ↦ raise type_error | some k ↦ ok (add_new t k peer) ]

-- `get_peer`
unfoldable pub get_peer : PeerTable → String → Option Peer
get_peer t node_id = Dict.lookup (text node_id) t.peers

-- `update_heartbeat`
unfoldable pub update_heartbeat : PeerTable → String → ℕ → PeerTable
update_heartbeat t node_id timestamp = elim (Dict.lookup (text node_id) t.peers) [
  | none ↦ t
  | some peer ↦ record t {
    peers =
        Dict.insert (text node_id) (record peer { last_heartbeat = timestamp; status = alive })
          t.peers;
  }
]

-- `list_peers`
unfoldable pub list_peers : PeerTable → List Peer
list_peers t = Dict.values t.peers
