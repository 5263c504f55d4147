-- ===== src/Membership/Handlers.antt =====
-- `make_membership_handlers` of membership/handlers.py. What `send` and `on_peer_discovered` do to the
-- rest of the node is up to the caller: they act on a state of a type `S`, and may raise.
pub mod Chain
pub mod Laws
pub mod Gossip
use distributed_sensor_hub.Base.{
  ℕ, suc, String, Bool, true, false, not, ◌||◌, Option, none, some, List, [], ◌∷◌, if◌then◌else◌,
}
use distributed_sensor_hub.Base.Int.{ℤ}
use distributed_sensor_hub.Base.Result.{Exception, attribute_error, Result, ok, raise}
use distributed_sensor_hub.Membership.PeerTable.{Peer, new, PeerTable, add_peer, list_peers}
use distributed_sensor_hub.Protocol.Message.{Message, new_message, peer_list}
use distributed_sensor_hub.Value.{
  Value, arr, obj, Items, nil, cons, Fields, end, field, PyInt, of_int, as_int, get, truthy,
}
use distributed_sensor_hub.Value.Key.{is_text}

-- An effect on the rest of the node: the state after it, and the exception if it raised one.
abbrev pub Effect : Type 0 → Type 0
Effect S = S → S × Option Exception

-- What a handler leaves.
pub record Outcome (S : Type 0) : Type 0 where
  pub table : PeerTable
  pub world : S
  pub raised : Option Exception

-- `{"node_id": …, "host": …, "port": …}` of a peer
unfoldable pub peer_entry : Peer → Fields
peer_entry p = field "node_id" p.node_id (field "host" p.host (field "port" (of_int p.port) end))

-- The list of the reply to a JOIN_REQUEST.
unfoldable pub peers_payload : List Peer → Items
peers_payload [] = nil
peers_payload (p ∷ ps) = cons (obj (peer_entry p)) (peers_payload ps)

-- `_notify_discovered`: an exception of the callback is logged and dropped.
unfoldable pub notify : {S : Type 0} → Option (Peer → Effect S) → Peer → S → S
notify none p s = s
notify (some discovered) p s = (discovered p s).0

-- The test of the three fields that both handlers make; `none` is a field that is missing or wrong.
pub record Address : Type 0 where
  pub node_id : Value
  pub host : Value
  pub port : PyInt

unfoldable pub read_address : Fields → Option Address
read_address fs =
    if not (truthy (get "node_id" fs)) || not (truthy (get "host" fs))
    then none
    else elim (as_int (get "port" fs)) [
      | none ↦ none
      | some port ↦ some (record { node_id = get "node_id" fs; host = get "host" fs; port = port })
    ]

-- The reply to a JOIN_REQUEST, with every peer of the table.
unfoldable pub reply : String → PeerTable → ℤ → Message
reply self_node_id t now_ms =
    new_message peer_list self_node_id (field "peers" (arr (peers_payload (list_peers t))) end)
      now_ms

module _ {S : Type 0} (send : String → Message → Effect S) (self_node_id : String)
    (discovered : Option (Peer → Effect S)) where
  -- `handle_join_request` after its tests, on the answer of `add_peer`.
  unfoldable pub finish_join : Message → Peer → ℤ → PeerTable → S → Bool → Outcome S
  finish_join msg peer now_ms t s added =
      let s' = if added then notify discovered peer s else s in
      let (s'', raised) = send msg.sender_id (reply self_node_id t now_ms) s' in
      record { table = t; world = s''; raised = raised }

  -- `handle_join_request`, at the time `now` (as a float) and `now_ms`.
  unfoldable pub handle_join_request : Message → ℕ → ℤ → PeerTable → S → Outcome S
  unfolding finish_join
  handle_join_request msg now now_ms t s = elim (read_address msg.payload) [
    | none ↦ record { table = t; world = s; raised = none }
    | some a ↦
        if is_text a.node_id self_node_id
        then record { table = t; world = s; raised = none }
        else elim (add_peer t (new a.node_id a.host a.port now)) [
          | raise e ↦ record { table = t; world = s; raised = some e }
          | ok (t', added) ↦ finish_join msg (new a.node_id a.host a.port now) now_ms t' s added
        ]
  ]

  -- One entry of a PEER_LIST that is a dict.
  unfoldable pub integrate_entry : Fields → ℕ → PeerTable → S → Result (PeerTable × S)
  integrate_entry fs now t s = elim (read_address fs) [
    | none ↦ ok (t, s)
    | some a ↦
        if is_text a.node_id self_node_id
        then ok (t, s)
        else elim (add_peer t (new a.node_id a.host a.port now)) [
          | raise e ↦ raise e
          | ok (t', added) ↦
              ok (t', if added then notify discovered (new a.node_id a.host a.port now) s else s)
        ]
  ]

  -- The loop of `handle_peer_list`; `clock i` is the time that its round `i` reads. An entry that is
  -- no dict has no `get`.
  unfoldable pub integrate : (ℕ → ℕ) → ℕ → Items → PeerTable → S → Outcome S
  integrate clock i nil t s = record { table = t; world = s; raised = none }
  integrate clock i (cons (obj fs) rest) t s = elim (integrate_entry fs (clock i) t s) [
    | raise e ↦ record { table = t; world = s; raised = some e }
    | ok (t', s') ↦ integrate clock (suc i) rest t' s'
  ]
  integrate clock i (cons _ rest) t s = record {
    table = t;
    world = s;
    raised = some attribute_error;
  }

  -- `handle_peer_list`
  unfoldable pub handle_peer_list : Message → (ℕ → ℕ) → PeerTable → S → Outcome S
  handle_peer_list msg clock t s = elim (get "peers" msg.payload) [
    | arr items ↦ integrate clock 0 items t s
    | _ ↦ record { table = t; world = s; raised = none }
  ]
