-- ===== src/Protocol/Setup.antt =====
-- protocol/setup.py: the dispatcher of a node with all its handlers.
use distributed_sensor_hub.Base.{
  ℕ, ◌≡◌, refl, String, Bool, Option, none, some, [], ◌∷◌, string_eq, if◌then◌else◌,
}
use distributed_sensor_hub.Base.Int.{ℤ}
use distributed_sensor_hub.Base.Dict
use distributed_sensor_hub.Base.Result.{Exception, Result, ok, ◌>>=◌}
use distributed_sensor_hub.Membership.Handlers.{
  Effect, Outcome, handle_join_request, handle_peer_list,
}
use distributed_sensor_hub.Membership.PeerTable.{Peer, PeerTable}
use distributed_sensor_hub.Protocol.Dispatcher.{
  Handler, Dispatcher, register, dispatch, message_type_eq,
}
use distributed_sensor_hub.Protocol.Handlers.{handle_sensor_update, not_implemented}
use distributed_sensor_hub.Protocol.Message.{
  MessageType, type_name, join_request, peer_list, ping, pong, sensor_update, gossip_state,
  full_sync_request, full_sync_response, error, ack, Message,
}
use distributed_sensor_hub.State.Worker.{Worker}

-- What the handlers share: the peer table, the state worker and the rest of the node.
pub record Node (S : Type 0) : Type 0 where
  pub table : PeerTable
  pub worker : Worker
  pub world : S

-- The times that handlers read, as the rest of the node has them: `time.time()`, the same in
-- milliseconds, and that of each round over a PEER_LIST.
pub record Clock (S : Type 0) : Type 0 where
  pub now : S → ℕ
  pub now_ms : S → ℤ
  pub rounds : S → ℕ → ℕ

abbrev put_outcome : {S : Type 0} → Node S → Outcome S → Node S × Option Exception
put_outcome n out = (record n { table = out.table; world = out.world }, out.raised)

module _ {S : Type 0} (clock : Clock S) (send : String → Message → Effect S) (self_node_id : String)
    (discovered : Option (Peer → Effect S)) where
  unfoldable pub join_handler : Handler (Node S)
  join_handler m n = put_outcome n (
      handle_join_request send self_node_id discovered m (clock.now n.world) (clock.now_ms n.world)
        n.table n.world)

  unfoldable pub peer_list_handler : Handler (Node S)
  peer_list_handler m n =
      put_outcome n
        (handle_peer_list send self_node_id discovered m (clock.rounds n.world) n.table n.world)

  -- The handler of SENSOR_UPDATE: without a worker it logs a warning.
  unfoldable pub sensor_update_handler : Bool → Handler (Node S)
  sensor_update_handler with_worker m n =
      if with_worker
      then (record n { worker = handle_sensor_update n.worker m }, none)
      else (n, none)

  -- `setup_protocol`: `with_worker` says that a state worker was given.
  unfoldable pub setup_protocol : Bool → Result (Dispatcher (Node S))
  unfolding join_handler peer_list_handler sensor_update_handler
  setup_protocol with_worker = do
    d ← register join_request join_handler []
    d ← register peer_list peer_list_handler d
    d ← register ping not_implemented d
    d ← register pong not_implemented d
    d ← register sensor_update (sensor_update_handler with_worker) d
    d ← register gossip_state not_implemented d
    d ← register full_sync_request not_implemented d
    d ← register full_sync_response not_implemented d
    d ← register error not_implemented d
    register ack not_implemented d

  -- The handler that each type is meant to have.
  unfoldable pub intended : Bool → MessageType → Handler (Node S)
  intended with_worker join_request = join_handler
  intended with_worker peer_list = peer_list_handler
  intended with_worker sensor_update = sensor_update_handler with_worker
  intended with_worker _ = not_implemented

  -- The table after all registrations.
  abbrev pub registered : Bool → Dispatcher (Node S)
  registered with_worker =
      (join_request, join_handler)
      ∷ (peer_list, peer_list_handler)
      ∷ (ping, not_implemented)
      ∷ (pong, not_implemented)
      ∷ (sensor_update, sensor_update_handler with_worker)
      ∷ (gossip_state, not_implemented)
      ∷ (full_sync_request, not_implemented)
      ∷ (full_sync_response, not_implemented)
      ∷ (error, not_implemented)
      ∷ (ack, not_implemented)
      ∷ []

  pub setup_protocol-registered :
      (with_worker : Bool) → setup_protocol with_worker ≡ ok (registered with_worker)
  unfolding setup_protocol register message_type_eq string_eq type_name Dict.lookup Dict.insert
  setup_protocol-registered with_worker = refl

  lookup-registered :
      (with_worker : Bool) (t : MessageType)
      → Dict.lookup t (registered with_worker) ≡ some (intended with_worker t)
  unfolding message_type_eq string_eq type_name Dict.lookup intended
  lookup-registered with_worker join_request = refl
  lookup-registered with_worker peer_list = refl
  lookup-registered with_worker ping = refl
  lookup-registered with_worker pong = refl
  lookup-registered with_worker sensor_update = refl
  lookup-registered with_worker gossip_state = refl
  lookup-registered with_worker full_sync_request = refl
  lookup-registered with_worker full_sync_response = refl
  lookup-registered with_worker error = refl
  lookup-registered with_worker ack = refl

  -- The set-up registers no type twice, so it does not raise; and after it a message of any of the ten
  -- types goes to the handler that is meant for it.
  pub setup_protocol_lem :
      (with_worker : Bool)
      → (d : Dispatcher (Node S)) × (setup_protocol with_worker ≡ ok d)
        × ((m : Message) (n : Node S) → dispatch d m n ≡ intended with_worker m.msg_type m n)
  unfolding dispatch
  setup_protocol_lem with_worker = (
    registered with_worker,
    setup_protocol-registered with_worker,
    λ m n. rw (lookup-registered with_worker m.msg_type, dispatch),
  )
