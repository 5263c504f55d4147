-- ===== src/Replication/Hop.antt =====
-- One turn of `_publish_once` (state/sensor_update_publisher.py) all the way to the state of a peer: through
-- the queue of tcp_client.py, the connection, the loop of tcp_server.py, the dispatcher of the peer
-- and the SENSOR_UPDATE handler of protocol/handlers.py.
use mathlib.Core.List.Memᴰ
use mathlib.Core.List.{Memᴰ}
use mathlib.Core.Path.{subst}
use distributed_sensor_hub.Base.{
  ℕ, ◌<◌, ◌^◌, ◌≡◌, refl, sym, ap, ◌∙◌, inl, inr, String, true, Option, none, some, List, [], ◌∷◌,
  ◌++◌, map, arith, ◌==◌, string_eq, if◌then◌else◌, Option-cases,
}
use distributed_sensor_hub.Base.Int.{ℤ}
use distributed_sensor_hub.Base.Dict
use distributed_sensor_hub.Base.Lists.{length}
use distributed_sensor_hub.Base.Result.{ok}
use distributed_sensor_hub.Base.Text.{Free}
use distributed_sensor_hub.Membership.Handlers.{Effect}
use distributed_sensor_hub.Membership.PeerTable.{Peer, PeerTable}
use distributed_sensor_hub.Membership.PeerTable.Laws as PeerTable
use distributed_sensor_hub.Networking.Client.{TcpClient, drain}
use distributed_sensor_hub.Networking.Client.Delivery.{Fit-suffix}
use distributed_sensor_hub.Networking.Link.{
  receive_frame, encode_all, encode_all-append, AllRead, dispatch_all, dispatch_all-append,
  connection_loop-drain,
}
use distributed_sensor_hub.Networking.Server.{Arrival, connection_loop}
use distributed_sensor_hub.Networking.Server.Frames.{Fit}
use distributed_sensor_hub.Networking.Server.Recv.{content, Flows}
use distributed_sensor_hub.Protocol.Dispatcher.{Dispatcher, dispatch}
use distributed_sensor_hub.Protocol.Handlers.{sensor_update_args, handle_sensor_update_lem}
use distributed_sensor_hub.Protocol.Message.{Message, Codec, sensor_update}
use distributed_sensor_hub.Protocol.Setup.{
  Node, Clock, setup_protocol, intended, sensor_update_handler, setup_protocol_lem,
}
use distributed_sensor_hub.Replication.Messages.{
  local_payloads-encode_all, round_messages, round_messages_complete, round_messages_sound,
}
use distributed_sensor_hub.State.Convergence.{deliver, receive_all, lookup-deliver, Writes}
use distributed_sensor_hub.State.Invariant.{IsValid}
use distributed_sensor_hub.State.Lww.{register}
use distributed_sensor_hub.State.Publisher.{publish_once}
use distributed_sensor_hub.State.Publisher.Delivery.{worker_of}
use distributed_sensor_hub.State.Publisher.Publishing.{local_payloads, publish_once-Gains}
use distributed_sensor_hub.State.Record.{Record}
use distributed_sensor_hub.State.Single.{receive_all-stays, receive_all-one}
use distributed_sensor_hub.State.Snapshot.{ColonFreeOrigins}
use distributed_sensor_hub.State.Worker.{Worker, Update, check_update, merge_update, group}
use distributed_sensor_hub.Value.Key.{Key, key_eq}

-- What the pending entry of a sensor at the node `self` makes of the same sensor's register at a peer:
-- the register takes the record, if the node itself has written it.
unfoldable pub take_pending : String → Option Record → Option Record → Option Record
take_pending self none old = old
take_pending self (some r) old = if r.origin == self then register old r else old

module _ (tick : ℕ → ℤ) (w : Worker) (v : IsValid w) (free : Free b':' w.node_id)
    (colon_free : ColonFreeOrigins w.updates_replication) where
  abbrev calls : List Update
  calls = map sensor_update_args (round_messages tick w)

  written :
      (j : String) (r : Record)
      → Writes calls j r
      → (Dict.lookup j w.updates_replication ≡ some r) × (r.origin ≡ w.node_id)
  written j r (u, m, valid) =
      let (x, there, e) = Memᴰ.of_map sensor_update_args (round_messages tick w) m in
      let (k, s, carries, pending, own, _, _) =
        round_messages_sound tick w v free colon_free there in
      let same : ◌≡◌ {A = Option (String × Record)} (some (k, s)) (some (j, r)) =
        sym carries ∙ ap check_update e ∙ valid in
      (cc, cc)

  receive_calls :
      (j : String) (old : Option Record)
      → receive_all j old calls ≡ take_pending w.node_id (Dict.lookup j w.updates_replication) old
  unfolding take_pending
  receive_calls j old = elim (Option-cases (Dict.lookup j w.updates_replication)) [
    | inl absent ↦
        receive_all-stays j old calls (λ s x. absurd (ground (arith, written j s x)))
        ∙ ap (λ o. take_pending w.node_id o old) (sym absent)
    | inr (r, pending) ↦ elim (string_eq.dec r.origin w.node_id) [
      | yes own ↦
          let (m, there, carries) =
            round_messages_complete tick w v free colon_free j r pending own in
          receive_all-one j r old calls (λ s x. ground (arith, written j s x))
            (sensor_update_args m, Memᴰ.map sensor_update_args there, carries)
          ∙ ground arith
      | no other ↦
          receive_all-stays j old calls (λ s x. absurd (ground (arith, written j s x)))
          ∙ ground arith
    ]
  ]

module _ {S : Type 0} (clock : Clock S) (send : String → Message → Effect S) (id : String)
    (discovered : Option (Peer → Effect S)) (d : Dispatcher (Node S))
    (up : setup_protocol clock send id discovered true ≡ ok d) where
  dispatch-sensor_update :
      (m : Message) (n : Node S)
      → m.msg_type ≡ sensor_update
      → (dispatch d m n).0.worker ≡ (merge_update n.worker (sensor_update_args m)).0
  unfolding intended sensor_update_handler
  dispatch-sensor_update m n is_update =
      let (e, made, routes) = setup_protocol_lem clock send id discovered true in
      let same : d ≡ e = cc in
      ap (λ x. (dispatch x m n).0.worker) same
      ∙ ap (λ x. x.0.worker) (routes m n)
      ∙ ap (λ t. (intended clock send id discovered true t m n).0.worker) is_update
      ∙ handle_sensor_update_lem n.worker m

  dispatch_all-deliver :
      (ms : List Message) (n : Node S)
      → ((m : Message) → Memᴰ m ms → m.msg_type ≡ sensor_update)
      → (dispatch_all d ms n).worker ≡ deliver n.worker (map sensor_update_args ms)
  unfolding dispatch_all deliver
  dispatch_all-deliver [] n h = refl
  dispatch_all-deliver (m ∷ ms) n h =
      dispatch_all-deliver ms (dispatch d m n).0 (λ x p. h x (Memᴰ.tail p))
      ∙ ap (λ w. deliver w (map sensor_update_args ms))
          (dispatch-sensor_update m n (h m (Memᴰ.head refl)))

  dispatch_all-round_messages :
      (tick : ℕ → ℤ) (w : Worker)
      → IsValid w
      → Free b':' w.node_id
      → ColonFreeOrigins w.updates_replication
      → (j : String) (n : Node S)
      → Dict.lookup j (dispatch_all d (round_messages tick w) n).worker.state
        ≡ take_pending w.node_id
            (Dict.lookup j w.updates_replication)
            (Dict.lookup j n.worker.state)
  dispatch_all-round_messages tick w v free colon_free j n =
      ap (λ x. Dict.lookup j x.state)
        (dispatch_all-deliver (round_messages tick w) n (λ m there.
          let (k, r, carries, pending, own, type, _) =
            round_messages_sound tick w v free colon_free there in
          type))
      ∙ lookup-deliver j n.worker (calls tick w v free colon_free)
      ∙ receive_calls tick w v free colon_free j (Dict.lookup j n.worker.state)

-- The messages that a peer's queue holds after a round, if it held `before`.
abbrev pub queued : (ℕ → ℤ) → Worker → List Message → List Message
queued tick w before = before ++ round_messages tick w

module _ {S : Type 0} (codec : Codec) (time : Node S → ℤ) (clock : Clock S)
    (send : String → Message → Effect S) (id : String) (discovered : Option (Peer → Effect S)) where
  -- From state to state: what one round of the publisher of one node does to the state of a peer. After
  -- the peer's thread has written its queue and the peer's server has read the bytes, in any
  -- segments and with any timeouts, each sensor that has a pending record of the first node's own at
  -- the time of the round has the later of that record and the one that the peer held, by timestamp
  -- and then by origin, and every other sensor is as it was; the peer's own state
  -- counts after the messages that were queued before. The first node's state must be valid, its id and
  -- the origins of its pending records have no colon, the peer stand in its valid table, the
  -- messages be within both size limits, that of the server below 2 ^ 32, JSON read back what it wrote,
  -- every send succeed, and the fuel exceed the number of messages.
  pub connection_loop-publish_once :
      (d : Dispatcher (Node S)) (n : Node S) (tick : ℕ → ℤ) (w : Worker) (t : PeerTable)
      (c : TcpClient) (k : Key) (q : Peer) (before : List Message) (server_max fuel : ℕ)
      (arrivals : List Arrival)
      → setup_protocol clock send id discovered true ≡ ok d
      → IsValid w
      → Free b':' w.node_id
      → ColonFreeOrigins w.updates_replication
      → PeerTable.IsValid t
      → Dict.lookup k t.peers ≡ some q
      → (worker_of c k q).queue ≡ encode_all codec before
      → Fit c.settings.max_frame_size (encode_all codec (queued tick w before))
      → Fit server_max (encode_all codec (queued tick w before))
      → AllRead codec (queued tick w before)
      → server_max < 2 ^ 32
      → Flows arrivals
      → content arrivals
        ≡ (drain c.settings.max_frame_size
            (worker_of (publish_once codec tick w.node_id t w c).1 k q).queue
            []
            []).1
      → length (encode_all codec (queued tick w before)) < fuel
      → (s : Node S) × (connection_loop server_max (receive_frame codec time d) fuel arrivals n
          ≡ some s)
        × ((j : String)
            → Dict.lookup j s.worker.state
              ≡ take_pending w.node_id
                  (Dict.lookup j w.updates_replication)
                  (Dict.lookup j (dispatch_all d before n).worker.state))
  unfolding round_messages
  connection_loop-publish_once d n tick w t c k q before server_max fuel arrivals up v free
        colon_free table there held sent fits reads small flows e enough =
      let per_node = group w.node_id w.updates_replication [] in
      let payloads = local_payloads codec w.node_id tick 0 per_node in
      let both =
        encode_all-append codec before (round_messages tick w)
        ∙ ap (encode_all codec before ++◌)
            (sym (local_payloads-encode_all w.node_id tick codec 0 per_node)) in
      let fit =
        Fit-suffix c.settings.max_frame_size (encode_all codec before) payloads
          (subst (Fit c.settings.max_frame_size) both sent) in
      let (gains, _, _, _) =
        publish_once-Gains codec w.node_id tick t w c k q refl table there fit in
      let queue = ap (λ x. x.queue) gains.1 ∙ ap (λ y. y ++ payloads) held ∙ sym both in
      (
        dispatch_all d (queued tick w before) n,
        connection_loop-drain codec time d c.settings.max_frame_size server_max
            (queued tick w before) fuel arrivals n small sent fits reads flows
            (e ∙ ap (λ y. (drain c.settings.max_frame_size y [] []).1) queue) enough,
        λ j.
            ap (λ s. Dict.lookup j s.worker.state)
              (dispatch_all-append d before (round_messages tick w) n)
            ∙ dispatch_all-round_messages clock send id discovered d up tick w v free colon_free j
                (dispatch_all d before n),
      )
