-- ===== src/State/Publisher/Publishing.antt =====
-- `_publish_once` of state/sensor_update_publisher.py as a whole: what a peer's queue holds afterwards.
use distributed_sensor_hub.Base.{
  ℕ, suc, ◌≡◌, refl, String, some, List, [], ◌∷◌, ◌==◌, string_eq, if◌then◌else◌, Bool-cases, inl,
  inr, arith,
}
use distributed_sensor_hub.Base.Int.{ℤ}
use distributed_sensor_hub.Base.Dict
use distributed_sensor_hub.Base.Dict.{Dict, lookup_head}
use distributed_sensor_hub.Membership.PeerTable.{Peer, PeerTable, list_peers}
use distributed_sensor_hub.Membership.PeerTable.Laws.{IsValid}
use distributed_sensor_hub.Networking.Client.{TcpClient}
use distributed_sensor_hub.Networking.Server.Frames.{Fit}
use distributed_sensor_hub.Protocol.Message.{Codec, encode}
use distributed_sensor_hub.State.Publisher.{
  update_message, send_to_peers, publish_updates, publish_once,
}
use distributed_sensor_hub.State.Publisher.Delivery.{
  Gains, Gains-nil, Gains-append, send_to_peers-Gains,
}
use distributed_sensor_hub.State.Record.{Record}
use distributed_sensor_hub.State.Worker.{Worker, group, pop_replication_updates}
use distributed_sensor_hub.Value.Key.{Key, key_eq}

module _ (codec : Codec) (self_node_id : String) (clock : ℕ → ℤ) where
  -- The payloads of the updates that have this node for their origin, in order.
  unfoldable pub local_payloads : ℕ → Dict String Record → List (List ℕ)
  local_payloads i [] = []
  local_payloads i ((global_sensor_id, r) ∷ updates) =
      let payload = encode codec (update_message self_node_id global_sensor_id r (clock i)) in
      let rest = local_payloads (suc i) updates in
      if r.origin == self_node_id then payload ∷ rest else rest

  pub publish_once-worker :
      (t : PeerTable) (w : Worker) (c : TcpClient)
      → (publish_once codec clock self_node_id t w c).0 ≡ (pop_replication_updates w).0
  unfolding publish_once
  publish_once-worker t w c = ground arith

  publish_updates-Gains :
      (t : PeerTable) (i : ℕ) (updates : Dict String Record) (c : TcpClient) (k : Key) (q : Peer)
      → IsValid t
      → Dict.lookup k t.peers ≡ some q
      → Fit c.settings.max_frame_size (local_payloads i updates)
      → Gains c k q
          (local_payloads i updates)
          (publish_updates codec self_node_id (list_peers t) clock i updates c)
  unfolding publish_updates local_payloads list_peers
  publish_updates-Gains t i [] c k q v there fit = Gains-nil c k q
  publish_updates-Gains t i ((g, r) ∷ updates) c k q v there fit =
      let payload = encode codec (update_message self_node_id g r (clock i)) in
      elim (Bool-cases (r.origin == self_node_id)) [
        | inl own ↦
            let (small, fits) = rw (own, local_payloads) at fit in
            let c' = send_to_peers c (list_peers t) payload in
            let gain = send_to_peers-Gains payload c t.peers k q v.own_id v.keys there small in
            rw (own, local_payloads, publish_updates)
              (Gains-append c c'
                (publish_updates codec self_node_id (list_peers t) clock (suc i) updates c') k q
                (payload ∷ []) (local_payloads (suc i) updates) gain
                (publish_updates-Gains t (suc i) updates c' k q v there (rw gain.0 fits)))
        | inr other ↦
            rw (other, local_payloads, publish_updates)
              (publish_updates-Gains t (suc i) updates c k q v there
                (rw (other, local_payloads) at fit))
      ]

  -- One round of the publisher takes all pending updates from the state worker and changes nothing else of it, and puts the updates of
  -- its own node, each once and in order, at the end of the queue of every peer of the table. A peer
  -- that the client does not know yet gets a worker with them. The table must be valid, the
  -- messages within the size limit, and the state worker that of the same node.
  pub publish_once-Gains :
      (t : PeerTable) (w : Worker) (c : TcpClient) (k : Key) (q : Peer)
      → w.node_id ≡ self_node_id
      → IsValid t
      → Dict.lookup k t.peers ≡ some q
      → Fit c.settings.max_frame_size
          (local_payloads 0 (group self_node_id w.updates_replication []))
      → let (w', c') = publish_once codec clock self_node_id t w c in
        Gains c k q (local_payloads 0 (group self_node_id w.updates_replication [])) c'
        × (w'.updates_replication ≡ [])
        × (w'.state ≡ w.state)
        × (w'.updates_ui ≡ w.updates_ui)
  unfolding publish_once pop_replication_updates
  publish_once-Gains t w c k q same v there fit =
      let updates = group self_node_id w.updates_replication [] in
      rw (same, lookup_head self_node_id updates [], publish_once)
        (publish_updates-Gains t 0 updates c k q v there fit, refl, refl, refl)
