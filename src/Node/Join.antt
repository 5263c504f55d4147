-- ===== src/Node/Join.antt =====
-- A JOIN_REQUEST at a node as node.py wires it: `handle_join_request` of membership/handlers.py with the
-- client's `send_json` and `on_peer_discovered`.
use distributed_sensor_hub.Base.{
  ℕ, ◌≤◌, ◌≡◌, refl, ap, ◌∙◌, true, false, Option, none, some, [], ◌∷◌, if◌then◌else◌,
}
use distributed_sensor_hub.Base.Int.{ℤ}
use distributed_sensor_hub.Base.Dict
use distributed_sensor_hub.Base.Lists.{length}
use distributed_sensor_hub.Base.Result.{Exception}
use distributed_sensor_hub.Membership.Handlers.{
  Outcome, Address, read_address, notify, reply, handle_join_request,
}
use distributed_sensor_hub.Membership.Handlers.Chain.{notify_all}
use distributed_sensor_hub.Membership.Handlers.Laws.{handle_join_request_lem}
use distributed_sensor_hub.Membership.PeerTable.{new, PeerTable}
use distributed_sensor_hub.Membership.PeerTable.Laws.{IsValid}
use distributed_sensor_hub.Networking.Client.{enqueue}
use distributed_sensor_hub.Config.{Config}
use distributed_sensor_hub.Node.{Links, make_join_request, send_message, on_peer_discovered}
use distributed_sensor_hub.Node.Discovery.{
  IsLinked, link_of, Holds, Holds-self, Holds-Holds, send_value-Holds, on_peer_discovered-Holds,
}
use distributed_sensor_hub.Protocol.Message.{Message, Codec, encode}
use distributed_sensor_hub.Value.{str}
use distributed_sensor_hub.Value.Key.{text, hash, key_eq, is_text}

module _ (codec : Codec) (cfg : Config) (now : ℕ) (now_ms : ℤ) where
  -- A JOIN_REQUEST at a node, at the times `now` and `now_ms`.
  unfoldable pub node_join : Message → PeerTable → Links → Outcome Links
  node_join m t s =
      handle_join_request (send_message codec) cfg.node_id
        (some (on_peer_discovered codec cfg now_ms)) m now now_ms t s

  -- A node that joins under its own name and is not in the table yet is added to it, and gets two messages
  -- in this order at the end of its queue: the JOIN_REQUEST of this node and the list of all peers,
  -- itself among them. Its worker is new if the client had none; the other workers stay as they
  -- are, and nothing is raised. Both messages must be within the size limit.
  pub node_join_lem :
      (m : Message) (t : PeerTable) (s : Links) {a : Address}
      → IsValid t
      → t.self_node_id ≡ cfg.node_id
      → read_address m.payload ≡ some a
      → a.node_id ≡ str m.sender_id
      → is_text a.node_id cfg.node_id ≡ false
      → Dict.has (text m.sender_id) t.peers ≡ false
      → IsLinked s
      → length (encode codec (make_join_request cfg now_ms)) ≤ s.client.settings.max_frame_size
      → length (encode codec (reply cfg.node_id (node_join m t s).table now_ms))
        ≤ s.client.settings.max_frame_size
      → let out = node_join m t s in
        let w = link_of s (text m.sender_id) (new a.node_id a.host a.port now) in
        Holds s
          (text m.sender_id)
          (enqueue
            (encode codec (reply cfg.node_id out.table now_ms))
            (enqueue (encode codec (make_join_request cfg now_ms)) w))
          out.world
        × (out.raised ≡ none)
        × (Dict.has (text m.sender_id) out.table.peers ≡ true)
  unfolding node_join notify_all notify hash
  node_join_lem m t s {a} v own read named other fresh linked small fits =
      let k = text m.sender_id in
      let p = new a.node_id a.host a.port now in
      let out = node_join m t s in
      let key : hash a.node_id ≡ some k = ap hash named in
      let (listed, answered, there, valid, keeps) =
        handle_join_request_lem (send_message codec) cfg.node_id
          (some (on_peer_discovered codec cfg now_ms)) m now now_ms t s k v own read other key in
      let (s', found, held) = on_peer_discovered-Holds codec cfg now_ms p k s key linked small in
      let join = encode codec (make_join_request cfg now_ms) in
      let w = enqueue join (link_of s k p) in
      let answer = reply cfg.node_id out.table now_ms in
      let (s'', sent, holds) =
        send_value-Holds codec (str m.sender_id) answer k s' w refl held.linked (Holds-self held)
          (rw held.settings fits) in
      let told : notify_all (some (on_peer_discovered codec cfg now_ms))
            (if Dict.has k t.peers then [] else p ∷ []) s
          ≡ s' =
        rw fresh (ap (λ x. x.0) found) in
      let ends : ◌≡◌ {A = Links × Option Exception} (out.world, out.raised) (s'', none) =
        answered ∙ ap (send_message codec m.sender_id answer) told ∙ sent in
      (
        rw (ap (λ x. x.0) ends)
            (Holds-Holds s s' s'' k w (enqueue (encode codec answer) w) held holds),
        ap (λ x. x.1) ends,
        there,
      )
