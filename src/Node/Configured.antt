-- ===== src/Node/Configured.antt =====
-- The bootstrap peers of a configuration (utils/config.py) at the start of node.py.
use mathlib.Core.List.{Memᴰ}
use mathlib.Core.List.Memᴰ
use distributed_sensor_hub.Base.{ℕ, ◌≤◌, ◌≡◌, refl, String, some, List, [], ◌∷◌, map}
use distributed_sensor_hub.Base.Int.{ℤ}
use distributed_sensor_hub.Base.Lists.{length}
use distributed_sensor_hub.Base.Result.{ok}
use distributed_sensor_hub.Config.{Config}
use distributed_sensor_hub.Networking.Client.{TcpClient}
use distributed_sensor_hub.Node.{
  send_value, make_join_request, bootstrap_id, bootstrap_peer, bootstrap_peers, add_bootstrap_peers,
  bootstrap,
}
use distributed_sensor_hub.Node.Bootstrap.{Queued, Keyed, bootstrap_lem}
use distributed_sensor_hub.Protocol.Message.{Codec, encode}
use distributed_sensor_hub.Value.{str}
use distributed_sensor_hub.Value.Key.{hash, text}

hash-text : (s : String) → hash (str s) ≡ some (text s)
unfolding hash
hash-text s = refl

configured-Keyed : (addresses : List (String × ℕ)) → Keyed (map bootstrap_peer addresses)
configured-Keyed [] = tt
configured-Keyed (address ∷ more) =
    ((text (bootstrap_id address), hash-text (bootstrap_id address)), configured-Keyed more)

-- At the start every address that the configuration names is given to the client under its
-- `bootstrap@host:port` id, which raises nothing, and a JOIN_REQUEST with the node's own address stands in
-- the queue for that id. The message must be within the size limit.
pub configured_peers_lem :
    (codec : Codec) (cfg : Config) (now : ℤ) (c : TcpClient) (address : String × ℕ)
    → length (encode codec (make_join_request cfg now)) ≤ c.settings.max_frame_size
    → Memᴰ address cfg.bootstrap_peers
    → let join = make_join_request cfg now in
      (c' : TcpClient) × (add_bootstrap_peers (bootstrap_peers cfg) c ≡ ok c')
      × Queued (encode codec join) (text (bootstrap_id address)) (
          bootstrap
            (send_value codec)
            join
            (bootstrap_peers cfg)
            (record { client = c'; known = [] }))
configured_peers_lem codec cfg now c address small m =
    bootstrap_lem codec (make_join_request cfg now) (bootstrap_peers cfg) c (bootstrap_peer address)
      (text (bootstrap_id address)) (configured-Keyed cfg.bootstrap_peers) small
      (Memᴰ.map bootstrap_peer m) (hash-text (bootstrap_id address))
