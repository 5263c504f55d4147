-- ===== src/Node/Discovery.antt =====
-- `_ensure_client_peer` and `on_peer_discovered` of node.py: what they do to the client.
use distributed_sensor_hub.Base.{
  ◌≤◌, ◌≡◌, refl, ◌∙◌, true, none, some, arith, ◌==◌, if◌then◌else◌, Option-cases, Bool-cases, inl,
  inr,
}
use distributed_sensor_hub.Base.Int.{ℤ}
use distributed_sensor_hub.Base.Dict
use distributed_sensor_hub.Base.Dict.{lookup-insert}
use distributed_sensor_hub.Base.Lists.{length}
use distributed_sensor_hub.Base.Result.{ok}
use distributed_sensor_hub.Membership.PeerTable.{Peer}
use distributed_sensor_hub.Networking.Client as Client
use distributed_sensor_hub.Networking.Client.{
  TcpClient, PeerWorker, new_worker, enqueue, send_json, key_of, add_worker,
}
use distributed_sensor_hub.Config.{Config}
use distributed_sensor_hub.Node.{
  Links, make_join_request, reachable, connect, ensure_client_peer, send_value, on_peer_discovered,
}
use distributed_sensor_hub.Protocol.Message.{Message, Codec, encode}
use distributed_sensor_hub.State.Publisher.Delivery.{send_json-some}
use distributed_sensor_hub.Value.{Value}
use distributed_sensor_hub.Value.Key.{Key, hash, key_eq}

-- Every peer that counts as known has its worker in the client.
abbrev pub IsLinked : Links → Type 0
IsLinked s = (k : Key) → Dict.has k s.known ≡ true → Dict.has k s.client.workers ≡ true

-- The worker of a peer: the one that the client has, or a new one for its reachable address.
abbrev pub link_of : Links → Key → Peer → PeerWorker
link_of s k p = elim (Dict.lookup k s.client.workers) [
  | none ↦ new_worker s.client.settings (reachable p)
  | some w ↦ w
]

-- The peer with the key `k` has the worker `w`, the other peers have theirs unchanged, and the known peers
-- are linked.
pub record Holds (s : Links) (k : Key) (w : PeerWorker) (s' : Links) : Type 0 where
  pub settings : s'.client.settings ≡ s.client.settings
  pub workers :
      (j : Key)
      → Dict.lookup j s'.client.workers
        ≡ (if j == k then some w else Dict.lookup j s.client.workers)
  pub linked : IsLinked s'

connect-Holds :
    (p : Peer) (k : Key) (s : Links)
    → hash p.node_id ≡ some k
    → IsLinked s
    → (s' : Links) × (connect p k s ≡ ok s') × Holds s k (link_of s k p) s'
unfolding connect Client.add_peer key_of add_worker
connect-Holds p k s key linked = elim (Option-cases (Dict.lookup k s.client.workers)) [
  | inl e ↦
      let w = new_worker s.client.settings (reachable p) in
      (
        record {
          client = record s.client { workers = Dict.insert k w s.client.workers };
          known = Dict.insert k tt s.known;
        },
        ground arith,
        record {
          settings = refl;
          workers = λ j. ground (arith, lookup-insert j k w s.client.workers);
          linked = λ j h.
              ground (
                arith,
                lookup-insert j k w s.client.workers,
                lookup-insert j k tt s.known,
                linked j,
              );
        },
      )
  | inr (w, e) ↦ (
    record s { known = Dict.insert k tt s.known },
    ground arith,
    record {
      settings = refl;
      workers = λ j. ground arith;
      linked = λ j h. ground (arith, lookup-insert j k tt s.known, linked j);
    },
  )
]

ensure_client_peer-Holds :
    (p : Peer) (k : Key) (s : Links)
    → hash p.node_id ≡ some k
    → IsLinked s
    → (s' : Links) × (ensure_client_peer p s ≡ ok s') × Holds s k (link_of s k p) s'
unfolding ensure_client_peer key_of
ensure_client_peer-Holds p k s key linked = elim (Bool-cases (Dict.has k s.known)) [
  | inl known ↦ (
    s,
    ground arith,
    record { settings = refl; workers = λ j. ground (arith, linked k known); linked = linked },
  )
  | inr unknown ↦
      let (s', done, holds) = connect-Holds p k s key linked in
      (s', rw (key, ensure_client_peer, key_of) (rw (unknown) done), holds)
]

pub send_value-Holds :
    (codec : Codec) (id : Value) (m : Message) (k : Key) (s : Links) (w : PeerWorker)
    → hash id ≡ some k
    → IsLinked s
    → Dict.lookup k s.client.workers ≡ some w
    → length (encode codec m) ≤ s.client.settings.max_frame_size
    → (s' : Links) × (send_value codec id m s ≡ (s', none))
      × Holds s k (enqueue (encode codec m) w) s'
unfolding send_value
send_value-Holds codec id m k s w key linked there small =
    let payload = encode codec m in
    (
      record s {
        client = record s.client { workers = Dict.insert k (enqueue payload w) s.client.workers };
      },
      rw (send_json-some s.client id k w payload key there small, send_value),
      record {
        settings = refl;
        workers = λ j. ground (arith, lookup-insert j k (enqueue payload w) s.client.workers);
        linked =
            λ j h. ground (arith, lookup-insert j k (enqueue payload w) s.client.workers, linked j);
      },
    )

pub Holds-Holds :
    (s s' s'' : Links) (k : Key) (v w : PeerWorker)
    → Holds s k v s'
    → Holds s' k w s''
    → Holds s k w s''
Holds-Holds s s' s'' k v w g h = record {
  settings = h.settings ∙ g.settings;
  workers = λ j. ground (arith, h.workers j, g.workers j);
  linked = h.linked;
}

pub Holds-self :
    {s s' : Links} {k : Key} {w : PeerWorker}
    → Holds s k w s'
    → Dict.lookup k s'.client.workers ≡ some w
Holds-self {k} h = ground (arith, h.workers k)

-- When membership reports a peer whose id can be a key, the node's JOIN_REQUEST stands last in the queue of
-- that peer's worker, which is new if the client had none; the other workers stay as they are, and
-- nothing is raised.
pub on_peer_discovered-Holds :
    (codec : Codec) (cfg : Config) (now : ℤ) (p : Peer) (k : Key) (s : Links)
    → hash p.node_id ≡ some k
    → IsLinked s
    → length (encode codec (make_join_request cfg now)) ≤ s.client.settings.max_frame_size
    → (s' : Links) × (on_peer_discovered codec cfg now p s ≡ (s', none))
      × Holds s k (enqueue (encode codec (make_join_request cfg now)) (link_of s k p)) s'
unfolding on_peer_discovered
on_peer_discovered-Holds codec cfg now p k s key linked small =
    let join = make_join_request cfg now in
    let (s', done, held) = ensure_client_peer-Holds p k s key linked in
    let (s'', sent, holds) =
      send_value-Holds codec p.node_id join k s' (link_of s k p) key held.linked (Holds-self held)
        (rw held.settings small) in
    (
      s'',
      rw (done, sent, on_peer_discovered),
      Holds-Holds s s' s'' k (link_of s k p) (enqueue (encode codec join) (link_of s k p)) held
          holds,
    )
