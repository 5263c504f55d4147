-- ===== src/State/Publisher/Delivery.antt =====
-- What `_publish_once` of state/sensor_update_publisher.py queues: every update of the node itself, for
-- every peer.
use mathlib.Core.List.{append-nil, append_assoc}
use distributed_sensor_hub.Base.{
  ℕ, ◌≤◌, ◌≡◌, ◌≢◌, refl, sym, ap, ◌∙◌, none, some, List, [], ◌∷◌, ◌++◌, arith, ◌==◌, string_eq,
  if◌then◌else◌, Option-cases, inl, inr,
}
use distributed_sensor_hub.Base.Dict
use distributed_sensor_hub.Base.Dict.{
  Dict, NodupKeys, lookup-nil, lookup-insert, lookup-insert_self, lookup_cases, lookup_absent,
  lookup_head, lookup_tail,
}
use distributed_sensor_hub.Base.Lists.{length}
use distributed_sensor_hub.Base.Result.{ok, raise, key_error}
use distributed_sensor_hub.Membership.PeerTable.{Peer}
use distributed_sensor_hub.Networking.Client as Client
use distributed_sensor_hub.Networking.Client.{
  TcpClient, PeerWorker, new_worker, enqueue, send_json, enqueue_for, get_worker, key_of,
  add_worker,
}
use distributed_sensor_hub.State.Publisher.{tcp_peer, add_and_send, send_to_peer, send_to_peers}
use distributed_sensor_hub.Value.{Value}
use distributed_sensor_hub.Value.Key.{Key, hash, key_eq}

-- The worker of a peer: the one that the client has, or a new one.
abbrev pub worker_of : TcpClient → Key → Peer → PeerWorker
worker_of c k p = elim (Dict.lookup k c.workers) [
  | none ↦ new_worker c.settings (tcp_peer p)
  | some w ↦ w
]

pub send_json-some :
    (c : TcpClient) (id : Value) (k : Key) (w : PeerWorker) (payload : List ℕ)
    → hash id ≡ some k
    → Dict.lookup k c.workers ≡ some w
    → length payload ≤ c.settings.max_frame_size
    → send_json c id payload
      ≡ ok (record c { workers = Dict.insert k (enqueue payload w) c.workers })
unfolding send_json key_of get_worker enqueue_for
send_json-some c id k w payload key known small = ground arith

send_json-none :
    (c : TcpClient) (id : Value) (k : Key) (payload : List ℕ)
    → hash id ≡ some k
    → Dict.lookup k c.workers ≡ none
    → send_json c id payload ≡ raise key_error
unfolding send_json key_of get_worker
send_json-none c id k payload key unknown = ground arith

add_peer-none :
    (c : TcpClient) (p : Peer) (k : Key)
    → hash p.node_id ≡ some k
    → Dict.lookup k c.workers ≡ none
    → Client.add_peer c (tcp_peer p)
      ≡ ok (record c { workers = Dict.insert k (new_worker c.settings (tcp_peer p)) c.workers })
unfolding Client.add_peer key_of add_worker
add_peer-none c p k key unknown = ground arith

-- The client after the payload was put into the queue of the peer's worker.
abbrev Sent : TcpClient → Peer → Key → List ℕ → TcpClient → Type 0
Sent c p k payload c' =
    (c'.settings ≡ c.settings)
    × ((j : Key)
        → Dict.lookup j c'.workers
          ≡ (if j == k then some (enqueue payload (worker_of c k p)) else Dict.lookup j c.workers))

add_and_send-Sent :
    (c : TcpClient) (p : Peer) (k : Key) (payload : List ℕ)
    → hash p.node_id ≡ some k
    → Dict.lookup k c.workers ≡ none
    → length payload ≤ c.settings.max_frame_size
    → Sent c p k payload (add_and_send c p payload)
unfolding add_and_send Dict.lookup key_eq
add_and_send-Sent c p k payload key unknown small =
    let w = new_worker c.settings (tcp_peer p) in
    let c' = record c { workers = Dict.insert k w c.workers } in
    rw
      (
        add_peer-none c p k key unknown,
        send_json-some c' p.node_id k w payload key (lookup-insert_self k w c.workers) small,
        add_and_send,
      )
      (
        refl,
        λ j. ground (
          arith,
          lookup-insert j k (enqueue payload w) c'.workers,
          lookup-insert j k w c.workers,
        ),
      )

send_to_peer-Sent :
    (c : TcpClient) (p : Peer) (k : Key) (payload : List ℕ)
    → hash p.node_id ≡ some k
    → length payload ≤ c.settings.max_frame_size
    → Sent c p k payload (send_to_peer c p payload)
unfolding send_to_peer Dict.lookup key_eq
send_to_peer-Sent c p k payload key small = elim (Option-cases (Dict.lookup k c.workers)) [
  | inl unknown ↦
      rw (send_json-none c p.node_id k payload key unknown, send_to_peer)
        (add_and_send-Sent c p k payload key unknown small)
  | inr (w, known) ↦
      rw (send_json-some c p.node_id k w payload key known small, send_to_peer)
        (refl, λ j. ground (arith, lookup-insert j k (enqueue payload w) c.workers))
]

abbrev pub with_queued : List (List ℕ) → PeerWorker → PeerWorker
with_queued payloads w = record w { queue = w.queue ++ payloads }

-- The queue of the worker of the peer `p` grew by the payloads, and nothing else of the worker changed.
abbrev pub Gains : TcpClient → Key → Peer → List (List ℕ) → TcpClient → Type 0
Gains c k p payloads c' =
    (c'.settings ≡ c.settings) × (worker_of c' k p ≡ with_queued payloads (worker_of c k p))

pub Gains-nil : (c : TcpClient) (k : Key) (p : Peer) → Gains c k p [] c
Gains-nil c k p = (refl, ap (λ q. record (worker_of c k p) { queue = q }) (sym (append-nil _)))

pub Gains-append :
    (c c' c'' : TcpClient) (k : Key) (p : Peer) (xs ys : List (List ℕ))
    → Gains c k p xs c'
    → Gains c' k p ys c''
    → Gains c k p (xs ++ ys) c''
Gains-append c c' c'' k p xs ys (s, g) (t, h) = (
  t ∙ s,
  h
      ∙ ap (with_queued ys) g
      ∙ ap (λ q. record (worker_of c k p) { queue = q })
          (append_assoc (worker_of c k p).queue xs ys),
)

Sent-Gains :
    (c : TcpClient) (p : Peer) (k : Key) (payload : List ℕ) (c' : TcpClient)
    → Sent c p k payload c'
    → Gains c k p (payload ∷ []) c'
Sent-Gains c p k payload c' (s, at) = (s, ground (arith, at k))

Sent-Gains_other :
    (c : TcpClient) (p q : Peer) (k j : Key) (payload : List ℕ) (c' : TcpClient)
    → j ≢ k
    → Sent c p k payload c'
    → Gains c j q [] c'
Sent-Gains_other c p q k j payload c' apart (s, at) =
    (s, ground (arith, at j, append-nil (worker_of c j q).queue))

-- Every peer of the dict stands under its own id.
abbrev pub OwnIds : Dict Key Peer → Type 0
OwnIds d = (k : Key) (p : Peer) → Dict.lookup k d ≡ some p → hash p.node_id ≡ some k

module _ (payload : List ℕ) where
  send_to_peers-Gains_absent :
      (c : TcpClient) (d : Dict Key Peer) (k : Key) (q : Peer)
      → OwnIds d
      → NodupKeys d
      → Dict.lookup k d ≡ none
      → length payload ≤ c.settings.max_frame_size
      → Gains c k q [] (send_to_peers c (Dict.values d) payload)
  unfolding send_to_peers
  send_to_peers-Gains_absent c [] k q own u absent small = Gains-nil c k q
  send_to_peers-Gains_absent c ((j, p) ∷ d) k q own u absent small =
      let sent = send_to_peer-Sent c p j payload (own j p (lookup_head j p d)) small in
      let (apart, later) = lookup_absent j k p d absent in
      Gains-append c (send_to_peer c p payload)
        (send_to_peers (send_to_peer c p payload) (Dict.values d) payload) k q [] []
        (Sent-Gains_other c p q j k payload (send_to_peer c p payload) apart sent)
        (send_to_peers-Gains_absent (send_to_peer c p payload) d k q
          (λ i r e. own i r (lookup_tail i j r p d u e)) u.1 later (rw sent.0 small))

  pub send_to_peers-Gains :
      (c : TcpClient) (d : Dict Key Peer) (k : Key) (q : Peer)
      → OwnIds d
      → NodupKeys d
      → Dict.lookup k d ≡ some q
      → length payload ≤ c.settings.max_frame_size
      → Gains c k q (payload ∷ []) (send_to_peers c (Dict.values d) payload)
  unfolding send_to_peers
  send_to_peers-Gains c [] k q own u there small = absurd (ground (arith, lookup-nil {V = Peer} k))
  send_to_peers-Gains c ((j, p) ∷ d) k q own u there small =
      let sent = send_to_peer-Sent c p j payload (own j p (lookup_head j p d)) small in
      let rest_own : OwnIds d = λ i r e. own i r (lookup_tail i j r p d u e) in
      let c' = send_to_peer c p payload in
      elim (lookup_cases j k q p d there) [
        | inl (here, same) ↦
            rw (here, ← same)
              (Gains-append c c' (send_to_peers c' (Dict.values d) payload) j p (payload ∷ []) []
                (Sent-Gains c p j payload c' sent)
                (send_to_peers-Gains_absent c' d j p rest_own u.1 u.0 (rw sent.0 small)))
        | inr (apart, later) ↦
            Gains-append c c' (send_to_peers c' (Dict.values d) payload) k q [] (payload ∷ [])
              (Sent-Gains_other c p q j k payload c' apart sent)
              (send_to_peers-Gains c' d k q rest_own u.1 later (rw sent.0 small))
      ]
