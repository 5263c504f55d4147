-- ===== src/Node/Bootstrap.antt =====
-- The start of node.py: the bootstrap peers go to the client and into the peer table, and each of them
-- is sent a JOIN_REQUEST.
use mathlib.Core.List.{Memᴰ}
use mathlib.Core.List.Memᴰ
use distributed_sensor_hub.Base.{
  ℕ, suc, ◌≤◌, ◌≡◌, refl, sym, ap, ◌∙◌, true, some, List, [], ◌∷◌, ◌++◌, arith, Option-cases, inl,
  inr,
}
use distributed_sensor_hub.Base.Dict
use distributed_sensor_hub.Base.Dict.{lookup-insert, lookup-nil}
use distributed_sensor_hub.Base.Result.{ok, Result-cases}
use distributed_sensor_hub.Membership.PeerTable as Peers
use distributed_sensor_hub.Membership.PeerTable.{Peer, PeerTable}
use distributed_sensor_hub.Membership.PeerTable.Laws.{IsValid, add_peer-IsValid}
use distributed_sensor_hub.Networking.Client as Client
use distributed_sensor_hub.Networking.Client.{
  TcpPeer, TcpClient, PeerWorker, enqueue, new_worker, key_of, add_worker,
}
use distributed_sensor_hub.Node.Discovery.{IsLinked, Holds, Holds-self, send_value-Holds}
use distributed_sensor_hub.Protocol.Message.{Message, Codec, encode}
use distributed_sensor_hub.Base.Lists.{length, Memᴰ-cases}
use distributed_sensor_hub.Node.{Links, send_value, bootstrap, add_bootstrap_peers, seed_peers}
use distributed_sensor_hub.Value.Key.{Key, hash, key_eq}

-- Seeding keeps the peer table valid, whatever addresses the configuration names, the node's own included.
pub seed_peers-IsValid :
    (clock : ℕ → ℕ) (i : ℕ) (peers : List TcpPeer) (t : PeerTable)
    → IsValid t
    → IsValid (seed_peers clock i peers t)
unfolding seed_peers
seed_peers-IsValid clock i [] t v = v
seed_peers-IsValid clock i (p ∷ peers) t v =
    let q = Peers.new p.node_id p.host p.port (clock i) in
    elim (Result-cases (Peers.add_peer t q)) [
      | inl (e, failed) ↦ rw (failed, seed_peers) (seed_peers-IsValid clock (suc i) peers t v)
      | inr ((t', added), done) ↦
          rw (done, seed_peers)
            (seed_peers-IsValid clock (suc i) peers t' (add_peer-IsValid q v done))
    ]

-- What `add_peer` of the client makes of a peer with the key `k`.
abbrev Kept : TcpClient → Key → TcpClient → Type 0
Kept c k c' =
    (c'.settings ≡ c.settings)
    × (Dict.has k c'.workers ≡ true)
    × ((j : Key) → Dict.has j c.workers ≡ true → Dict.has j c'.workers ≡ true)

add_one :
    (p : TcpPeer) (k : Key) (peers : List TcpPeer) (c : TcpClient)
    → hash p.node_id ≡ some k
    → (c' : TcpClient) × (add_bootstrap_peers (p ∷ peers) c ≡ add_bootstrap_peers peers c')
      × Kept c k c'
unfolding add_bootstrap_peers Client.add_peer key_of add_worker
add_one p k peers c key = elim (Option-cases (Dict.lookup k c.workers)) [
  | inl e ↦
      let w = new_worker c.settings p in
      (
        record c { workers = Dict.insert k w c.workers },
        ground arith,
        (
          refl,
          ground (arith, lookup-insert k k w c.workers),
          λ j h. ground (arith, lookup-insert j k w c.workers),
        ),
      )
  | inr (w, e) ↦ (c, ground arith, (refl, ground arith, λ j h. h))
]

-- Every id can be a key; `main` makes them as texts.
abbrev pub Keyed : List TcpPeer → Type 0
Keyed [] = Unit
Keyed (p ∷ peers) = ((k : Key) × (hash p.node_id ≡ some k)) × Keyed peers

Workers : List TcpPeer → TcpClient → Type 0
Workers [] c = Unit
Workers (p ∷ peers) c =
    ((k : Key) × (hash p.node_id ≡ some k) × (Dict.has k c.workers ≡ true)) × Workers peers c

Workers-more :
    (peers : List TcpPeer) (c c' : TcpClient)
    → ((j : Key) → Dict.has j c.workers ≡ true → Dict.has j c'.workers ≡ true)
    → Workers peers c
    → Workers peers c'
unfolding Workers
Workers-more [] c c' more w = tt
Workers-more (p ∷ peers) c c' more ((k, key, there), w) =
    ((k, key, more k there), Workers-more peers c c' more w)

add_bootstrap_peers-Workers :
    (peers : List TcpPeer) (c : TcpClient)
    → Keyed peers
    → (c' : TcpClient) × (add_bootstrap_peers peers c ≡ ok c')
      × Workers peers c'
      × (c'.settings ≡ c.settings)
      × ((j : Key) → Dict.has j c.workers ≡ true → Dict.has j c'.workers ≡ true)
unfolding add_bootstrap_peers Workers
add_bootstrap_peers-Workers [] c keyed = (c, refl, tt, refl, λ j h. h)
add_bootstrap_peers-Workers (p ∷ peers) c ((k, key), keyed) =
    let (c', step, (same, there, more)) = add_one p k peers c key in
    let (c'', done, all, same', still) = add_bootstrap_peers-Workers peers c' keyed in
    (c'', step ∙ done, ((k, key, still k there), all), same' ∙ same, λ j h. still j (more j h))

-- The payload stands in the queue of the worker for the key `k`.
abbrev pub Queued : List ℕ → Key → Links → Type 0
Queued payload k s =
    (w : PeerWorker) × (Dict.lookup k s.client.workers ≡ some w) × Memᴰ payload w.queue

mem_last : {A : Type 0} (x : A) (xs : List A) → Memᴰ x (xs ++ (x ∷ []))
mem_last x [] = Memᴰ.head refl
mem_last x (y ∷ xs) = Memᴰ.tail (mem_last x xs)

Holds-Queued_self :
    (payload : List ℕ) (k : Key) (w : PeerWorker) (s s' : Links)
    → Holds s k (enqueue payload w) s'
    → Queued payload k s'
Holds-Queued_self payload k w s s' h = (enqueue payload w, Holds-self h, mem_last payload w.queue)

Holds-Queued :
    (payload x : List ℕ) (k j : Key) (w : PeerWorker) (s s' : Links)
    → Dict.lookup j s.client.workers ≡ some w
    → Holds s j (enqueue x w) s'
    → Queued payload k s
    → Queued payload k s'
Holds-Queued payload x k j w s s' e h (v, there, m) = elim (key_eq.dec k j) [
  | yes p ↦
      let same : v ≡ w = ground arith in
      (enqueue x w, rw p (Holds-self h), Memᴰ.append_left (x ∷ []) (rw (← same) m))
  | no p ↦ (v, ground (arith, h.workers k), m)
]

module _ (codec : Codec) (join : Message) where
  -- A step of `bootstrap`, for a peer that the client has.
  send_join :
      (p : TcpPeer) (k : Key) (s : Links)
      → hash p.node_id ≡ some k
      → Dict.has k s.client.workers ≡ true
      → IsLinked s
      → length (encode codec join) ≤ s.client.settings.max_frame_size
      → let s' = (send_value codec p.node_id join s).0 in
        IsLinked s'
        × (s'.client.settings ≡ s.client.settings)
        × Queued (encode codec join) k s'
        × ((j : Key) → Queued (encode codec join) j s → Queued (encode codec join) j s')
        × ((j : Key) → Dict.has j s.client.workers ≡ true → Dict.has j s'.client.workers ≡ true)
  send_join p k s key there linked small = elim (Option-cases (Dict.lookup k s.client.workers)) [
    | inl e ↦ absurd (ground arith)
    | inr (w, e) ↦
        let x = encode codec join in
        let (s', sent, h) = send_value-Holds codec p.node_id join k s w key linked e small in
        rw sent (
          h.linked,
          h.settings,
          Holds-Queued_self x k w s s' h,
          λ j q. Holds-Queued x x j k w s s' e h q,
          λ j g. ground (arith, h.workers j),
        )
  ]

  bootstrap-Queued :
      (peers : List TcpPeer) (s : Links)
      → Workers peers s.client
      → IsLinked s
      → length (encode codec join) ≤ s.client.settings.max_frame_size
      → let s' = bootstrap (send_value codec) join peers s in
        ((p : TcpPeer) (k : Key)
          → Memᴰ p peers
          → hash p.node_id ≡ some k
          → Queued (encode codec join) k s')
        × ((j : Key) → Queued (encode codec join) j s → Queued (encode codec join) j s')
  unfolding bootstrap Workers
  bootstrap-Queued [] s all linked small = (λ p k m key. elim m [ ], λ j q. q)
  bootstrap-Queued (p ∷ peers) s ((k, key, there), all) linked small =
      let (linked', same, queued, keeps, more) = send_join p k s key there linked small in
      let s' = (send_value codec p.node_id join s).0 in
      let (later, still) =
        bootstrap-Queued peers s' (Workers-more peers s.client s'.client more all) linked'
          (rw same small) in
      (
        λ q j m e. elim (Memᴰ-cases m) [
          | inl here ↦
              let named : some j ≡ some k = sym e ∙ ap (λ x. hash x.node_id) here ∙ key in
              let keyed : j ≡ k = cc in still j (rw keyed queued)
          | inr after ↦ later q j after e
        ],
        λ j q. still j (keeps j q),
      )

  -- At the start every bootstrap peer whose id can be a key is given to the client, which raises nothing,
  -- and a JOIN_REQUEST stands in its queue, also where two peers of the list have one id. The
  -- message must be within the size limit.
  pub bootstrap_lem :
      (peers : List TcpPeer) (c : TcpClient) (p : TcpPeer) (k : Key)
      → Keyed peers
      → length (encode codec join) ≤ c.settings.max_frame_size
      → Memᴰ p peers
      → hash p.node_id ≡ some k
      → (c' : TcpClient) × (add_bootstrap_peers peers c ≡ ok c')
        × Queued
            (encode codec join)
            k
            (bootstrap (send_value codec) join peers (record { client = c'; known = [] }))
  bootstrap_lem peers c p k keyed small m key =
      let (c', done, all, same, _) = add_bootstrap_peers-Workers peers c keyed in
      let (queued, _) =
        bootstrap-Queued peers (record { client = c'; known = [] }) all
          (λ j h. absurd (ground (arith, lookup-nil {V = Unit {0}} j))) (rw same small) in
      (c', done, queued p k m key)
