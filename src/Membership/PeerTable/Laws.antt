-- ===== src/Membership/PeerTable/Laws.antt =====
-- The laws of `PeerTable` (membership/peer_table.py): its invariant, and what each method changes.
use mathlib.Core.Option
use distributed_sensor_hub.Base.{
  ℕ, ◌≡◌, ◌≢◌, ◌⊎◌, refl, String, Bool, true, false, none, some, arith, ◌==◌, if◌then◌else◌,
  Option-cases, Bool-cases, inl, inr,
}
use distributed_sensor_hub.Base.Dict
use distributed_sensor_hub.Base.Dict.{Dict, NodupKeys, lookup-insert, insert-NodupKeys, lookup-nil}
use distributed_sensor_hub.Base.Result.{ok}
use distributed_sensor_hub.Membership.PeerTable.{
  Peer, PeerTable, alive, init, add_peer, update_heartbeat,
}
use distributed_sensor_hub.Value.Key.{Key, text, hash, key_eq, is_text, hash-ne-text}

-- No key twice, never the node itself, and every peer stands under its own id.
pub record IsValid (t : PeerTable) : Type 0 where
  pub keys : NodupKeys t.peers
  pub not_self : Dict.lookup (text t.self_node_id) t.peers ≡ none
  pub own_id : (k : Key) (p : Peer) → Dict.lookup k t.peers ≡ some p → hash p.node_id ≡ some k

pub init-IsValid : (self : String) → IsValid (init self)
unfolding Dict.lookup
init-IsValid self = record { keys = tt; not_self = refl; own_id = λ k p h. absurd (cc) }

-- The peer `p` went into the table `t` under a new key that is not the node's own.
pub record Added (t : PeerTable) (p : Peer) (t' : PeerTable) : Type 0 where
  pub key : Key
  pub own : hash p.node_id ≡ some key
  pub fresh : Dict.lookup key t.peers ≡ none
  pub other : key ≢ text t.self_node_id
  pub result : t' ≡ record t { peers = Dict.insert key p t.peers }

-- The peer `p` is the node itself, or its key is in the table.
abbrev pub Known : PeerTable → Peer → Type 0
Known t p =
    (is_text p.node_id t.self_node_id ≡ true)
    ⊎ ((k : Key) × (hash p.node_id ≡ some k) × (Dict.has k t.peers ≡ true))

-- A call that returns has either added the peer, or found that it is known and changed nothing.
pub add_peer_cases :
    (t : PeerTable) (p : Peer) {t' : PeerTable} {added : Bool}
    → add_peer t p ≡ ok (t', added)
    → ((added ≡ true) × Added t p t') ⊎ ((added ≡ false) × Known t p × (t' ≡ t))
unfolding add_peer
add_peer_cases t p {t'} {added} h = elim (Bool-cases (is_text p.node_id t.self_node_id)) [
  | inl self ↦ inr (ground arith, inl self, ground arith)
  | inr other ↦ elim (Option-cases (hash p.node_id)) [
    | inl e ↦ absurd (ground arith)
    | inr (k, e) ↦ elim (Option-cases (Dict.lookup k t.peers)) [
      | inl fresh ↦ inl (
        ground arith,
        record {
          key = k;
          own = e;
          fresh = fresh;
          other = hash-ne-text p.node_id t.self_node_id other e;
          result = ground arith;
        },
      )
      | inr (q, found) ↦ inr (ground arith, inr (k, e, ground arith), ground arith)
    ]
  ]
]

insert-IsValid :
    {t : PeerTable} (k : Key) (p : Peer)
    → hash p.node_id ≡ some k
    → k ≢ text t.self_node_id
    → IsValid t
    → IsValid (record t { peers = Dict.insert k p t.peers })
insert-IsValid {t} k p own other v = record {
  keys = insert-NodupKeys k p t.peers v.keys;
  not_self = ground (arith, lookup-insert (text t.self_node_id) k p t.peers, v.not_self);
  own_id = λ j q h. ground (arith, lookup-insert j k p t.peers, v.own_id j q);
}

pub Added-IsValid : {t t' : PeerTable} {p : Peer} → Added t p t' → IsValid t → IsValid t'
Added-IsValid {p} a v = rw a.result (insert-IsValid a.key p a.own a.other v)

-- `add_peer` keeps the invariant.
pub add_peer-IsValid :
    {t t' : PeerTable} {added : Bool} (p : Peer)
    → IsValid t
    → add_peer t p ≡ ok (t', added)
    → IsValid t'
add_peer-IsValid {t} p v h = elim (add_peer_cases t p h) [
  | inl (_, a) ↦ Added-IsValid a v
  | inr (_, _, same) ↦ rw same v
]

pub update_heartbeat-IsValid :
    {t : PeerTable} (id : String) (now : ℕ) → IsValid t → IsValid (update_heartbeat t id now)
unfolding update_heartbeat
update_heartbeat-IsValid {t} id now v = elim (Option-cases (Dict.lookup (text id) t.peers)) [
  | inl e ↦ rw (e, update_heartbeat) v
  | inr (p, e) ↦
      rw (e, update_heartbeat)
        (insert-IsValid (text id) _ (v.own_id (text id) p e) (λ self. ground (arith, v.not_self)) v)
]

abbrev pub revive : ℕ → Peer → Peer
revive now p = record p { last_heartbeat = now; status = alive }

-- A heartbeat from a known peer records its time and revives the peer. It changes nothing else of
-- it, no other peer, and nothing at all if the peer is not known.
pub lookup-update_heartbeat :
    (t : PeerTable) (id : String) (now : ℕ) (k : Key)
    → Dict.lookup k (update_heartbeat t id now).peers
      ≡ Option.map (λ p. if k == text id then revive now p else p) (Dict.lookup k t.peers)
unfolding update_heartbeat
lookup-update_heartbeat t id now k = elim (Option-cases (Dict.lookup (text id) t.peers)) [
  | inl e ↦ elim (Option-cases (Dict.lookup k t.peers)) [
    | inl a ↦ ground arith
    | inr (q, a) ↦ ground arith
  ]
  | inr (p, e) ↦ elim (Option-cases (Dict.lookup k t.peers)) [
    | inl a ↦ ground (arith, lookup-insert k (text id) (revive now p) t.peers)
    | inr (q, a) ↦ ground (arith, lookup-insert k (text id) (revive now p) t.peers)
  ]
]
