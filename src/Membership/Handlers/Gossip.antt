-- ===== src/Membership/Handlers/Gossip.antt =====
-- A JOIN_REQUEST's reply at the other end: what `handle_peer_list` of membership/handlers.py makes of the
-- list that `handle_join_request` of another node sent.
use mathlib.Core.List.{Memᴰ}
use distributed_sensor_hub.Base.{
  ℕ, suc, ◌≡◌, ◌≢◌, refl, sym, ap, ◌∙◌, String, ◌&&◌, true, false, Option, none, some, List, [],
  ◌∷◌, arith, if◌then◌else◌, Bool-cases, inl, inr, string_eq,
}
use distributed_sensor_hub.Base.Int.{ℤ}
use distributed_sensor_hub.Base.Lists.{Memᴰ-cases}
use distributed_sensor_hub.Base.Dict
use distributed_sensor_hub.Base.Dict.{
  Dict, NodupKeys, lookup-nil, lookup_cases, lookup_head, lookup_tail,
}
use distributed_sensor_hub.Base.Result.{ok}
use distributed_sensor_hub.Membership.Handlers.Chain.{has-Chain, has-add_new, add_peer_other}
use distributed_sensor_hub.Membership.Handlers.Laws.{integrate-Chain}
use distributed_sensor_hub.Membership.Handlers.{
  Effect, notify, Address, peer_entry, peers_payload, read_address, reply, integrate_entry,
  integrate, handle_peer_list,
}
use distributed_sensor_hub.Membership.PeerTable.{
  Peer, new, PeerTable, add_new, add_peer, list_peers,
}
use distributed_sensor_hub.Membership.PeerTable.Laws.{IsValid}
use distributed_sensor_hub.Protocol.Message.{Message}
use distributed_sensor_hub.Value.{PyInt, whole, flag, of_int, as_int, get_or, truthy}
use distributed_sensor_hub.Value.Key.{Key, text, hash, key_eq, is_text, hash-text}

-- The fields of a peer that a handler can read back: an id and a host that count as true.
abbrev pub Usable : Peer → Type 0
Usable p = (truthy p.node_id ≡ true) × (truthy p.host ≡ true)

address : Peer → Address
address p = record { node_id = p.node_id; host = p.host; port = p.port }

as_int-of_int : (n : PyInt) → as_int (of_int n) ≡ some n
as_int-of_int (whole n) = refl
as_int-of_int (flag b) = refl

read_address-peer_entry :
    (p : Peer)
    → read_address (peer_entry p)
      ≡ (if truthy p.node_id then if truthy p.host then some (address p) else none else none)
unfolding read_address peer_entry get_or string_eq address
read_address-peer_entry p = ground (arith, as_int-of_int p.port)

add_new_self :
    (u : PeerTable) (k : Key) (p : Peer) → (add_new u k p).0.self_node_id ≡ u.self_node_id
unfolding add_new
add_new_self u k p = ground arith

-- An entry's value is among the values, and each value has its entry.
mem-values :
    (k : Key) (p : Peer) (d : Dict Key Peer) → Dict.lookup k d ≡ some p → Memᴰ p (Dict.values d)
mem-values k p [] h = absurd (ground (arith, lookup-nil {V = Peer} k))
mem-values k p ((j, q) ∷ d) h = elim (lookup_cases j k p q d h) [
  | inl (_, same) ↦ Memᴰ.head (sym same)
  | inr (_, there) ↦ Memᴰ.tail (mem-values k p d there)
]

entry_of_mem :
    (p : Peer) (d : Dict Key Peer)
    → NodupKeys d
    → Memᴰ p (Dict.values d)
    → (k : Key) × (Dict.lookup k d ≡ some p)
entry_of_mem p ((j, q) ∷ d) u (Memᴰ.head e) = (j, lookup_head j q d ∙ ap some (sym e))
entry_of_mem p ((j, q) ∷ d) u (Memᴰ.tail m) =
    let (k, e) = entry_of_mem p d u.1 m in (k, lookup_tail k j p q d u e)
entry_of_mem p [] u m = elim m [ ]

values-keys :
    (t : PeerTable)
    → IsValid t
    → (p : Peer) → Memᴰ p (list_peers t)
    → (k : Key) × (hash p.node_id ≡ some k)
unfolding list_peers
values-keys t v p m = let (k, e) = entry_of_mem p t.peers v.keys m in (k, v.own_id k p e)

module _ {S : Type 0} (send : String → Message → Effect S) (self_node_id : String)
    (discovered : Option (Peer → Effect S)) where
  integrate_entry-Usable :
      (p : Peer) (now : ℕ) (u : PeerTable) (s : S) (k : Key)
      → Usable p
      → is_text p.node_id self_node_id ≡ false
      → hash p.node_id ≡ some k
      → u.self_node_id ≡ self_node_id
      → let q = new p.node_id p.host p.port now in
        integrate_entry send self_node_id discovered (peer_entry p) now u s
        ≡ ok ((add_new u k q).0, if (add_new u k q).1 then notify discovered q s else s)
  unfolding integrate_entry address
  integrate_entry-Usable p now u s k (id, host) other key own =
      let q = new p.node_id p.host p.port now in
      let read : read_address (peer_entry p) ≡ some (address p) =
        read_address-peer_entry p ∙ ground arith in
      let added : add_peer u q ≡ ok (add_new u k q) = add_peer_other u q k (rw own other) key in
      rw (read, integrate_entry) (ground arith)

  integrate_entry-skipped :
      (p : Peer) (now : ℕ) (u : PeerTable) (s : S)
      → (Usable p → is_text p.node_id self_node_id ≡ true)
      → integrate_entry send self_node_id discovered (peer_entry p) now u s ≡ ok (u, s)
  unfolding integrate_entry address
  integrate_entry-skipped p now u s h = ground (arith, read_address-peer_entry p)

  -- What the entry of a peer with the key `k` leads to.
  abbrev Integrated : Peer → Key → ℕ → PeerTable → S → Type 0
  Integrated p k now u s =
      (u' : PeerTable) × (s' : S) × (integrate_entry send self_node_id discovered (peer_entry p) now
          u s
        ≡ ok (u', s'))
      × (u'.self_node_id ≡ self_node_id)
      × (Usable p → k ≢ text self_node_id → Dict.has k u'.peers ≡ true)

  integrate_entry-peer :
      (p : Peer) (now : ℕ) (u : PeerTable) (s : S) (k : Key)
      → hash p.node_id ≡ some k
      → u.self_node_id ≡ self_node_id
      → Integrated p k now u s
  unfolding add_new
  integrate_entry-peer p now u s k key own = elim (Bool-cases (truthy p.node_id && truthy p.host)) [
    | inr useless ↦ (
      u,
      s,
      integrate_entry-skipped p now u s (λ usable. absurd (ground arith)),
      own,
      λ usable other. absurd (ground arith),
    )
    | inl useful ↦ elim (Bool-cases (is_text p.node_id self_node_id)) [
      | inl self ↦ (
        u,
        s,
        integrate_entry-skipped p now u s (λ usable. self),
        own,
        λ usable other. absurd (ground (arith, hash-text p.node_id self_node_id)),
      )
      | inr other ↦ (
        _,
        _,
        integrate_entry-Usable p now u s k (ground arith, ground arith) other key own,
        add_new_self u k _ ∙ own,
        λ usable ne. has-add_new u k _,
      )
    ]
  ]

  -- A list of peers whose ids can be keys raises nothing, and every usable peer of it that is another
  -- node is in the table in the end.
  integrate-peers_payload :
      (clock : ℕ → ℕ) (i : ℕ) (ps : List Peer) (u : PeerTable) (s : S)
      → ((p : Peer) → Memᴰ p ps → (k : Key) × (hash p.node_id ≡ some k))
      → u.self_node_id ≡ self_node_id
      → let out = integrate send self_node_id discovered clock i (peers_payload ps) u s in
        (out.raised ≡ none)
        × ((p : Peer) (k : Key)
            → Memᴰ p ps
            → hash p.node_id ≡ some k
            → Usable p
            → k ≢ text self_node_id
            → Dict.has k out.table.peers ≡ true)
  unfolding integrate peers_payload
  integrate-peers_payload clock i [] u s keys own = (refl, λ p k m. elim m [ ])
  integrate-peers_payload clock i (p ∷ ps) u s keys own =
      let (k, key) = keys p (Memᴰ.head refl) in
      let (u', s', done, own', there) = integrate_entry-peer p (clock i) u s k key own in
      let (quiet, rest) =
        integrate-peers_payload clock (suc i) ps u' s' (λ q m. keys q (Memᴰ.tail m)) own' in
      rw (done, integrate)
        (
          quiet,
          λ q j m e usable ne. elim (Memᴰ-cases m) [
            | inl same ↦
                let named : some k ≡ some j = sym key ∙ ap (λ x. hash x.node_id) (sym same) ∙ e in
                let keyed : k ≡ j = cc in
                let (qs, c, _) =
                  integrate-Chain send self_node_id discovered clock (suc i) (peers_payload ps) u'
                    s' in
                has-Chain u' _ qs j c (rw (← keyed) (there (rw (← same) usable) (rw keyed ne)))
            | inr later ↦ rest q j later e usable ne
          ],
        )

  handle_peer_list-peers :
      (sender : String) (t u : PeerTable) (s : S) (clock : ℕ → ℕ) (now_ms : ℤ)
      → IsValid t
      → u.self_node_id ≡ self_node_id
      → let out = handle_peer_list send self_node_id discovered (reply sender t now_ms) clock u s in
        (out.raised ≡ none)
        × ((p : Peer) (k : Key)
            → Memᴰ p (list_peers t)
            → hash p.node_id ≡ some k
            → Usable p
            → k ≢ text self_node_id
            → Dict.has k out.table.peers ≡ true)
  unfolding handle_peer_list reply get_or string_eq list_peers
  handle_peer_list-peers sender t u s clock now_ms v own =
      integrate-peers_payload clock 0 (list_peers t) u s (values-keys t v) own

  -- A node that handles another node's reply to its JOIN_REQUEST raises nothing: the list that a valid
  -- table yields has no malformed entry.
  pub handle_peer_list-reply_raised :
      (sender : String) (t u : PeerTable) (s : S) (clock : ℕ → ℕ) (now_ms : ℤ)
      → IsValid t
      → u.self_node_id ≡ self_node_id
      → (handle_peer_list send self_node_id discovered (reply sender t now_ms) clock u s).raised
        ≡ none
  handle_peer_list-reply_raised sender t u s clock now_ms v own =
      (handle_peer_list-peers sender t u s clock now_ms v own).0

  -- Gossip closes over a join: a node that has handled the reply to its JOIN_REQUEST knows every other
  -- node that the answering table, if valid, holds with an id and a host that count as true.
  pub handle_peer_list-reply :
      (sender : String) (t u : PeerTable) (s : S) (clock : ℕ → ℕ) (now_ms : ℤ) (k : Key) (p : Peer)
      → IsValid t
      → u.self_node_id ≡ self_node_id
      → Dict.lookup k t.peers ≡ some p
      → Usable p
      → k ≢ text self_node_id
      → let out = handle_peer_list send self_node_id discovered (reply sender t now_ms) clock u s in
        Dict.has k out.table.peers ≡ true
  unfolding list_peers
  handle_peer_list-reply sender t u s clock now_ms k p v own e usable ne =
      (handle_peer_list-peers sender t u s clock now_ms v own).1 p k (mem-values k p t.peers e)
        (v.own_id k p e) usable ne
