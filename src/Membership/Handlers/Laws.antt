-- ===== src/Membership/Handlers/Laws.antt =====
-- What the handlers of membership/handlers.py do to the peer table, whom they answer and which peers
-- they report as discovered.
use distributed_sensor_hub.Base.{
  ℕ, suc, ◌≡◌, refl, sym, ap, ◌∙◌, String, Bool, true, false, Option, some, List, [], ◌∷◌, ◌++◌,
  arith, if◌then◌else◌, Option-cases, Bool-cases, inl, inr,
}
use distributed_sensor_hub.Base.Int.{ℤ}
use distributed_sensor_hub.Base.Dict
use distributed_sensor_hub.Base.Dict.{Dict, lookup-insert, values-insert}
use distributed_sensor_hub.Base.Result.{ok, Result-cases}
use distributed_sensor_hub.Membership.Handlers.Chain.{
  Keeps, Chain, Chain-append, notify_all, notify_all-append, newcomers, add_peer-Chain,
  newcomers-add_new, has-add_new, add_peer_other, notify-newcomers, Chain-IsValid, list_peers-Chain,
  lookup-Chain,
}
use distributed_sensor_hub.Membership.Handlers.{
  Effect, Outcome, notify, Address, read_address, reply, finish_join, handle_join_request,
  integrate_entry, integrate, handle_peer_list,
}
use distributed_sensor_hub.Membership.PeerTable.{
  Peer, new, PeerTable, add_new, add_peer, list_peers,
}
use distributed_sensor_hub.Membership.PeerTable.Laws.{IsValid}
use distributed_sensor_hub.Protocol.Message.{Message}
use distributed_sensor_hub.Value.{Value, null, arr, obj, Items, nil, cons, Fields, get}
use distributed_sensor_hub.Value.Key.{Key, hash, key_eq, is_text}

module _ {S : Type 0} (send : String → Message → Effect S) (self_node_id : String)
    (discovered : Option (Peer → Effect S)) where
  pub integrate_entry-Chain :
      (fs : Fields) (now : ℕ) (t t' : PeerTable) (s s' : S)
      → integrate_entry send self_node_id discovered fs now t s ≡ ok (t', s')
      → (ps : List Peer) × Chain t ps t' × (s' ≡ notify_all discovered ps s)
  unfolding integrate_entry notify_all
  integrate_entry-Chain fs now t t' s s' h = elim (Option-cases (read_address fs)) [
    | inl e ↦ ([], ground arith, ground arith)
    | inr (a, e) ↦ elim (Bool-cases (is_text a.node_id self_node_id)) [
      | inl same ↦ ([], ground arith, ground arith)
      | inr other ↦
          let p = new a.node_id a.host a.port now in
          elim (Result-cases (add_peer t p)) [
            | inl (x, failed) ↦ absurd (ground arith)
            | inr ((u, added), done) ↦
                let same_table : t' ≡ u = ground arith in
                let same_world : s' ≡ (if added then notify discovered p s else s) = ground arith in
                (
                  newcomers added p,
                  rw same_table (add_peer-Chain t p done),
                  same_world ∙ notify-newcomers discovered added p s,
                )
          ]
    ]
  ]

  pub integrate-Chain :
      (clock : ℕ → ℕ) (i : ℕ) (items : Items) (t : PeerTable) (s : S)
      → (ps : List Peer) × Chain t ps
          (integrate send self_node_id discovered clock i items t s).table
        × ((integrate send self_node_id discovered clock i items t s).world
            ≡ notify_all discovered ps s)
  unfolding integrate notify_all
  integrate-Chain clock i nil t s = ([], refl, refl)
  integrate-Chain clock i (cons (obj fs) rest) t s =
      elim (Result-cases (integrate_entry send self_node_id discovered fs (clock i) t s)) [
        | inl (x, failed) ↦ rw (failed, integrate) ([], refl, refl)
        | inr ((u, s'), done) ↦
            let (ps, c, w) = integrate_entry-Chain fs (clock i) t u s s' done in
            let (qs, d, x) = integrate-Chain clock (suc i) rest u s' in
            rw (done, integrate)
              (
                ps ++ qs,
                Chain-append t u _ ps qs c d,
                x ∙ ap (notify_all discovered qs) w ∙ sym (notify_all-append discovered ps qs s),
              )
      ]
  integrate-Chain clock i (cons _ rest) t s = ([], refl, refl)

  pub handle_peer_list-Chain :
      (msg : Message) (clock : ℕ → ℕ) (t : PeerTable) (s : S)
      → (ps : List Peer) × Chain t ps
          (handle_peer_list send self_node_id discovered msg clock t s).table
        × ((handle_peer_list send self_node_id discovered msg clock t s).world
            ≡ notify_all discovered ps s)
  unfolding handle_peer_list notify_all
  handle_peer_list-Chain msg clock t s = on_value (get "peers" msg.payload) refl
    where
      on_value :
          (v : Value)
          → get "peers" msg.payload ≡ v
          → (ps : List Peer) × Chain t ps
              (handle_peer_list send self_node_id discovered msg clock t s).table
            × ((handle_peer_list send self_node_id discovered msg clock t s).world
                ≡ notify_all discovered ps s)
      on_value (arr items) e = rw (e, handle_peer_list) (integrate-Chain clock 0 items t s)
      on_value null e = rw (e, handle_peer_list) ([], refl, refl)
      on_value _ e = rw (e, handle_peer_list) ([], refl, refl)

  -- What a JOIN_REQUEST from the peer `p`, whose key is `k`, leaves: `p` is in the table `out.table`, and
  -- was added and reported just if its key was new; the answer to `sender` lists the table.
  abbrev pub Joined : PeerTable → Peer → Key → String → ℤ → S → Outcome S → Type 0
  Joined t p k sender now_ms s out =
      (ps : List Peer) × (ps ≡ (if Dict.has k t.peers then [] else p ∷ []))
      × Chain t ps out.table
      × (Dict.has k out.table.peers ≡ true)
      × ((out.world, out.raised)
          ≡ send sender (reply self_node_id out.table now_ms) (notify_all discovered ps s))

  finish_join-Joined :
      (msg : Message) (p : Peer) (now_ms : ℤ) (t : PeerTable) (s : S) (k : Key)
      → Chain t (newcomers (add_new t k p).1 p) (add_new t k p).0
      → Joined t p k msg.sender_id now_ms s (
          finish_join send self_node_id discovered msg p now_ms
            (add_new t k p).0
            s
            (add_new t k p).1)
  unfolding finish_join
  finish_join-Joined msg p now_ms t s k c = (
    newcomers (add_new t k p).1 p,
    newcomers-add_new t k p,
    c,
    has-add_new t k p,
    ap (send msg.sender_id (reply self_node_id (add_new t k p).0 now_ms))
        (notify-newcomers discovered (add_new t k p).1 p s),
  )

  join_lem :
      (msg : Message) (now : ℕ) (now_ms : ℤ) (t : PeerTable) (s : S) (k : Key) {a : Address}
      → t.self_node_id ≡ self_node_id
      → read_address msg.payload ≡ some a
      → is_text a.node_id self_node_id ≡ false
      → hash a.node_id ≡ some k
      → Joined t
          (new a.node_id a.host a.port now)
          k
          msg.sender_id
          now_ms
          s
          (handle_join_request send self_node_id discovered msg now now_ms t s)
  unfolding handle_join_request
  join_lem msg now now_ms t s k {a} own read other key =
      let p = new a.node_id a.host a.port now in
      let added : add_peer t p ≡ ok (add_new t k p) = add_peer_other t p k (rw own other) key in
      rw (read, other, added, handle_join_request)
        (finish_join-Joined msg p now_ms t s k (add_peer-Chain t p added))

  finish_join-table :
      (msg : Message) (p : Peer) (now_ms : ℤ) (t : PeerTable) (s : S) (added : Bool)
      → (finish_join send self_node_id discovered msg p now_ms t s added).table ≡ t
  unfolding finish_join
  finish_join-table msg p now_ms t s added = refl

  -- Whatever a JOIN_REQUEST holds, the table only grows.
  pub handle_join_request-Chain :
      (msg : Message) (now : ℕ) (now_ms : ℤ) (t : PeerTable) (s : S)
      → (ps : List Peer) × Chain t ps
          (handle_join_request send self_node_id discovered msg now now_ms t s).table
  unfolding handle_join_request
  handle_join_request-Chain msg now now_ms t s = elim (Option-cases (read_address msg.payload)) [
    | inl e ↦ rw (e, handle_join_request) ([], refl)
    | inr (a, e) ↦ elim (Bool-cases (is_text a.node_id self_node_id)) [
      | inl own ↦ rw (e, own, handle_join_request) ([], refl)
      | inr other ↦
          let p = new a.node_id a.host a.port now in
          elim (Result-cases (add_peer t p)) [
            | inl (x, failed) ↦ rw (e, other, failed, handle_join_request) ([], refl)
            | inr ((u, added), done) ↦
                rw (e, other, done, handle_join_request)
                  (
                    newcomers added p,
                    rw (finish_join-table msg p now_ms u s added) (add_peer-Chain t p done),
                  )
          ]
    ]
  ]

  -- A PEER_LIST, however malformed, keeps the table valid and keeps every entry of it. The peers that
  -- it adds stand behind the old ones, and each of them is reported once, in that order.
  pub handle_peer_list_lem :
      (msg : Message) (clock : ℕ → ℕ) (t : PeerTable) (s : S)
      → IsValid t
      → let out = handle_peer_list send self_node_id discovered msg clock t s in
        (ps : List Peer) × (list_peers out.table ≡ list_peers t ++ ps)
        × (out.world ≡ notify_all discovered ps s)
        × IsValid out.table
        × Keeps t out.table
  handle_peer_list_lem msg clock t s v =
      let (ps, c, w) = handle_peer_list-Chain msg clock t s in
      (
        ps,
        list_peers-Chain t _ ps c,
        w,
        Chain-IsValid t _ ps v c,
        λ k q h. lookup-Chain t _ ps k c h,
      )

  -- A JOIN_REQUEST of another node, with an id that can be a key. If the key is in the table nothing is
  -- added or reported; if not, the node goes in behind the others and is reported once. The table
  -- stays valid and keeps its entries, and in the end it holds the key. The sender of the message is
  -- sent the list of all peers of the table, the new one among them.
  pub handle_join_request_lem :
      (msg : Message) (now : ℕ) (now_ms : ℤ) (t : PeerTable) (s : S) (k : Key) {a : Address}
      → IsValid t
      → t.self_node_id ≡ self_node_id
      → read_address msg.payload ≡ some a
      → is_text a.node_id self_node_id ≡ false
      → hash a.node_id ≡ some k
      → let out = handle_join_request send self_node_id discovered msg now now_ms t s in
        let ps = if Dict.has k t.peers then [] else new a.node_id a.host a.port now ∷ [] in
        (list_peers out.table ≡ list_peers t ++ ps)
        × ((out.world, out.raised)
            ≡ send msg.sender_id (reply self_node_id out.table now_ms) (notify_all discovered ps s))
        × (Dict.has k out.table.peers ≡ true)
        × IsValid out.table
        × Keeps t out.table
  handle_join_request_lem msg now now_ms t s k v own read other key =
      let (ps, e, c, there, answer) = join_lem msg now now_ms t s k own read other key in
      (
        rw (← e) (list_peers-Chain t _ ps c),
        rw (← e) answer,
        there,
        Chain-IsValid t _ ps v c,
        λ j q h. lookup-Chain t _ ps j c h,
      )
