-- ===== src/Membership/Handlers/Chain.antt =====
-- How the peer table grows under the handlers of membership/handlers.py, and which peers they report.
use mathlib.Core.List.{append-nil, append_assoc}
use distributed_sensor_hub.Base.{
  ◌≡◌, refl, sym, ap, ◌∙◌, Bool, true, false, Option, some, List, [], ◌∷◌, ◌++◌, arith,
  if◌then◌else◌, inl, inr, Option-cases, inl, inr,
}
use distributed_sensor_hub.Base.Dict
use distributed_sensor_hub.Base.Dict.{Dict, lookup-insert, values-insert}
use distributed_sensor_hub.Base.Result.{ok}
use distributed_sensor_hub.Membership.Handlers.{Effect, notify}
use distributed_sensor_hub.Membership.PeerTable.{Peer, PeerTable, add_new, add_peer, list_peers}
use distributed_sensor_hub.Membership.PeerTable.Laws.{IsValid, Added, add_peer_cases, Added-IsValid}
use distributed_sensor_hub.Value.Key.{Key, hash, key_eq, is_text}

-- The peers went into the table `t` one after the other, each under a new key, which gave `t'`.
abbrev pub Chain : PeerTable → List Peer → PeerTable → Type 0
Chain t [] t' = t' ≡ t
Chain t (p ∷ ps) t' = (u : PeerTable) × Added t p u × Chain u ps t'

pub Chain-append :
    (t u v : PeerTable) (ps qs : List Peer) → Chain t ps u → Chain u qs v → Chain t (ps ++ qs) v
Chain-append t u v [] qs c d = rw (← c) d
Chain-append t u v (p ∷ ps) qs (w, a, c) d = (w, a, Chain-append w u v ps qs c d)

-- Every peer of the first table is in the second, unchanged.
abbrev pub Keeps : PeerTable → PeerTable → Type 0
Keeps t t' = (k : Key) (q : Peer) → Dict.lookup k t.peers ≡ some q → Dict.lookup k t'.peers ≡ some q

-- The calls of `on_peer_discovered` for the peers, in order.
unfoldable pub notify_all : {S : Type 0} → Option (Peer → Effect S) → List Peer → S → S
notify_all discovered [] s = s
notify_all discovered (p ∷ ps) s = notify_all discovered ps (notify discovered p s)

pub notify_all-append :
    {S : Type 0} (discovered : Option (Peer → Effect S)) (ps qs : List Peer) (s : S)
    → notify_all discovered (ps ++ qs) s ≡ notify_all discovered qs (notify_all discovered ps s)
unfolding notify_all
notify_all-append discovered [] qs s = refl
notify_all-append discovered (p ∷ ps) qs s = notify_all-append discovered ps qs _

-- What an answer of `add_peer` amounts to.
unfoldable pub newcomers : Bool → Peer → List Peer
newcomers added p = if added then p ∷ [] else []

pub add_peer-Chain :
    (t : PeerTable) (p : Peer) {t' : PeerTable} {added : Bool}
    → add_peer t p ≡ ok (t', added)
    → Chain t (newcomers added p) t'
unfolding newcomers
add_peer-Chain t p {t'} h = elim (add_peer_cases t p h) [
  | inl (yes_added, a) ↦ rw yes_added (t', a, refl)
  | inr (not_added, _, same) ↦ rw not_added same
]

pub newcomers-add_new :
    (t : PeerTable) (k : Key) (p : Peer)
    → newcomers (add_new t k p).1 p ≡ (if Dict.has k t.peers then [] else p ∷ [])
unfolding newcomers add_new
newcomers-add_new t k p = ground arith

pub has-add_new : (t : PeerTable) (k : Key) (p : Peer) → Dict.has k (add_new t k p).0.peers ≡ true
unfolding add_new
has-add_new t k p = ground (arith, lookup-insert k k p t.peers)

pub add_peer_other :
    (t : PeerTable) (p : Peer) (k : Key)
    → is_text p.node_id t.self_node_id ≡ false
    → hash p.node_id ≡ some k
    → add_peer t p ≡ ok (add_new t k p)
unfolding add_peer
add_peer_other t p k other key = ground arith

module _ {S : Type 0} (discovered : Option (Peer → Effect S)) where
  pub notify-newcomers :
      (added : Bool) (p : Peer) (s : S)
      → (if added then notify discovered p s else s) ≡ notify_all discovered (newcomers added p) s
  unfolding notify_all newcomers
  notify-newcomers true p s = refl
  notify-newcomers false p s = refl

pub Chain-IsValid : (t t' : PeerTable) (ps : List Peer) → IsValid t → Chain t ps t' → IsValid t'
Chain-IsValid t t' [] v c = rw c v
Chain-IsValid t t' (p ∷ ps) v (u, a, c) = Chain-IsValid u t' ps (Added-IsValid a v) c

-- The new peers stand behind the old ones.
pub list_peers-Chain :
    (t t' : PeerTable) (ps : List Peer) → Chain t ps t' → list_peers t' ≡ list_peers t ++ ps
unfolding list_peers
list_peers-Chain t t' [] c = rw c (sym (append-nil _))
list_peers-Chain t t' (p ∷ ps) (u, a, c) =
    list_peers-Chain u t' ps c
    ∙ ap (λ l. l ++ ps) (ap (λ x. list_peers x) a.result ∙ values-insert a.key p t.peers a.fresh)
    ∙ append_assoc (list_peers t) (p ∷ []) ps

-- No entry is overwritten or lost.
pub lookup-Chain :
    (t t' : PeerTable) (ps : List Peer) (k : Key) {q : Peer}
    → Chain t ps t'
    → Dict.lookup k t.peers ≡ some q
    → Dict.lookup k t'.peers ≡ some q
lookup-Chain t t' [] k c h = rw c h
lookup-Chain t t' (p ∷ ps) k (u, a, c) h = lookup-Chain u t' ps k c (
    ap (λ (x : PeerTable). Dict.lookup k x.peers) a.result
    ∙ ground (arith, lookup-insert k a.key p t.peers, a.fresh))

pub self-Chain :
    (t t' : PeerTable) (ps : List Peer) → Chain t ps t' → t'.self_node_id ≡ t.self_node_id
self-Chain t t' [] c = ap (λ (x : PeerTable). x.self_node_id) c
self-Chain t t' (p ∷ ps) (u, a, c) =
    self-Chain u t' ps c ∙ ap (λ (x : PeerTable). x.self_node_id) a.result

pub has-Chain :
    (t t' : PeerTable) (ps : List Peer) (k : Key)
    → Chain t ps t'
    → Dict.has k t.peers ≡ true
    → Dict.has k t'.peers ≡ true
has-Chain t t' ps k c h = elim (Option-cases (Dict.lookup k t.peers)) [
  | inl e ↦ absurd (ground arith)
  | inr (q, e) ↦ ground (arith, lookup-Chain t t' ps k c e)
]
