-- ===== src/Tests/Membership.antt =====
-- Runs of the membership (membership/) on a join of two nodes, and its theorems at it.
use distributed_sensor_hub.Base.{
  ◌≡◌, ◌≢◌, refl, ap, String, true, false, none, some, List, [], ◌∷◌, ◌++◌, string_eq,
  if◌then◌else◌, ◌==◌,
}
use distributed_sensor_hub.Base.Int.{pos}
use distributed_sensor_hub.Base.Dict
use distributed_sensor_hub.Base.Result.{ok}
use distributed_sensor_hub.Membership.PeerTable.{Peer, new, PeerTable, init, add_peer, list_peers}
use distributed_sensor_hub.Membership.PeerTable.Laws.{IsValid, init-IsValid, add_peer-IsValid}
use distributed_sensor_hub.Membership.Handlers.{
  Effect, Address, read_address, reply, handle_join_request, handle_peer_list,
}
use distributed_sensor_hub.Membership.Handlers.Chain.{notify_all, Keeps}
use distributed_sensor_hub.Membership.Handlers.Laws.{handle_join_request_lem, handle_peer_list_lem}
use distributed_sensor_hub.Membership.Handlers.Gossip.{handle_peer_list-reply}
use distributed_sensor_hub.Protocol.Message.{Message, new_message, join_request}
use distributed_sensor_hub.Value.{int, str, field, end, whole, get_or, truthy}
use distributed_sensor_hub.Value.Key.{text, hash, key_eq, is_text}

-- The rest of a node, as far as the handlers act on it: the messages sent and the peers reported.
abbrev pub World : Type 0
World = List (String × Message) × List Peer

abbrev pub send : String → Message → Effect World
send to m (sent, found) = (((to, m) ∷ sent, found), none)

abbrev pub discovered : Peer → Effect World
discovered p (sent, found) = ((sent, p ∷ found), none)

abbrev pub quiet : World
quiet = ([], [])

abbrev pub peer_b : Peer
peer_b = new (str "b") (str "10.0.0.2") (whole (pos 9001)) 7

abbrev pub table_a : PeerTable
table_a = record { self_node_id = "a"; peers = (text "b", peer_b) ∷ [] }

added_b : add_peer (init "a") peer_b ≡ ok (table_a, true)
unfolding add_peer string_eq Dict.lookup Dict.insert hash
added_b = refl

pub table_a-IsValid : IsValid table_a
table_a-IsValid = add_peer-IsValid peer_b (init-IsValid "a") added_b

abbrev pub join : Message
join =
    new_message join_request "c"
      (field "node_id" (str "c")
        (field "host" (str "10.0.0.3") (field "port" (int (pos 9002)) end)))
      (pos 100)

abbrev pub address_c : Address
address_c = record { node_id = str "c"; host = str "10.0.0.3"; port = whole (pos 9002) }

pub join_read : read_address join.payload ≡ some address_c
unfolding read_address get_or truthy string_eq
join_read = refl

pub c_other : is_text (str "c") "a" ≡ false
unfolding string_eq
c_other = refl

c_key : hash (str "c") ≡ some (text "c")
unfolding hash
c_key = refl

handle_join_request_lem_example :
    let out = handle_join_request send "a" (some discovered) join 8 (pos 100) table_a quiet in
    let ps =
      if Dict.has (text "c") table_a.peers
      then []
      else new (str "c") (str "10.0.0.3") (whole (pos 9002)) 8 ∷ [] in
    (list_peers out.table ≡ list_peers table_a ++ ps)
    × ((out.world, out.raised)
        ≡ send "c" (reply "a" out.table (pos 100)) (notify_all (some discovered) ps quiet))
    × (Dict.has (text "c") out.table.peers ≡ true)
    × IsValid out.table
    × Keeps table_a out.table
handle_join_request_lem_example =
    handle_join_request_lem send "a" (some discovered) join 8 (pos 100) table_a quiet (text "c")
      table_a-IsValid refl join_read c_other c_key

-- What the node `a` answers a node that it does not know from its table.
abbrev answer : Message
answer = reply "a" table_a (pos 100)

handle_peer_list_lem_example :
    let out = handle_peer_list send "c" (some discovered) answer (λ i. i) (init "c") quiet in
    (ps : List Peer) × (list_peers out.table ≡ list_peers (init "c") ++ ps)
    × (out.world ≡ notify_all (some discovered) ps quiet)
    × IsValid out.table
    × Keeps (init "c") out.table
handle_peer_list_lem_example =
    handle_peer_list_lem send "c" (some discovered) answer (λ i. i) (init "c") quiet
      (init-IsValid "c")

pub b-there : Dict.lookup (text "b") table_a.peers ≡ some peer_b
unfolding Dict.lookup key_eq string_eq
b-there = refl

b-truthy : truthy (str "b") ≡ true
unfolding truthy string_eq
b-truthy = refl

host-truthy : truthy (str "10.0.0.2") ≡ true
unfolding truthy string_eq
host-truthy = refl

b-ne-c : text "b" ≢ text "c"
unfolding key_eq string_eq
b-ne-c h = let e : true ≡ false = ap (λ k. k == text "b") h in absurd (cc)

handle_peer_list-reply_example :
    let out = handle_peer_list send "c" (some discovered) answer (λ i. i) (init "c") quiet in
    Dict.has (text "b") out.table.peers ≡ true
handle_peer_list-reply_example =
    handle_peer_list-reply send "c" (some discovered) "a" table_a (init "c") quiet (λ i. i)
      (pos 100) (text "b") peer_b table_a-IsValid refl b-there (b-truthy, host-truthy) b-ne-c
