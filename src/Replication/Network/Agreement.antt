-- ===== src/Replication/Network/Agreement.antt =====
-- What the nodes of a network agree on once all that was read has been published and has arrived.
use mathlib.Core.List.{Memᴰ}
use mathlib.Core.Path.{subst}
use distributed_sensor_hub.Base.{
  ◌≡◌, ◌≢◌, ◌⊎◌, refl, sym, ap, ◌∙◌, inl, inr, String, false, Option, none, some, List, [],
  string_eq, Option-cases,
}
use distributed_sensor_hub.Base.Dict
use distributed_sensor_hub.Base.Dict.{lookup-nil}
use distributed_sensor_hub.Base.Text.{Free}
use distributed_sensor_hub.Protocol.Message.{Message}
use distributed_sensor_hub.Replication.Network.{Network, start, Reach}
use distributed_sensor_hub.Replication.Network.Invariant.{IsSound}
use distributed_sensor_hub.Replication.Network.Steps.{Reach-IsSound}
use distributed_sensor_hub.State.Convergence.{
  deliver, receive_all, lookup-deliver, Covers, Consistent, final-Writes, Writes-Covers,
}
use distributed_sensor_hub.State.Record.{Record, stamp, newer, newer_connected}
use distributed_sensor_hub.State.Worker.{init}

-- Every node has published what it holds of its own, never in a round without peers, and has received every
-- message of the others.
pub record IsSettled (nodes : List String) (net : Network) : Type 0 where
  pub published :
      (i k : String) (r : Record)
      → Memᴰ i nodes
      → Dict.lookup k (net.workers i).updates_replication ≡ some r
      → r.origin ≢ i
  pub none_lost : net.unsent ≡ []
  pub arrived :
      (i : String) (m : Message)
      → Memᴰ i nodes
      → Memᴰ m net.sent
      → Memᴰ m (net.received i) ⊎ (m.sender_id ≡ i)

module _ (nodes : List String) (net : Network) (h : IsSound nodes net)
    (same : Consistent net.events) where
  -- A register that covers the newest record of all events, and holds records of events only, holds it.
  pinned :
      (k : String) (r : Record) (i : String)
      → receive_all k none net.events ≡ some r
      → Covers r (Dict.lookup k (net.workers i).state)
      → Dict.lookup k (net.workers i).state ≡ some r
  pinned k r i final covers = elim (Option-cases (Dict.lookup k (net.workers i).state)) [
    | inl absent ↦ absurd (rw absent at covers)
    | inr (s, held) ↦
        let written = h.known i k s held in
        let le : newer (stamp r) (stamp s) ≡ false = rw held at covers in
        let ge : newer (stamp s) (stamp r) ≡ false =
          rw final at (Writes-Covers net.events k s written) in
        held
        ∙ ap some (
            sym (
              same k r s (final-Writes net.events k r final) written
                (newer_connected (stamp r) (stamp s) le ge)))
  ]

  module _ (settled : IsSettled nodes net) where
    settled-Covers :
        (k : String) (r : Record) (i : String)
        → Memᴰ i nodes
        → receive_all k none net.events ≡ some r
        → Covers r (Dict.lookup k (net.workers i).state)
    settled-Covers k r i member final =
        let written = final-Writes net.events k r final in
        let at_origin = h.kept k r written in
        let held = pinned k r r.origin final at_origin in
        elim (h.own r.origin k r held refl) [
          | inl pending ↦
              absurd (settled.published r.origin k r (h.origin k r written) pending refl)
          | inr (m, inr lost, carries) ↦ absurd (elim (rw settled.none_lost at lost) [ ])
          | inr (m, inl sent, carries) ↦ elim (settled.arrived i m member sent) [
            | inl got ↦ h.got i k m r got carries
            | inr own ↦
                let (j, t, also, _, from) = h.sound m sent in
                let e : ◌≡◌ {A = Option (String × Record)} (some (j, t)) (some (k, r)) =
                  sym also ∙ carries in
                let rec : t ≡ r = cc in
                let here : r.origin ≡ i = ap (λ x. x.origin) (sym rec) ∙ sym from ∙ own in
                subst (λ n. Covers r (Dict.lookup k (net.workers n).state)) here at_origin
          ]
        ]

    settled_register :
        (k : String) (i : String) (o : Option Record)
        → Memᴰ i nodes
        → receive_all k none net.events ≡ o
        → Dict.lookup k (net.workers i).state ≡ o
    settled_register k i (some r) member final =
        pinned k r i final (settled-Covers k r i member final)
    settled_register k i none member final =
        elim (Option-cases (Dict.lookup k (net.workers i).state)) [
          | inl absent ↦ absent
          | inr (s, held) ↦ absurd (rw final at (Writes-Covers net.events k s (h.known i k s held)))
        ]

-- The network as one node: whatever the order in which its nodes read sensors, published and received,
-- once each has published what it holds of its own, in rounds that all found a peer in its table if they had
-- anything to send, and has received every message of the others, every node
-- holds of every sensor the record that one worker holds which has handled the events of all nodes
-- itself. No id of a node has a colon, and two events of one node for one sensor with one timestamp are alike.
pub settled_as_one :
    (nodes : List String)
    → ((j : String) → Memᴰ j nodes → Free b':' j)
    → {net : Network} → Reach nodes start net
    → Consistent net.events
    → IsSettled nodes net
    → (i one k : String) → Memᴰ i nodes
    → Dict.lookup k (net.workers i).state ≡ Dict.lookup k (deliver (init one) net.events).state
settled_as_one nodes names {net} reach same settled i one k member =
    settled_register nodes net (Reach-IsSound nodes names reach) same settled k i _ member refl
    ∙ sym (
        lookup-deliver k (init one) net.events
        ∙ ap (λ o. receive_all k o net.events) (lookup-nil k))
