-- ===== src/Replication/Network/Publishing.antt =====
-- A round of the publisher keeps what Invariant states of a network.
use mathlib.Core.List.Memᴰ
use mathlib.Core.List.{Memᴰ}
use mathlib.Core.Path.{subst}
use distributed_sensor_hub.Base.{
  ◌≡◌, ◌⊎◌, sym, ◌∙◌, inl, inr, String, some, List, [], ◌∷◌, ◌++◌, string_eq, ℕ,
}
use distributed_sensor_hub.Base.Int.{ℤ}
use distributed_sensor_hub.Base.Dict
use distributed_sensor_hub.Base.Text.{Free}
use distributed_sensor_hub.Membership.PeerTable.{Peer}
use distributed_sensor_hub.Protocol.Message.{Message}
use distributed_sensor_hub.Replication.Messages.{
  Carries, round_messages, round_messages_complete, round_messages_sound,
}
use distributed_sensor_hub.Replication.Network.{Network, publish, sent_to, lost_without}
use distributed_sensor_hub.Replication.Network.Invariant.{Announced, IsSound, put_elim}
use distributed_sensor_hub.State.Convergence.{Covers, Writes}
use distributed_sensor_hub.State.Invariant.{IsValid, pop_replication_updates-IsValid}
use distributed_sensor_hub.State.Record.{Record}
use distributed_sensor_hub.State.Snapshot.{ColonFreeOrigins}
use distributed_sensor_hub.State.Worker.{pop_replication_updates}

-- A message of a round is sent or lost.
sent_or_lost :
    (peers : List Peer) (ms sent unsent : List Message) {m : Message}
    → Memᴰ m ms
    → Memᴰ m (sent_to peers ms ++ sent) ⊎ Memᴰ m (lost_without peers ms ++ unsent)
unfolding sent_to lost_without
sent_or_lost [] ms sent unsent there = inr (Memᴰ.append_left unsent there)
sent_or_lost (p ∷ peers) ms sent unsent there = inl (Memᴰ.append_left sent there)

of_sent_to :
    (peers : List Peer) (ms : List Message) {m : Message} → Memᴰ m (sent_to peers ms) → Memᴰ m ms
unfolding sent_to
of_sent_to [] ms there = elim there [ ]
of_sent_to (p ∷ peers) ms there = there

still_announced :
    (peers : List Peer) (ms sent unsent : List Message) {m : Message}
    → Memᴰ m sent ⊎ Memᴰ m unsent
    → Memᴰ m (sent_to peers ms ++ sent) ⊎ Memᴰ m (lost_without peers ms ++ unsent)
still_announced peers ms sent unsent (inl there) = inl (Memᴰ.append_right (sent_to peers ms) there)
still_announced peers ms sent unsent (inr there) =
    inr (Memᴰ.append_right (lost_without peers ms) there)

module _ (nodes : List String) (net : Network) (h : IsSound nodes net) (i : String)
    (member : Memᴰ i nodes) where
  pop_IsValid : IsValid (net.workers i) → IsValid (pop_replication_updates (net.workers i)).0
  pop_IsValid v = pop_replication_updates-IsValid v

  module _ (names : (j : String) → Memᴰ j nodes → Free b':' j) where
    colon_free : ColonFreeOrigins (net.workers i).updates_replication
    colon_free k r pending =
        names r.origin (h.origin k r (h.known i k r ((h.valid i).replication_current k r pending)))

    i-Free : Free b':' (net.workers i).node_id
    i-Free = subst (Free b':') (sym (h.id i)) (names i member)

    publish-Announced :
        (peers : List Peer) (tick : ℕ → ℤ) (k : String) (r : Record)
        → Dict.lookup k (net.workers i).state ≡ some r
        → r.origin ≡ i
        → let net' = publish i peers tick net in
          (m : Message) × (Memᴰ m net'.sent ⊎ Memᴰ m net'.unsent) × Carries m k r
    publish-Announced peers tick k r held own = elim (h.own i k r held own) [
      | inl pending ↦
          let (m, there, carries) =
            round_messages_complete tick (net.workers i) (h.valid i) i-Free colon_free k r pending
              (own ∙ sym (h.id i)) in
          (
            m,
            sent_or_lost peers (round_messages tick (net.workers i)) net.sent net.unsent there,
            carries,
          )
      | inr (m, there, carries) ↦ (
        m,
        still_announced peers (round_messages tick (net.workers i)) net.sent net.unsent there,
        carries,
      )
    ]

    pub publish-IsSound :
        (peers : List Peer) (tick : ℕ → ℤ) → IsSound nodes (publish i peers tick net)
    unfolding pop_replication_updates
    publish-IsSound peers tick =
        let w = net.workers i in
        let net' = publish i peers tick net in
        let popped = (pop_replication_updates w).0 in
        record {
          valid =
              put_elim (λ _ x. IsValid x) i popped net.workers (pop_IsValid (h.valid i)) h.valid;
          id = put_elim (λ j x. x.node_id ≡ j) i popped net.workers (h.id i) h.id;
          known = λ j k r.
              put_elim (λ _ x. Dict.lookup k x.state ≡ some r → Writes net.events k r) i popped
                net.workers (h.known i k r) (λ n. h.known n k r) j;
          origin = h.origin;
          kept = λ k r e.
              put_elim
                (λ n x.
                  Covers r (Dict.lookup k (net.workers n).state) → Covers r (Dict.lookup k x.state))
                i popped net.workers (λ c. c) (λ n c. c) r.origin (h.kept k r e);
          own = λ j k r.
              put_elim
                (λ n x.
                  Dict.lookup k x.state ≡ some r
                  → r.origin ≡ n
                  → Announced net'.sent net'.unsent x k r)
                i popped net.workers (λ held o. inr (publish-Announced peers tick k r held o))
                (λ n held o. elim (h.own n k r held o) [
                  | inl waits ↦ inl waits
                  | inr (m, there, c) ↦ inr (
                    m,
                    still_announced peers (round_messages tick w) net.sent net.unsent there,
                    c,
                  )
                ])
                j;
          sound = λ m there.
              elim (Memᴰ.append_cases (sent_to peers (round_messages tick w)) there) [
                | inl new ↦
                    let (k, r, carries, pending, own, _, from) =
                      round_messages_sound tick w (h.valid i) i-Free colon_free
                        (of_sent_to peers (round_messages tick w) new) in
                    (
                      k,
                      r,
                      carries,
                      h.known i k r ((h.valid i).replication_current k r pending),
                      from,
                    )
                | inr old ↦ h.sound m old
              ];
          got = λ j k m r there carries.
              put_elim
                (λ n x.
                  Covers r (Dict.lookup k (net.workers n).state) → Covers r (Dict.lookup k x.state))
                i popped net.workers (λ c. c) (λ n c. c) j (h.got j k m r there carries);
        }
