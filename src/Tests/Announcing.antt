-- ===== src/Tests/Announcing.antt =====
-- The publisher of the node "a" over its life, in one turn with one reading.
use mathlib.Core.Path.{subst}
use distributed_sensor_hub.Base.{
  ◌≡◌, refl, ap, sym, ◌∙◌, inl, inr, String, false, some, Option, [], ◌∷◌, string_eq,
}
use distributed_sensor_hub.Base.Dict
use distributed_sensor_hub.Base.Lists.{Memᴰ-cases}
use distributed_sensor_hub.Base.Text.{Free}
use distributed_sensor_hub.Base.Dict.{lookup_cases, lookup-nil}
use distributed_sensor_hub.Replication.Loop.{Named, sent_messages, run_announces}
use distributed_sensor_hub.State.Publisher.Loop.{Turn, new_publisher, run}
use distributed_sensor_hub.State.Convergence.{deliver}
use mathlib.Core.List.{Memᴰ}
use distributed_sensor_hub.Replication.Messages.{Carries, local_messages, round_messages}
use distributed_sensor_hub.State.Record.{Record}
use distributed_sensor_hub.Networking.Link.{encode_all}
use distributed_sensor_hub.Protocol.Message.{Message}
use distributed_sensor_hub.State.Publisher.Delivery.{Gains}
use distributed_sensor_hub.State.Worker.{
  Update, init, merge_update, group, merge_record, check_update, store, normalize_meta,
  shown_origin,
}
use distributed_sensor_hub.Value.{get_or}
use distributed_sensor_hub.Value.Key.{text}
use distributed_sensor_hub.Tests.Membership.{table_a, peer_b, table_a-IsValid, b-there}
use distributed_sensor_hub.Tests.State.{first, first_record, first_valid}
use distributed_sensor_hub.Tests.Replication.{a-Free, client, codec, one_Fit, published, tick}

abbrev turn : Turn
turn = record { updates = first ∷ []; stops = false; clock = tick }

turn-messages : sent_messages (turn ∷ []) (init "a") ≡ published ∷ []
unfolding sent_messages deliver round_messages local_messages group merge_update check_update
    string_eq merge_record Dict.lookup store Dict.insert shown_origin normalize_meta get_or
turn-messages = refl

turn-Named : Named (turn ∷ [])
turn-Named = (λ k r (u, m, e). named k r u m e, tt)
  where
    named :
        (k : String) (r : Record) (u : Update)
        → Memᴰ u (first ∷ [])
        → check_update u ≡ some (k, r)
        → Free b':' r.origin
    named k r u m e = elim (Memᴰ-cases m) [
      | inl here ↦
          let both : ◌≡◌ {A = Option (String × Record)} (some ("temp", first_record))
              (some (k, r)) =
            sym first_valid ∙ ap check_update (sym here) ∙ e in
          let same : first_record ≡ r = cc in subst (λ x. Free b':' x.origin) same a-Free
      | inr later ↦ elim later [ ]
    ]

run_announces_example :
    let (w', c') = run codec table_a (new_publisher "a" 200) (turn ∷ []) (init "a") client in
    let ms = sent_messages (turn ∷ []) (init "a") in
    Gains client (text "b") peer_b (encode_all codec ms) c'
    × (w'.updates_replication ≡ [])
    × ((j : String) (r : Record)
        → Dict.lookup j w'.state ≡ some r
        → r.origin ≡ w'.node_id
        → (m : Message) × Memᴰ m ms × Carries m j r)
run_announces_example =
    run_announces codec table_a "a" 200 (turn ∷ []) client (text "b") peer_b table_a-IsValid b-there
      a-Free turn-Named (refl, tt) (rw turn-messages one_Fit)
