-- ===== src/Replication/Messages.antt =====
-- The SENSOR_UPDATE messages of one round of `_publish_once` (state/sensor_update_publisher.py), and the
-- records that their handler takes from them.
use mathlib.Core.List.{Memᴰ}
use mathlib.Core.Path.{subst}
use distributed_sensor_hub.Base.{
  ℕ, suc, ◌≡◌, ◌≢◌, refl, sym, ap, ◌∙◌, inl, inr, String, some, List, [], ◌∷◌, arith, ◌==◌,
  string_eq, if◌then◌else◌,
}
use distributed_sensor_hub.Base.Int.{ℤ}
use distributed_sensor_hub.Base.Dict
use distributed_sensor_hub.Base.Dict.{
  Dict, NodupKeys, lookup-nil, insert-NodupKeys, lookup_cases, lookup_head, lookup_tail,
}
use distributed_sensor_hub.Base.Lists.{Memᴰ-cases}
use distributed_sensor_hub.Base.Text.{Free}
use distributed_sensor_hub.Networking.Link.{encode_all}
use distributed_sensor_hub.Protocol.Handlers.{sensor_update_args}
use distributed_sensor_hub.Protocol.Message.{Message, Codec, sensor_update}
use distributed_sensor_hub.State.Invariant.{IsValid, IsNamed}
use distributed_sensor_hub.State.Publisher.{update_message}
use distributed_sensor_hub.State.Publisher.Publishing.{local_payloads}
use distributed_sensor_hub.State.Publisher.Replication.{
  check_update-update_of, sensor_update_args-update_message,
}
use distributed_sensor_hub.State.Record.{Record}
use distributed_sensor_hub.State.Snapshot.{
  ColonFreeOrigins, Shows, group-Shows, shown-one, IsCurrent-IsNamed,
}
use distributed_sensor_hub.State.Worker.{Worker, check_update, global_id, group, shown_origin}

-- The handler of `m` writes the record `r` to the sensor `k`.
abbrev pub Carries : Message → String → Record → Type 0
Carries m k r = check_update (sensor_update_args m) ≡ some (k, r)

update_message-Carries :
    (self k : String) (r : Record) (now : ℤ)
    → Free b':' self
    → k ≢ ""
    → r.origin ≢ ""
    → Carries (update_message self (global_id self k) r now) k r
update_message-Carries self k r now free named known =
    ap check_update (sensor_update_args-update_message self k r now free known)
    ∙ check_update-update_of k r named known

module _ (self : String) (clock : ℕ → ℤ) where
  -- The messages of the updates that have this node for their origin, in order.
  unfoldable pub local_messages : ℕ → Dict String Record → List Message
  local_messages i [] = []
  local_messages i ((g, r) ∷ updates) =
      let rest = local_messages (suc i) updates in
      if r.origin == self then update_message self g r (clock i) ∷ rest else rest

  pub local_payloads-encode_all :
      (codec : Codec) (i : ℕ) (updates : Dict String Record)
      → local_payloads codec self clock i updates ≡ encode_all codec (local_messages i updates)
  unfolding local_payloads local_messages encode_all
  local_payloads-encode_all codec i [] = refl
  local_payloads-encode_all codec i ((g, r) ∷ updates) =
      ground (arith, local_payloads-encode_all codec (suc i) updates)

  local_messages-nil : (i : ℕ) → local_messages i [] ≡ []
  unfolding local_messages
  local_messages-nil i = refl

  local_messages-own :
      (i : ℕ) (g : String) (r : Record) (d : Dict String Record)
      → r.origin ≡ self
      → local_messages i ((g, r) ∷ d) ≡ update_message self g r (clock i) ∷ local_messages (suc i) d
  unfolding local_messages
  local_messages-own i g r d own = ground arith

  local_messages-other :
      (i : ℕ) (g : String) (r : Record) (d : Dict String Record)
      → r.origin ≢ self
      → local_messages i ((g, r) ∷ d) ≡ local_messages (suc i) d
  unfolding local_messages
  local_messages-other i g r d other = ground arith

  local_messages_complete :
      (i : ℕ) (d : Dict String Record) (g : String) (r : Record)
      → Dict.lookup g d ≡ some r
      → r.origin ≡ self
      → (now : ℤ) × Memᴰ (update_message self g r now) (local_messages i d)
  local_messages_complete i [] g r h own = absurd (ground (arith, lookup-nil {V = Record} g))
  local_messages_complete i ((j, s) ∷ d) g r h own = elim (lookup_cases j g r s d h) [
    | inl (here, same) ↦
        let e : update_message self g r (clock i) ≡ update_message self j s (clock i) = cc in
        let mine : s.origin ≡ self = ap (λ t. t.origin) same ∙ own in
        (clock i, rw (local_messages-own i j s d mine) (Memᴰ.head e))
    | inr (_, there) ↦
        let (now, m) = local_messages_complete (suc i) d g r there own in
        elim (string_eq.dec s.origin self) [
          | yes mine ↦ (now, rw (local_messages-own i j s d mine) (Memᴰ.tail m))
          | no other ↦ (now, rw (local_messages-other i j s d other) m)
        ]
  ]

  -- What one of the messages is about.
  abbrev Origin : Dict String Record → Message → Type 0
  Origin d m =
      (g : String) × (r : Record) × (now : ℤ) × (Dict.lookup g d ≡ some r)
      × (r.origin ≡ self)
      × (m ≡ update_message self g r now)

  Origin-later :
      (j : String) (s : Record) (d : Dict String Record) {m : Message}
      → NodupKeys ((j, s) ∷ d)
      → Origin d m
      → Origin ((j, s) ∷ d) m
  Origin-later j s d u (g, r, now, h, own, e) = (g, r, now, lookup_tail g j r s d u h, own, e)

  local_messages_sound :
      (i : ℕ) (d : Dict String Record) {m : Message}
      → NodupKeys d
      → Memᴰ m (local_messages i d)
      → Origin d m
  local_messages_sound i [] u m = elim (rw (local_messages-nil i) at m) [ ]
  local_messages_sound i ((j, s) ∷ d) u m = elim (string_eq.dec s.origin self) [
    | yes mine ↦ elim (Memᴰ-cases (rw (local_messages-own i j s d mine) at m)) [
      | inl e ↦ (j, s, clock i, lookup_head j s d, mine, e)
      | inr later ↦ Origin-later j s d u (local_messages_sound (suc i) d u.1 later)
    ]
    | no other ↦
        Origin-later j s d u
          (local_messages_sound (suc i) d u.1 (rw (local_messages-other i j s d other) at m))
  ]

group-NodupKeys :
    (node_id : String) (d acc : Dict String Record)
    → NodupKeys acc
    → NodupKeys (group node_id d acc)
unfolding group
group-NodupKeys node_id [] acc u = u
group-NodupKeys node_id ((k, r) ∷ d) acc u =
    group-NodupKeys node_id d _ (insert-NodupKeys (global_id (shown_origin node_id r) k) r acc u)

-- The messages of a worker's pending updates.
module _ (clock : ℕ → ℤ) (w : Worker) where
  unfoldable pub round_messages : List Message
  round_messages = local_messages w.node_id clock 0 (group w.node_id w.updates_replication [])

  module _ (v : IsValid w) (free : Free b':' w.node_id)
      (colon_free : ColonFreeOrigins w.updates_replication) where
    named : IsNamed w.updates_replication
    named = IsCurrent-IsNamed _ _ v.replication_current v.named

    shows :
        Shows w.node_id
          ((w.node_id, group w.node_id w.updates_replication []) ∷ [])
          w.updates_replication
    shows = group-Shows w.node_id w.updates_replication v.replication_keys named colon_free

    -- Every pending record of the node itself is carried by a message of the round.
    pub round_messages_complete :
        (k : String) (r : Record)
        → Dict.lookup k w.updates_replication ≡ some r
        → r.origin ≡ w.node_id
        → (m : Message) × Memᴰ m round_messages × Carries m k r
    unfolding round_messages
    round_messages_complete k r h own =
        let per_node = group w.node_id w.updates_replication [] in
        let there : Dict.lookup (global_id w.node_id k) per_node ≡ some r =
          ap (λ o. Dict.lookup (global_id o k) per_node) (sym own)
          ∙ sym (shown-one w.node_id (global_id r.origin k) per_node)
          ∙ shows.0 k r h in
        let (now, m) = local_messages_complete w.node_id clock 0 per_node _ r there own in
        let (key, known) = named k r h in
        (
          update_message w.node_id (global_id w.node_id k) r now,
          m,
          update_message-Carries w.node_id k r now free key known,
        )

    -- And a message of the round carries nothing else.
    pub round_messages_sound :
        {m : Message}
        → Memᴰ m round_messages
        → (k : String) × (r : Record) × Carries m k r
          × (Dict.lookup k w.updates_replication ≡ some r)
          × (r.origin ≡ w.node_id)
          × (m.msg_type ≡ sensor_update)
          × (m.sender_id ≡ r.origin)
    unfolding round_messages update_message
    round_messages_sound {m} there =
        let per_node = group w.node_id w.updates_replication [] in
        let (g, r, now, h, own, e) =
          local_messages_sound w.node_id clock 0 per_node
            (group-NodupKeys w.node_id w.updates_replication [] tt) there in
        let (k, pending, id) = shows.1 g r (shown-one w.node_id g per_node ∙ h) in
        let (key, known) = named k r pending in
        let same : m ≡ update_message w.node_id (global_id w.node_id k) r now =
          e ∙ ap (λ i. update_message w.node_id i r now) (sym id ∙ ap (λ o. global_id o k) own) in
        (
          k,
          r,
          subst (λ x. Carries x k r) (sym same)
              (update_message-Carries w.node_id k r now free key known),
          pending,
          own,
          ap (λ x. x.msg_type) same,
          ap (λ x. x.sender_id) same ∙ sym own,
        )
