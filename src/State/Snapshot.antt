-- ===== src/State/Snapshot.antt =====
-- The views that state/node_state_worker.py hands out: `_snapshot_grouped_for_ui` and the reads built
-- on it, which show a record of a sensor under the key "origin:sensor_id".
use distributed_sensor_hub.Base.{
  ◌≡◌, refl, ◌≢◌, sym, ap, ◌∙◌, ◌⊎◌, inl, inr, String, Option, none, some, [], ◌∷◌, arith,
  string_eq,
}
use distributed_sensor_hub.Base.Dict
use distributed_sensor_hub.Base.Dict.{
  Dict, NodupKeys, lookup-nil, lookup-insert, lookup-insert_self, lookup-insert_other, lookup_cases,
  lookup_head, lookup_tail,
}
use distributed_sensor_hub.Base.Text.{Free, split_first, split_colon}
use distributed_sensor_hub.State.Record.{Record}
use distributed_sensor_hub.State.Worker.{
  Worker, Snapshot, shown_origin, global_id, group, snapshot_grouped_for_ui, get_state_snapshot,
  get_updates_snapshot,
}
use distributed_sensor_hub.State.Invariant.{IsValid, IsCurrent, IsNamed}

-- Where origins have no colon, the key determines the origin and the sensor.
pub global_id_inj :
    (o p k j : String) → Free b':' o → Free b':' p → global_id o k ≡ global_id p j → k ≡ j
unfolding global_id
global_id_inj o p k j f g h =
    let e : ◌≡◌ {A = Option (String × String)} (some (o, k)) (some (p, j)) =
      sym (split_colon o k f) ∙ ap (split_first b':') h ∙ split_colon p j g in
    cc

module _ (node_id : String) where
  -- The key of a sensor's record in a view.
  abbrev pub shown_id : Record → String → String
  shown_id r k = global_id (shown_origin node_id r) k

  -- No record of the table is shown under an origin with a colon.
  abbrev pub ColonFree : Dict String Record → Type 0
  ColonFree d =
      (k : String) (r : Record) → Dict.lookup k d ≡ some r → Free b':' (shown_origin node_id r)

  lookup-group_other :
      (g : String) (d acc : Dict String Record)
      → NodupKeys d
      → ((k : String) (r : Record) → Dict.lookup k d ≡ some r → shown_id r k ≢ g)
      → Dict.lookup g (group node_id d acc) ≡ Dict.lookup g acc
  unfolding group
  lookup-group_other g [] acc u other = refl
  lookup-group_other g ((k, r) ∷ d) acc u other =
      lookup-group_other g d _ u.1 (λ j s e. other j s (lookup_tail j k s r d u e))
      ∙ lookup-insert_other g (shown_id r k) r acc (λ e. other k r (lookup_head k r d) (sym e))

  pub lookup-group :
      (d acc : Dict String Record)
      → NodupKeys d
      → ColonFree d
      → (k : String) (r : Record) → Dict.lookup k d ≡ some r
      → Dict.lookup (shown_id r k) (group node_id d acc) ≡ some r
  unfolding group
  lookup-group [] acc u free k r h = absurd (ground (arith, lookup-nil {V = Record} k))
  lookup-group ((j, s) ∷ d) acc u free k r h = elim (lookup_cases j k r s d h) [
    | inl (here, same) ↦
        rw (here, ← same)
          (lookup-group_other (shown_id s j) d _ u.1 (λ i t e same_id.
              let apart : i ≢ j = λ p. ground (arith, u.0) in
              apart (
                global_id_inj (shown_origin node_id t) (shown_origin node_id s) i j
                  (free i t (lookup_tail i j t s d u e)) (free j s (lookup_head j s d)) same_id))
            ∙ lookup-insert_self (shown_id s j) s acc)
    | inr (_, there) ↦
        lookup-group d _ u.1 (λ i t e. free i t (lookup_tail i j t s d u e)) k r there
  ]

  pub group_sound :
      (d acc : Dict String Record) (g : String) (r : Record)
      → NodupKeys d
      → Dict.lookup g (group node_id d acc) ≡ some r
      → (Dict.lookup g acc ≡ some r)
        ⊎ ((k : String) × (Dict.lookup k d ≡ some r) × (shown_id r k ≡ g))
  unfolding group
  group_sound [] acc g r u h = inl h
  group_sound ((j, s) ∷ d) acc g r u h = elim (group_sound d _ g r u.1 h) [
    | inl first ↦ elim (string_eq.dec g (shown_id s j)) [
      | yes p ↦
          let same : s ≡ r = ground (arith, lookup-insert g (shown_id s j) s acc) in
          inr (j, lookup_head j s d ∙ ap some same, ap (λ t. shown_id t j) (sym same) ∙ sym p)
      | no p ↦ inl (sym (lookup-insert_other g (shown_id s j) s acc p) ∙ first)
    ]
    | inr (k, there, id) ↦ inr (k, lookup_tail k j r s d u there, id)
  ]

-- What a view shows under a node and a key.
abbrev pub shown : String → String → Snapshot → Option Record
shown node_id g view = elim (Dict.lookup node_id view) [
  | none ↦ none
  | some per_node ↦ Dict.lookup g per_node
]

-- A view shows the records of a table and no others, each under its origin and sensor.
abbrev pub Shows : String → Snapshot → Dict String Record → Type 0
Shows node_id view d =
    ((k : String) (r : Record)
      → Dict.lookup k d ≡ some r
      → shown node_id (global_id r.origin k) view ≡ some r)
    × ((g : String) (r : Record)
        → shown node_id g view ≡ some r
        → (k : String) × (Dict.lookup k d ≡ some r) × (global_id r.origin k ≡ g))

-- No origin in the table has a colon.
abbrev pub ColonFreeOrigins : Dict String Record → Type 0
ColonFreeOrigins d = (k : String) (r : Record) → Dict.lookup k d ≡ some r → Free b':' r.origin

pub shown_origin_lem :
    (node_id : String) (r : Record) → r.origin ≢ "" → shown_origin node_id r ≡ r.origin
unfolding shown_origin
shown_origin_lem node_id r h = ground arith

pub shown-one :
    (node_id g : String) (per_node : Dict String Record)
    → shown node_id g ((node_id, per_node) ∷ []) ≡ Dict.lookup g per_node
shown-one node_id g per_node = rw (lookup_head node_id per_node [], shown)

pub group-Shows :
    (node_id : String) (d : Dict String Record)
    → NodupKeys d
    → IsNamed d
    → ColonFreeOrigins d
    → Shows node_id ((node_id, group node_id d []) ∷ []) d
group-Shows node_id d u named free = (
  λ k r h.
      let at_origin = shown_origin_lem node_id r (named k r h).1 in
      shown-one node_id (global_id r.origin k) (group node_id d [])
      ∙ rw at_origin at (lookup-group node_id d [] u no_colon k r h),
  λ g r h. elim (group_sound node_id d [] g r u (sym (shown-one node_id g _) ∙ h)) [
    | inl e ↦ absurd (ground (arith, lookup-nil {V = Record} g))
    | inr (k, e, id) ↦
        (k, e, ap (λ o. global_id o k) (sym (shown_origin_lem node_id r (named k r e).1)) ∙ id)
  ],
)
  where
    no_colon : ColonFree node_id d
    no_colon k r h = rw (shown_origin_lem node_id r (named k r h).1) (free k r h)

-- If no origin of a valid worker's records has a colon, `/api/state` shows exactly its state: each record under
-- its origin and sensor, and nothing else.
pub get_state_snapshot-Shows :
    (w : Worker)
    → IsValid w
    → ColonFreeOrigins w.state
    → Shows w.node_id (get_state_snapshot w) w.state
unfolding get_state_snapshot snapshot_grouped_for_ui
get_state_snapshot-Shows w v free = group-Shows w.node_id w.state v.state_keys v.named free

pub IsCurrent-IsNamed :
    (d state : Dict String Record) → IsCurrent d state → IsNamed state → IsNamed d
IsCurrent-IsNamed d state c named k r h = named k r (c k r h)

-- If no origin of a valid worker's records has a colon, `/api/updates` shows exactly the pending entries, which
-- are current. It leaves none pending; the state and what is pending for replication stay.
pub get_updates_snapshot-Shows :
    (w : Worker)
    → IsValid w
    → ColonFreeOrigins w.state
    → let (w', view) = get_updates_snapshot w in
      Shows w.node_id view w.updates_ui
      × IsCurrent w.updates_ui w.state
      × (w'.updates_ui ≡ [])
      × (w'.state ≡ w.state)
      × (w'.updates_replication ≡ w.updates_replication)
unfolding get_updates_snapshot snapshot_grouped_for_ui
get_updates_snapshot-Shows w v free = (
  group-Shows w.node_id w.updates_ui v.ui_keys (IsCurrent-IsNamed _ _ v.ui_current v.named)
      (λ k r h. free k r (v.ui_current k r h)),
  v.ui_current,
  refl,
  refl,
  refl,
)
