-- ===== src/State/Polling.antt =====
-- What the readers of a state worker's pending entries see from one read to the next: the web page by
-- `get_updates_snapshot`, the publisher by `pop_replication_updates` (state/node_state_worker.py).
use distributed_sensor_hub.Base.{
  ◌≡◌, ◌⊎◌, refl, sym, ◌∙◌, inl, inr, String, Option, none, some, List, [], ◌∷◌, arith, string_eq,
  Option-cases,
}
use distributed_sensor_hub.Base.Dict
use distributed_sensor_hub.Base.Dict.{lookup-nil}
use distributed_sensor_hub.State.Convergence.{deliver}
use distributed_sensor_hub.State.Invariant.{
  IsValid, merge_update-IsValid, get_updates_snapshot-IsValid, pop_replication_updates-IsValid,
}
use distributed_sensor_hub.State.Lww.{pending, receive, register, merge_update_lem}
use distributed_sensor_hub.State.Record.{Record}
use distributed_sensor_hub.State.Snapshot.{ColonFreeOrigins, shown, get_updates_snapshot-Shows}
use distributed_sensor_hub.State.Worker.{
  Worker, global_id, Update, check_update, merge_update, get_updates_snapshot,
  pop_replication_updates,
}

pub deliver-IsValid : (w : Worker) (us : List Update) → IsValid w → IsValid (deliver w us)
unfolding deliver
deliver-IsValid w [] v = v
deliver-IsValid w (u ∷ us) v = deliver-IsValid (merge_update w u).0 us (merge_update-IsValid u v)

-- A call that leaves nothing pending for the sensor has not changed its record.
pending-none :
    (k : String) (old waiting : Option Record) (u : Update)
    → pending k old waiting u ≡ none
    → (receive k old u ≡ old) × (waiting ≡ none)
unfolding pending receive register
pending-none k old waiting u h = elim (Option-cases (check_update u)) [
  | inl e ↦ ground arith
  | inr ((j, r), e) ↦ ground arith
]

deliver-updates_ui_none :
    (k : String) (w : Worker) (us : List Update)
    → Dict.lookup k (deliver w us).updates_ui ≡ none
    → (Dict.lookup k (deliver w us).state ≡ Dict.lookup k w.state)
      × (Dict.lookup k w.updates_ui ≡ none)
unfolding deliver
deliver-updates_ui_none k w [] h = (refl, h)
deliver-updates_ui_none k w (u ∷ us) h =
    let (_, state, ui, _) = merge_update_lem w k u in
    let (same, quiet) = deliver-updates_ui_none k (merge_update w u).0 us h in
    let (kept, waiting) =
      pending-none k (Dict.lookup k w.state) (Dict.lookup k w.updates_ui) u (sym ui ∙ quiet) in
    (same ∙ state ∙ kept, waiting)

deliver-updates_replication_none :
    (k : String) (w : Worker) (us : List Update)
    → Dict.lookup k (deliver w us).updates_replication ≡ none
    → (Dict.lookup k (deliver w us).state ≡ Dict.lookup k w.state)
      × (Dict.lookup k w.updates_replication ≡ none)
unfolding deliver
deliver-updates_replication_none k w [] h = (refl, h)
deliver-updates_replication_none k w (u ∷ us) h =
    let (_, state, _, replication) = merge_update_lem w k u in
    let (same, quiet) = deliver-updates_replication_none k (merge_update w u).0 us h in
    let (kept, waiting) =
      pending-none k (Dict.lookup k w.state) (Dict.lookup k w.updates_replication) u
        (sym replication ∙ quiet) in
    (same ∙ state ∙ kept, waiting)

get_updates_snapshot-state :
    (w : Worker) (k : String)
    → Dict.lookup k (get_updates_snapshot w).0.state ≡ Dict.lookup k w.state
unfolding get_updates_snapshot
get_updates_snapshot-state w k = refl

-- Of a sensor whose record was `old` at the last read, `now` is its record and `waiting` what is pending:
-- nothing is pending and the record has not changed, or the present record is pending.
abbrev pub Tracks : Option Record → Option Record → Option Record → Type 0
Tracks old now waiting =
    ((waiting ≡ none) × (now ≡ old)) ⊎ ((r : Record) × (waiting ≡ some r) × (now ≡ some r))

-- The web page misses no change: let a valid worker be read once by `/api/updates` and again after any
-- calls, when no origin of its records has a colon. In the answer to the second read each
-- sensor's record stands under its origin and id, unless it is still the record of the first read;
-- and the answer holds nothing but records that the state then holds.
pub get_updates_snapshot-Tracks :
    (w : Worker) (us : List Update)
    → IsValid w
    → ColonFreeOrigins (deliver (get_updates_snapshot w).0 us).state
    → let w' = deliver (get_updates_snapshot w).0 us in
      let view = (get_updates_snapshot w').1 in
      ((k : String)
        → (Dict.lookup k w'.state ≡ Dict.lookup k w.state)
          ⊎ ((r : Record) × (Dict.lookup k w'.state ≡ some r)
              × (shown w'.node_id (global_id r.origin k) view ≡ some r)))
      × ((g : String) (r : Record)
          → shown w'.node_id g view ≡ some r
          → (k : String) × (Dict.lookup k w'.state ≡ some r) × (global_id r.origin k ≡ g))
get_updates_snapshot-Tracks w us v free =
    let w1 = (get_updates_snapshot w).0 in
    let w' = deliver w1 us in
    let valid = deliver-IsValid w1 us (get_updates_snapshot-IsValid v) in
    let ((complete, sound), current, _, _, _) = get_updates_snapshot-Shows w' valid free in
    (
      λ k. elim (Option-cases (Dict.lookup k w'.updates_ui)) [
        | inl e ↦ inl ((deliver-updates_ui_none k w1 us e).0 ∙ get_updates_snapshot-state w k)
        | inr (r, e) ↦ inr (r, current k r e, complete k r e)
      ],
      λ g r h. let (k, e, id) = sound g r h in (k, current k r e, id),
    )

-- The publisher misses no change either: whatever calls come after it took the updates of a valid worker, each sensor's record
-- is still the one of that time, or its present record is pending and comes with the next turn.
pub pop_replication_updates-Tracks :
    (w : Worker) (us : List Update) (k : String)
    → IsValid w
    → let w' = deliver (pop_replication_updates w).0 us in
      Tracks (Dict.lookup k w.state) (Dict.lookup k w'.state) (Dict.lookup k w'.updates_replication)
unfolding pop_replication_updates
pop_replication_updates-Tracks w us k v =
    let w1 = (pop_replication_updates w).0 in
    let w' = deliver w1 us in
    elim (Option-cases (Dict.lookup k w'.updates_replication)) [
      | inl e ↦ inl (e, (deliver-updates_replication_none k w1 us e).0)
      | inr (r, e) ↦ inr (
        r,
        e,
        (deliver-IsValid w1 us (pop_replication_updates-IsValid v)).replication_current k r e,
      )
    ]
