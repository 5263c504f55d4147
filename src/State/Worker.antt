-- ===== src/State/Worker.antt =====
-- `NodeStateWorker` of state/node_state_worker.py: the merge, the event loop and the reads. A method
-- returns the new worker beside its result. Log lines and the lock are left out: each method below
-- is what the source does while it holds the lock.
use Prim.Native.String.{compare as compare_text}
use distributed_sensor_hub.Base.{
  String, ◌<>◌, Bool, true, false, ◌&&◌, Option, none, some, List, [], ◌∷◌, ◌==◌, string_eq,
  if◌then◌else◌,
}
use distributed_sensor_hub.Base.Int.{compare_ℤ}
use distributed_sensor_hub.Base.Dict
use distributed_sensor_hub.Base.Dict.{Dict}
use distributed_sensor_hub.State.Record.{Meta, Record, is_gt}
use distributed_sensor_hub.Value.{
  Value, obj, Fields, end, int_value, as_int, as_str, as_dict, get, get_or, index,
}
use text.Mathlib.Text.{is_eq}

pub record Worker : Type 0 where
  pub node_id : String
  pub state : Dict String Record
  pub updates_ui : Dict String Record
  pub updates_replication : Dict String Record
  pub stopped : Bool

-- `__init__`
abbrev pub init : String → Worker
init node_id = record {
  node_id = node_id;
  state = [];
  updates_ui = [];
  updates_replication = [];
  stopped = false;
}

-- `_normalize_meta`
unfoldable pub normalize_meta : Value → Meta
normalize_meta meta = elim (as_dict meta) [
  | some fs ↦ record { unit = get "unit" fs; period_ms = get "period_ms" fs }
  | none ↦ record { unit = get "unit" end; period_ms = get "period_ms" end }
]

-- `isinstance(x, str) and x != ""`
abbrev pub nonempty_str : Value → Option String
nonempty_str x = elim (as_str x) [ none ↦ none | some s ↦ if s == "" then none else some s ]

-- The arguments of one call of `merge_update`.
pub record Update : Type 0 where
  pub sensor_id : Value
  pub value : Value
  pub ts_ms : Value
  pub origin : Value
  pub meta : Value

-- The checks at the head of `merge_update`, and the record that it builds. `none` is its early
-- `return False`.
unfoldable pub check_update : Update → Option (String × Record)
check_update u = elim (nonempty_str u.sensor_id) [
  | none ↦ none
  | some sensor_id ↦ elim (nonempty_str u.origin) [
    | none ↦ none
    | some origin ↦ elim (as_int u.ts_ms) [
      | none ↦ none
      | some ts_ms ↦ some (
        sensor_id,
        record { value = u.value; ts_ms = ts_ms; origin = origin; meta = normalize_meta u.meta },
      )
    ]
  ]
]

-- The three writes that each applied branch makes.
unfoldable pub store : Worker → String → Record → Worker
store w sensor_id update = record w {
  state = Dict.insert sensor_id update w.state;
  updates_ui = Dict.insert sensor_id update w.updates_ui;
  updates_replication = Dict.insert sensor_id update w.updates_replication;
}

-- The locked block of `merge_update`.
unfoldable pub merge_record : Worker → String → Record → Worker × Bool
merge_record w sensor_id update = elim (Dict.lookup sensor_id w.state) [
  | none ↦ (store w sensor_id update, true)
  | some prev ↦
      let times = compare_ℤ (int_value update.ts_ms) (int_value prev.ts_ms) in
      if is_gt times
      then (store w sensor_id update, true)
      else if is_eq times && is_gt (compare_text update.origin prev.origin)
      then (store w sensor_id update, true)
      else (w, false)
]

unfoldable pub merge_update : Worker → Update → Worker × Bool
merge_update w u = elim (check_update u) [
  | none ↦ (w, false)
  | some (sensor_id, update) ↦ merge_record w sensor_id update
]

-- The reads of `_handle_sensor_event`, and the arguments of its call; `none` is a `KeyError`.
unfoldable pub event_update : String → Fields → Option Update
event_update node_id event = elim (index "sensor_id" event) [
  | none ↦ none
  | some sensor_id ↦ elim (index "value" event) [
    | none ↦ none
    | some value ↦ elim (index "ts_ms" event) [
      | none ↦ none
      | some ts_ms ↦ some (record {
        sensor_id = sensor_id;
        value = value;
        ts_ms = ts_ms;
        origin = Value.str node_id;
        meta = get_or "meta" (obj end) event;
      })
    ]
  ]
]

-- `_handle_sensor_event`; `none` is a `KeyError`.
unfoldable pub handle_sensor_event : Worker → Fields → Option Worker
unfolding event_update
handle_sensor_event w event = elim (event_update w.node_id event) [
  | none ↦ none
  | some u ↦ some (merge_update w u).0
]

-- One round of `run`: the queue gives an event, or `Empty` after its timeout. An exception of the
-- handler is logged, and the round ends.
unfoldable pub run_once : Worker → Option Fields → Worker
run_once w none = w
run_once w (some event) = elim (handle_sensor_event w event) [ none ↦ w | some w' ↦ w' ]

-- `run`, over what the successive reads of the queue give. A worker that was told to stop reads no more.
unfoldable pub run : Worker → List (Option Fields) → Worker
run w [] = w
run w (event ∷ events) = let rest = run (run_once w event) events in if w.stopped then w else rest

-- `stop`
unfoldable pub stop : Worker → Worker
stop w = record w { stopped = true }

-- The origin under which a record is shown.
unfoldable pub shown_origin : String → Record → String
shown_origin node_id r = if r.origin == "" then node_id else r.origin

-- `f"{origin}:{sensor_id}"`
unfoldable pub global_id : String → String → String
global_id origin sensor_id = origin <> (":" <> sensor_id)

-- The loop of `_snapshot_grouped_for_ui`.
unfoldable pub group : String → Dict String Record → Dict String Record → Dict String Record
group node_id [] per_node = per_node
group node_id ((sensor_id, r) ∷ rest) per_node =
    group node_id rest (Dict.insert (global_id (shown_origin node_id r) sensor_id) r per_node)

abbrev pub Snapshot : Type 0
Snapshot = Dict String (Dict String Record)

unfoldable pub snapshot_grouped_for_ui : String → Dict String Record → Snapshot
snapshot_grouped_for_ui node_id state_map = (node_id, group node_id state_map []) ∷ []

unfoldable pub get_state_snapshot : Worker → Snapshot
get_state_snapshot w = snapshot_grouped_for_ui w.node_id w.state

unfoldable pub get_updates_snapshot : Worker → Worker × Snapshot
get_updates_snapshot w =
    (record w { updates_ui = [] }, snapshot_grouped_for_ui w.node_id w.updates_ui)

unfoldable pub pop_replication_updates : Worker → Worker × Snapshot
pop_replication_updates w = (
  record w { updates_replication = [] },
  (w.node_id, group w.node_id w.updates_replication []) ∷ [],
)
