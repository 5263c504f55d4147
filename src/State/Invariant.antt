-- ===== src/State/Invariant.antt =====
-- What holds of a `NodeStateWorker` (state/node_state_worker.py) at all times, whatever calls, events
-- and reads reach it, and in which order.
use distributed_sensor_hub.Base.{
  ◌≡◌, ◌≢◌, inl, inr, String, Option, none, some, [], arith, string_eq, Bool-cases, Option-cases,
}
use distributed_sensor_hub.Base.Dict
use distributed_sensor_hub.Base.Dict.{NodupKeys, lookup-nil, lookup-insert, insert-NodupKeys}
use distributed_sensor_hub.State.Record.{Record}
use distributed_sensor_hub.State.Worker.{
  Worker, Update, init, check_update, store, merge_record, merge_update, event_update,
  handle_sensor_event, run_once, get_updates_snapshot, pop_replication_updates, stop,
}
use distributed_sensor_hub.State.Lww.{wins, merge_record_lem}
use distributed_sensor_hub.Value.{Fields}

-- Every pending entry is the record that the state holds now.
abbrev pub IsCurrent : Dict.Dict String Record → Dict.Dict String Record → Type 0
IsCurrent pending state =
    (k : String) (r : Record) → Dict.lookup k pending ≡ some r → Dict.lookup k state ≡ some r

abbrev pub IsNamed : Dict.Dict String Record → Type 0
IsNamed state =
    (k : String) (r : Record) → Dict.lookup k state ≡ some r → (k ≢ "") × (r.origin ≢ "")

pub record IsValid (w : Worker) : Type 0 where
  pub state_keys : NodupKeys w.state
  pub ui_keys : NodupKeys w.updates_ui
  pub replication_keys : NodupKeys w.updates_replication
  pub named : IsNamed w.state
  pub ui_current : IsCurrent w.updates_ui w.state
  pub replication_current : IsCurrent w.updates_replication w.state

pub init-IsValid : (node_id : String) → IsValid (init node_id)
unfolding Dict.lookup
init-IsValid node_id = record {
  state_keys = tt;
  ui_keys = tt;
  replication_keys = tt;
  named = λ k r h. absurd (cc);
  ui_current = λ k r h. h;
  replication_current = λ k r h. h;
}

insert-IsCurrent :
    (k : String) (r : Record) (pending state : Dict.Dict String Record)
    → IsCurrent pending state
    → IsCurrent (Dict.insert k r pending) (Dict.insert k r state)
insert-IsCurrent k r pending state c j s h =
    ground (arith, lookup-insert j k r pending, lookup-insert j k r state, c j s)

store-IsValid :
    {w : Worker} (k : String) (r : Record)
    → k ≢ ""
    → r.origin ≢ ""
    → IsValid w
    → IsValid (store w k r)
unfolding store
store-IsValid {w} k r key origin v = record {
  state_keys = insert-NodupKeys k r w.state v.state_keys;
  ui_keys = insert-NodupKeys k r w.updates_ui v.ui_keys;
  replication_keys = insert-NodupKeys k r w.updates_replication v.replication_keys;
  named = λ j s h. ground (arith, lookup-insert j k r w.state, v.named j s);
  ui_current = insert-IsCurrent k r _ _ v.ui_current;
  replication_current = insert-IsCurrent k r _ _ v.replication_current;
}

check_update_named :
    (u : Update) {k : String} {r : Record}
    → check_update u ≡ some (k, r)
    → (k ≢ "") × (r.origin ≢ "")
unfolding check_update
check_update_named u h = ground arith

merge_record-IsValid :
    {w : Worker} (k : String) (r : Record)
    → k ≢ ""
    → r.origin ≢ ""
    → IsValid w
    → IsValid (merge_record w k r).0
merge_record-IsValid {w} k r key origin v = elim (Bool-cases (wins r (Dict.lookup k w.state))) [
  | inl e ↦ rw (merge_record_lem, e) (store-IsValid k r key origin v)
  | inr e ↦ rw (merge_record_lem, e) v
]

pub merge_update-IsValid : {w : Worker} (u : Update) → IsValid w → IsValid (merge_update w u).0
unfolding merge_update
merge_update-IsValid {w} u v = elim (Option-cases (check_update u)) [
  | inl e ↦ rw (e, merge_update) v
  | inr ((k, r), e) ↦
      let (key, origin) = check_update_named u e in
      rw (e, merge_update) (merge_record-IsValid k r key origin v)
]

run_once-IsValid : {w : Worker} (event : Option Fields) → IsValid w → IsValid (run_once w event)
unfolding run_once handle_sensor_event
run_once-IsValid none v = v
run_once-IsValid {w} (some event) v = elim (Option-cases (event_update w.node_id event)) [
  | inl e ↦ rw (e, run_once, handle_sensor_event) v
  | inr (u, e) ↦ rw (e, run_once, handle_sensor_event) (merge_update-IsValid u v)
]

nil-IsCurrent : (state : Dict.Dict String Record) → IsCurrent [] state
nil-IsCurrent state k r h = absurd (ground (arith, lookup-nil {V = Record} k))

pub get_updates_snapshot-IsValid : {w : Worker} → IsValid w → IsValid (get_updates_snapshot w).0
unfolding get_updates_snapshot
get_updates_snapshot-IsValid {w} v = record {
  state_keys = v.state_keys;
  ui_keys = tt;
  replication_keys = v.replication_keys;
  named = v.named;
  ui_current = nil-IsCurrent w.state;
  replication_current = v.replication_current;
}

pub pop_replication_updates-IsValid :
    {w : Worker} → IsValid w → IsValid (pop_replication_updates w).0
unfolding pop_replication_updates
pop_replication_updates-IsValid {w} v = record {
  state_keys = v.state_keys;
  ui_keys = v.ui_keys;
  replication_keys = tt;
  named = v.named;
  ui_current = v.ui_current;
  replication_current = nil-IsCurrent w.state;
}

stop-IsValid : {w : Worker} → IsValid w → IsValid (stop w)
unfolding stop
stop-IsValid v = record {
  state_keys = v.state_keys;
  ui_keys = v.ui_keys;
  replication_keys = v.replication_keys;
  named = v.named;
  ui_current = v.ui_current;
  replication_current = v.replication_current;
}

-- One access to a worker by any of the node's threads. Each holds the lock, so they interleave whole.
pub data Step (w : Worker) : Worker → Type 0 where
  merge : (u : Update) → Step w (merge_update w u).0
  event : (e : Option Fields) → Step w (run_once w e)
  read_updates : Step w (get_updates_snapshot w).0
  pop : Step w (pop_replication_updates w).0
  halt : Step w (stop w)

pub data Reach (w : Worker) : Worker → Type 0 where
  here : Reach w w
  next : {x y : Worker} → Reach w x → Step x y → Reach w y

Step-IsValid : {w x : Worker} → Step w x → IsValid w → IsValid x
Step-IsValid (merge u) v = merge_update-IsValid u v
Step-IsValid (event e) v = run_once-IsValid e v
Step-IsValid read_updates v = get_updates_snapshot-IsValid v
Step-IsValid pop v = pop_replication_updates-IsValid v
Step-IsValid halt v = stop-IsValid v

-- In every state that a node reaches from its start no table has a key twice, sensors and origins
-- have names, and what is pending for the UI or for replication is what the state holds.
pub Reach-IsValid : (node_id : String) {w : Worker} → Reach (init node_id) w → IsValid w
Reach-IsValid node_id here = init-IsValid node_id
Reach-IsValid node_id (next r s) = Step-IsValid s (Reach-IsValid node_id r)
