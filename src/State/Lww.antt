-- ===== src/State/Lww.antt =====
-- `merge_update` of state/node_state_worker.py against a last-writer-wins register for each sensor.
use Prim.Native.String.{compare as compare_text}
use text.Mathlib.Text.{is_eq}
use distributed_sensor_hub.Base.{
  ◌≡◌, inl, inr, String, Bool, true, false, ◌&&◌, ◌||◌, Option, none, some, arith, ◌==◌, string_eq,
  if◌then◌else◌, Option-cases,
}
use distributed_sensor_hub.Base.Int.{compare_ℤ}
use distributed_sensor_hub.Base.Dict
use distributed_sensor_hub.Base.Dict.{lookup-insert}
use distributed_sensor_hub.State.Record.{Record, is_gt, stamp, newer}
use distributed_sensor_hub.State.Worker.{
  Worker, Update, check_update, store, merge_record, merge_update,
}
use distributed_sensor_hub.Value.{int_value}

-- A register holds nothing or the record with the greatest stamp so far.
unfoldable pub wins : Record → Option Record → Bool
wins r none = true
wins r (some prev) = newer (stamp r) (stamp prev)

unfoldable pub register : Option Record → Record → Option Record
register old r = if wins r old then some r else old

-- The two tests of the source are the order of stamps.
newer_iff :
    (r s : Record)
    → newer (stamp r) (stamp s) ≡ (
        is_gt (compare_ℤ (int_value r.ts_ms) (int_value s.ts_ms))
        || (is_eq (compare_ℤ (int_value r.ts_ms) (int_value s.ts_ms))
            && is_gt (compare_text r.origin s.origin)))
unfolding newer
newer_iff r s = ground arith

-- The locked block stores the record in all three tables, or changes nothing.
pub merge_record_lem :
    (w : Worker) (k : String) (r : Record)
    → merge_record w k r
      ≡ (if wins r (Dict.lookup k w.state) then (store w k r, true) else (w, false))
unfolding merge_record wins
merge_record_lem w k r = elim (Option-cases (Dict.lookup k w.state)) [
  | inl e ↦ ground arith
  | inr (prev, e) ↦ ground (arith, newer_iff r prev)
]

-- Of one write the worker keeps: the flag says whether the write won, the sensor's register takes
-- it, and every other sensor keeps its record.
pub lookup-merge_record :
    (w : Worker) (j k : String) (r : Record)
    → Dict.lookup j (merge_record w k r).0.state
      ≡ (if j == k then register (Dict.lookup k w.state) r else Dict.lookup j w.state)
unfolding register store
lookup-merge_record w j k r = rw merge_record_lem (ground (arith, lookup-insert j k r w.state))

pub merge_record_flag :
    (w : Worker) (k : String) (r : Record) → (merge_record w k r).1 ≡ wins r (Dict.lookup k w.state)
merge_record_flag w k r = rw merge_record_lem (ground arith)

-- What one call, valid or not, means to the register of one sensor.
unfoldable pub receive : String → Option Record → Update → Option Record
receive j old u = elim (check_update u) [
  | none ↦ old
  | some (k, r) ↦ if j == k then register old r else old
]

-- What one write means to the pending entry of the sensor `j`: it is replaced just if the write wins.
unfoldable pub pending : String → Option Record → Option Record → Update → Option Record
pending j old waiting u = elim (check_update u) [
  | none ↦ waiting
  | some (k, r) ↦ if j == k && wins r old then some r else waiting
]

-- Whether a call is applied: it is valid, and its record wins over the one that the state holds.
unfoldable pub applies : Worker → Update → Bool
applies w u = elim (check_update u) [ none ↦ false | some (k, r) ↦ wins r (Dict.lookup k w.state) ]

pub lookup-merge_update :
    (w : Worker) (j : String) (u : Update)
    → Dict.lookup j (merge_update w u).0.state ≡ receive j (Dict.lookup j w.state) u
unfolding merge_update receive
lookup-merge_update w j u = elim (Option-cases (check_update u)) [
  | inl e ↦ ground arith
  | inr ((k, r), e) ↦ ground (arith, lookup-merge_record w j k r)
]

lookup-updates_ui :
    (w : Worker) (j : String) (u : Update)
    → Dict.lookup j (merge_update w u).0.updates_ui
      ≡ pending j (Dict.lookup j w.state) (Dict.lookup j w.updates_ui) u
unfolding merge_update pending store
lookup-updates_ui w j u = elim (Option-cases (check_update u)) [
  | inl e ↦ ground arith
  | inr ((k, r), e) ↦ ground (arith, merge_record_lem w k r, lookup-insert j k r w.updates_ui)
]

lookup-updates_replication :
    (w : Worker) (j : String) (u : Update)
    → Dict.lookup j (merge_update w u).0.updates_replication
      ≡ pending j (Dict.lookup j w.state) (Dict.lookup j w.updates_replication) u
unfolding merge_update pending store
lookup-updates_replication w j u = elim (Option-cases (check_update u)) [
  | inl e ↦ ground arith
  | inr ((k, r), e) ↦
      ground (arith, merge_record_lem w k r, lookup-insert j k r w.updates_replication)
]

merge_update_flag : (w : Worker) (u : Update) → (merge_update w u).1 ≡ applies w u
unfolding merge_update applies
merge_update_flag w u = elim (Option-cases (check_update u)) [
  | inl e ↦ ground arith
  | inr ((k, r), e) ↦ ground (arith, merge_record_flag w k r)
]

-- A call of `merge_update`, valid or not, refines one last-writer-wins register for each sensor. It
-- answers whether its record won; the sensor's register takes the record just then, and both tables
-- of pending entries take it with the state; every other sensor keeps what it had.
pub merge_update_lem :
    (w : Worker) (j : String) (u : Update)
    → let (w', applied) = merge_update w u in
      (applied ≡ applies w u)
      × (Dict.lookup j w'.state ≡ receive j (Dict.lookup j w.state) u)
      × (Dict.lookup j w'.updates_ui
          ≡ pending j (Dict.lookup j w.state) (Dict.lookup j w.updates_ui) u)
      × (Dict.lookup j w'.updates_replication
          ≡ pending j (Dict.lookup j w.state) (Dict.lookup j w.updates_replication) u)
merge_update_lem w j u = (
  merge_update_flag w u,
  lookup-merge_update w j u,
  lookup-updates_ui w j u,
  lookup-updates_replication w j u,
)
