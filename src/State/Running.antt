-- ===== src/State/Running.antt =====
-- The event loop of state/node_state_worker.py: what becomes of the events that its queue gives.
use mathlib.Core.List.{Memᴰ}
use mathlib.Core.Path.{subst}
use distributed_sensor_hub.Base.{
  ◌≡◌, refl, sym, ap, ◌∙◌, inl, inr, String, false, Option, none, some, List, [], ◌∷◌, arith,
  string_eq, Option-cases, Bool-cases,
}
use distributed_sensor_hub.Base.Dict
use distributed_sensor_hub.Base.Lists.{Memᴰ-cases}
use distributed_sensor_hub.State.Convergence.{Covers, receive-Covers, receive-Covers_self}
use distributed_sensor_hub.State.Lww.{wins, lookup-merge_update, merge_record_lem}
use distributed_sensor_hub.State.Record.{Record}
use distributed_sensor_hub.State.Worker.{
  Worker, Update, check_update, store, merge_record, merge_update, event_update,
  handle_sensor_event, run_once, run,
}
use distributed_sensor_hub.Value.{Fields}

merge_record_keeps :
    (w : Worker) (k : String) (r : Record)
    → ((merge_record w k r).0.node_id ≡ w.node_id) × ((merge_record w k r).0.stopped ≡ w.stopped)
unfolding store
merge_record_keeps w k r = elim (Bool-cases (wins r (Dict.lookup k w.state))) [
  | inl win ↦ rw (merge_record_lem w k r, win) (refl, refl)
  | inr lose ↦ rw (merge_record_lem w k r, lose) (refl, refl)
]

-- A write changes neither the node's id nor the stop flag.
pub merge_update_keeps :
    (w : Worker) (u : Update)
    → ((merge_update w u).0.node_id ≡ w.node_id) × ((merge_update w u).0.stopped ≡ w.stopped)
unfolding merge_update merge_record store
merge_update_keeps w u = elim (Option-cases (check_update u)) [
  | inl bad ↦ rw (bad, merge_update) (refl, refl)
  | inr ((k, r), valid) ↦ rw (valid, merge_update) (merge_record_keeps w k r)
]

-- What one round does: it handles an event that can be read, and keeps the worker otherwise.
pub run_once-event :
    (w : Worker) (e : Fields) (u : Update)
    → event_update w.node_id e ≡ some u
    → run_once w (some e) ≡ (merge_update w u).0
unfolding run_once handle_sensor_event
run_once-event w e u h = ground arith

pub run_once_unreadable :
    (w : Worker) (e : Fields) → event_update w.node_id e ≡ none → run_once w (some e) ≡ w
unfolding run_once handle_sensor_event
run_once_unreadable w e h = ground arith

run_once_keeps :
    (w : Worker) (e : Option Fields)
    → ((run_once w e).node_id ≡ w.node_id) × ((run_once w e).stopped ≡ w.stopped)
unfolding run_once handle_sensor_event
run_once_keeps w none = (refl, refl)
run_once_keeps w (some e) = elim (Option-cases (event_update w.node_id e)) [
  | inl bad ↦ rw (bad, run_once) (refl, refl)
  | inr (u, h) ↦ rw (run_once-event w e u h) (merge_update_keeps w u)
]

run_once-Covers_self :
    (w : Worker) (e : Fields) (u : Update) (k : String) (r : Record)
    → event_update w.node_id e ≡ some u
    → check_update u ≡ some (k, r)
    → Covers r (Dict.lookup k (run_once w (some e)).state)
run_once-Covers_self w e u k r read valid =
    subst (Covers r)
      (sym
        (ap (λ v. Dict.lookup k v.state) (run_once-event w e u read) ∙ lookup-merge_update w k u))
      (receive-Covers_self k r (Dict.lookup k w.state) u valid)

run_once-Covers :
    (w : Worker) (e : Option Fields) (k : String) (r : Record)
    → Covers r (Dict.lookup k w.state)
    → Covers r (Dict.lookup k (run_once w e).state)
unfolding run_once handle_sensor_event
run_once-Covers w none k r h = h
run_once-Covers w (some e) k r h = elim (Option-cases (event_update w.node_id e)) [
  | inl bad ↦ rw (bad, run_once) h
  | inr (u, read) ↦
      subst (Covers r)
        (sym
          (ap (λ v. Dict.lookup k v.state) (run_once-event w e u read) ∙ lookup-merge_update w k u))
        (receive-Covers k r (Dict.lookup k w.state) u h)
]

run-going :
    (w : Worker) (e : Option Fields) (es : List (Option Fields))
    → w.stopped ≡ false
    → run w (e ∷ es) ≡ run (run_once w e) es
unfolding run
run-going w e es going = ground arith

run-Covers_old :
    (w : Worker) (es : List (Option Fields)) (k : String) (r : Record)
    → w.stopped ≡ false
    → Covers r (Dict.lookup k w.state)
    → Covers r (Dict.lookup k (run w es).state)
unfolding run
run-Covers_old w [] k r going h = h
run-Covers_old w (e ∷ es) k r going h =
    subst (λ v. Covers r (Dict.lookup k v.state)) (sym (run-going w e es going))
      (run-Covers_old (run_once w e) es k r ((run_once_keeps w e).1 ∙ going)
        (run_once-Covers w e k r h))

-- A worker that is not stopped has, after the loop has read the queue's entries, for every event among them
-- that it accepts a record of the sensor that is at least as new as the event's.
pub run-Covers :
    (w : Worker) (es : List (Option Fields)) (e : Fields) (u : Update) (k : String) (r : Record)
    → w.stopped ≡ false
    → Memᴰ (some e) es
    → event_update w.node_id e ≡ some u
    → check_update u ≡ some (k, r)
    → Covers r (Dict.lookup k (run w es).state)
run-Covers w [] e u k r going m read valid = elim m [ ]
run-Covers w (x ∷ es) e u k r going m read valid =
    let (named, flag) = run_once_keeps w x in
    subst (λ v. Covers r (Dict.lookup k v.state)) (sym (run-going w x es going))
      (elim (Memᴰ-cases m) [
        | inl here ↦ run-Covers_old (run_once w x) es k r (flag ∙ going) (
            subst (λ y. Covers r (Dict.lookup k (run_once w y).state)) here
              (run_once-Covers_self w e u k r read valid))
        | inr later ↦
            run-Covers (run_once w x) es e u k r (flag ∙ going) later
              (ap (λ n. event_update n e) named ∙ read) valid
      ])
