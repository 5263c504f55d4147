-- ===== src/Replication/Network/Moves.antt =====
-- What one access to a worker of state/node_state_worker.py may do to it, as far as a network depends on it.
use mathlib.Core.List.Memᴰ
use mathlib.Core.List.{Memᴰ}
use mathlib.Core.Path.{subst}
use distributed_sensor_hub.Base.{
  ◌≡◌, ◌⊎◌, refl, sym, ap, ◌∙◌, inl, inr, String, Option, none, some, List, [], ◌∷◌, arith,
  string_eq, Option-cases, Bool-cases,
}
use distributed_sensor_hub.Base.Dict
use distributed_sensor_hub.Base.Lists.{Memᴰ-cases}
use distributed_sensor_hub.Protocol.Handlers.{
  sensor_update_args, handle_sensor_update, handle_sensor_update_lem,
}
use distributed_sensor_hub.Protocol.Message.{Message}
use distributed_sensor_hub.Replication.Network.{event_calls}
use distributed_sensor_hub.State.Convergence.{
  Covers, Writes, deliver, receive-Covers, receive-Covers_self, receive-Writes,
}
use distributed_sensor_hub.State.Invariant.{
  IsValid, merge_update-IsValid, get_updates_snapshot-IsValid,
}
use distributed_sensor_hub.State.Lww.{receive, register, pending, wins, merge_update_lem}
use distributed_sensor_hub.State.Record.{Record}
use distributed_sensor_hub.State.Running.{merge_update_keeps, run_once-event, run_once_unreadable}
use distributed_sensor_hub.State.Worker.{
  Worker, Update, check_update, merge_update, event_update, run_once, get_updates_snapshot,
}
use distributed_sensor_hub.Value.{Fields}

-- `v` is `w` after some of the calls `us`: no record gives way to an older one, a record is an
-- old one or one that a call writes, and a new one waits for the publisher.
pub record Moves (us : List Update) (w v : Worker) : Type 0 where
  pub valid : IsValid w → IsValid v
  pub id : v.node_id ≡ w.node_id
  pub keeps :
      (k : String) (r : Record)
      → Covers r (Dict.lookup k w.state)
      → Covers r (Dict.lookup k v.state)
  pub takes : (k : String) (r : Record) → Writes us k r → Covers r (Dict.lookup k v.state)
  pub known :
      (k : String) (r : Record)
      → Dict.lookup k v.state ≡ some r
      → (Dict.lookup k w.state ≡ some r) ⊎ Writes us k r
  pub waits :
      (k : String) (r : Record)
      → Dict.lookup k v.state ≡ some r
      → (Dict.lookup k v.updates_replication ≡ some r)
        ⊎ ((Dict.lookup k w.state ≡ some r)
            × (Dict.lookup k v.updates_replication ≡ Dict.lookup k w.updates_replication))

pub still-Moves : (w : Worker) → Moves [] w w
still-Moves w = record {
  valid = λ v. v;
  id = refl;
  keeps = λ k r h. h;
  takes = λ k r (u, m, e). elim m [ ];
  known = λ k r h. inl h;
  waits = λ k r h. inr (h, refl);
}

pub get_updates_snapshot-Moves : (w : Worker) → Moves [] w (get_updates_snapshot w).0
unfolding get_updates_snapshot
get_updates_snapshot-Moves w = record {
  valid = get_updates_snapshot-IsValid;
  id = refl;
  keeps = λ k r h. h;
  takes = λ k r (u, m, e). elim m [ ];
  known = λ k r h. inl h;
  waits = λ k r h. inr (h, refl);
}

receive_waits :
    (k : String) (old waiting : Option Record) (u : Update) (r : Record)
    → receive k old u ≡ some r
    → (pending k old waiting u ≡ some r) ⊎ ((old ≡ some r) × (pending k old waiting u ≡ waiting))
unfolding receive register pending
receive_waits k old waiting u r h = elim (Option-cases (check_update u)) [
  | inl bad ↦ inr (ground arith, ground arith)
  | inr ((j, s), valid) ↦ elim (string_eq.dec k j) [
    | yes here ↦ elim (Bool-cases (wins s old)) [
      | inl won ↦ inl (ground arith)
      | inr lost ↦ inr (ground arith, ground arith)
    ]
    | no other ↦ inr (ground arith, ground arith)
  ]
]

pub merge_update-Moves : (w : Worker) (u : Update) → Moves (u ∷ []) w (merge_update w u).0
merge_update-Moves w u = record {
  valid = merge_update-IsValid u;
  id = (merge_update_keeps w u).0;
  keeps = λ k r h.
      subst (Covers r) (sym (merge_update_lem w k u).1)
        (receive-Covers k r (Dict.lookup k w.state) u h);
  takes = λ k r (v, m, e).
      subst (Covers r) (sym (merge_update_lem w k u).1)
        (receive-Covers_self k r (Dict.lookup k w.state) u (ap check_update (sym (only v m)) ∙ e));
  known = λ k r h.
      elim (receive-Writes k r (Dict.lookup k w.state) u (sym (merge_update_lem w k u).1 ∙ h)) [
        | inl before ↦ inl before
        | inr valid ↦ inr (u, Memᴰ.head refl, valid)
      ];
  waits = λ k r h.
      let (_, state, _, rep) = merge_update_lem w k u in
      elim (receive_waits k (Dict.lookup k w.state) (Dict.lookup k w.updates_replication) u r
        (sym state ∙ h)) [
          | inl new ↦ inl (rep ∙ new)
          | inr (before, same) ↦ inr (before, rep ∙ same)
        ];
}
  where
    only : (v : Update) → Memᴰ v (u ∷ []) → v ≡ u
    only v m = elim (Memᴰ-cases m) [ inl e ↦ e | inr later ↦ elim later [ ] ]

pub handle_sensor_update-Moves :
    (w : Worker) (m : Message) → Moves (sensor_update_args m ∷ []) w (handle_sensor_update w m)
handle_sensor_update-Moves w m =
    subst (Moves (sensor_update_args m ∷ []) w) (sym (handle_sensor_update_lem w m))
      (merge_update-Moves w (sensor_update_args m))

pub run_once-Moves :
    (w : Worker) (e : Option Fields) → Moves (event_calls w.node_id e) w (run_once w e)
unfolding run_once event_calls
run_once-Moves w none = still-Moves w
run_once-Moves w (some e) = elim (Option-cases (event_update w.node_id e)) [
  | inl bad ↦ rw (bad, run_once_unreadable w e bad, event_calls) (still-Moves w)
  | inr (u, read) ↦ rw (read, run_once-event w e u read, event_calls) (merge_update-Moves w u)
]

Moves-chain :
    (u : Update) (us : List Update) {w v x : Worker}
    → Moves (u ∷ []) w v
    → Moves us v x
    → Moves (u ∷ us) w x
Moves-chain u us p q = record {
  valid = λ h. q.valid (p.valid h);
  id = q.id ∙ p.id;
  keeps = λ k r h. q.keeps k r (p.keeps k r h);
  takes = λ k r (v, m, e). elim (Memᴰ-cases m) [
    | inl now ↦ q.keeps k r (p.takes k r (v, Memᴰ.head now, e))
    | inr later ↦ q.takes k r (v, later, e)
  ];
  known = λ k r h. elim (q.known k r h) [
    | inl before ↦ elim (p.known k r before) [
      | inl old ↦ inl old
      | inr (v, m, e) ↦ inr (v, Memᴰ.append_left us m, e)
    ]
    | inr (v, m, e) ↦ inr (v, Memᴰ.tail m, e)
  ];
  waits = λ k r h. elim (q.waits k r h) [
    | inl new ↦ inl new
    | inr (before, same) ↦ elim (p.waits k r before) [
      | inl new ↦ inl (same ∙ new)
      | inr (old, also) ↦ inr (old, same ∙ also)
    ]
  ];
}

pub deliver-Moves : (w : Worker) (us : List Update) → Moves us w (deliver w us)
unfolding deliver
deliver-Moves w [] = still-Moves w
deliver-Moves w (u ∷ us) =
    Moves-chain u us (merge_update-Moves w u) (deliver-Moves (merge_update w u).0 us)
