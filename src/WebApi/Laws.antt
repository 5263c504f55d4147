-- ===== src/WebApi/Laws.antt =====
-- What a GET request to webapi/http_api.py does to the state worker, and how it is answered.
use distributed_sensor_hub.Base.{
  ℕ, List, refl, ◌≡◌, ◌≢◌, ap, String, true, false, ◌||◌, [], arith, ◌==◌, string_eq, if◌then◌else◌,
}
use distributed_sensor_hub.Base.Result.{Result, ok, raise}
use distributed_sensor_hub.State.Worker.{Worker, get_state_snapshot, get_updates_snapshot}
use distributed_sensor_hub.Value.{Value, obj}
use distributed_sensor_hub.WebApi.{snapshot_fields, answer, handle_updates, do_get}

state-ne-updates : ◌≢◌ {A = String} "/api/state" "/api/updates"
unfolding string_eq
state-ne-updates h = let e : true ≡ false = ap (λ s. s == "/api/state") h in absurd (cc)

answer-ok : (r : Result (List ℕ)) (payload : List ℕ) → r ≡ ok payload → (answer r).status ≡ 200
unfolding answer
answer-ok (ok p) payload e = refl
answer-ok (raise x) payload e = absurd (cc)

-- A GET of any path leaves the state and the updates that wait for replication as they are, and takes the
-- updates for the page just at `/api/updates`, whether the answer can be written as JSON or not.
-- Where it can, the answer is 200 on the two paths of the API, and 404 on any other path.
pub do_get_lem :
    (dumps : Value → Result (List ℕ)) (path : String) (w : Worker)
    → let (w', r) = do_get dumps path w in
      (w'.state ≡ w.state)
      × (w'.updates_replication ≡ w.updates_replication)
      × (w'.updates_ui ≡ (if path == "/api/updates" then [] else w.updates_ui))
      × (((v : Value) → (payload : List ℕ) × (dumps v ≡ ok payload))
          → r.status ≡ (if path == "/api/state" || path == "/api/updates" then 200 else 404))
unfolding do_get handle_updates get_updates_snapshot
do_get_lem dumps path w = elim (string_eq.dec path "/api/state") [
  | yes p ↦ (
    ground arith,
    ground arith,
    ground (arith, state-ne-updates),
    λ total.
        let (y, e) = total (obj (snapshot_fields (get_state_snapshot w))) in
        ground (arith, answer-ok (dumps (obj (snapshot_fields (get_state_snapshot w)))) y e),
  )
  | no m ↦ elim (string_eq.dec path "/api/updates") [
    | yes q ↦ (
      ground arith,
      ground arith,
      ground arith,
      λ total.
          let (y, e) = total (obj (snapshot_fields (get_updates_snapshot w).1)) in
          ground (arith, answer-ok (dumps (obj (snapshot_fields (get_updates_snapshot w).1))) y e),
    )
    | no n ↦ (ground arith, ground arith, ground arith, λ total. ground arith)
  ]
]
