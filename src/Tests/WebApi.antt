-- ===== src/Tests/WebApi.antt =====
-- A request to the web API (webapi/http_api.py) and the reads of the pending entries, at a concrete input.
use distributed_sensor_hub.Base.{◌≡◌, ◌⊎◌, refl, String, some, [], ◌∷◌, string_eq}
use distributed_sensor_hub.Base.Dict
use distributed_sensor_hub.State.Convergence.{deliver}
use distributed_sensor_hub.State.Polling.{get_updates_snapshot-Tracks}
use distributed_sensor_hub.State.Invariant.{init-IsValid, merge_update-IsValid}
use distributed_sensor_hub.State.Record.{Record}
use distributed_sensor_hub.State.Snapshot.{shown}
use distributed_sensor_hub.Value.{get_or}
use distributed_sensor_hub.State.Worker.{
  Worker, global_id, init, merge_update, merge_record, check_update, store, normalize_meta,
  get_updates_snapshot,
}
use distributed_sensor_hub.Tests.State.{first, second, second_record, second-ColonFree}

-- The record of the node "a", read by the page before that of "b" wins.
abbrev read_before : Worker
read_before = (merge_update (init "a") first).0

abbrev later : Worker
later = deliver (get_updates_snapshot read_before).0 (second ∷ first ∷ [])

later-state : later.state ≡ ("temp", second_record) ∷ []
unfolding deliver get_updates_snapshot merge_update merge_record check_update store string_eq
    normalize_meta get_or Dict.lookup Dict.insert
later-state = refl

get_updates_snapshot-Tracks_example :
    let view = (get_updates_snapshot later).1 in
    ((k : String)
      → (Dict.lookup k later.state ≡ Dict.lookup k read_before.state)
        ⊎ ((r : Record) × (Dict.lookup k later.state ≡ some r)
            × (shown later.node_id (global_id r.origin k) view ≡ some r)))
    × ((g : String) (r : Record)
        → shown later.node_id g view ≡ some r
        → (k : String) × (Dict.lookup k later.state ≡ some r) × (global_id r.origin k ≡ g))
get_updates_snapshot-Tracks_example =
    get_updates_snapshot-Tracks read_before (second ∷ first ∷ [])
      (merge_update-IsValid first (init-IsValid "a")) (second-ColonFree later.state later-state)
