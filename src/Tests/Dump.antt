-- ===== src/Tests/Dump.antt =====
-- The dump of a state with two origins (state/node_state_worker.py).
use mathlib.Core.List.{Memᴰ, Permᴰ}
use distributed_sensor_hub.Base.{
  ◌≡◌, refl, ℕ, String, Bool, true, some, [], ◌∷◌, map, ◌==◌, string_eq,
}
use distributed_sensor_hub.Base.Dict
use distributed_sensor_hub.Base.Dict.{Dict, NodupKeys}
use distributed_sensor_hub.Base.Lists.{length}
use distributed_sensor_hub.Base.Int.{pos}
use distributed_sensor_hub.Base.Sorting.{
  sort_with, insert_with, after, IsSorted, IsOrdered, after_pair,
}
use distributed_sensor_hub.State.Dump.{Bucket, collect, put, sort_items, item, dump_full_state}
use distributed_sensor_hub.State.Dump.Listing.{
  listed, entries, counts, IsBucket, dump_full_state_lem,
}
use distributed_sensor_hub.State.Log.{
  Format, log_msg, format_record_line, sort_key, count_of, method_of, log_full_state,
}
use distributed_sensor_hub.State.Log.Lines.{
  first_line, record_line, occurrences, log_full_state_lem,
}
use distributed_sensor_hub.State.Record.{Record}
use distributed_sensor_hub.State.Worker.{Worker, init}
use distributed_sensor_hub.Value.{null, int, whole}

abbrev record_of : String → Record
record_of origin = record {
  value = int (pos 20);
  ts_ms = whole (pos 5);
  origin = origin;
  meta = record { unit = null; period_ms = null };
}

abbrev three_sensors : Worker
three_sensors = record (init "a") {
  state = ("y", record_of "b") ∷ ("x", record_of "b") ∷ ("z", record_of "a") ∷ [];
}

sorted :
    (dump_full_state three_sensors).by_origin
    ≡ ("a", record { count = 1; sensors = item "z" (record_of "a") ∷ [] })
      ∷ (
        "b",
        record { count = 2; sensors = item "x" (record_of "b") ∷ item "y" (record_of "b") ∷ [] },
      )
      ∷ []
unfolding dump_full_state sort_with sort_items collect put Dict.insert string_eq insert_with after
    Dict.lookup
sorted = refl

dump_full_state_lem_example :
    let full = dump_full_state three_sensors in
    Permᴰ (listed full.by_origin) (entries three_sensors.state)
    × IsSorted (λ e. e.0) full.by_origin
    × ((o : String) (b : Bucket) → Memᴰ (o, b) full.by_origin → IsBucket b)
    × (full.total ≡ counts full.by_origin)
dump_full_state_lem_example = dump_full_state_lem three_sensors

abbrev format : Format
format = record { value = λ v. "?"; counts = λ d. "{..}" }

abbrev all_methods : String → Bool
all_methods name = true

abbrev info_only : String → Bool
info_only name = name == "info"

logged :
    format_record_line format "x" (record_of "b")
    ≡ "sensor_id=x winner_origin=b ts_ms=? value=? unit=? period_ms=?"
unfolding format_record_line
logged = refl

fallen_back : log_msg (some info_only) "debug" "m" ≡ record { level = "info"; text = "m" } ∷ []
unfolding log_msg string_eq
fallen_back = refl

log_full_state_lem_example :
    (items : Dict String Record) × (counts : Dict String ℕ) × Permᴰ items three_sensors.state
    × IsOrdered (after_pair sort_key) items
    × IsSorted (λ e. e.0) counts
    × NodupKeys counts
    × ((o : String) → count_of o counts ≡ occurrences o three_sensors.state)
    × (log_full_state format (some all_methods) "WARNING" three_sensors
        ≡ first_line format (method_of "WARNING") "a" (length three_sensors.state) counts
          ∷ map (record_line format (method_of "WARNING")) items)
log_full_state_lem_example = log_full_state_lem format all_methods "WARNING" three_sensors refl
