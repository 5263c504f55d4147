-- ===== src/State/Log.antt =====
-- The log lines of state/node_state_worker.py: `log_full_state`, `_log_msg`, `_format_record_line` and
-- `_maybe_log_periodic_dump`, with the fields that `__init__` sets for them. A line is the name of the
-- logger's method and its text. Times are in milliseconds.
pub mod Lines
use distributed_sensor_hub.Base.{
  ℕ, suc, ◌+◌, String, ◌<>◌, Bool, true, false, ◌||◌, Option, none, some, List, [], ◌∷◌, ◌++◌, ltb,
  ◌==◌, string_eq, if◌then◌else◌,
}
use distributed_sensor_hub.Base.Decimal.{show}
use distributed_sensor_hub.Base.Dict
use distributed_sensor_hub.Base.Dict.{Dict}
use distributed_sensor_hub.Base.Lists.{length}
use distributed_sensor_hub.Base.Sorting.{sort_with, after_pair, sort_by}
use distributed_sensor_hub.Base.Words.{lower}
use distributed_sensor_hub.State.Dump.{listed_origin}
use distributed_sensor_hub.State.Record.{Record}
use distributed_sensor_hub.State.Worker.{Worker}
use distributed_sensor_hub.Value.{Value, of_int}

-- How Python writes a value and a dict of counts into an f-string.
pub record Format : Type 0 where
  pub value : Value → String
  pub counts : Dict String ℕ → String

pub record Line : Type 0 where
  pub level : String
  pub text : String

-- `self.log`: none, or an object, by the names of the methods that it has.
abbrev pub Log : Type 0
Log = Option (String → Bool)

-- `_log_msg`
unfoldable pub log_msg : Log → String → String → List Line
log_msg none level msg = []
log_msg (some has) level msg =
    if has level
    then record { level = level; text = msg } ∷ []
    else if level == "debug"
    then (if has "info" then record { level = "info"; text = msg } ∷ [] else [])
    else []

-- `_format_record_line`
unfoldable pub format_record_line : Format → String → Record → String
format_record_line fmt sensor_id r =
    "sensor_id="
    <> (sensor_id
        <> (" winner_origin="
            <> (r.origin
                <> (" ts_ms="
                    <> (fmt.value (of_int r.ts_ms)
                        <> (" value="
                            <> (fmt.value r.value
                                <> (" unit="
                                    <> (fmt.value r.meta.unit
                                        <> (" period_ms=" <> fmt.value r.meta.period_ms))))))))))

-- The key of the sort: the origin and the sensor.
abbrev pub sort_key : String × Record → String × String
sort_key (sensor_id, r) = (r.origin, sensor_id)

abbrev pub sort_records : Dict String Record → Dict String Record
sort_records = sort_with (after_pair sort_key)

-- `count_by_origin.get(origin, 0)`
unfoldable pub count_of : String → Dict String ℕ → ℕ
count_of origin counts = elim (Dict.lookup origin counts) [ none ↦ 0 | some n ↦ n ]

-- The loop that counts the records of each origin.
unfoldable pub count_by_origin : Dict String Record → Dict String ℕ → Dict String ℕ
unfolding count_of
count_by_origin [] counts = counts
count_by_origin ((sensor_id, r) ∷ items) counts =
    let origin = listed_origin r in
    count_by_origin items (Dict.insert origin (suc (count_of origin counts)) counts)

unfoldable pub header : Format → String → Dict String Record → String
header fmt node_id items =
    "FULL_STATE_DUMP node="
    <> (node_id
        <> (" total="
            <> (show (length items)
                <> (" by_origin=" <> fmt.counts (sort_by (λ e. e.0) (count_by_origin items []))))))

-- The method of the logger that a level names; `info` for a level that is none.
unfoldable pub method_of : String → String
method_of level =
    let name = lower level in
    if name == "debug" || (name == "info" || (name == "warning" || name == "error"))
    then name
    else "info"

-- The loop over the records.
unfoldable pub log_records : Format → Log → String → Dict String Record → List Line
log_records fmt log level [] = []
log_records fmt log level ((sensor_id, r) ∷ items) =
    log_msg log level (format_record_line fmt sensor_id r) ++ log_records fmt log level items

-- `log_full_state`
unfoldable pub log_full_state : Format → Log → String → Worker → List Line
log_full_state fmt log level w =
    let items = sort_records w.state in
    log_msg log (method_of level) (header fmt w.node_id items)
    ++ log_records fmt log (method_of level) items

-- The two fields of the periodic dump: the period, and the time of the next dump.
pub record Schedule : Type 0 where
  pub debug_dump_every : Option ℕ
  pub next_dump : Option ℕ

-- The end of `__init__`, where the period is a number or none.
unfoldable pub new_schedule : Option ℕ → ℕ → Schedule
new_schedule none now = record { debug_dump_every = none; next_dump = none }
new_schedule (some every) now = record {
  debug_dump_every = some every;
  next_dump = if ltb 0 every then some (now + every) else none;
}

-- A dump at the time `now`, and the time of the next one. It is called with a period only: `__init__` sets
-- no next dump without one.
unfoldable pub dump_now : Format → Log → ℕ → Worker → Schedule → Schedule × List Line
dump_now fmt log now w s = elim s.debug_dump_every [
  | none ↦ (s, log_full_state fmt log "INFO" w)
  | some every ↦ (record s { next_dump = some (now + every) }, log_full_state fmt log "INFO" w)
]

-- `_maybe_log_periodic_dump`
unfoldable pub maybe_log_periodic_dump : Format → Log → ℕ → Worker → Schedule → Schedule × List Line
unfolding dump_now
maybe_log_periodic_dump fmt log now w s = elim s.next_dump [
  | none ↦ (s, [])
  | some next ↦ if ltb now next then (s, []) else dump_now fmt log now w s
]
