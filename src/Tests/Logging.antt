-- ===== src/Tests/Logging.antt =====
-- The start of the logging of a node (utils/logging.py, node.py) with CLEAR_LOG set.
use distributed_sensor_hub.Base.{
  ◌≡◌, ◌≢◌, ap, refl, String, true, false, Option, none, some, [], ◌∷◌, ◌++◌, ◌==◌, string_eq,
  if◌then◌else◌,
}
use distributed_sensor_hub.Base.Dict.{Dict}
use distributed_sensor_hub.Base.Words.{lower}
use distributed_sensor_hub.Config.{Env, Config}
use distributed_sensor_hub.Logging.{Logging, content, clear_log, start_logging, line_of, write}
use distributed_sensor_hub.Logging.Startup.{own_line, no_faults, start_logging_lem}

abbrev env : Env
env name = if name == "CLEAR_LOG" then some "True" else none

abbrev config : Config
config = record {
  node_id = "a";
  host = "10.0.0.1";
  port = 9000;
  bootstrap_peers = [];
  log_level = "INFO";
  log_file = "a.log";
}

abbrev before : Logging
before = record {
  files = ("b.log", own_line "b" "kept" ∷ []) ∷ ("a.log", own_line "a" "old" ∷ []) ∷ [];
  root = record { level = "DEBUG"; handlers = "stderr" ∷ [] };
}

abbrev extra : Option (Dict String String)
extra = some (("node_id", "z") ∷ [])

cleared : clear_log env ≡ true
unfolding string_eq lower
cleared = refl

log_file-named : ◌≢◌ {A = String} "a.log" ""
unfolding string_eq
log_file-named h = let e : true ≡ false = ap (λ s. s == "a.log") h in absurd (cc)

start_logging_lem_example :
    let (l', raised) = start_logging env config true no_faults before in
    let files = write (line_of "a" extra "started") l'.root.handlers l'.files in
    (raised ≡ none)
    × (l'.root ≡ record { level = "INFO"; handlers = "a.log" ∷ [] })
    × (content "a.log" files ≡ (
        if "a.log" == config.log_file
        then (if clear_log env then [] else content "a.log" before.files)
          ++ (own_line "a" "started" ∷ [])
        else content "a.log" before.files))
start_logging_lem_example =
    start_logging_lem env config true before extra "started" "a.log" log_file-named
