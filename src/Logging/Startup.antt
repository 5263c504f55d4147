-- ===== src/Logging/Startup.antt =====
-- What the log file of a node holds after its start (utils/logging.py, node.py).
use distributed_sensor_hub.Base.{
  ◌≡◌, ◌≢◌, refl, ap, String, Bool, true, false, ◌&&◌, Option, none, some, List, [], ◌∷◌, ◌++◌,
  arith, ◌==◌, string_eq, if◌then◌else◌, Bool-cases, inl, inr,
}
use distributed_sensor_hub.Base.Dict
use distributed_sensor_hub.Base.Dict.{Dict, lookup-nil, lookup-insert, lookup-insert_self}
use distributed_sensor_hub.Config.{Env, Config}
use distributed_sensor_hub.Logging.{
  Line, Files, Logging, content, Faults, clear_log, clear_log_file, open_handler, setup_logging,
  start_logging, process, line_of, write,
}

content-insert :
    (f g : String) (lines : List Line) (files : Files)
    → content f (Dict.insert g lines files) ≡ (if f == g then lines else content f files)
unfolding content
content-insert f g lines files = ground (arith, lookup-insert f g lines files)

lookup-process :
    (id : String) (extra : Option (Dict String String))
    → Dict.lookup "node_id" (process id extra) ≡ some id
unfolding process
lookup-process id none = lookup-insert_self "node_id" id []
lookup-process id (some extra) = lookup-insert_self "node_id" id extra

clear_log_file-content :
    (env : Env) (cfg : Config) (f : String) (files : Files)
    → cfg.log_file ≢ ""
    → content f (clear_log_file env cfg none files)
      ≡ (if clear_log env && (f == cfg.log_file) then [] else content f files)
unfolding clear_log_file
clear_log_file-content env cfg f files named = elim (Bool-cases (clear_log env)) [
  | inl clears ↦ ground (arith, content-insert f cfg.log_file [] files)
  | inr keeps ↦ ground arith
]

-- A line with the id of the node.
abbrev pub own_line : String → String → Line
own_line node_id message = record { node_id = some node_id; message = message }

line_of-own_line :
    (id message : String) (extra : Option (Dict String String))
    → line_of id extra message ≡ own_line id message
unfolding line_of
line_of-own_line id message extra =
    ap (λ n. record { node_id = n; message = message }) (lookup-process id extra)

-- What the file `f` holds after the start and the line.
started-content :
    (env : Env) (cfg : Config) (files : Files) (line : Line) (f : String)
    → cfg.log_file ≢ ""
    → let cleared = clear_log_file env cfg none files in
      let opened = Dict.insert cfg.log_file (content cfg.log_file cleared) cleared in
      content f (write line (cfg.log_file ∷ []) opened) ≡ (
        if f == cfg.log_file
        then (if clear_log env then [] else content f files) ++ (line ∷ [])
        else content f files)
unfolding write
started-content env cfg files line f named =
    let file = cfg.log_file in
    let cleared = clear_log_file env cfg none files in
    let opened = Dict.insert file (content file cleared) cleared in
    ground (
      arith,
      content-insert f file (content file opened ++ (line ∷ [])) opened,
      content-insert f file (content file cleared) cleared,
      content-insert file file (content file cleared) cleared,
      clear_log_file-content env cfg f files named,
      clear_log_file-content env cfg file files named,
    )

abbrev pub no_faults : Faults
no_faults = record { clearing = none; directory = none; opening = none }

-- The start of the logging and the first line of the node, where the file system raises nothing: the root
-- logger has the level of the configuration and one handler, whatever handlers it had; the log file
-- holds the new line, with the id of the node whatever the caller passes, behind what it held before, or alone
-- where CLEAR_LOG is "true" in any case of letters; and no other file changes. The name of the file is not empty.
pub start_logging_lem :
    (env : Env) (cfg : Config) (has_directory : Bool) (l : Logging)
    (extra : Option (Dict String String)) (message f : String)
    → cfg.log_file ≢ ""
    → let (l', raised) = start_logging env cfg has_directory no_faults l in
      let files = write (line_of cfg.node_id extra message) l'.root.handlers l'.files in
      (raised ≡ none)
      × (l'.root ≡ record { level = cfg.log_level; handlers = cfg.log_file ∷ [] })
      × (content f files ≡ (
          if f == cfg.log_file
          then (if clear_log env then [] else content f l.files)
            ++ (own_line cfg.node_id message ∷ [])
          else content f l.files))
unfolding start_logging setup_logging open_handler
start_logging_lem env cfg true l extra message f named = (
  refl,
  refl,
  rw (line_of-own_line cfg.node_id message extra)
      (started-content env cfg l.files (own_line cfg.node_id message) f named),
)
start_logging_lem env cfg false l extra message f named = (
  refl,
  refl,
  rw (line_of-own_line cfg.node_id message extra)
      (started-content env cfg l.files (own_line cfg.node_id message) f named),
)
