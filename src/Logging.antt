-- ===== src/Logging.antt =====
-- utils/logging.py and the part of `main` in node.py that clears the log file and sets the logging up. Files are
-- given by their lines; what the calls of the file system raise is an argument. A line that the level
-- of the root logger keeps back is never handed to `write`.
pub mod Startup
use distributed_sensor_hub.Base.{
  String, Bool, true, false, not, ◌&&◌, Option, none, some, List, [], ◌∷◌, ◌++◌, ◌==◌, string_eq,
  if◌then◌else◌,
}
use distributed_sensor_hub.Base.Dict
use distributed_sensor_hub.Base.Dict.{Dict}
use distributed_sensor_hub.Base.Result.{Exception}
use distributed_sensor_hub.Base.Words.{lower}
use distributed_sensor_hub.Config.{Env, Config, getenv_or}

-- What the format of a line takes from a record: the id of the node and the message.
pub record Line : Type 0 where
  pub node_id : Option String
  pub message : String

abbrev pub Files : Type 0
Files = Dict String (List Line)

-- The root logger: its level, and the files that its handlers write to.
pub record Root : Type 0 where
  pub level : String
  pub handlers : List String

pub record Logging : Type 0 where
  pub files : Files
  pub root : Root

-- The lines of a file; none where there is no file.
unfoldable pub content : String → Files → List Line
content file files = elim (Dict.lookup file files) [ none ↦ [] | some lines ↦ lines ]

-- What may raise: the clearing of the file, the making of its directory, its opening.
pub record Faults : Type 0 where
  pub clearing : Option Exception
  pub directory : Option Exception
  pub opening : Option Exception

-- `os.getenv("CLEAR_LOG", "false").lower() == "true"`
abbrev pub clear_log : Env → Bool
clear_log env = lower (getenv_or env "CLEAR_LOG" "false") == "true"

-- The optional log cleanup of `main`: an exception is logged elsewhere and ends here.
unfoldable pub clear_log_file : Env → Config → Option Exception → Files → Files
clear_log_file env cfg fault files =
    if clear_log env && not (cfg.log_file == "")
    then (elim fault [ some e ↦ files | none ↦ Dict.insert cfg.log_file [] files ])
    else files

-- `setup_logging` from the opening of the file on: it is made where it is missing, and its handler takes the
-- place of all others.
unfoldable pub open_handler :
    String → String → Option Exception → Logging → Logging × Option Exception
open_handler level log_file (some e) l = (l, some e)
open_handler level log_file none l = (
  record {
    files = Dict.insert log_file (content log_file l.files) l.files;
    root = record { level = level; handlers = log_file ∷ [] };
  },
  none,
)

-- `setup_logging`: `has_directory` says that the path of the file names a directory.
unfoldable pub setup_logging :
    String → String → Bool → Faults → Logging → Logging × Option Exception
setup_logging level log_file has_directory faults l =
    elim (if has_directory then faults.directory else none) [
      | some e ↦ (l, some e)
      | none ↦ open_handler level log_file faults.opening l
    ]

-- `main` from the cleanup to the set-up.
unfoldable pub start_logging : Env → Config → Bool → Faults → Logging → Logging × Option Exception
start_logging env cfg has_directory faults l =
    setup_logging cfg.log_level cfg.log_file has_directory faults
      (record l { files = clear_log_file env cfg faults.clearing l.files })

-- `process` of a `NodeLogger`, on the `extra` among the keyword arguments of a call.
unfoldable pub process : String → Option (Dict String String) → Dict String String
process node_id none = Dict.insert "node_id" node_id []
process node_id (some extra) = Dict.insert "node_id" node_id extra

-- The line of one call of a `NodeLogger`.
unfoldable pub line_of : String → Option (Dict String String) → String → Line
unfolding process
line_of node_id extra message = record {
  node_id = Dict.lookup "node_id" (process node_id extra);
  message = message;
}

-- A line goes to the files of all handlers.
unfoldable pub write : Line → List String → Files → Files
write line [] files = files
write line (file ∷ handlers) files =
    write line handlers (Dict.insert file (content file files ++ (line ∷ [])) files)
