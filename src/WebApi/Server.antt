-- ===== src/WebApi/Server.antt =====
-- `WebAPIServer` of webapi/http_api.py: the thread around the HTTP server of Python, which is given by what its
-- calls raise. A line is the name of the logger's method and the first word of its text that says which it is.
use distributed_sensor_hub.Base.{
  ◌≡◌, refl, Bool, true, false, Option, none, some, List, [], ◌∷◌, if◌then◌else◌,
}
use distributed_sensor_hub.Base.Result.{Exception, attribute_error}

pub data Line : Type 0 where
  failed_to_bind started crashed stopped failed_to_stop : Line

-- What a call leaves: the lines that it logs, and what it raises.
pub record Outcome : Type 0 where
  pub lines : List Line
  pub raised : Option Exception

abbrev logged : Bool → Line → List Line
logged log line = if log then line ∷ [] else []

-- `__init__`: `log` says that a log was given.
unfoldable pub new_web_api_server : Bool → Option Exception → Outcome
new_web_api_server log none = record { lines = []; raised = none }
new_web_api_server log (some e) = record { lines = logged log failed_to_bind; raised = some e }

-- `run`, where `serve_forever` ends or raises. Without a log its first line is an AttributeError.
unfoldable pub run : Bool → Option Exception → Outcome
run false served = record { lines = []; raised = some attribute_error }
run true none = record { lines = started ∷ []; raised = none }
run true (some e) = record { lines = started ∷ crashed ∷ []; raised = some e }

-- Whether `run` gets to `serve_forever`.
abbrev pub serves : Bool → Bool
serves log = log

-- `stop`, where `shutdown` returns or raises. An exception ends here.
unfoldable pub stop : Bool → Option Exception → Outcome
stop log (some e) = record { lines = logged log failed_to_stop; raised = none }
stop false none = record { lines = []; raised = none }
stop true none = record { lines = stopped ∷ []; raised = none }

-- Over the life of the thread with a log: what the socket or the server raises is raised again after a line
-- that says so, and stopping never raises.
server_lem :
    (bound served shut : Option Exception)
    → ((new_web_api_server true bound).raised ≡ bound)
      × ((run true served).raised ≡ served)
      × ((stop true shut).raised ≡ none)
unfolding new_web_api_server run stop
server_lem none none none = (refl, refl, refl)
server_lem none none (some x) = (refl, refl, refl)
server_lem none (some f) none = (refl, refl, refl)
server_lem none (some f) (some x) = (refl, refl, refl)
server_lem (some e) none none = (refl, refl, refl)
server_lem (some e) none (some x) = (refl, refl, refl)
server_lem (some e) (some f) none = (refl, refl, refl)
server_lem (some e) (some f) (some x) = (refl, refl, refl)
