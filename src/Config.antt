-- ===== src/Config.antt =====
-- utils/config.py: the configuration of a node, read from the environment. `os.getenv` is the argument
-- `env`; its texts are ASCII (Base.Words).
pub mod Bounds
pub mod RoundTrip
use distributed_sensor_hub.Base.{
  ℕ, String, Bool, true, false, not, ◌&&◌, ◌||◌, Option, none, some, List, [], ◌∷◌, ltb, ◌==◌,
  string_eq, if◌then◌else◌,
}
use distributed_sensor_hub.Base.Int.{ℤ, pos, negsuc}
use distributed_sensor_hub.Base.Result.{Result, ok, raise, runtime_error, ◌>>=◌}
use distributed_sensor_hub.Base.Words.{strip, split, upper, int_of_text}

abbrev pub Env : Type 0
Env = String → Option String

pub record Config : Type 0 where
  pub node_id : String
  pub host : String
  pub port : ℕ
  pub bootstrap_peers : List (String × ℕ)
  pub log_level : String
  pub log_file : String

-- `log_level in _ALLOWED_LOG_LEVELS`
unfoldable pub is_log_level : String → Bool
is_log_level s =
    s == "DEBUG" || (s == "INFO" || (s == "WARNING" || (s == "ERROR" || s == "CRITICAL")))

-- `_require_env`
unfoldable pub require_env : Env → String → Result String
require_env env name = elim (env name) [
  | none ↦ raise runtime_error
  | some value ↦ if strip value == "" then raise runtime_error else ok (strip value)
]

-- The range test of `_parse_port`.
unfoldable pub check_port : ℤ → Result ℕ
check_port (pos n) = if ltb 0 n && ltb n 65536 then ok n else raise runtime_error
check_port (negsuc n) = raise runtime_error

-- `_parse_port`
unfoldable pub parse_port : String → Result ℕ
unfolding check_port
parse_port raw = elim (int_of_text raw) [ none ↦ raise runtime_error | some n ↦ check_port n ]

-- The parts of an item, between its colons; other than two of them are a `ValueError`, caught and turned
-- into a `RuntimeError`.
unfoldable pub parse_parts : List String → Result (String × ℕ)
parse_parts (host ∷ port ∷ []) = do n ← parse_port port; ok (strip host, n)
parse_parts _ = raise runtime_error

unfoldable pub parse_items : List String → Result (List (String × ℕ))
parse_items [] = ok []
parse_items (item ∷ items) = do
  peer ← parse_parts (split b':' (strip item))
  peers ← parse_items items
  ok (peer ∷ peers)

-- `_parse_peers`
unfoldable pub parse_peers : String → Result (List (String × ℕ))
unfolding parse_items
parse_peers raw = if strip raw == "" then ok [] else parse_items (split b',' raw)

-- The test of the log level.
unfoldable pub check_level : String → Result String
check_level level = if is_log_level level then ok level else raise runtime_error

-- `os.getenv(name, default)`
abbrev pub getenv_or : Env → String → String → String
getenv_or env name default = elim (env name) [ none ↦ default | some value ↦ value ]

-- `load_config`
unfoldable pub load_config : Env → Result Config
load_config env = do
  node_id ← require_env env "NODE_ID"
  host ← require_env env "HOST"
  raw_port ← require_env env "PORT"
  port ← parse_port raw_port
  raw_level ← require_env env "LOG_LEVEL"
  log_level ← check_level (upper raw_level)
  log_file ← require_env env "LOG_FILE"
  bootstrap_peers ← parse_peers (getenv_or env "BOOTSTRAP_PEERS" "")
  ok (record {
    node_id = node_id;
    host = host;
    port = port;
    bootstrap_peers = bootstrap_peers;
    log_level = log_level;
    log_file = log_file;
  })
