-- ===== src/Node/WebPort.antt =====
-- The port of the web API, as `main` of node.py reads it.
use distributed_sensor_hub.Base.{ℕ, ◌+◌, ◌≡◌, String, none, some, arith}
use distributed_sensor_hub.Base.Decimal.{show}
use distributed_sensor_hub.Base.Int.{ℤ, pos}
use distributed_sensor_hub.Base.Result.{Result, ok, raise, value_error}
use distributed_sensor_hub.Base.Words.{int_of_text, int_of_text-show}
use distributed_sensor_hub.Config.{Env, Config, getenv_or}

-- `int(text)`
abbrev int_of : String → Result ℤ
int_of text = elim (int_of_text text) [ none ↦ raise value_error | some n ↦ ok n ]

-- `int(os.getenv("WEB_API_PORT", str(config.port + 1000)))`
unfoldable pub web_api_port : Env → Config → Result ℤ
web_api_port env cfg = int_of (getenv_or env "WEB_API_PORT" (show (cfg.port + 1000)))

-- Without the setting the port is the node's own and 1000; a decimal setting is read as it stands. Neither is held
-- against the range of ports: above 64535 the default is none.
pub web_api_port_lem :
    (env : Env) (cfg : Config)
    → (env "WEB_API_PORT" ≡ none → web_api_port env cfg ≡ ok (pos (cfg.port + 1000)))
      × ((n : ℕ) → env "WEB_API_PORT" ≡ some (show n) → web_api_port env cfg ≡ ok (pos n))
unfolding web_api_port
web_api_port_lem env cfg = (
  λ unset. ground (arith, int_of_text-show (cfg.port + 1000)),
  λ n set. ground (arith, int_of_text-show n),
)
