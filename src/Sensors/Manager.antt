-- ===== src/Sensors/Manager.antt =====
-- `SensorManager` of sensors/sensor_manager.py: the sensors that the environment describes.
use distributed_sensor_hub.Base.{
  ℕ, zero, suc, String, ◌<>◌, Option, none, some, List, [], ◌∷◌, ◌++◌, map, ltb, ◌==◌, string_eq,
  if◌then◌else◌,
}
use distributed_sensor_hub.Base.Decimal.{show}
use distributed_sensor_hub.Base.Int.{ℤ, pos, negsuc}
use distributed_sensor_hub.Base.Result.{
  Exception, Result, ok, raise, value_error, type_error, runtime_error, ◌>>=◌,
}
use distributed_sensor_hub.Base.Words.{strip, split, int_of_text}
use distributed_sensor_hub.Config.{Env, getenv_or}
use distributed_sensor_hub.Sensors.{
  Outside, zero_f, tenth_f, fifth_f, half_f, one_f, ten_f, Kind, new_boolean, new_trend, new_spike,
  new_wave, Sensor, new_sensor, start, stop, new_numeric, new_incremental, new_noise,
  new_categorical,
}

-- `os.getenv(f"SENSOR_{i}_" + key)`
unfoldable pub setting : Env → ℕ → String → Option String
setting env i key = env ("SENSOR_" <> (show i <> ("_" <> key)))

-- `int(text)`
abbrev pub int_of : String → Result ℤ
int_of s = elim (int_of_text s) [ none ↦ raise value_error | some n ↦ ok n ]

-- `if not s_type`
abbrev pub require_type : Option String → Result String
require_type none = raise value_error
require_type (some s) = if s == "" then raise value_error else ok s

-- `if period_ms <= 0`
abbrev pub check_period : ℤ → Result ℤ
check_period (pos n) = if ltb 0 n then ok (pos n) else raise value_error
check_period (negsuc n) = raise value_error

-- The parts of a list of values that are not blank, stripped.
unfoldable pub nonblank : List String → List String
nonblank [] = []
nonblank (v ∷ vs) = let rest = nonblank vs in if strip v == "" then rest else strip v ∷ rest

-- The name that follows from the index.
abbrev pub default_name : ℕ → String
default_name i = "sensor_" <> show i

-- `f"{name}@{i}"`
abbrev pub id_of : String → ℕ → String
id_of name i = name <> ("@" <> show i)

-- The branch of a categorical sensor.
unfoldable pub load_categorical : (String → Option String) → Result Kind
load_categorical get =
    new_categorical (nonblank (split b',' (elim (get "VALUES") [ none ↦ "" | some s ↦ s ])))

module _ (o : Outside) where
  -- `float(text)`
  abbrev pub float_of : String → Result ℕ
  float_of s = elim (o.read_float s) [ none ↦ raise value_error | some x ↦ ok x ]

  -- `float(os.getenv(key))`: a missing one is a `TypeError`.
  abbrev pub float_required : Option String → Result ℕ
  float_required none = raise type_error
  float_required (some s) = float_of s

  -- `float(os.getenv(key, default))`
  abbrev pub float_or : Option String → ℕ → Result ℕ
  float_or none default = ok default
  float_or (some s) default = float_of s

  -- The branch of a numeric sensor.
  unfoldable pub load_numeric : (String → Option String) → Result Kind
  load_numeric get = do
    min_val ← float_required (get "MIN")
    max_val ← float_required (get "MAX")
    new_numeric o min_val max_val

  -- The branch of a boolean sensor.
  unfoldable pub load_boolean : (String → Option String) → Result Kind
  load_boolean get = do p_true ← float_or (get "P_TRUE") half_f; ok (new_boolean p_true)

  -- The branch of an incremental sensor.
  unfoldable pub load_incremental : (String → Option String) → Result Kind
  load_incremental get = do
    start ← float_or (get "START") zero_f
    step_pct ← float_or (get "STEP_PCT") one_f
    new_incremental o start step_pct

  -- The branch of a trend sensor.
  unfoldable pub load_trend : (String → Option String) → Result Kind
  load_trend get = do
    start ← float_or (get "START") zero_f
    slope ← float_or (get "SLOPE") tenth_f
    noise ← float_or (get "NOISE") zero_f
    ok (new_trend start slope noise)

  -- The branch of a spike sensor.
  unfoldable pub load_spike : (String → Option String) → Result Kind
  load_spike get = do
    baseline ← float_or (get "BASELINE") zero_f
    spike_height ← float_or (get "SPIKE_HEIGHT") ten_f
    p_spike ← float_or (get "P_SPIKE") fifth_f
    ok (new_spike baseline spike_height p_spike)

  -- The branch of a wave sensor, which starts at `now`.
  unfoldable pub load_wave : (String → Option String) → ℕ → Result Kind
  load_wave get now = do
    amplitude ← float_or (get "AMPLITUDE") one_f
    frequency ← float_or (get "FREQUENCY") one_f
    ok (new_wave amplitude frequency now)

  -- The branch of a noise sensor.
  unfoldable pub load_noise : (String → Option String) → Result Kind
  load_noise get = do
    base ← float_or (get "BASE") zero_f
    noise ← float_or (get "NOISE") one_f
    new_noise o base noise

  -- The branches on the type of a sensor.
  unfoldable pub load_kind : (String → Option String) → String → ℕ → Result Kind
  load_kind get s_type now =
      if s_type == "numeric"
      then load_numeric get
      else if s_type == "boolean"
      then load_boolean get
      else if s_type == "categorical"
      then load_categorical get
      else if s_type == "incremental"
      then load_incremental get
      else if s_type == "trend"
      then load_trend get
      else if s_type == "spike"
      then load_spike get
      else if s_type == "wave"
      then load_wave get now
      else if s_type == "noise"
      then load_noise get
      else raise value_error

  -- One round of the loop of `load_from_env`.
  unfoldable pub load_sensor : Env → (ℕ → ℕ) → ℕ → Result Sensor
  load_sensor env clock i = do
    s_type ← require_type (setting env i "TYPE")
    raw ← int_of (elim (setting env i "PERIOD_MS") [ none ↦ "0" | some s ↦ s ])
    period_ms ← check_period raw
    kind ← load_kind (setting env i) s_type (clock i)
    ok (
        new_sensor (id_of (elim (setting env i "NAME") [ none ↦ default_name i | some s ↦ s ]) i)
          period_ms (setting env i "UNIT") kind)

  -- The loop, from round `i` on; the sensors that it made stay where a round raises.
  unfoldable pub load_sensors : Env → (ℕ → ℕ) → ℕ → ℕ → List Sensor → List Sensor × Option Exception
  load_sensors env clock i zero sensors = (sensors, none)
  load_sensors env clock i (suc n) sensors = elim (load_sensor env clock i) [
    | raise e ↦ (sensors, some e)
    | ok s ↦ load_sensors env clock (suc i) n (sensors ++ (s ∷ []))
  ]

  -- `load_from_env`, on the sensors of the manager; a negative count is an empty range.
  unfoldable pub load_from_env : Env → (ℕ → ℕ) → List Sensor → List Sensor × Option Exception
  load_from_env env clock (s ∷ sensors) = (s ∷ sensors, some runtime_error)
  load_from_env env clock [] = elim (int_of_text (getenv_or env "SENSORS" "0")) [
    | none ↦ ([], some value_error)
    | some (negsuc n) ↦ ([], none)
    | some (pos n) ↦ load_sensors env clock 0 n []
  ]

-- `start_all`
abbrev pub start_all : List Sensor → List Sensor
start_all = map start

-- `stop_all`
abbrev pub stop_all : List Sensor → List Sensor
stop_all = map stop
