-- ===== src/Tests/Sensors.antt =====
-- The sensors of an environment (sensors/), at concrete inputs.
use mathlib.Core.List.{Memᴰ}
use mathlib.Core.List.Memᴰ
use mathlib.Core.Path.{subst}
use distributed_sensor_hub.Base.{
  ℕ, ◌+◌, ◌-◌, ◌*◌, ◌/◌, ◌≡◌, ◌≢◌, refl, sym, none, some, List, [], ◌∷◌, ◌++◌, map, arith, ltb, leb,
  ◌==◌, string_eq, nat_eq, if◌then◌else◌, ◌⊎◌,
}
use distributed_sensor_hub.Base.Decimal.{show, read}
use distributed_sensor_hub.Base.Dict
use distributed_sensor_hub.Base.Int.{ℤ, pos}
use distributed_sensor_hub.Base.Lists.{length, take}
use distributed_sensor_hub.Base.Result.{type_error, runtime_error}
use distributed_sensor_hub.Base.Words.{int_of_text, trim_start, trim_end}
use distributed_sensor_hub.Config.{Env, getenv_or}
use distributed_sensor_hub.Sensors.Pacing.{
  wait_for, starts, loop_starts, grid, NotBefore, loop_starts_lem,
}
use distributed_sensor_hub.Sensors.{
  Outside, half_f, one_f, two_f, numeric, boolean, Sensor, new_sensor, new_numeric, start, event,
  Tick, loop,
}
use distributed_sensor_hub.Sensors.Failure.{Missing, IsLoadError, load_from_env-raise}
use distributed_sensor_hub.Sensors.Loading.{AreSensors, Distinct, rounds, load_from_env-AreSensors}
use distributed_sensor_hub.Sensors.Manager.{
  setting, load_numeric, load_boolean, load_kind, load_sensor, load_sensors, load_from_env,
  start_all,
}
use distributed_sensor_hub.Sensors.Readings.{reading}
use distributed_sensor_hub.Sensors.Started.{run-load_from_env}
use distributed_sensor_hub.State.Convergence.{Covers}
use distributed_sensor_hub.State.Worker.{init, run}
use distributed_sensor_hub.Value.{Value}

-- A stand-in for Python's floats: the patterns of floats that are not negative are ordered as numbers.
abbrev outside : Outside
outside = record {
  read_float = λ s. if s == "1.0" then some one_f else if s == "2.0" then some two_f else none;
  add = λ a b. a + b;
  sub = λ a b. a - b;
  mul = λ a b. a * b;
  div = λ a b. a / b;
  neg = λ a. a;
  abs = λ a. a;
  lt = ltb;
  le = leb;
  sin = λ a. some a;
  random = λ draw. draw;
  uniform = λ draw low high. low;
  choice = λ draw c cs. c;
}

abbrev two_sensors : Env
two_sensors name =
    if name == "SENSORS"
    then some "2"
    else if name == "SENSOR_0_TYPE"
    then some "numeric"
    else if name == "SENSOR_0_PERIOD_MS"
    then some "100"
    else if name == "SENSOR_0_NAME"
    then some "temp"
    else if name == "SENSOR_0_MIN"
    then some "1.0"
    else if name == "SENSOR_0_MAX"
    then some "2.0"
    else if name == "SENSOR_1_TYPE"
    then some "boolean"
    else if name == "SENSOR_1_PERIOD_MS"
    then some "250"
    else none

abbrev temp : Sensor
temp = new_sensor "temp@0" (pos 100) none (numeric one_f two_f)

abbrev switch : Sensor
switch = new_sensor "sensor_1@1" (pos 250) none (boolean half_f)

abbrev clock : ℕ → ℕ
clock i = i

loaded : load_from_env outside two_sensors clock [] ≡ (temp ∷ switch ∷ [], none)
unfolding load_from_env int_of_text trim_end trim_start string_eq nat_eq read load_sensors
    load_sensor setting show load_kind load_numeric new_numeric load_boolean
loaded = refl

load_from_env-AreSensors_example :
    let (all, raised) = load_from_env outside two_sensors clock [] in
    AreSensors outside 0 all
    × Distinct all
    × (raised ≡ none
        → (z : ℤ) × (int_of_text (getenv_or two_sensors "SENSORS" "0") ≡ some z)
          × (length all ≡ rounds z))
load_from_env-AreSensors_example = load_from_env-AreSensors outside two_sensors clock

-- A numeric sensor without its bounds.
abbrev no_bounds : Env
no_bounds name =
    if name == "SENSORS"
    then some "1"
    else if name == "SENSOR_0_TYPE"
    then some "numeric"
    else if name == "SENSOR_0_PERIOD_MS"
    then some "100"
    else none

no_bounds_raises : (load_from_env outside no_bounds clock []).1 ≡ some type_error
unfolding load_from_env int_of_text trim_end trim_start string_eq nat_eq read load_sensors
    load_sensor setting show load_kind load_numeric
no_bounds_raises = refl

load_from_env-raise_example :
    (IsLoadError
        (Missing no_bounds (length (load_from_env outside no_bounds clock []).0))
        type_error
      × (◌≡◌ {A = List Sensor} [] []))
    ⊎ ((type_error ≡ runtime_error)
        × ((load_from_env outside no_bounds clock []).0 ≡ [])
        × (◌≢◌ {A = List Sensor} [] []))
load_from_env-raise_example =
    load_from_env-raise outside no_bounds clock [] type_error no_bounds_raises

abbrev round : Tick
round = record { draw = 7; now = 3; ts_ms = pos 1000 }

temp_started : Memᴰ (start temp) (start_all (load_from_env outside two_sensors clock []).0)
temp_started =
    subst (λ loading. Memᴰ (start temp) (start_all loading.0)) (sym loaded) (Memᴰ.head refl)

-- The queue times out once, and then gives the events of the sensor.
run-load_from_env_example :
    let emitted = loop outside (start temp) (round ∷ []) in
    (v : Value) × Memᴰ (event (start temp) v (pos 1000)) emitted
    × Covers
        (reading "a" (start temp) v (pos 1000))
        (Dict.lookup (start temp).sensor_id (run (init "a") (none ∷ map some emitted)).state)
unfolding start
run-load_from_env_example =
    run-load_from_env outside two_sensors clock (start temp) (round ∷ []) round (init "a")
      (none ∷ map some (loop outside (start temp) (round ∷ []))) temp_started (λ x m. tt)
      (Memᴰ.head refl) refl (λ h. cc) (λ e m. Memᴰ.tail (Memᴰ.map some m))

-- Four rounds of 20 ms, of which the second takes 35 ms.
late_round : loop_starts 20 100 (5 ∷ 35 ∷ 5 ∷ 5 ∷ []) ≡ 100 ∷ 120 ∷ 155 ∷ 160 ∷ []
unfolding loop_starts starts wait_for
late_round = refl

abbrev quick : List ℕ
quick = 5 ∷ 20 ∷ []

abbrev rest : List ℕ
rest = 35 ∷ 5 ∷ []

loop_starts_lem_example :
    (take (length quick) (loop_starts 20 100 (quick ++ rest)) ≡ grid 20 100 quick)
    × NotBefore (loop_starts 20 100 (quick ++ rest)) (grid 20 100 (quick ++ rest))
loop_starts_lem_example = loop_starts_lem 20 100 quick rest (omega arith, (omega arith, tt))
