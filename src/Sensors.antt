-- ===== src/Sensors.antt =====
-- sensors/: the eight kinds of sensors with their checks and generators, and one round of the loop of
-- base_sensor.py. Python's floats and its random and math modules are a parameter, Outside; a float is its
-- 64-bit pattern. The waiting between two rounds is left out.
pub mod Manager
pub mod Loading
pub mod Kinds
pub mod Failure
pub mod Started
pub mod Pacing
pub mod Readings
use distributed_sensor_hub.Base.{
  ℕ, zero, suc, String, Bool, true, false, Option, none, some, List, [], ◌∷◌, if◌then◌else◌,
}
use distributed_sensor_hub.Base.Int.{ℤ}
use distributed_sensor_hub.Base.Lists.{length}
use distributed_sensor_hub.Base.Result.{Result, ok, raise, value_error, index_error, ◌>>=◌}
use distributed_sensor_hub.Value.{Value, null, bool, int, float, str, obj, Fields, field, end}

-- The operations of `float`, the functions of `math`, and what `random` draws. A draw is a number that the
-- generator's state yields; `choice` takes a list that is not empty, as its first element and the others.
pub record Outside : Type 0 where
  pub read_float : String → Option ℕ
  pub add : ℕ → ℕ → ℕ
  pub sub : ℕ → ℕ → ℕ
  pub mul : ℕ → ℕ → ℕ
  pub div : ℕ → ℕ → ℕ
  pub neg : ℕ → ℕ
  pub abs : ℕ → ℕ
  pub lt : ℕ → ℕ → Bool
  pub le : ℕ → ℕ → Bool
  pub sin : ℕ → Option ℕ
  pub random : ℕ → ℕ
  pub uniform : ℕ → ℕ → ℕ → ℕ
  pub choice : ℕ → String → List String → String

-- The patterns of the floats that the source names: 0.0, 0.1, 0.2, 0.5, 1.0, 2.0, 10.0, 100.0 and `math.pi`.
abbrev pub zero_f : ℕ
zero_f = 0

abbrev pub tenth_f : ℕ
tenth_f = 4591870180066957722

abbrev pub fifth_f : ℕ
fifth_f = 4596373779694328218

abbrev pub half_f : ℕ
half_f = 4602678819172646912

abbrev pub one_f : ℕ
one_f = 4607182418800017408

abbrev pub two_f : ℕ
two_f = 4611686018427387904

abbrev pub ten_f : ℕ
ten_f = 4621819117588971520

abbrev pub hundred_f : ℕ
hundred_f = 4636737291354636288

abbrev pub pi_f : ℕ
pi_f = 4614256656552045848

-- What the subclasses of `BaseSensor` keep.
pub data Kind : Type 0 where
  numeric : ℕ → ℕ → Kind
  boolean : ℕ → Kind
  categorical : List String → Kind
  incremental : ℕ → ℕ → Kind
  trend : ℕ → ℕ → ℕ → Kind
  spike : ℕ → ℕ → ℕ → Kind
  wave : ℕ → ℕ → ℕ → Kind
  noisy : ℕ → ℕ → Kind

-- `BaseSensor`: `started` says that there is a thread.
pub record Sensor : Type 0 where
  pub sensor_id : String
  pub period_ms : ℤ
  pub unit : Option String
  pub kind : Kind
  pub started : Bool
  pub stopped : Bool

-- `BaseSensor.__init__`
abbrev pub new_sensor : String → ℤ → Option String → Kind → Sensor
new_sensor sensor_id period_ms unit kind = record {
  sensor_id = sensor_id;
  period_ms = period_ms;
  unit = unit;
  kind = kind;
  started = false;
  stopped = false;
}

-- `BaseSensor.start`
unfoldable pub start : Sensor → Sensor
start s = if s.started then s else record s { started = true }

-- `BaseSensor.stop`
unfoldable pub stop : Sensor → Sensor
stop s = record s { stopped = true }

module _ (o : Outside) where
  -- `NumericSensor.__init__`
  unfoldable pub new_numeric : ℕ → ℕ → Result Kind
  new_numeric min_val max_val =
      if o.le max_val min_val then raise value_error else ok (numeric min_val max_val)

  -- `IncrementalSensor.__init__`
  unfoldable pub new_incremental : ℕ → ℕ → Result Kind
  new_incremental start step_pct =
      if o.lt step_pct zero_f then raise value_error else ok (incremental start step_pct)

  -- `NoiseSensor.__init__`
  unfoldable pub new_noise : ℕ → ℕ → Result Kind
  new_noise base noise = if o.lt noise zero_f then raise value_error else ok (noisy base noise)

-- `BooleanSensor.__init__`
abbrev pub new_boolean : ℕ → Kind
new_boolean p_true = boolean p_true

-- `TrendSensor.__init__`
abbrev pub new_trend : ℕ → ℕ → ℕ → Kind
new_trend start slope noise = trend start slope noise

-- `SpikeSensor.__init__`
abbrev pub new_spike : ℕ → ℕ → ℕ → Kind
new_spike baseline spike_height p_spike = spike baseline spike_height p_spike

-- `WaveSensor.__init__`, at the time `now`
abbrev pub new_wave : ℕ → ℕ → ℕ → Kind
new_wave amplitude frequency now = wave amplitude frequency now

-- `CategoricalSensor.__init__`
unfoldable pub new_categorical : List String → Result Kind
new_categorical [] = raise value_error
new_categorical (c ∷ categories) = ok (categorical (c ∷ categories))

module _ (o : Outside) (draw now : ℕ) where
  -- `NumericSensor.generate_value`; each of these gives what the sensor keeps, and the value.
  abbrev pub generate_numeric : ℕ → ℕ → Kind × Value
  generate_numeric min_val max_val =
      (numeric min_val max_val, float (o.uniform draw min_val max_val))

  -- `BooleanSensor.generate_value`
  abbrev pub generate_boolean : ℕ → Kind × Value
  generate_boolean p_true = (boolean p_true, bool (o.lt (o.random draw) p_true))

  -- `CategoricalSensor.generate_value`
  abbrev pub generate_categorical : List String → Result (Kind × Value)
  generate_categorical [] = raise index_error
  generate_categorical (c ∷ cs) = ok (categorical (c ∷ cs), str (o.choice draw c cs))

  -- `IncrementalSensor.generate_value`
  abbrev pub generate_incremental : ℕ → ℕ → Kind × Value
  generate_incremental value step_pct =
      let delta = o.mul (o.abs value) (o.div step_pct hundred_f) in
      let next =
        if o.lt zero_f delta then o.add value (o.uniform draw (o.neg delta) delta) else value in
      (incremental next step_pct, float next)

  -- `TrendSensor.generate_value`
  abbrev pub generate_trend : ℕ → ℕ → ℕ → Kind × Value
  generate_trend value slope noise =
      let next = o.add (o.add value slope) (o.uniform draw (o.neg noise) noise) in
      (trend next slope noise, float next)

  -- `SpikeSensor.generate_value`
  abbrev pub generate_spike : ℕ → ℕ → ℕ → Kind × Value
  generate_spike baseline spike_height p_spike = (
    spike baseline spike_height p_spike,
    float (if o.lt (o.random draw) p_spike then o.add baseline spike_height else baseline),
  )

  -- `WaveSensor.generate_value`; a `ValueError` of `math.sin` ends it.
  abbrev pub generate_wave : ℕ → ℕ → ℕ → Result (Kind × Value)
  generate_wave amplitude frequency start_time =
      elim (o.sin (o.mul (o.mul (o.mul two_f pi_f) frequency) (o.sub now start_time))) [
        | none ↦ raise value_error
        | some y ↦ ok (wave amplitude frequency start_time, float (o.mul amplitude y))
      ]

  -- `NoiseSensor.generate_value`
  abbrev pub generate_noise : ℕ → ℕ → Kind × Value
  generate_noise base noise =
      (noisy base noise, float (o.add base (o.uniform draw (o.neg noise) noise)))

  -- `generate_value`, of the sensor's class
  unfoldable pub generate_value : Kind → Result (Kind × Value)
  generate_value (numeric min_val max_val) = ok (generate_numeric min_val max_val)
  generate_value (boolean p_true) = ok (generate_boolean p_true)
  generate_value (categorical categories) = generate_categorical categories
  generate_value (incremental value step_pct) = ok (generate_incremental value step_pct)
  generate_value (trend value slope noise) = ok (generate_trend value slope noise)
  generate_value (spike baseline spike_height p_spike) =
      ok (generate_spike baseline spike_height p_spike)
  generate_value (wave amplitude frequency start_time) =
      generate_wave amplitude frequency start_time
  generate_value (noisy base noise) = ok (generate_noise base noise)

-- `None` or a text as a value.
abbrev pub unit_value : Option String → Value
unit_value none = null
unit_value (some u) = str u

-- The event that a round of `_loop` gives to the callback.
unfoldable pub event : Sensor → Value → ℤ → Fields
event s value ts_ms = field "sensor_id" (str s.sensor_id) (
    field "value" value (
      field "ts_ms" (int ts_ms) (
        field "meta"
          (obj (field "unit" (unit_value s.unit) (field "period_ms" (int s.period_ms) end))) end)))

-- What a round meets: the draw, the time as a float, and the time in milliseconds.
pub record Tick : Type 0 where
  pub draw : ℕ
  pub now : ℕ
  pub ts_ms : ℤ

module _ (o : Outside) where
  -- One round of `_loop`: the sensor afterwards and its event.
  unfoldable pub tick : Sensor → Tick → Result (Sensor × Fields)
  tick s t = do
    (kind, value) ← generate_value o t.draw t.now s.kind
    ok (record s { kind = kind }, event s value t.ts_ms)

  -- `_loop` over its rounds: the events in their order. An exception ends the thread.
  unfoldable pub loop : Sensor → List Tick → List Fields
  loop s [] = []
  loop s (t ∷ ticks) = elim s.stopped [
    | true ↦ []
    | false ↦ elim (tick s t) [ raise e ↦ [] | ok (s', e) ↦ e ∷ loop s' ticks ]
  ]
