-- ===== src/Sensors/Readings.antt =====
-- From a sensor to the state: what the loop of sensors/base_sensor.py emits, and what becomes of it in the
-- state worker that reads the queue (node.py passes `sensor_event_queue.put` as the callback).
use mathlib.Core.List.{Memᴰ}
use mathlib.Core.Path.{subst}
use distributed_sensor_hub.Base.{
  ℕ, ◌≡◌, ◌≢◌, refl, sym, ap, inl, inr, String, false, Option, some, List, [], ◌∷◌, arith,
  string_eq,
}
use distributed_sensor_hub.Base.Dict
use distributed_sensor_hub.Base.Int.{ℤ}
use distributed_sensor_hub.Base.Lists.{Memᴰ-cases}
use distributed_sensor_hub.Base.Result.{ok}
use distributed_sensor_hub.Sensors.{
  Outside, two_f, pi_f, Kind, numeric, boolean, categorical, incremental, trend, spike, wave, noisy,
  Sensor, generate_value, unit_value, event, Tick, tick, loop,
}
use distributed_sensor_hub.Sensors.Kinds.{SoundKind}
use distributed_sensor_hub.State.Convergence.{Covers}
use distributed_sensor_hub.State.Record.{Record}
use distributed_sensor_hub.State.Running.{run-Covers}
use distributed_sensor_hub.State.Worker.{
  Worker, Update, check_update, event_update, normalize_meta, run,
}
use distributed_sensor_hub.Value.{
  Value, int, float, str, obj, Fields, field, end, whole, get_or, index,
}

-- The sine that a wave sensor asks for in a round exists; `math.sin` refuses infinities.
abbrev pub HasSine : Outside → Kind → Tick → Type 0
HasSine o (wave amplitude frequency start_time) t =
    (y : ℕ) × (o.sin (o.mul (o.mul (o.mul two_f pi_f) frequency) (o.sub t.now start_time)) ≡ some y)
HasSine o _ t = Unit

-- What a kind has to satisfy for the rounds to come.
abbrev pub IsReady : Outside → List Tick → Kind → Type 0
IsReady o ticks k = SoundKind o k × ((t : Tick) → Memᴰ t ticks → HasSine o k t)

IsReady-tail :
    (o : Outside) (t : Tick) (ticks : List Tick) (k : Kind)
    → IsReady o (t ∷ ticks) k
    → IsReady o ticks k
IsReady-tail o t ticks k (sound, sines) = (sound, λ r m. sines r (Memᴰ.tail m))

module _ (o : Outside) where
  -- A round yields a value, and leaves the sensor ready.
  generate_value_total :
      (t : Tick) (ticks : List Tick) (k : Kind)
      → IsReady o (t ∷ ticks) k
      → (k' : Kind) × (v : Value) × (generate_value o t.draw t.now k ≡ ok (k', v))
        × IsReady o (t ∷ ticks) k'
  unfolding generate_value
  generate_value_total t ticks (numeric a b) h = (numeric a b, _, refl, h)
  generate_value_total t ticks (boolean p) h = (boolean p, _, refl, h)
  generate_value_total t ticks (categorical []) h = absurd (h.0.0 refl)
  generate_value_total t ticks (categorical (c ∷ cs)) h = (categorical (c ∷ cs), _, refl, h)
  generate_value_total t ticks (incremental v p) h = (_, _, refl, h)
  generate_value_total t ticks (trend v s n) h = (_, _, refl, h)
  generate_value_total t ticks (spike b s p) h = (spike b s p, _, refl, h)
  generate_value_total t ticks (wave a f s) h =
      let (y, sine) = h.1 t (Memᴰ.head refl) in (wave a f s, float (o.mul a y), ground arith, h)
  generate_value_total t ticks (noisy b n) h = (noisy b n, _, refl, h)

  loop-going :
      (s : Sensor) (t : Tick) (ticks : List Tick) (k : Kind) (v : Value)
      → s.stopped ≡ false
      → generate_value o t.draw t.now s.kind ≡ ok (k, v)
      → loop o s (t ∷ ticks) ≡ event s v t.ts_ms ∷ loop o (record s { kind = k }) ticks
  unfolding loop tick
  loop-going s t ticks k v going made = ground arith

  -- A sensor that is not told to stop emits an event in every round.
  loop_emits :
      (s : Sensor) (ticks : List Tick) (t : Tick)
      → s.stopped ≡ false
      → IsReady o ticks s.kind
      → Memᴰ t ticks
      → (v : Value) × Memᴰ (event s v t.ts_ms) (loop o s ticks)
  unfolding event
  loop_emits s [] t going ready m = elim m [ ]
  loop_emits s (x ∷ ticks) t going ready m =
      let (k, v, made, ready') = generate_value_total x ticks s.kind ready in
      let step = loop-going s x ticks k v going made in
      elim (Memᴰ-cases m) [
        | inl here ↦ (
          v,
          subst (Memᴰ (event s v t.ts_ms)) (sym step)
              (Memᴰ.head (ap (λ y. event s v y.ts_ms) here)),
        )
        | inr later ↦
            let (u, there) =
              loop_emits (record s { kind = k }) ticks t going (IsReady-tail o x ticks k ready')
                later in
            (u, subst (Memᴰ (event s u t.ts_ms)) (sym step) (Memᴰ.tail there))
      ]

-- The record of an event at the node `node_id`.
abbrev pub reading : String → Sensor → Value → ℤ → Record
reading node_id s value ts_ms = record {
  value = value;
  ts_ms = whole ts_ms;
  origin = node_id;
  meta = record { unit = unit_value s.unit; period_ms = int s.period_ms };
}

unit_and_period : Sensor → Value
unit_and_period s = obj (field "unit" (unit_value s.unit) (field "period_ms" (int s.period_ms) end))

-- The arguments of `merge_update` for an event.
event_call : String → Sensor → Value → ℤ → Update
unfolding unit_and_period
event_call node_id s v ts_ms = record {
  sensor_id = str s.sensor_id;
  value = v;
  ts_ms = int ts_ms;
  origin = str node_id;
  meta = unit_and_period s;
}

event_update-event :
    (node_id : String) (s : Sensor) (v : Value) (ts_ms : ℤ)
    → event_update node_id (event s v ts_ms) ≡ some (event_call node_id s v ts_ms)
unfolding event event_update event_call get_or index string_eq
event_update-event node_id s v ts_ms = refl

normalize_meta-unit_and_period :
    (s : Sensor)
    → normalize_meta (unit_and_period s)
      ≡ record { unit = unit_value s.unit; period_ms = int s.period_ms }
unfolding unit_and_period normalize_meta get_or string_eq
normalize_meta-unit_and_period s = refl

-- The worker accepts every event of a sensor.
check_update-event_call :
    (node_id : String) (s : Sensor) (v : Value) (ts_ms : ℤ)
    → node_id ≢ ""
    → s.sensor_id ≢ ""
    → check_update (event_call node_id s v ts_ms) ≡ some (s.sensor_id, reading node_id s v ts_ms)
unfolding check_update event_call
check_update-event_call node_id s v ts_ms named identified =
    ground (arith, normalize_meta-unit_and_period s)

-- Every round of a sensor reaches the state: for a round of a sensor with an id that runs, its parameters
-- being sound and the sines of a wave defined, the loop emits an event with a value and the time of the
-- round. When a worker that has a name and is not stopped has read it from the queue, among any other
-- entries in any order, it holds for that sensor a record that is at least as new as the reading.
pub run-loop :
    (o : Outside) (s : Sensor) (ticks : List Tick) (t : Tick) (w : Worker)
    (es : List (Option Fields))
    → s.stopped ≡ false
    → IsReady o ticks s.kind
    → s.sensor_id ≢ ""
    → Memᴰ t ticks
    → w.stopped ≡ false
    → w.node_id ≢ ""
    → ((e : Fields) → Memᴰ e (loop o s ticks) → Memᴰ (some e) es)
    → (v : Value) × Memᴰ (event s v t.ts_ms) (loop o s ticks)
      × Covers (reading w.node_id s v t.ts_ms) (Dict.lookup s.sensor_id (run w es).state)
run-loop o s ticks t w es going ready identified m working named read =
    let (v, emitted) = loop_emits o s ticks t going ready m in
    (
      v,
      emitted,
      run-Covers w es (event s v t.ts_ms) (event_call w.node_id s v t.ts_ms) s.sensor_id
          (reading w.node_id s v t.ts_ms) working (read (event s v t.ts_ms) emitted)
          (event_update-event w.node_id s v t.ts_ms)
          (check_update-event_call w.node_id s v t.ts_ms named identified),
    )
