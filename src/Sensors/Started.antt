-- ===== src/Sensors/Started.antt =====
-- The sensors of an environment once node.py has started them: `load_from_env`, `start_all`, and the state
-- worker that reads their queue.
use mathlib.Core.List.{Memᴰ}
use mathlib.Core.Path.{subst}
use distributed_sensor_hub.Base.{
  ℕ, ◌≡◌, ◌≢◌, refl, sym, ap, ◌∙◌, String, false, Option, some, List, [], ◌∷◌, arith, Bool-cases,
  inl, inr, string_eq,
}
use distributed_sensor_hub.Base.Decimal.{show}
use distributed_sensor_hub.Base.Dict
use distributed_sensor_hub.Base.Lists.{Memᴰ-cases}
use distributed_sensor_hub.Base.Text.{append-eq_nil}
use distributed_sensor_hub.Base.Words.{show-ne}
use distributed_sensor_hub.Config.{Env}
use distributed_sensor_hub.Sensors.{Outside, Sensor, start, event, Tick, loop}
use distributed_sensor_hub.Sensors.Kinds.{SoundKind}
use distributed_sensor_hub.Sensors.Loading.{index_of, load_from_env-AreSensors}
use distributed_sensor_hub.Sensors.Manager.{load_from_env, start_all, id_of}
use distributed_sensor_hub.Sensors.Readings.{HasSine, reading, run-loop}
use distributed_sensor_hub.State.Convergence.{Covers}
use distributed_sensor_hub.State.Worker.{Worker, run}
use distributed_sensor_hub.Value.{Value, Fields}

id_of-ne : (name : String) (i : ℕ) → id_of name i ≢ ""
id_of-ne name i h = show-ne i (append-eq_nil "@" (show i) (append-eq_nil name _ h))

-- A started sensor differs from the loaded one in its flag.
start_keeps :
    (s : Sensor)
    → ((start s).sensor_id ≡ s.sensor_id)
      × ((start s).kind ≡ s.kind)
      × ((start s).stopped ≡ s.stopped)
unfolding start
start_keeps s = elim (Bool-cases s.started) [ inl running ↦ ground arith | inr idle ↦ ground arith ]

started_from :
    (sensors : List Sensor) (r : Sensor)
    → Memᴰ r (start_all sensors)
    → (s : Sensor) × Memᴰ s sensors × (r ≡ start s)
started_from [] r m = elim m [ ]
started_from (s ∷ sensors) r m = elim (Memᴰ-cases m) [
  | inl here ↦ (s, Memᴰ.head refl, here)
  | inr later ↦ let (q, there, same) = started_from sensors r later in (q, Memᴰ.tail there, same)
]

-- Every round of every sensor of the environment reaches the state. Let a sensor be one of those that
-- loading made, also where loading then failed, and starting started, the sines that a wave asks for being
-- defined. Its loop emits an event in each round, and when a worker that has a name and is not stopped has
-- read the events from its queue, among any other entries, it holds for the sensor a record that is at
-- least as new as the reading.
pub run-load_from_env :
    (o : Outside) (env : Env) (clock : ℕ → ℕ) (s : Sensor) (ticks : List Tick) (t : Tick)
    (w : Worker) (es : List (Option Fields))
    → Memᴰ s (start_all (load_from_env o env clock []).0)
    → ((x : Tick) → Memᴰ x ticks → HasSine o s.kind x)
    → Memᴰ t ticks
    → w.stopped ≡ false
    → w.node_id ≢ ""
    → ((e : Fields) → Memᴰ e (loop o s ticks) → Memᴰ (some e) es)
    → (v : Value) × Memᴰ (event s v t.ts_ms) (loop o s ticks)
      × Covers (reading w.node_id s v t.ts_ms) (Dict.lookup s.sensor_id (run w es).state)
run-load_from_env o env clock s ticks t w es loaded sines m working named read =
    let (r, there, started) = started_from (load_from_env o env clock []).0 s loaded in
    let (all, _, _) = load_from_env-AreSensors o env clock in
    let (i, _, is) = index_of o 0 (load_from_env o env clock []).0 r all there in
    let (id_kept, kind_kept, flag_kept) = start_keeps r in
    let (name, called) = is.named in
    let same_kind : r.kind ≡ s.kind = sym (ap (λ x. x.kind) started ∙ kind_kept) in
    run-loop o s ticks t w es (ap (λ x. x.stopped) started ∙ flag_kept ∙ is.stopped)
      (subst (SoundKind o) same_kind is.kind, sines)
      (λ blank. id_of-ne name i (sym (ap (λ x. x.sensor_id) started ∙ id_kept ∙ called) ∙ blank)) m
      working named read
