-- ===== src/Sensors/Loading.antt =====
-- What `load_from_env` of sensors/sensor_manager.py makes of an environment.
use Prim.Native.Char.{Char}
use mathlib.Core.List.{Memᴰ}
use mathlib.Core.Path.{subst}
use distributed_sensor_hub.Base.{
  ℕ, zero, suc, ◌+◌, ◌≤◌, ltb, ◌≡◌, ◌≢◌, refl, sym, ◌∙◌, String, false, none, some, List, [], ◌∷◌,
  ◌++◌, arith, string_eq, Bool-cases, Option-cases, inl, inr,
}
use distributed_sensor_hub.Base.Decimal.{show, show_inj}
use distributed_sensor_hub.Base.Int.{ℤ, pos, negsuc}
use distributed_sensor_hub.Base.Lists.{Memᴰ-cases, length, length-append}
use distributed_sensor_hub.Base.Result.{ok, Result-cases, Returns, >>=-Returns, ok-Returns}
use distributed_sensor_hub.Base.Text.{split_last}
use distributed_sensor_hub.Base.Words.{int_of_text, show-Free}
use distributed_sensor_hub.Config.{Env, getenv_or}
use distributed_sensor_hub.Sensors.{Outside, Sensor}
use distributed_sensor_hub.Sensors.Kinds.{SoundKind, load_kind-SoundKind}
use distributed_sensor_hub.Sensors.Manager.{
  setting, int_of, require_type, check_period, default_name, id_of, load_kind, load_sensor,
  load_sensors, load_from_env,
}

abbrev at_sign : Char
at_sign = "@"

-- No two sensors have the id of one index.
pub id_of_inj : (a b : String) (i j : ℕ) → id_of a i ≡ id_of b j → i ≡ j
id_of_inj a b i j h = show_inj i j (
    split_last b'@' at_sign refl a b (show i) (show j) (show-Free b'@' i refl)
      (show-Free b'@' j refl) h)

-- A period in milliseconds is positive.
abbrev pub IsPeriod : ℤ → Type 0
IsPeriod z = (n : ℕ) × (1 ≤ n) × (z ≡ pos n)

-- A sensor as the round `i` of the loading makes it.
pub record IsSensor (o : Outside) (i : ℕ) (s : Sensor) : Type 0 where
  pub named : (name : String) × (s.sensor_id ≡ id_of name i)
  pub period : IsPeriod s.period_ms
  pub kind : SoundKind o s.kind
  pub started : s.started ≡ false
  pub stopped : s.stopped ≡ false

-- The sensors of the rounds from `i` on.
abbrev pub AreSensors : Outside → ℕ → List Sensor → Type 0
AreSensors o i [] = Unit
AreSensors o i (s ∷ sensors) = IsSensor o i s × AreSensors o (suc i) sensors

AreSensors-append :
    (o : Outside) (i : ℕ) (sensors : List Sensor) (s : Sensor)
    → AreSensors o i sensors
    → IsSensor o (i + length sensors) s
    → AreSensors o i (sensors ++ (s ∷ []))
AreSensors-append o i [] s h this = (subst (λ k. IsSensor o k s) (omega arith) this, tt)
AreSensors-append o i (r ∷ sensors) s (h, hs) this =
    (h, AreSensors-append o (suc i) sensors s hs (subst (λ k. IsSensor o k s) (omega arith) this))

check_period-IsPeriod : (z : ℤ) {p : ℤ} → check_period z ≡ ok p → IsPeriod p
check_period-IsPeriod (pos n) h = elim (Bool-cases (ltb 0 n)) [
  | inl positive ↦ (n, ground arith, ground arith)
  | inr zero_period ↦ absurd (ground arith)
]
check_period-IsPeriod (negsuc n) h = absurd (cc)

module _ (o : Outside) (env : Env) (clock : ℕ → ℕ) where
  load_sensor-IsSensor : (i : ℕ) → Returns (IsSensor o i) (load_sensor o env clock i)
  unfolding load_sensor
  load_sensor-IsSensor i =
      >>=-Returns (IsSensor o i) (require_type (setting env i "TYPE")) _ (λ s_type _.
        >>=-Returns (IsSensor o i)
          (int_of (elim (setting env i "PERIOD_MS") [ none ↦ "0" | some s ↦ s ])) _
          (λ raw _. >>=-Returns (IsSensor o i) (check_period raw) _ (λ period_ms checked.
            >>=-Returns (IsSensor o i) (load_kind o (setting env i) s_type (clock i)) _
              (λ kind made. ok-Returns (IsSensor o i) _ (record {
                named = (elim (setting env i "NAME") [ none ↦ default_name i | some s ↦ s ], refl);
                period = check_period-IsPeriod raw checked;
                kind = load_kind-SoundKind o (setting env i) s_type (clock i) kind made;
                started = refl;
                stopped = refl;
              })))))

  load_sensors-AreSensors :
      (i n : ℕ) (sensors : List Sensor)
      → AreSensors o 0 sensors
      → length sensors ≡ i
      → let (all, raised) = load_sensors o env clock i n sensors in
        AreSensors o 0 all × (raised ≡ none → length all ≡ i + n)
  unfolding load_sensors
  load_sensors-AreSensors i zero sensors h e = (h, λ _. omega arith)
  load_sensors-AreSensors i (suc n) sensors h e = elim (Result-cases (load_sensor o env clock i)) [
    | inl (x, failed) ↦ rw (failed, load_sensors) (h, λ none_raised. absurd (cc))
    | inr (s, made) ↦
        let here : i ≡ 0 + length sensors = omega arith in
        let this = subst (λ k. IsSensor o k s) here (load_sensor-IsSensor i s made) in
        let longer : length (sensors ++ (s ∷ [])) ≡ suc i =
          length-append sensors (s ∷ []) ∙ omega arith in
        let (all, exact) =
          load_sensors-AreSensors (suc i) n (sensors ++ (s ∷ []))
            (AreSensors-append o 0 sensors s h this) longer in
        rw (made, load_sensors) (all, λ none_raised. let x = exact none_raised in omega arith)
  ]

-- No two sensors of a list have one id.
abbrev pub Distinct : List Sensor → Type 0
Distinct [] = Unit
Distinct (s ∷ sensors) =
    ((r : Sensor) → Memᴰ r sensors → s.sensor_id ≢ r.sensor_id) × Distinct sensors

pub index_of :
    (o : Outside) (i : ℕ) (sensors : List Sensor) (r : Sensor)
    → AreSensors o i sensors
    → Memᴰ r sensors
    → (k : ℕ) × (i ≤ k) × IsSensor o k r
index_of o i [] r h m = elim m [ ]
index_of o i (s ∷ sensors) r (h, hs) m = elim (Memᴰ-cases m) [
  | inl here ↦ (i, omega arith, subst (IsSensor o i) (sym here) h)
  | inr later ↦
      let (k, after, this) = index_of o (suc i) sensors r hs later in (k, omega arith, this)
]

AreSensors-Distinct :
    (o : Outside) (i : ℕ) (sensors : List Sensor) → AreSensors o i sensors → Distinct sensors
AreSensors-Distinct o i [] h = tt
AreSensors-Distinct o i (s ∷ sensors) (h, hs) = (
  λ r m same.
      let (k, after, this) = index_of o (suc i) sensors r hs m in
      let (name, e) = h.named in
      let (name', e') = this.named in
      let clash : i ≡ k = id_of_inj name name' i k (sym e ∙ same ∙ e') in absurd (omega arith),
  AreSensors-Distinct o (suc i) sensors hs,
)

-- How many rounds `range(count)` has.
abbrev pub rounds : ℤ → ℕ
rounds (pos n) = n
rounds (negsuc n) = 0

module _ (o : Outside) (env : Env) (clock : ℕ → ℕ) where
  -- Whether it raises or not, loading leaves a manager that had no sensors with sensors that have distinct
  -- ids, positive periods and parameters that their constructors accept, and that do not run. If it does not
  -- raise, there are as many as SENSORS says, none for a negative number.
  pub load_from_env-AreSensors :
      let (all, raised) = load_from_env o env clock [] in
      AreSensors o 0 all
      × Distinct all
      × (raised ≡ none
          → (z : ℤ) × (int_of_text (getenv_or env "SENSORS" "0") ≡ some z)
            × (length all ≡ rounds z))
  unfolding load_from_env
  load_from_env-AreSensors = elim (Option-cases (int_of_text (getenv_or env "SENSORS" "0"))) [
    | inl bad ↦ rw (bad, load_from_env) (tt, tt, λ h. absurd (cc))
    | inr (negsuc n, e) ↦ rw (e, load_from_env) (tt, tt, λ h. (negsuc n, refl, refl))
    | inr (pos n, e) ↦
        let (all, exact) = load_sensors-AreSensors o env clock 0 n [] tt refl in
        rw (e, load_from_env)
          (all, AreSensors-Distinct o 0 _ all, λ h. (pos n, refl, exact h ∙ omega arith))
  ]
