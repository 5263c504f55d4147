-- ===== src/Sensors/Failure.antt =====
-- How `load_from_env` of sensors/sensor_manager.py fails.
use distributed_sensor_hub.Base.{
  Bool, true, false, ap, ◌∙◌, if◌then◌else◌, ℕ, zero, suc, ◌≡◌, ◌≢◌, refl, String, Option, none,
  some, List, [], ◌∷◌, ◌++◌, arith, ◌==◌, string_eq, Option-cases, inl, inr, ◌⊎◌,
}
use distributed_sensor_hub.Base.Int.{ℤ, pos, negsuc}
use distributed_sensor_hub.Base.Lists.{length, length-append}
use distributed_sensor_hub.Base.Result.{
  Exception, value_error, type_error, runtime_error, Result-cases, Raises, >>=-Raises, ok-Raises,
  raise-Raises, if-Raises, Result, ok, ◌>>=◌, >>=-eq_raise,
}
use distributed_sensor_hub.Base.Words.{int_of_text}
use distributed_sensor_hub.Config.{Env, getenv_or}
use distributed_sensor_hub.Sensors.{
  Outside, zero_f, half_f, tenth_f, fifth_f, one_f, ten_f, boolean, trend, spike, wave, Sensor,
  new_numeric, new_incremental, new_noise, new_categorical,
}
use distributed_sensor_hub.Sensors.Manager.{
  setting, int_of, require_type, check_period, float_or, float_required, load_categorical,
  load_numeric, load_boolean, load_incremental, load_trend, load_spike, load_wave, load_noise,
  load_kind, load_sensor, load_sensors, load_from_env,
}

-- A numeric sensor for whose MIN or MAX the environment has nothing.
abbrev pub Missing : Env → ℕ → Type 0
Missing env i =
    (setting env i "TYPE" ≡ some "numeric")
    × ((setting env i "MIN" ≡ none) ⊎ (setting env i "MAX" ≡ none))

-- The exceptions of a round: a `ValueError`, or the `TypeError` of `float(None)`, where `M` holds.
abbrev pub IsLoadError : Type 0 → Exception → Type 0
IsLoadError M e = (e ≡ value_error) ⊎ ((e ≡ type_error) × M)

-- A chain and a test, where the second part may use how the first came out.
then-Raises :
    {A B : Type 0} (E : Exception → Type 0) (m : Result A) (f : A → Result B)
    → Raises E m
    → ((a : A) → m ≡ ok a → Raises E (f a))
    → Raises E (m >>= f)
then-Raises E m f first second e h = elim (>>=-eq_raise m f h) [
  | inl r ↦ first e r
  | inr (a, done, r) ↦ second a done e r
]

branch-Raises :
    {A : Type 0} (E : Exception → Type 0) (b : Bool) (m n : Result A)
    → (b ≡ true → Raises E m)
    → Raises E n
    → Raises E (if b then m else n)
branch-Raises E true m n first second = first refl
branch-Raises E false m n first second = second

module _ (M : Type 0) where
  IsLoadError-value_error : IsLoadError M value_error
  IsLoadError-value_error = inl refl

  int_of-raise : (s : String) → Raises (IsLoadError M) (int_of s)
  int_of-raise s e h = inl (ground arith)

  check_period-raise : (z : ℤ) → Raises (IsLoadError M) (check_period z)
  check_period-raise (pos n) e h = inl (ground arith)
  check_period-raise (negsuc n) e h = inl (cc)

  require_type-raise : (s : Option String) → Raises (IsLoadError M) (require_type s)
  require_type-raise none e h = inl (cc)
  require_type-raise (some s) e h = inl (ground arith)

  module _ (o : Outside) where
    float_or-raise :
        (s : Option String) (default : ℕ) → Raises (IsLoadError M) (float_or o s default)
    float_or-raise none default e h = absurd (cc)
    float_or-raise (some s) default e h = inl (ground arith)

    float_required-raise :
        (s : Option String) → (s ≡ none → M) → Raises (IsLoadError M) (float_required o s)
    float_required-raise none missing e h = inr (cc, missing refl)
    float_required-raise (some s) missing e h = inl (ground arith)

    new_numeric-raise : (low high : ℕ) → Raises (IsLoadError M) (new_numeric o low high)
    unfolding new_numeric
    new_numeric-raise low high e h = inl (ground arith)

    new_incremental-raise : (value step : ℕ) → Raises (IsLoadError M) (new_incremental o value step)
    unfolding new_incremental
    new_incremental-raise value step e h = inl (ground arith)

    new_noise-raise : (base noise : ℕ) → Raises (IsLoadError M) (new_noise o base noise)
    unfolding new_noise
    new_noise-raise base noise e h = inl (ground arith)

    load_categorical-raise :
        (get : String → Option String) → Raises (IsLoadError M) (load_categorical get)
    unfolding load_categorical new_categorical
    load_categorical-raise get e h = inl (grind arith)

    load_numeric-raise :
        (get : String → Option String)
        → ((get "MIN" ≡ none) ⊎ (get "MAX" ≡ none) → M)
        → Raises (IsLoadError M) (load_numeric o get)
    unfolding load_numeric
    load_numeric-raise get missing =
        >>=-Raises (IsLoadError M) (float_required o (get "MIN")) _
          (float_required-raise (get "MIN") (λ e. missing (inl e)))
          (λ low.
            >>=-Raises (IsLoadError M) (float_required o (get "MAX")) _
              (float_required-raise (get "MAX") (λ e. missing (inr e)))
              (λ high. new_numeric-raise low high))

    load_boolean-raise :
        (get : String → Option String) → Raises (IsLoadError M) (load_boolean o get)
    unfolding load_boolean
    load_boolean-raise get =
        >>=-Raises (IsLoadError M) (float_or o (get "P_TRUE") half_f) _
          (float_or-raise (get "P_TRUE") half_f) (λ p. ok-Raises (IsLoadError M) (boolean p))

    load_incremental-raise :
        (get : String → Option String) → Raises (IsLoadError M) (load_incremental o get)
    unfolding load_incremental
    load_incremental-raise get =
        >>=-Raises (IsLoadError M) (float_or o (get "START") zero_f) _
          (float_or-raise (get "START") zero_f)
          (λ value.
            >>=-Raises (IsLoadError M) (float_or o (get "STEP_PCT") one_f) _
              (float_or-raise (get "STEP_PCT") one_f) (λ step. new_incremental-raise value step))

    load_trend-raise : (get : String → Option String) → Raises (IsLoadError M) (load_trend o get)
    unfolding load_trend
    load_trend-raise get =
        >>=-Raises (IsLoadError M) (float_or o (get "START") zero_f) _
          (float_or-raise (get "START") zero_f)
          (λ x.
            >>=-Raises (IsLoadError M) (float_or o (get "SLOPE") tenth_f) _
              (float_or-raise (get "SLOPE") tenth_f)
              (λ y.
                >>=-Raises (IsLoadError M) (float_or o (get "NOISE") zero_f) _
                  (float_or-raise (get "NOISE") zero_f)
                  (λ z. ok-Raises (IsLoadError M) (trend x y z))))

    load_spike-raise : (get : String → Option String) → Raises (IsLoadError M) (load_spike o get)
    unfolding load_spike
    load_spike-raise get =
        >>=-Raises (IsLoadError M) (float_or o (get "BASELINE") zero_f) _
          (float_or-raise (get "BASELINE") zero_f)
          (λ x.
            >>=-Raises (IsLoadError M) (float_or o (get "SPIKE_HEIGHT") ten_f) _
              (float_or-raise (get "SPIKE_HEIGHT") ten_f)
              (λ y.
                >>=-Raises (IsLoadError M) (float_or o (get "P_SPIKE") fifth_f) _
                  (float_or-raise (get "P_SPIKE") fifth_f)
                  (λ z. ok-Raises (IsLoadError M) (spike x y z))))

    load_wave-raise :
        (get : String → Option String) (now : ℕ) → Raises (IsLoadError M) (load_wave o get now)
    unfolding load_wave
    load_wave-raise get now =
        >>=-Raises (IsLoadError M) (float_or o (get "AMPLITUDE") one_f) _
          (float_or-raise (get "AMPLITUDE") one_f)
          (λ x.
            >>=-Raises (IsLoadError M) (float_or o (get "FREQUENCY") one_f) _
              (float_or-raise (get "FREQUENCY") one_f)
              (λ y. ok-Raises (IsLoadError M) (wave x y now)))

    load_noise-raise : (get : String → Option String) → Raises (IsLoadError M) (load_noise o get)
    unfolding load_noise
    load_noise-raise get =
        >>=-Raises (IsLoadError M) (float_or o (get "BASE") zero_f) _
          (float_or-raise (get "BASE") zero_f)
          (λ base.
            >>=-Raises (IsLoadError M) (float_or o (get "NOISE") one_f) _
              (float_or-raise (get "NOISE") one_f) (λ noise. new_noise-raise base noise))

    load_kind-raise :
        (get : String → Option String) (s_type : String) (now : ℕ)
        → (s_type ≡ "numeric" → (get "MIN" ≡ none) ⊎ (get "MAX" ≡ none) → M)
        → Raises (IsLoadError M) (load_kind o get s_type now)
    unfolding load_kind
    load_kind-raise get s_type now missing =
        branch-Raises (IsLoadError M) (s_type == "numeric") (load_numeric o get) _
          (λ is_numeric. load_numeric-raise get (missing (ground arith)))
          (if-Raises (IsLoadError M) (s_type == "boolean") (load_boolean o get) _
            (load_boolean-raise get)
            (if-Raises (IsLoadError M) (s_type == "categorical") (load_categorical get) _
              (load_categorical-raise get)
              (if-Raises (IsLoadError M) (s_type == "incremental") (load_incremental o get) _
                (load_incremental-raise get)
                (if-Raises (IsLoadError M) (s_type == "trend") (load_trend o get) _
                  (load_trend-raise get)
                  (if-Raises (IsLoadError M) (s_type == "spike") (load_spike o get) _
                    (load_spike-raise get)
                    (if-Raises (IsLoadError M) (s_type == "wave") (load_wave o get now) _
                      (load_wave-raise get now)
                      (if-Raises (IsLoadError M) (s_type == "noise") (load_noise o get) _
                        (load_noise-raise get)
                        (raise-Raises (IsLoadError M) value_error IsLoadError-value_error))))))))

module _ (o : Outside) (env : Env) (clock : ℕ → ℕ) where
  type_read : (s : Option String) (s_type : String) → require_type s ≡ ok s_type → s ≡ some s_type
  type_read none s_type h = absurd (cc)
  type_read (some s) s_type h = ground arith

  load_sensor-raise : (i : ℕ) → Raises (IsLoadError (Missing env i)) (load_sensor o env clock i)
  unfolding load_sensor
  load_sensor-raise i =
      let M = Missing env i in
      then-Raises (IsLoadError M) (require_type (setting env i "TYPE")) _
        (require_type-raise M (setting env i "TYPE"))
        (λ s_type typed.
          >>=-Raises (IsLoadError M)
            (int_of (elim (setting env i "PERIOD_MS") [ none ↦ "0" | some s ↦ s ])) _
            (int_of-raise M _)
            (λ raw.
              >>=-Raises (IsLoadError M) (check_period raw) _ (check_period-raise M raw)
                (λ period_ms.
                  >>=-Raises (IsLoadError M) (load_kind o (setting env i) s_type (clock i)) _
                    (load_kind-raise M o (setting env i) s_type (clock i) (λ is_numeric bound.
                      (type_read (setting env i "TYPE") s_type typed ∙ ap some is_numeric, bound)))
                    (λ kind. ok-Raises (IsLoadError M) _))))

  load_sensors-raise :
      (i n : ℕ) (sensors : List Sensor) (e : Exception)
      → length sensors ≡ i
      → (load_sensors o env clock i n sensors).1 ≡ some e
      → IsLoadError (Missing env (length (load_sensors o env clock i n sensors).0)) e
  unfolding load_sensors
  load_sensors-raise i zero sensors e count h = absurd (cc)
  load_sensors-raise i (suc n) sensors e count h = elim (Result-cases (load_sensor o env clock i)) [
    | inl (x, failed) ↦
        let same : e ≡ x = ground arith in
        rw (failed, load_sensors, count) (rw same (load_sensor-raise i x failed))
    | inr (s, made) ↦
        rw (made, load_sensors)
          (load_sensors-raise (suc i) n (sensors ++ (s ∷ [])) e
            (length-append sensors (s ∷ []) ∙ omega arith) (rw (made, load_sensors) at h))
  ]

  -- Loading raises only a `ValueError`, a `TypeError` where the sensor behind those that were loaded is numeric
  -- and its MIN or MAX is missing, or, just if the manager already has sensors, a `RuntimeError`, and
  -- then its sensors stay as they are.
  pub load_from_env-raise :
      (sensors : List Sensor) (e : Exception)
      → (load_from_env o env clock sensors).1 ≡ some e
      → (IsLoadError (Missing env (length (load_from_env o env clock sensors).0)) e
          × (sensors ≡ []))
        ⊎ ((e ≡ runtime_error) × ((load_from_env o env clock sensors).0 ≡ sensors) × (sensors ≢ []))
  unfolding load_from_env
  load_from_env-raise (s ∷ sensors) e h = inr (cc, refl, λ same. absurd (cc))
  load_from_env-raise [] e h = elim (Option-cases (int_of_text (getenv_or env "SENSORS" "0"))) [
    | inl bad ↦ inl (inl (ground arith), refl)
    | inr (negsuc n, k) ↦ absurd (ground arith)
    | inr (pos n, k) ↦ inl (
      rw (k, load_from_env) (load_sensors-raise 0 n [] e refl (rw (k, load_from_env) at h)),
      refl,
    )
  ]
