-- ===== src/Sensors/Kinds.antt =====
-- The constructors of the sensor classes and the branches of sensors/sensor_manager.py that call them: what
-- they make sure of.
use mathlib.Core.Path.{subst}
use distributed_sensor_hub.Base.{
  ℕ, ◌≡◌, ◌≢◌, sym, String, false, Option, List, [], ◌∷◌, arith, ◌==◌, string_eq, Bool-cases, inl,
  inr,
}
use distributed_sensor_hub.Base.Result.{
  ok, value_error, ok_inj, Returns, >>=-Returns, ok-Returns, raise-Returns, if-Returns,
}
use distributed_sensor_hub.Base.Words.{strip}
use distributed_sensor_hub.Sensors.{
  Outside, zero_f, half_f, tenth_f, fifth_f, one_f, ten_f, Kind, numeric, boolean, categorical,
  incremental, noisy, trend, spike, wave, new_numeric, new_incremental, new_noise, new_categorical,
}
use distributed_sensor_hub.Sensors.Manager.{
  nonblank, float_or, float_required, load_categorical, load_numeric, load_boolean,
  load_incremental, load_trend, load_spike, load_wave, load_noise, load_kind,
}

abbrev pub AllNonblank : List String → Type 0
AllNonblank [] = Unit
AllNonblank (v ∷ vs) = (v ≢ "") × AllNonblank vs

-- What the constructor of a kind makes sure of.
abbrev pub SoundKind : Outside → Kind → Type 0
SoundKind o (numeric min_val max_val) = o.le max_val min_val ≡ false
SoundKind o (categorical categories) = (categories ≢ []) × AllNonblank categories
SoundKind o (incremental start step_pct) = o.lt step_pct zero_f ≡ false
SoundKind o (noisy base noise) = o.lt noise zero_f ≡ false
SoundKind o _ = Unit

AllNonblank-nonblank : (vs : List String) → AllNonblank (nonblank vs)
unfolding nonblank
AllNonblank-nonblank [] = tt
AllNonblank-nonblank (v ∷ vs) = elim (Bool-cases (strip v == "")) [
  | inl blank ↦ rw blank (AllNonblank-nonblank vs)
  | inr full ↦ rw full (ground arith, AllNonblank-nonblank vs)
]

new_categorical-SoundKind :
    (o : Outside) (cs : List String) {k : Kind}
    → AllNonblank cs
    → new_categorical cs ≡ ok k
    → SoundKind o k
unfolding new_categorical
new_categorical-SoundKind o [] all h = absurd (cc)
new_categorical-SoundKind o (c ∷ cs) {k} all h = rw (sym (ok_inj h)) ((λ e. absurd (cc), all))

module _ (o : Outside) where
  new_numeric-SoundKind : (low high : ℕ) → Returns (SoundKind o) (new_numeric o low high)
  unfolding new_numeric
  new_numeric-SoundKind low high k h = elim (Bool-cases (o.le high low)) [
    | inl wrong ↦ absurd (ground arith)
    | inr right ↦ subst (SoundKind o) (ok_inj (rw right at h)) right
  ]

  new_incremental-SoundKind :
      (value step : ℕ) → Returns (SoundKind o) (new_incremental o value step)
  unfolding new_incremental
  new_incremental-SoundKind value step k h = elim (Bool-cases (o.lt step zero_f)) [
    | inl wrong ↦ absurd (ground arith)
    | inr right ↦ subst (SoundKind o) (ok_inj (rw right at h)) right
  ]

  new_noise-SoundKind : (base noise : ℕ) → Returns (SoundKind o) (new_noise o base noise)
  unfolding new_noise
  new_noise-SoundKind base noise k h = elim (Bool-cases (o.lt noise zero_f)) [
    | inl wrong ↦ absurd (ground arith)
    | inr right ↦ subst (SoundKind o) (ok_inj (rw right at h)) right
  ]

  load_numeric-SoundKind :
      (get : String → Option String) → Returns (SoundKind o) (load_numeric o get)
  unfolding load_numeric
  load_numeric-SoundKind get = >>=-Returns (SoundKind o) (float_required o (get "MIN")) _ (λ low _.
      >>=-Returns (SoundKind o) (float_required o (get "MAX")) _
        (λ high _. new_numeric-SoundKind low high))

  load_boolean-SoundKind :
      (get : String → Option String) → Returns (SoundKind o) (load_boolean o get)
  unfolding load_boolean
  load_boolean-SoundKind get =
      >>=-Returns (SoundKind o) (float_or o (get "P_TRUE") half_f) _
        (λ p _. ok-Returns (SoundKind o) (boolean p) tt)

  load_incremental-SoundKind :
      (get : String → Option String) → Returns (SoundKind o) (load_incremental o get)
  unfolding load_incremental
  load_incremental-SoundKind get =
      >>=-Returns (SoundKind o) (float_or o (get "START") zero_f) _ (λ value _.
        >>=-Returns (SoundKind o) (float_or o (get "STEP_PCT") one_f) _
          (λ step _. new_incremental-SoundKind value step))

  load_trend-SoundKind : (get : String → Option String) → Returns (SoundKind o) (load_trend o get)
  unfolding load_trend
  load_trend-SoundKind get = >>=-Returns (SoundKind o) (float_or o (get "START") zero_f) _ (λ x _.
      >>=-Returns (SoundKind o) (float_or o (get "SLOPE") tenth_f) _ (λ y _.
        >>=-Returns (SoundKind o) (float_or o (get "NOISE") zero_f) _
          (λ z _. ok-Returns (SoundKind o) (trend x y z) tt)))

  load_spike-SoundKind : (get : String → Option String) → Returns (SoundKind o) (load_spike o get)
  unfolding load_spike
  load_spike-SoundKind get =
      >>=-Returns (SoundKind o) (float_or o (get "BASELINE") zero_f) _ (λ x _.
        >>=-Returns (SoundKind o) (float_or o (get "SPIKE_HEIGHT") ten_f) _ (λ y _.
          >>=-Returns (SoundKind o) (float_or o (get "P_SPIKE") fifth_f) _
            (λ z _. ok-Returns (SoundKind o) (spike x y z) tt)))

  load_wave-SoundKind :
      (get : String → Option String) (now : ℕ) → Returns (SoundKind o) (load_wave o get now)
  unfolding load_wave
  load_wave-SoundKind get now =
      >>=-Returns (SoundKind o) (float_or o (get "AMPLITUDE") one_f) _ (λ x _.
        >>=-Returns (SoundKind o) (float_or o (get "FREQUENCY") one_f) _
          (λ y _. ok-Returns (SoundKind o) (wave x y now) tt))

  load_noise-SoundKind : (get : String → Option String) → Returns (SoundKind o) (load_noise o get)
  unfolding load_noise
  load_noise-SoundKind get = >>=-Returns (SoundKind o) (float_or o (get "BASE") zero_f) _ (λ base _.
      >>=-Returns (SoundKind o) (float_or o (get "NOISE") one_f) _
        (λ noise _. new_noise-SoundKind base noise))

  load_categorical-SoundKind :
      (get : String → Option String) → Returns (SoundKind o) (load_categorical get)
  unfolding load_categorical
  load_categorical-SoundKind get k = new_categorical-SoundKind o _ (AllNonblank-nonblank _)

  pub load_kind-SoundKind :
      (get : String → Option String) (s_type : String) (now : ℕ)
      → Returns (SoundKind o) (load_kind o get s_type now)
  unfolding load_kind
  load_kind-SoundKind get s_type now =
      if-Returns (SoundKind o) (s_type == "numeric") (load_numeric o get) _
        (load_numeric-SoundKind get)
        (if-Returns (SoundKind o) (s_type == "boolean") (load_boolean o get) _
          (load_boolean-SoundKind get)
          (if-Returns (SoundKind o) (s_type == "categorical") (load_categorical get) _
            (load_categorical-SoundKind get)
            (if-Returns (SoundKind o) (s_type == "incremental") (load_incremental o get) _
              (load_incremental-SoundKind get)
              (if-Returns (SoundKind o) (s_type == "trend") (load_trend o get) _
                (load_trend-SoundKind get)
                (if-Returns (SoundKind o) (s_type == "spike") (load_spike o get) _
                  (load_spike-SoundKind get)
                  (if-Returns (SoundKind o) (s_type == "wave") (load_wave o get now) _
                    (load_wave-SoundKind get now)
                    (if-Returns (SoundKind o) (s_type == "noise") (load_noise o get) _
                      (load_noise-SoundKind get) (raise-Returns (SoundKind o) value_error))))))))
