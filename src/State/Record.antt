-- ===== src/State/Record.antt =====
-- The records of the last-writer-wins state (`_state` of state/node_state_worker.py), and the order
-- by which one write replaces another.
use Prim.Native.Nat.{Ordering}
use Prim.Native.String.{then, compare as compare_text}
use text.Mathlib.TextEquality.{path_by_compare}
use text.Mathlib.TextPositions.{compare_refl}
use distributed_sensor_hub.Base.{◌≡◌, String, Bool, true, false, arith}
use distributed_sensor_hub.Base.Int.{ℤ, compare_ℤ, swap}
use distributed_sensor_hub.Base.Text.{compare_trans_gt, swap-compare}
use distributed_sensor_hub.Value.{Value, PyInt, int_value}

-- What `_normalize_meta` returns.
pub record Meta : Type 0 where
  pub unit : Value
  pub period_ms : Value

pub record Record : Type 0 where
  pub value : Value
  pub ts_ms : PyInt
  pub origin : String
  pub meta : Meta

abbrev pub is_gt : Ordering → Bool
is_gt Ordering.gt = true
is_gt _ = false

-- The pair (timestamp, origin) by which conflicts are resolved.
pub record Stamp : Type 0 where
  pub time : ℤ
  pub origin : String

abbrev pub stamp : Record → Stamp
stamp r = record { time = int_value r.ts_ms; origin = r.origin }

-- The lexicographic order of stamps: `newer s t` says that `s` wins over `t`.
unfoldable pub newer : Stamp → Stamp → Bool
newer s t = is_gt (then (compare_ℤ s.time t.time) (compare_text s.origin t.origin))

then_trans :
    (a b c : ℤ) (p q r : Ordering)
    → (p ≡ Ordering.gt → q ≡ Ordering.gt → r ≡ Ordering.gt)
    → is_gt (then (compare_ℤ a b) p) ≡ true
    → is_gt (then (compare_ℤ b c) q) ≡ true
    → is_gt (then (compare_ℤ a c) r) ≡ true
then_trans a b c p q r f h k = ground arith

then_connected :
    (a b : ℤ) (p : Ordering)
    → is_gt (then (compare_ℤ a b) p) ≡ false
    → is_gt (then (compare_ℤ b a) (swap p)) ≡ false
    → (a ≡ b) × (p ≡ Ordering.eq)
then_connected a b p h k = ground arith

pub newer_irrefl : (s : Stamp) → newer s s ≡ false
unfolding newer
newer_irrefl s = ground (arith, compare_refl s.origin)

pub newer_trans : (s t u : Stamp) → newer s t ≡ true → newer t u ≡ true → newer s u ≡ true
unfolding newer
newer_trans s t u h k =
    then_trans s.time t.time u.time _ _ _ (compare_trans_gt s.origin t.origin u.origin) h k

pub newer_connected : (s t : Stamp) → newer s t ≡ false → newer t s ≡ false → s ≡ t
unfolding newer
newer_connected s t h k =
    let (times, texts) =
      then_connected s.time t.time _ h (rw (← swap-compare s.origin t.origin) k) in
    let origins = path_by_compare s.origin t.origin texts in
    λ i. record { time = times i; origin = origins i }
