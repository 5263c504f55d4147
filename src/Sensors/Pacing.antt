-- ===== src/Sensors/Pacing.antt =====
-- When the rounds of `_loop` of sensors/base_sensor.py start: `next_deadline` goes on by one period with each
-- round, and the loop waits for it unless it has passed. Times are in milliseconds, and a wait that no stop
-- ends lasts exactly as long as asked.
use distributed_sensor_hub.Base.{
  ℕ, ◌+◌, ◌-◌, ◌≤◌, ◌≡◌, refl, ap, ◌∙◌, List, [], ◌∷◌, ◌++◌, arith, ltb, if◌then◌else◌,
}
use distributed_sensor_hub.Base.Lists.{length, take}

-- The waiting at the end of a round, at the time `now`, for the deadline.
unfoldable pub wait_for : ℕ → ℕ → ℕ
wait_for deadline now = if ltb now deadline then now + (deadline - now) else now

-- The times at which rounds start that take as long as `works` says; the first two arguments after
-- the period are `next_deadline` and the time.
unfoldable pub starts : ℕ → ℕ → ℕ → List ℕ → List ℕ
starts period deadline now [] = []
starts period deadline now (work ∷ works) =
    now ∷ starts period (deadline + period) (wait_for (deadline + period) (now + work)) works

-- `_loop`
unfoldable pub loop_starts : ℕ → ℕ → List ℕ → List ℕ
loop_starts period now works = starts period now now works

-- The times `t`, `t + period` and so on, one for each round.
abbrev pub grid : ℕ → ℕ → List ℕ → List ℕ
grid period t [] = []
grid period t (work ∷ works) = t ∷ grid period (t + period) works

-- No round takes longer than a period.
abbrev pub Quick : ℕ → List ℕ → Type 0
Quick period [] = Unit
Quick period (work ∷ works) = (work ≤ period) × Quick period works

-- As many times as those of the second list, each at least the one beside it.
abbrev pub NotBefore : List ℕ → List ℕ → Type 0
NotBefore [] [] = Unit
NotBefore [] (t ∷ ts) = ⊥
NotBefore (s ∷ ss) [] = ⊥
NotBefore (s ∷ ss) (t ∷ ts) = (t ≤ s) × NotBefore ss ts

wait_for-early : (deadline now : ℕ) → now ≤ deadline → wait_for deadline now ≡ deadline
unfolding wait_for
wait_for-early deadline now h = ground arith

wait_for-late : (deadline now : ℕ) → deadline ≤ wait_for deadline now
unfolding wait_for
wait_for-late deadline now = ground arith

take-starts :
    (period t : ℕ) (quick rest : List ℕ)
    → Quick period quick
    → take (length quick) (starts period t t (quick ++ rest)) ≡ grid period t quick
unfolding starts take
take-starts period t [] rest h = refl
take-starts period t (work ∷ quick) rest (fits, h) =
    let on_time = wait_for-early (t + period) (t + work) (omega arith) in
    ap (λ now. t ∷ take (length quick) (starts period (t + period) now (quick ++ rest))) on_time
    ∙ ap (t ∷◌) (take-starts period (t + period) quick rest h)

starts-NotBefore :
    (period deadline now : ℕ) (works : List ℕ)
    → deadline ≤ now
    → NotBefore (starts period deadline now works) (grid period deadline works)
unfolding starts
starts-NotBefore period deadline now [] h = tt
starts-NotBefore period deadline now (work ∷ works) h = (
  h,
  starts-NotBefore period (deadline + period) (wait_for (deadline + period) (now + work)) works
      (wait_for-late (deadline + period) (now + work)),
)

-- A sensor does not drift: up to the first round that takes longer than a period its rounds start exactly
-- one period apart, counted from the start of the loop; and whatever its rounds take, there is one for
-- each and none starts before its time on that grid.
pub loop_starts_lem :
    (period now : ℕ) (quick rest : List ℕ)
    → Quick period quick
    → (take (length quick) (loop_starts period now (quick ++ rest)) ≡ grid period now quick)
      × NotBefore (loop_starts period now (quick ++ rest)) (grid period now (quick ++ rest))
unfolding loop_starts
loop_starts_lem period now quick rest h = (
  take-starts period now quick rest h,
  starts-NotBefore period now now (quick ++ rest) (omega arith),
)
