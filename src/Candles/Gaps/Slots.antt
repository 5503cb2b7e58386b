-- ===== src/Candles/Gaps/Slots.antt =====
-- The instants that are missing between two rows in src/services/candle-store.ts.
use opengecko.Prelude.{
  ℕ, zero, suc, ◌+◌, ◌-◌, ◌*◌, ◌≤◌, ◌<◌, ◌≡◌, ◌⊎◌, refl, true, length, ltb, ◌==◌, Bool-cases, inl,
  inr, arith,
}
use opengecko.Candles.{CandleInterval, minute, day, interval_ms}
use opengecko.Candles.Gaps.{has, steps_from, missing_between}

-- An instant of the grid of `t` before `current`.
abbrev pub OnGrid : (step t current x : ℕ) → Type 0
OnGrid step t current x = (k : ℕ) × (x ≡ t + k * step) × (x < current)

steps_from-OnGrid :
    (fuel t current step x : ℕ)
    → has x (steps_from fuel t current step) ≡ true
    → OnGrid step t current x
unfolding steps_from has
steps_from-OnGrid zero t current step x m = cc
steps_from-OnGrid (suc fuel) t current step x m = elim (Bool-cases (ltb t current)) [
  | inl before ↦ elim (Bool-cases (x == t)) [
    | inl first ↦ (0, ground arith, ground arith)
    | inr other ↦
        let (k, e, h) = steps_from-OnGrid fuel (t + step) current step x (ground arith) in
        (suc k, omega arith, h)
  ]
  | inr after ↦ ground arith
]

steps_from-has :
    (fuel t current step x k : ℕ)
    → current ≤ t + fuel * step
    → x ≡ t + k * step
    → x < current
    → has x (steps_from fuel t current step) ≡ true
unfolding steps_from has
steps_from-has zero t current step x k enough e h = ground arith
steps_from-has (suc fuel) t current step x zero enough e h = ground arith
steps_from-has (suc fuel) t current step x (suc k) enough e h =
    ground (arith, steps_from-has fuel (t + step) current step x k (omega arith) (omega arith) h)

-- As many instants as there are steps that end before the row.
length-steps_from :
    (fuel t current step : ℕ)
    → current ≤ t + fuel * step
    → (current ≤ t + length (steps_from fuel t current step) * step)
      × ((length (steps_from fuel t current step) ≡ 0)
          ⊎ (t + length (steps_from fuel t current step) * step < current + step))
unfolding steps_from
length-steps_from zero t current step enough = (enough, inl refl)
length-steps_from (suc fuel) t current step enough =
    let (a, b) = length-steps_from fuel (t + step) current step (omega arith) in
    elim (Bool-cases (ltb t current)) [
      | inl before ↦ rw before (
        omega (arith, a),
        elim b [ inl empty ↦ inr (rw empty (ground arith)) | inr short ↦ inr (omega arith) ],
      )
      | inr after ↦ rw after (ground arith)
    ]

-- The length of the list of missing instants is the number of steps that end before the row.
unfoldable pub slots : (step previous current : ℕ) → ℕ
slots step previous current = length (missing_between step previous current)

slots_bounds :
    (interval : CandleInterval) (previous current : ℕ)
    → let step = interval_ms interval in
      let n = slots step previous current in
      (current ≤ previous + step + n * step) × ((n ≡ 0) ⊎ (previous + n * step < current))
unfolding slots missing_between
slots_bounds minute previous current =
    let (a, b) =
      length-steps_from (current - previous) (previous + 60000) current 60000 (omega arith) in
    (a, elim b [ inl empty ↦ inl empty | inr short ↦ inr (omega arith) ])
slots_bounds day previous current =
    let (a, b) =
      length-steps_from (current - previous) (previous + 86400000) current 86400000 (omega arith) in
    (a, elim b [ inl empty ↦ inl empty | inr short ↦ inr (omega arith) ])

pub slots-same : (step t : ℕ) → slots step t t ≡ 0
unfolding slots missing_between steps_from
slots-same step t = ground arith

-- A candle between two rows leaves no more instants missing than before.
pub slots-split :
    (interval : CandleInterval) (t x u : ℕ)
    → t ≤ x
    → x ≤ u
    → let step = interval_ms interval in slots step t x + slots step x u ≤ slots step t u
slots-split minute t x u h k =
    ground (arith, slots_bounds minute t x, slots_bounds minute x u, slots_bounds minute t u)
slots-split day t x u h k =
    ground (arith, slots_bounds day t x, slots_bounds day x u, slots_bounds day t u)

pub missing_between-OnGrid :
    (step t u x : ℕ) → has x (missing_between step t u) ≡ true → OnGrid step (t + step) u x
unfolding missing_between
missing_between-OnGrid step t u x m = steps_from-OnGrid (u - t) (t + step) u step x m

pub missing_between-has :
    (interval : CandleInterval) (t u x : ℕ)
    → let step = interval_ms interval in
      OnGrid step (t + step) u x → has x (missing_between step t u) ≡ true
unfolding missing_between
missing_between-has minute t u x (k, e, h) =
    steps_from-has (u - t) (t + 60000) u 60000 x k (omega arith) e h
missing_between-has day t u x (k, e, h) =
    steps_from-has (u - t) (t + 86400000) u 86400000 x k (omega arith) e h

-- A candle at a missing instant leaves fewer of them.
pub slots-split_missing :
    (interval : CandleInterval) (t x u : ℕ)
    → has x (missing_between (interval_ms interval) t u) ≡ true
    → let step = interval_ms interval in slots step t x + slots step x u < slots step t u
slots-split_missing minute t x u m =
    let (k, e, h) = missing_between-OnGrid 60000 t u x m in
    ground (arith, slots_bounds minute t x, slots_bounds minute x u, slots_bounds minute t u)
slots-split_missing day t x u m =
    let (k, e, h) = missing_between-OnGrid 86400000 t u x m in
    ground (arith, slots_bounds day t x, slots_bounds day x u, slots_bounds day t u)
