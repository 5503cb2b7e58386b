-- ===== src/Scheduler/Backoff/Bounds.antt =====
-- The bounds of the retry delay of src/services/job-scheduler.ts.
use opengecko.Prelude.{ℕ, zero, suc, ◌+◌, ◌-◌, ◌*◌, ◌^◌, ◌≤◌, ◌<◌, arith}
use opengecko.Scheduler.Backoff.{
  random_unit, base_ms, exponential_ms, jittered_ms, compute_backoff_ms,
}
use native.Mathlib.Nat.{pow-suc}

jittered_bounds :
    (ms random : ℕ)
    → random < random_unit
    → (8 * ms ≤ 10 * jittered_ms ms random + 5) × (10 * jittered_ms ms random ≤ 12 * ms + 5)
unfolding jittered_ms
jittered_bounds ms random h =
    let p : ms * random ≤ ms * random_unit = grind arith in (omega (arith, p), omega (arith, p))

pow_pos : (n : ℕ) → 1 ≤ 2 ^ n
pow_pos zero = omega arith
pow_pos (suc n) = rw pow-suc (omega (arith, pow_pos n))

exponential_bounds :
    (interval errors : ℕ)
    → (1000 ≤ exponential_ms interval errors) × (exponential_ms interval errors ≤ 300000)
unfolding exponential_ms
exponential_bounds interval errors =
    let p : base_ms interval * 1 ≤ base_ms interval * 2 ^ (errors - 1) =
      grind (arith, pow_pos (errors - 1)) in
    (omega (arith, p), omega arith)

-- Whatever the interval, the number of failures and the random number, the delay lies between
-- 800 ms and six minutes.
pub compute_backoff_ms_bounds :
    (interval errors random : ℕ)
    → random < random_unit
    → (800 ≤ compute_backoff_ms interval errors random)
      × (compute_backoff_ms interval errors random ≤ 360000)
unfolding compute_backoff_ms
compute_backoff_ms_bounds interval errors random h =
    let e = exponential_bounds interval errors in
    let j = jittered_bounds (exponential_ms interval errors) random h in
    (omega (arith, e.0, j.0), omega (arith, e.1, j.1))
