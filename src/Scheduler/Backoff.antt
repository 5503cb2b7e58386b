-- ===== src/Scheduler/Backoff.antt =====
-- The retry delay of a failed job, `computeBackoffMs` of src/services/job-scheduler.ts.
pub mod Bounds
use opengecko.Prelude.{ℕ, ◌+◌, ◌-◌, ◌*◌, ◌/◌, ◌^◌, min, max}

-- `Math.random()` is a multiple of 2^-53 below 1: it is given by its numerator.
abbrev pub random_unit : ℕ
random_unit = 9007199254740992

abbrev pub base_ms : ℕ → ℕ
base_ms interval_seconds = max 1000 (min (interval_seconds * 1000) 30000)

pub exponential_ms : ℕ → ℕ → ℕ
exponential_ms interval_seconds error_count =
    min (base_ms interval_seconds * 2 ^ (error_count - 1)) 300000

-- `Math.round(ms * (0.8 + random * 0.4))`, exactly.
pub jittered_ms : ℕ → ℕ → ℕ
jittered_ms ms random =
    (2 * (ms * (8 * random_unit + 4 * random)) + 10 * random_unit) / (20 * random_unit)

unfoldable pub compute_backoff_ms : ℕ → ℕ → ℕ → ℕ
unfolding exponential_ms jittered_ms
compute_backoff_ms interval_seconds error_count random =
    jittered_ms (exponential_ms interval_seconds error_count) random
