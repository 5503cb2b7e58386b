-- ===== src/Scheduler/Diagnostics/Agreement.antt =====
-- The status that src/services/job-scheduler.ts reports against what `runJob` would do.
use opengecko.Prelude.{
  ℕ, ◌+◌, ◌*◌, ◌≤◌, ◌≡◌, ◌↔◌, ◌⊎◌, Bool, true, false, none, some, or_else, is_some, arith,
}
use opengecko.Scheduler.{backoff, disabled, running, JobState, skip_reason}
use opengecko.Scheduler.Invariant.{IsWellFormed}
use opengecko.Scheduler.Diagnostics.{
  idle, blocked, retrying, failed, skipped, partial_failure, lagging, stale_run,
  build_stale_run_diagnostic, stale_after_seconds_for_definition, diagnose,
}

-- A run in flight is reported as stale exactly when a whole second has passed since its
-- heartbeat became older than the threshold of its job.
pub build_stale_run_diagnostic_iff :
    (s : JobState) (now started : ℕ)
    → s.in_flight_started_at ≡ some started
    → ((build_stale_run_diagnostic s now).is_stale ≡ true) ↔ (
        or_else s.in_flight_heartbeat_at started
          + stale_after_seconds_for_definition s.definition * 1000
          + 1000
        ≤ now)
unfolding build_stale_run_diagnostic
build_stale_run_diagnostic_iff s now started e = ground arith

stale_in_flight :
    (s : JobState) (now : ℕ)
    → IsWellFormed s
    → (build_stale_run_diagnostic s now).is_stale ≡ true
    → is_some s.in_flight ≡ true
unfolding build_stale_run_diagnostic
stale_in_flight s now h e = ground arith

-- For a job that is not stopped, the status tells what an attempt at the same instant would do:
-- `blocked` and `stale_run` are skipped as disabled or as running, `retrying` is skipped for its
-- backoff, and `failed`, `partial_failure`, `skipped` and `lagging` would run; a job that would
-- run has one of these four statuses or is `idle`.
pub diagnose-skip_reason :
    (scheduler_disabled : Bool) (now : ℕ) (s : JobState)
    → IsWellFormed s
    → s.stopped ≡ false
    → let status = (diagnose scheduler_disabled now s).status in
      let skip = skip_reason scheduler_disabled now s in
      (status ≡ blocked → (skip ≡ some disabled) ⊎ (skip ≡ some running))
      × (status ≡ stale_run → skip ≡ some running)
      × (status ≡ retrying → skip ≡ some backoff)
      × ((status ≡ failed) ⊎ (status ≡ partial_failure) ⊎ (status ≡ skipped) ⊎ (status ≡ lagging)
          → skip ≡ none)
      × (skip ≡ none
          → (status ≡ failed)
            ⊎ (status ≡ partial_failure)
            ⊎ (status ≡ skipped)
            ⊎ (status ≡ lagging)
            ⊎ (status ≡ idle))
unfolding diagnose skip_reason
diagnose-skip_reason scheduler_disabled now s h p = ground (arith, stale_in_flight s now h)
