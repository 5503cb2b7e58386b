-- ===== src/Scheduler/Invariant.antt =====
-- What holds of a job of src/services/job-scheduler.ts between two events.
use opengecko.Prelude.{
  ℕ, ◌+◌, ◌≤◌, ◌<◌, String, ◌≡◌, ◌⊎◌, Bool, true, false, Option, none, some, List, length,
  length-map, length-take-le, length-take-le_length, is_some, arith,
}
use opengecko.Scheduler.{
  Failure, JobDefinition, Flight, pending, settled, JobState, Launch, promised, threw, Completion,
  resolved, rejected, new_job, partial_failures_of, sanitize_partial_failures, run_job, complete,
}
use opengecko.Scheduler.Backoff.{random_unit}
use opengecko.Scheduler.Backoff.Bounds.{compute_backoff_ms_bounds}

-- The instant at which the run in flight began.
abbrev pub flight_start : Option Flight → Option ℕ
flight_start none = none
flight_start (some (pending t)) = some t
flight_start (some settled) = none

abbrev pub pending_count : Option Flight → ℕ
pending_count none = 0
pending_count (some (pending t)) = 1
pending_count (some settled) = 0

-- The last failure and the end of the backoff that it set.
abbrev pub Window : Option ℕ → Option ℕ → Type 0
Window none none = Unit
Window (some f) (some e) = (f + 800 ≤ e) × (e ≤ f + 360000)
Window _ _ = ⊥

pub record IsWellFormed (s : JobState) : Type 0 where
  pub started : s.in_flight_started_at ≡ flight_start s.in_flight
  pub heartbeat : s.in_flight_heartbeat_at ≡ s.in_flight_started_at
  pub current_run : (s.in_flight_started_at ≡ none) ⊎ (s.in_flight_started_at ≡ s.last_run_at)
  pub counted : s.success_count + s.error_count + pending_count s.in_flight ≤ s.run_count
  pub failing_error : is_some s.last_error ≡ is_some s.last_failure_at
  pub failing_count : is_some s.last_failure_at ≡ true → 0 < s.error_count
  pub healthy : is_some s.last_failure_at ≡ false → s.error_count ≡ 0
  pub window : Window s.last_failure_at s.next_eligible_at
  pub sampled : length s.partial_failure_samples ≤ s.partial_failure_count
  pub capped : length s.partial_failure_samples ≤ 5

abbrev pub LaunchInRange : Launch → Type 0
LaunchInRange promised = Unit
LaunchInRange (threw finished_at random error) = random < random_unit

abbrev pub CompletionInRange : Completion → Type 0
CompletionInRange (resolved finished_at result) = Unit
CompletionInRange (rejected finished_at random error) = random < random_unit

pub new_job-IsWellFormed : (d : JobDefinition) → IsWellFormed (new_job d)
unfolding new_job
new_job-IsWellFormed d = ground arith

module _ (sanitize : String → String) where
  samples_bounds :
      (fs : List Failure)
      → (length (sanitize_partial_failures sanitize fs) ≤ length fs)
        × (length (sanitize_partial_failures sanitize fs) ≤ 5)
  unfolding sanitize_partial_failures
  samples_bounds fs =
      (rw length-map (length-take-le_length 5 fs), rw length-map (length-take-le 5 fs))

  pub run_job-IsWellFormed :
      (disabled : Bool) (current started_at : ℕ) (how : Launch) (s : JobState)
      → LaunchInRange how
      → IsWellFormed s
      → IsWellFormed (run_job sanitize disabled current started_at how s).0
  unfolding run_job
  run_job-IsWellFormed disabled current started_at promised s r h = ground arith
  run_job-IsWellFormed disabled current started_at (threw f x e) s r h =
      ground
        (arith, compute_backoff_ms_bounds s.definition.interval_seconds (s.error_count + 1) x r)

  pub complete-IsWellFormed :
      (started_at : ℕ) (c : Completion) (s : JobState)
      → CompletionInRange c
      → s.in_flight ≡ some (pending started_at)
      → IsWellFormed s
      → IsWellFormed (complete sanitize started_at c s).0
  unfolding complete
  complete-IsWellFormed started_at (resolved f result) s r e h =
      ground (arith, samples_bounds (partial_failures_of result))
  complete-IsWellFormed started_at (rejected f x err) s r e h =
      ground
        (arith, compute_backoff_ms_bounds s.definition.interval_seconds (s.error_count + 1) x r)
