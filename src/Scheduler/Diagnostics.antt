-- ===== src/Scheduler/Diagnostics.antt =====
-- The diagnostics of src/services/job-scheduler.ts. Instants stay milliseconds: the rendering by
-- `toISOString` is left out.
pub mod Agreement
use opengecko.Prelude.{
  ℕ, ◌+◌, ◌-◌, ◌*◌, ◌/◌, max, String, Bool, true, false, not, ◌&&◌, ◌||◌, Option, none, some, List,
  map, ltb, is_some, or_else, str_eq, if◌then◌else◌,
}
use opengecko.Scheduler.{SkipReason, running, Failure, JobDefinition, JobState, is_waiting}
use opengecko.Scheduler.Registry.{Scheduler}

pub data JobStatus : Type 0 where
  idle blocked retrying failed skipped partial_failure lagging stale_run : JobStatus

pub record StaleRun : Type 0 where
  pub is_stale : Bool
  pub owning_job : Option String
  pub started_at : Option ℕ
  pub heartbeat_at : Option ℕ
  pub stale_after_seconds : ℕ
  pub stale_duration_seconds : Option ℕ
  pub recovery_eligible : Bool
  pub recovery_reason : Option String

pub record Backoff : Type 0 where
  pub active : Bool
  pub attempt_count : ℕ
  pub next_retry_at : Option ℕ

pub record JobDiagnostic : Type 0 where
  pub name : String
  pub interval_seconds : ℕ
  pub disabled : Bool
  pub status : JobStatus
  pub status_reason : String
  pub running : Bool
  pub last_run_at : Option ℕ
  pub last_success_at : Option ℕ
  pub last_failure_at : Option ℕ
  pub last_duration_ms : Option ℕ
  pub last_error : Option String
  pub error_count : ℕ
  pub lag_seconds : Option ℕ
  pub observed_lag_seconds : Option ℕ
  pub next_run_at : Option ℕ
  pub next_scheduled_at : Option ℕ
  pub next_retry_at : Option ℕ
  pub retry_attempt_count : ℕ
  pub backoff : Backoff
  pub stale_run : StaleRun
  pub run_count : ℕ
  pub success_count : ℕ
  pub skipped_count : ℕ
  pub rows_written : Option ℕ
  pub rows_pruned : Option ℕ
  pub partial_failure_count : ℕ
  pub partial_failure_samples : List Failure

pub compute_lag_seconds : JobState → ℕ → Option ℕ
compute_lag_seconds s now = elim s.last_run_at [
  | none ↦ none
  | some t ↦ some ((now - (t + s.definition.interval_seconds * 1000)) / 1000)
]

pub compute_next_scheduled_at : JobState → Option ℕ
compute_next_scheduled_at s = elim s.last_run_at [
  | none ↦ none
  | some t ↦ some (t + s.definition.interval_seconds * 1000)
]

pub stale_after_seconds_for_definition : JobDefinition → ℕ
stale_after_seconds_for_definition d =
    or_else d.stale_after_seconds (max 60 (d.interval_seconds * 3))

-- The quotient is what the code rounds down; where the difference is negative both are 0, and
-- the run is not stale.
stale_seconds : JobState → ℕ → ℕ → ℕ
stale_seconds s started now =
    (now
      - (or_else s.in_flight_heartbeat_at started
          + stale_after_seconds_for_definition s.definition * 1000))
    / 1000

pub build_stale_run_diagnostic : JobState → ℕ → StaleRun
unfolding stale_seconds
build_stale_run_diagnostic s now = elim s.in_flight_started_at [
  | none ↦ record {
    is_stale = false;
    owning_job = none;
    started_at = none;
    heartbeat_at = none;
    stale_after_seconds = stale_after_seconds_for_definition s.definition;
    stale_duration_seconds = none;
    recovery_eligible = false;
    recovery_reason = none;
  }
  | some started ↦
      let seconds = stale_seconds s started now in
      let is_stale = ltb 0 seconds in
      record {
        is_stale = is_stale;
        owning_job = some s.definition.name;
        started_at = some started;
        heartbeat_at = some (or_else s.in_flight_heartbeat_at started);
        stale_after_seconds = stale_after_seconds_for_definition s.definition;
        stale_duration_seconds = if is_stale then some seconds else none;
        recovery_eligible = is_stale;
        recovery_reason = if is_stale then some "stale_run_exceeded_threshold" else none;
      }
]

next_retry_at : JobState → Option ℕ
next_retry_at s =
    if is_some s.next_eligible_at && ltb 0 s.error_count then s.next_eligible_at else none

pub build_backoff_diagnostic : JobState → ℕ → Backoff
unfolding next_retry_at
build_backoff_diagnostic s now = record {
  active = is_waiting s.next_eligible_at now;
  attempt_count = s.error_count;
  next_retry_at = next_retry_at s;
}

-- A string is true where it is not null and not empty.
abbrev is_text : Option String → Bool
is_text none = false
is_text (some t) = not (str_eq t "")

abbrev is_running_skip : Option SkipReason → Bool
is_running_skip (some running) = true
is_running_skip _ = false

abbrev is_late : Option ℕ → Bool
is_late none = false
is_late (some lag) = ltb 0 lag

-- The tests of `resolveJobStatus` on a job that is enabled and not in flight.
pub resting_status : JobState → ℕ → Option ℕ → JobStatus × String
resting_status s now lag_seconds =
    if is_waiting s.next_eligible_at now
    then (retrying, "retry_backoff_active")
    else if ltb 0 s.error_count && is_text s.last_error
    then (failed, "retry_due_after_failure")
    else if ltb 0 s.partial_failure_count
    then (partial_failure, "last_success_had_partial_failures")
    else if is_some s.last_skip_reason
    then (skipped, "last_tick_skipped")
    else if is_late lag_seconds
    then (lagging, "scheduled_run_lagging")
    else (idle, "waiting_for_next_scheduled_run")

pub resolve_job_status : JobState → ℕ → Option ℕ → StaleRun → Bool → JobStatus × String
unfolding resting_status
resolve_job_status s now lag_seconds stale scheduler_disabled =
    if scheduler_disabled
    then (blocked, "scheduler_disabled")
    else if s.definition.disabled
    then (blocked, "job_disabled")
    else if stale.is_stale
    then (stale_run, "in_flight_run_exceeded_stale_threshold")
    else if is_some s.in_flight
    then if is_running_skip s.last_skip_reason
      then (blocked, "previous_run_still_active")
      else (idle, "run_in_progress")
    else resting_status s now lag_seconds

-- One row of `diagnostics()`.
pub diagnose : Bool → ℕ → JobState → JobDiagnostic
unfolding compute_lag_seconds compute_next_scheduled_at build_stale_run_diagnostic
    build_backoff_diagnostic resolve_job_status next_retry_at
diagnose scheduler_disabled now s =
    let lag = compute_lag_seconds s now in
    let stale = build_stale_run_diagnostic s now in
    let status = resolve_job_status s now lag stale scheduler_disabled in
    record {
      name = s.definition.name;
      interval_seconds = s.definition.interval_seconds;
      disabled = scheduler_disabled || s.definition.disabled;
      status = status.0;
      status_reason = status.1;
      running = is_some s.in_flight;
      last_run_at = s.last_run_at;
      last_success_at = s.last_success_at;
      last_failure_at = s.last_failure_at;
      last_duration_ms = s.last_duration_ms;
      last_error = s.last_error;
      error_count = s.error_count;
      lag_seconds = lag;
      observed_lag_seconds = lag;
      next_run_at = s.next_eligible_at;
      next_scheduled_at = compute_next_scheduled_at s;
      next_retry_at = next_retry_at s;
      retry_attempt_count = s.error_count;
      backoff = build_backoff_diagnostic s now;
      stale_run = stale;
      run_count = s.run_count;
      success_count = s.success_count;
      skipped_count = s.skipped_count;
      rows_written = s.rows_written;
      rows_pruned = s.rows_pruned;
      partial_failure_count = s.partial_failure_count;
      partial_failure_samples = s.partial_failure_samples;
    }

pub diagnostics : ℕ → Scheduler → List JobDiagnostic
unfolding diagnose
diagnostics now sched = map (diagnose sched.disabled now) sched.jobs
