-- ===== src/Scheduler.antt =====
-- src/services/job-scheduler.ts: the state of one background job, the guards of `runJob`, the
-- asynchronous body of a run, and its completion. Instants are milliseconds since the epoch.
-- `now()`, `Math.random()` and the job's own `run` are the environment's: what they return
-- enters as an argument.
pub mod Backoff
pub mod Invariant
pub mod Registry
pub mod Diagnostics
pub mod Attempts
use opengecko.Scheduler.Backoff.{compute_backoff_ms}
use opengecko.Prelude.{
  ℕ, ◌+◌, ◌-◌, ◌*◌, ◌/◌, ◌^◌, min, max, String, Bool, true, false, ◌||◌, Option, none, some, List,
  [], ◌∷◌, map, length, take, ltb, is_some, if◌then◌else◌,
}

pub data SkipReason : Type 0 where
  running backoff disabled stopped : SkipReason

pub record Failure : Type 0 where
  pub target : String
  pub reason : String

pub record JobResult : Type 0 where
  pub targets_processed : Option ℕ
  pub rows_written : Option ℕ
  pub rows_pruned : Option ℕ
  pub partial_failures : Option (List Failure)

pub record JobDefinition : Type 0 where
  pub name : String
  pub interval_seconds : ℕ
  pub stale_after_seconds : Option ℕ
  pub disabled : Bool
  pub run_immediately : Bool

-- The promise in `inFlight`: still running, with the `startedAt` of its closure, or one that has
-- settled already.
pub data Flight : Type 0 where
  pending : ℕ → Flight
  settled : Flight

-- `timer` says whether a handle of `setInterval` is stored, `intervals` how many of the intervals
-- that were set for the job are not cleared.
pub record JobState : Type 0 where
  pub definition : JobDefinition
  pub timer : Bool
  pub intervals : ℕ
  pub in_flight : Option Flight
  pub in_flight_started_at : Option ℕ
  pub in_flight_heartbeat_at : Option ℕ
  pub last_run_at : Option ℕ
  pub last_success_at : Option ℕ
  pub last_failure_at : Option ℕ
  pub last_duration_ms : Option ℕ
  pub last_error : Option String
  pub error_count : ℕ
  pub run_count : ℕ
  pub success_count : ℕ
  pub skipped_count : ℕ
  pub rows_written : Option ℕ
  pub rows_pruned : Option ℕ
  pub partial_failure_count : ℕ
  pub partial_failure_samples : List Failure
  pub next_eligible_at : Option ℕ
  pub last_skip_reason : Option SkipReason
  pub stopped : Bool

-- What a run reports to the metrics registry; the Boolean is the outcome `success`.
pub data Metric : Type 0 where
  job_skip : String → SkipReason → Metric
  job_run : String → Bool → Metric
  job_duration : String → Bool → ℕ → Metric

-- A run that the job's `run` begins: it returns a promise, or throws before it returns one.
pub data Launch : Type 0 where
  promised : Launch
  threw : (finished_at random : ℕ) (error : String) → Launch

-- How the promise of a run settles.
pub data Completion : Type 0 where
  resolved : (finished_at : ℕ) (result : Option JobResult) → Completion
  rejected : (finished_at random : ℕ) (error : String) → Completion

-- `eligibleAt && now < eligibleAt`
abbrev pub is_waiting : Option ℕ → ℕ → Bool
is_waiting none now = false
is_waiting (some t) now = ltb now t

-- A fresh entry of the map of jobs.
pub new_job : JobDefinition → JobState
new_job definition = record {
  definition = definition;
  timer = false;
  intervals = 0;
  in_flight = none;
  in_flight_started_at = none;
  in_flight_heartbeat_at = none;
  last_run_at = none;
  last_success_at = none;
  last_failure_at = none;
  last_duration_ms = none;
  last_error = none;
  error_count = 0;
  run_count = 0;
  success_count = 0;
  skipped_count = 0;
  rows_written = none;
  rows_pruned = none;
  partial_failure_count = 0;
  partial_failure_samples = [];
  next_eligible_at = none;
  last_skip_reason = none;
  stopped = false;
}

pub record_skip : JobState → SkipReason → JobState × List Metric
record_skip s reason = (
  record s { skipped_count = s.skipped_count + 1; last_skip_reason = some reason },
  job_skip s.definition.name reason ∷ [],
)

-- The early returns of `runJob`, in their order.
pub skip_reason : Bool → ℕ → JobState → Option SkipReason
skip_reason scheduler_disabled current s =
    if scheduler_disabled || s.definition.disabled
    then some disabled
    else if s.stopped
    then some stopped
    else if is_some s.in_flight
    then some running
    else if is_waiting s.next_eligible_at current
    then some backoff
    else none

-- The body of a run up to the call of the job's `run`.
pub begin_run : ℕ → JobState → JobState
begin_run started_at s = record s {
  in_flight_started_at = some started_at;
  in_flight_heartbeat_at = some started_at;
  last_run_at = some started_at;
  run_count = s.run_count + 1;
}

-- The `finally` block.
pub settle : JobState → JobState
settle s = record s { in_flight = none; in_flight_started_at = none; in_flight_heartbeat_at = none }

abbrev partial_failures_of : Option JobResult → List Failure
partial_failures_of none = []
partial_failures_of (some r) = elim r.partial_failures [ none ↦ [] | some fs ↦ fs ]

abbrev rows_written_of : Option JobResult → Option ℕ
rows_written_of none = none
rows_written_of (some r) = r.rows_written

abbrev rows_pruned_of : Option JobResult → Option ℕ
rows_pruned_of none = none
rows_pruned_of (some r) = r.rows_pruned

-- `sanitizeDiagnosticText` of diagnostic-sanitizer.ts is any function on texts.
module _ (sanitize : String → String) where
  pub sanitize_partial_failures : List Failure → List Failure
  sanitize_partial_failures failures =
      map (λ f. record { target = sanitize f.target; reason = sanitize f.reason }) (take 5 failures)

  pub record_success : ℕ → ℕ → Option JobResult → JobState → JobState × List Metric
  unfolding sanitize_partial_failures
  record_success started_at finished_at result s =
      let name = s.definition.name in
      let duration = finished_at - started_at in
      (
        record s {
          last_duration_ms = some duration;
          last_success_at = some finished_at;
          last_error = none;
          error_count = 0;
          last_failure_at = none;
          success_count = s.success_count + 1;
          rows_written = rows_written_of result;
          rows_pruned = rows_pruned_of result;
          partial_failure_count = length (partial_failures_of result);
          partial_failure_samples = sanitize_partial_failures (partial_failures_of result);
          next_eligible_at = none;
          last_skip_reason = none;
        },
        job_run name true ∷ job_duration name true duration ∷ [],
      )

  pub record_failure : ℕ → ℕ → ℕ → String → JobState → JobState × List Metric
  record_failure started_at finished_at random error s =
      let name = s.definition.name in
      let duration = finished_at - started_at in
      let errors = s.error_count + 1 in
      (
        record s {
          last_duration_ms = some duration;
          last_error = some (sanitize error);
          last_failure_at = some finished_at;
          error_count = errors;
          rows_written = none;
          rows_pruned = none;
          partial_failure_count = 0;
          partial_failure_samples = [];
          next_eligible_at =
              some (finished_at + compute_backoff_ms s.definition.interval_seconds errors random);
        },
        job_run name false ∷ job_duration name false duration ∷ [],
      )

  -- What the launched body does before control returns to `runJob`, and the assignment of its
  -- promise to `inFlight`, which follows it.
  pub launch : ℕ → Launch → JobState → JobState × List Metric
  unfolding begin_run settle record_failure
  launch started_at promised s =
      (record (begin_run started_at s) { in_flight = some (pending started_at) }, [])
  launch started_at (threw finished_at random error) s =
      let (failed, metrics) =
        record_failure started_at finished_at random error (begin_run started_at s) in
      (record (settle failed) { in_flight = some settled }, metrics)

  -- `runJob`: `current` is the clock at the guard, `started_at` at the start of the body.
  pub run_job : Bool → ℕ → ℕ → Launch → JobState → JobState × List Metric
  unfolding skip_reason record_skip launch
  run_job scheduler_disabled current started_at how s =
      elim (skip_reason scheduler_disabled current s) [
        | none ↦ launch started_at how s
        | some reason ↦ record_skip s reason
      ]

  -- The rest of a run, when the promise of its `run` settles.
  pub complete : ℕ → Completion → JobState → JobState × List Metric
  unfolding settle record_success record_failure
  complete started_at (resolved finished_at result) s =
      let (done, metrics) = record_success started_at finished_at result s in (settle done, metrics)
  complete started_at (rejected finished_at random error) s =
      let (done, metrics) = record_failure started_at finished_at random error s in
      (settle done, metrics)
