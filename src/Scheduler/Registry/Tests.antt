-- ===== src/Scheduler/Registry/Tests.antt =====
-- The theorems on src/services/job-scheduler.ts at concrete jobs.
use opengecko.Prelude.{
  ◌+◌, ◌≤◌, ◌<◌, String, ◌≡◌, ◌↔◌, ◌⊎◌, refl, true, false, none, some, [], ◌∷◌, All, ok, arith,
}
use opengecko.Scheduler.{
  JobDefinition, pending, settled, JobState, promised, threw, rejected, backoff, disabled, running,
  new_job, skip_reason, run_job, complete, begin_run, launch, record_skip,
}
use opengecko.Scheduler.Attempts.{IsDue, run_job_begins_iff, rejected_backoff}
use opengecko.Scheduler.Invariant.{new_job-IsWellFormed}
use opengecko.Scheduler.Diagnostics.{
  blocked, retrying, failed, skipped, partial_failure, lagging, stale_run, diagnose, idle,
}
use opengecko.Scheduler.Diagnostics.Agreement.{diagnose-skip_reason}
use opengecko.Prelude.{map}
use opengecko.Scheduler.Registry.{
  start, end_stop, start_jobs, start_job, Scheduler, Attempt, create_unified_scheduler, find_job,
  replace_job, register, stop_job, begin_stop, run_now, complete_job,
}
use opengecko.Scheduler.Registry.Steps.{here, next, attempt}
use opengecko.Scheduler.Registry.Stuck.{threw-IsStuck}
use opengecko.Scheduler.Registry.Sound.{IsSound}
use opengecko.Scheduler.Registry.Timers.{IsTimely}
use opengecko.Scheduler.Registry.Reach.{
  SchedulerReach, SchedulerReach-IsSound, registers, begins_stop,
}
use opengecko.Scheduler.Registry.Reach as R
use opengecko.Scheduler.Registry.Lookup.{IsStopped, run_counts, begin_stop-run_now}

abbrev refresh : JobDefinition
refresh = record {
  name = "refresh";
  interval_seconds = 60;
  stale_after_seconds = none;
  disabled = false;
  run_immediately = true;
}

abbrev redact : String → String
redact text = "redacted"

abbrev fresh : JobState
fresh = new_job refresh

-- The job after an attempt at 1000 ms that begins a run.
abbrev flying : JobState
flying = (run_job redact false 1000 1000 promised fresh).0

-- And after its run is rejected at 3000 ms.
abbrev failing : JobState
failing = (complete redact 1000 (rejected 3000 5 "boom") flying).0

abbrev empty : Scheduler
empty = create_unified_scheduler false

abbrev with_job : Scheduler
with_job = record { disabled = false; jobs = fresh ∷ []; started = false; metrics = [] }

abbrev now_attempt : Attempt
now_attempt = record { current = 1000; started_at = 1000; how = promised }

abbrev after_attempt : Scheduler
after_attempt = record { disabled = false; jobs = flying ∷ []; started = false; metrics = [] }

registers_refresh : register refresh empty ≡ ok with_job
unfolding register find_job create_unified_scheduler
registers_refresh = refl

attempts_refresh : run_now redact "refresh" now_attempt with_job ≡ ok after_attempt
unfolding run_now find_job replace_job new_job run_job skip_reason launch
attempts_refresh = refl

flying_refresh : flying.in_flight ≡ some (pending 1000)
unfolding run_job skip_reason launch new_job
flying_refresh = refl

finds_flying : find_job "refresh" after_attempt.jobs ≡ some flying
unfolding find_job run_job skip_reason launch begin_run new_job
finds_flying = refl

SchedulerReach-IsSound_example :
    let stopping =
      begin_stop (complete_job redact "refresh" 1000 (rejected 3000 5 "boom") after_attempt) in
    IsSound stopping × IsTimely true 1 stopping
SchedulerReach-IsSound_example = SchedulerReach-IsSound redact true false (
    R.next
      (R.next
        (R.next (R.next R.here (registers refresh registers_refresh))
          (R.attempts "refresh" now_attempt tt attempts_refresh))
        (R.completes "refresh" 1000 (rejected 3000 5 "boom") flying (omega arith) finds_flying
          flying_refresh))
      begins_stop)

-- A start while a stop waits: the interval of the first of two starts stays armed when the job is
-- stopped.
abbrev restarted : Scheduler
restarted = begin_stop (
    start redact (λ n. now_attempt)
      (end_stop (start redact (λ n. now_attempt) (begin_stop with_job))))

restarted_leaks :
    (map (λ s. s.stopped) restarted.jobs ≡ true ∷ [])
    × (map (λ s. s.intervals) restarted.jobs ≡ 1 ∷ [])
unfolding begin_stop stop_job end_stop start start_jobs start_job run_job skip_reason launch new_job
restarted_leaks = (refl, refl)

run_job_begins_iff_example : (flying.run_count ≡ fresh.run_count + 1) ↔ (
    (false ≡ false)
    × (fresh.definition.disabled ≡ false)
    × (fresh.stopped ≡ false)
    × (fresh.in_flight ≡ none)
    × IsDue fresh.next_eligible_at 1000)
run_job_begins_iff_example = run_job_begins_iff redact false 1000 1000 promised fresh

flying_enabled : (flying.definition.disabled ≡ false) × (flying.stopped ≡ false)
unfolding run_job skip_reason launch begin_run new_job
flying_enabled = (refl, refl)

rejected_backoff_example :
    (3700 < 3000 + 800 → skip_reason false 3700 failing ≡ some backoff)
    × (3000 + 360000 ≤ 3700 → skip_reason false 3700 failing ≡ none)
rejected_backoff_example =
    rejected_backoff redact 1000 3000 5 "boom" 3700 flying (omega arith) flying_enabled.0
      flying_enabled.1

free_fresh : skip_reason false 1000 fresh ≡ none
unfolding skip_reason new_job
free_fresh = refl

abbrev thrown : JobState
thrown = (run_job redact false 1000 1000 (threw 1001 5 "boom") fresh).0

threw-IsStuck_example :
    let t = (run_job redact false 900000 900000 promised thrown).0 in
    (t.in_flight ≡ some settled) × (t.run_count ≡ fresh.run_count + 1)
threw-IsStuck_example =
    threw-IsStuck redact false 1000 1000 1001 5 "boom" fresh
      (run_job redact false 900000 900000 promised thrown).0 free_fresh
      (next here (attempt thrown 900000 900000 promised tt))

attempts_stopped :
    run_now redact "refresh" now_attempt (begin_stop with_job)
    ≡ ok (record {
      disabled = false;
      jobs = (run_job redact false 1000 1000 promised (stop_job fresh)).0 ∷ [];
      started = false;
      metrics = (run_job redact false 1000 1000 promised (stop_job fresh)).1;
    })
unfolding run_now find_job replace_job begin_stop stop_job new_job run_job skip_reason record_skip
attempts_stopped = refl

begin_stop-run_now_example :
    (run_counts ((run_job redact false 1000 1000 promised (stop_job fresh)).0 ∷ [])
      ≡ run_counts with_job.jobs)
    × All IsStopped ((run_job redact false 1000 1000 promised (stop_job fresh)).0 ∷ [])
begin_stop-run_now_example =
    begin_stop-run_now redact with_job _ "refresh" now_attempt attempts_stopped

diagnose-skip_reason_example :
    let status = (diagnose false 900000 fresh).status in
    let skip = skip_reason false 900000 fresh in
    (status ≡ blocked → (skip ≡ some disabled) ⊎ (skip ≡ some running))
    × (status ≡ stale_run → skip ≡ some running)
    × (status ≡ retrying → skip ≡ some backoff)
    × ((status ≡ failed) ⊎ (status ≡ partial_failure) ⊎ (status ≡ skipped) ⊎ (status ≡ lagging)
        → skip ≡ none)
    × (skip ≡ none
        → (status ≡ failed)
          ⊎ (status ≡ partial_failure)
          ⊎ (status ≡ skipped)
          ⊎ (status ≡ lagging)
          ⊎ (status ≡ idle))
unfolding new_job
diagnose-skip_reason_example =
    diagnose-skip_reason false 900000 fresh (new_job-IsWellFormed refresh) refl

started_flying : flying.in_flight_started_at ≡ some 1000
unfolding run_job skip_reason launch begin_run new_job
started_flying = refl
