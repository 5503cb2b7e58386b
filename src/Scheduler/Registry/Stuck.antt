-- ===== src/Scheduler/Registry/Stuck.antt =====
-- A job of src/services/job-scheduler.ts whose `run` throws before it returns a promise: the
-- `finally` block clears `inFlight`, and the assignment that follows it sets it again.
use opengecko.Prelude.{ℕ, ◌+◌, String, ◌≡◌, Bool, none, some, arith}
use opengecko.Scheduler.{settled, JobState, Launch, threw, skip_reason, run_job}
use opengecko.Scheduler.Attempts.{run_job_counts}
use opengecko.Scheduler.Registry.{Attempt, stop_job, start_job}
use opengecko.Scheduler.Registry.Steps.{JobStep, attempt, finish, start, stop, JobReach, here, next}

abbrev pub IsStuck : ℕ → JobState → Type 0
IsStuck runs s = (s.in_flight ≡ some settled) × (s.run_count ≡ runs)

module _ (sanitize : String → String) (disabled : Bool) where
  run_job-IsStuck :
      (runs current started_at : ℕ) (how : Launch) (s : JobState)
      → IsStuck runs s
      → IsStuck runs (run_job sanitize disabled current started_at how s).0
  run_job-IsStuck runs current started_at how s h =
      ground (arith, run_job_counts sanitize disabled current started_at how s)

  start_job-IsStuck :
      (runs : ℕ) (a : Attempt) (s : JobState)
      → IsStuck runs s
      → IsStuck runs (start_job sanitize disabled a s).0
  unfolding start_job
  start_job-IsStuck runs a s h = ground (
    arith,
    run_job-IsStuck runs a.current a.started_at a.how (record s { stopped = Bool.false }) h,
  )

  JobStep-IsStuck :
      (runs : ℕ) {s t : JobState} → JobStep sanitize disabled s t → IsStuck runs s → IsStuck runs t
  unfolding stop_job
  JobStep-IsStuck runs (attempt s current started_at how r) h =
      run_job-IsStuck runs current started_at how s h
  JobStep-IsStuck runs (finish s started_at c r e) h = absurd (ground arith)
  JobStep-IsStuck runs (start s a r) h = start_job-IsStuck runs a s h
  JobStep-IsStuck runs (stop s) h = h

  JobReach-IsStuck :
      (runs : ℕ) {s t : JobState} → JobReach sanitize disabled s t → IsStuck runs s → IsStuck runs t
  JobReach-IsStuck runs here h = h
  JobReach-IsStuck runs (next r st) h = JobStep-IsStuck runs st (JobReach-IsStuck runs r h)

  -- A job that may run and whose `run` throws before it returns a promise never runs again:
  -- whatever follows, its number of runs stays, and a settled promise stays in flight.
  pub threw-IsStuck :
      (current started_at finished_at random : ℕ) (error : String) (s t : JobState)
      → skip_reason disabled current s ≡ none
      → JobReach sanitize disabled
          (run_job sanitize disabled current started_at (threw finished_at random error) s).0
          t
      → (t.in_flight ≡ some settled) × (t.run_count ≡ s.run_count + 1)
  unfolding run_job
  threw-IsStuck current started_at finished_at random error s t free r =
      JobReach-IsStuck (s.run_count + 1) r (ground arith)
