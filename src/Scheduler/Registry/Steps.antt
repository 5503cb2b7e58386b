-- ===== src/Scheduler/Registry/Steps.antt =====
-- The events of a job of src/services/job-scheduler.ts as a step relation: an attempt to run it
-- (its timer or `runNow`), the end of the run in flight, `start` and `stop`.
use opengecko.Prelude.{ℕ, ◌+◌, String, ◌≡◌, Bool, true, false, some, arith}
use opengecko.Scheduler.{
  JobDefinition, pending, JobState, Launch, Completion, new_job, run_job, complete,
}
use opengecko.Scheduler.Invariant.{
  IsWellFormed, LaunchInRange, CompletionInRange, new_job-IsWellFormed, run_job-IsWellFormed,
  complete-IsWellFormed,
}
use opengecko.Scheduler.Registry.{Attempt, stop_job, start_job}

resume-IsWellFormed :
    (s : JobState) (b : Bool) → IsWellFormed s → IsWellFormed (record s { stopped = b })
resume-IsWellFormed s b h = ground arith

arm-IsWellFormed :
    (s : JobState) (b : Bool) (n : ℕ)
    → IsWellFormed s
    → IsWellFormed (record s { timer = b; intervals = n })
arm-IsWellFormed s b n h = ground arith

pub stop_job-IsWellFormed : (s : JobState) → IsWellFormed s → IsWellFormed (stop_job s)
unfolding stop_job
stop_job-IsWellFormed s h = ground arith

module _ (sanitize : String → String) (disabled : Bool) where
  pub data JobStep : JobState → JobState → Type 0 where
    attempt :
        (s : JobState) (current started_at : ℕ) (how : Launch)
        → LaunchInRange how
        → JobStep s (run_job sanitize disabled current started_at how s).0
    finish :
        (s : JobState) (started_at : ℕ) (c : Completion)
        → CompletionInRange c
        → s.in_flight ≡ some (pending started_at)
        → JobStep s (complete sanitize started_at c s).0
    start :
        (s : JobState) (a : Attempt)
        → LaunchInRange a.how
        → JobStep s (start_job sanitize disabled a s).0
    stop : (s : JobState) → JobStep s (stop_job s)

  pub data JobReach (s : JobState) : JobState → Type 0 where
    here : JobReach s s
    next : {t u : JobState} → JobReach s t → JobStep t u → JobReach s u

  pub start_job-IsWellFormed :
      (s : JobState) (a : Attempt)
      → LaunchInRange a.how
      → IsWellFormed s
      → IsWellFormed (start_job sanitize disabled a s).0
  unfolding start_job
  start_job-IsWellFormed s a r h =
      let resumed = record s { stopped = false } in
      let ran =
        run_job-IsWellFormed sanitize disabled a.current a.started_at a.how resumed r
          (resume-IsWellFormed s false h) in
      ground (
        arith,
        resume-IsWellFormed s false h,
        arm-IsWellFormed resumed true (resumed.intervals + 1) (resume-IsWellFormed s false h),
        arm-IsWellFormed (run_job sanitize disabled a.current a.started_at a.how resumed).0 true
            ((run_job sanitize disabled a.current a.started_at a.how resumed).0.intervals + 1) ran,
      )

  JobStep-IsWellFormed : {s t : JobState} → JobStep s t → IsWellFormed s → IsWellFormed t
  JobStep-IsWellFormed (attempt s current started_at how r) h =
      run_job-IsWellFormed sanitize disabled current started_at how s r h
  JobStep-IsWellFormed (finish s started_at c r e) h =
      complete-IsWellFormed sanitize started_at c s r e h
  JobStep-IsWellFormed (start s a r) h = start_job-IsWellFormed s a r h
  JobStep-IsWellFormed (stop s) h = stop_job-IsWellFormed s h

  -- Every job that events can lead to from its registration satisfies the invariant: no run
  -- is without its start time, the counts of outcomes are within the runs, the error fields
  -- agree with one another, the backoff ends 0.8 s to 360 s after the failure that set it, and
  -- at most five samples of partial failures are kept.
  pub JobReach-IsWellFormed :
      (d : JobDefinition) {t : JobState} → JobReach (new_job d) t → IsWellFormed t
  JobReach-IsWellFormed d here = new_job-IsWellFormed d
  JobReach-IsWellFormed d (next r st) = JobStep-IsWellFormed st (JobReach-IsWellFormed d r)
