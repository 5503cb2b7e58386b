-- ===== src/Scheduler/Registry.antt =====
-- `createUnifiedScheduler` of src/services/job-scheduler.ts: the map of jobs, in the order of
-- registration, and the operations on it. The metrics registry is the list of what was reported.
pub mod Steps
pub mod Stuck
mod Names
pub mod Sound
pub mod Timers
pub mod Reach
pub mod Lookup
mod Tests
use opengecko.Prelude.{
  ℕ, ◌+◌, ◌-◌, String, Bool, true, false, ◌||◌, Option, none, some, List, [], ◌∷◌, ◌++◌, map,
  Result, ok, err, ◌==◌, ◌&&◌, is_some, str_eq, if◌then◌else◌,
}
use opengecko.Scheduler.{
  JobDefinition, JobState, Metric, Launch, Completion, new_job, run_job, complete,
}

pub record Scheduler : Type 0 where
  pub disabled : Bool
  pub jobs : List JobState
  pub started : Bool
  pub metrics : List Metric

pub data SchedulerError : Type 0 where
  already_registered unknown_job : String → SchedulerError

pub create_unified_scheduler : Bool → Scheduler
create_unified_scheduler disabled = record {
  disabled = disabled;
  jobs = [];
  started = false;
  metrics = [];
}

-- `jobs.get(name)`
pub find_job : String → List JobState → Option JobState
find_job name [] = none
find_job name (s ∷ jobs) = if str_eq s.definition.name name then some s else find_job name jobs

-- The mutation of the job that `jobs.get(name)` has returned.
pub replace_job : String → JobState → List JobState → List JobState
replace_job name t [] = []
replace_job name t (s ∷ jobs) =
    if str_eq s.definition.name name then t ∷ jobs else s ∷ replace_job name t jobs

pub registered_job_names : Scheduler → List String
registered_job_names sched = map (λ s. s.definition.name) sched.jobs

pub register : JobDefinition → Scheduler → Result SchedulerError Scheduler
unfolding find_job
register definition sched =
    if is_some (find_job definition.name sched.jobs)
    then err (already_registered definition.name)
    else ok (record sched { jobs = sched.jobs ++ (new_job definition ∷ []) })

-- What the environment answers to the run of each job that `start` begins.
pub record Attempt : Type 0 where
  pub current : ℕ
  pub started_at : ℕ
  pub how : Launch

-- `clearInterval` clears the interval whose handle is stored.
pub stop_job : JobState → JobState
stop_job s = record s {
  stopped = true;
  timer = false;
  intervals = if s.timer then s.intervals - 1 else s.intervals;
}

pub begin_stop : Scheduler → Scheduler
begin_stop sched = record sched { jobs = map stop_job sched.jobs }

pub end_stop : Scheduler → Scheduler
end_stop sched = record sched { started = false }

in_flight_names : List JobState → List String
in_flight_names [] = []
in_flight_names (s ∷ jobs) =
    let names = in_flight_names jobs in
    if is_some s.in_flight then s.definition.name ∷ names else names

-- The jobs that were in flight when the wait began and still are when it ends. `after` are the
-- states of the same jobs, in the same order, at the end of the wait.
still_in_flight_names : (before after : List JobState) → List String
still_in_flight_names [] after = []
still_in_flight_names (s ∷ before) [] = []
still_in_flight_names (s ∷ before) (t ∷ after) =
    let names = still_in_flight_names before after in
    if is_some s.in_flight && is_some t.in_flight then t.definition.name ∷ names else names

-- The names in the warning of `waitForInFlightJobsDuringShutdown`, if it logs one; `timed_out`
-- says which of the two promises won the race.
pub shutdown_warning : ℕ → Bool → (before after : List JobState) → Option (List String)
unfolding in_flight_names still_in_flight_names
shutdown_warning timeout_ms timed_out before after = elim (in_flight_names before) [
  | [] ↦ none
  | name ∷ names ↦
      if timeout_ms == 0
      then some (name ∷ names)
      else if timed_out
      then some (still_in_flight_names before after)
      else none
]

module _ (sanitize : String → String) where
  -- `runNow`, and the callback of a job's timer.
  pub run_now : String → Attempt → Scheduler → Result SchedulerError Scheduler
  unfolding find_job replace_job
  run_now name a sched = elim (find_job name sched.jobs) [
    | none ↦ err (unknown_job name)
    | some s ↦
        let (t, reported) = run_job sanitize sched.disabled a.current a.started_at a.how s in
        ok (record sched {
          jobs = replace_job name t sched.jobs;
          metrics = sched.metrics ++ reported;
        })
  ]

  -- One round of the loop of `start`. The handle replaces the one that was stored, if any, whose
  -- interval is not cleared.
  pub start_job : Bool → Attempt → JobState → JobState × List Metric
  start_job disabled a s =
      let resumed = record s { stopped = false } in
      let (ran, reported) = run_job sanitize disabled a.current a.started_at a.how resumed in
      if s.definition.disabled || disabled
      then (resumed, [])
      else if s.definition.run_immediately
      then (record ran { timer = true; intervals = ran.intervals + 1 }, reported)
      else (record resumed { timer = true; intervals = resumed.intervals + 1 }, [])

  start_jobs : Bool → (String → Attempt) → List JobState → List JobState × List Metric
  unfolding start_job
  start_jobs disabled env [] = ([], [])
  start_jobs disabled env (s ∷ jobs) =
      let (t, reported) = start_job disabled (env s.definition.name) s in
      let (ts, later) = start_jobs disabled env jobs in (t ∷ ts, reported ++ later)

  pub start : (String → Attempt) → Scheduler → Scheduler
  unfolding start_jobs
  start env sched =
      if sched.started
      then sched
      else let (jobs, reported) = start_jobs sched.disabled env sched.jobs in
        record sched { started = true; jobs = jobs; metrics = sched.metrics ++ reported }

  -- The continuation of the run of a job, when its promise settles.
  pub complete_job : String → ℕ → Completion → Scheduler → Scheduler
  unfolding find_job replace_job
  complete_job name started_at c sched = elim (find_job name sched.jobs) [
    | none ↦ sched
    | some s ↦
        let (t, reported) = complete sanitize started_at c s in
        record sched { jobs = replace_job name t sched.jobs; metrics = sched.metrics ++ reported }
  ]
