-- ===== src/Scheduler/Registry/Sound.antt =====
-- The scheduler of src/services/job-scheduler.ts as a whole: each operation keeps its
-- invariant.
use opengecko.Prelude.{
  ℕ, String, ◌≡◌, refl, Bool, true, false, some, List, [], ◌∷◌, ◌++◌, ok, All, is_some, Bool-cases,
  Option-cases, inl, inr, arith,
}
use mathlib.Core.Path.{subst}
use opengecko.Scheduler.{
  JobDefinition, Metric, pending, JobState, Launch, Completion, promised, threw, resolved, rejected,
  new_job, run_job, complete,
}
use opengecko.Scheduler.Invariant.{
  IsWellFormed, LaunchInRange, CompletionInRange, new_job-IsWellFormed, run_job-IsWellFormed,
  complete-IsWellFormed,
}
use opengecko.Scheduler.Registry.{
  Scheduler, Attempt, create_unified_scheduler, find_job, replace_job, registered_job_names,
  register, stop_job, begin_stop, run_now, start_job, start_jobs, start, complete_job,
}
use opengecko.Scheduler.Registry.Steps.{stop_job-IsWellFormed, start_job-IsWellFormed}
use opengecko.Scheduler.Registry.Names.{
  names, Distinct, Distinct-append, find_job-none_contains, names-append_new, names-replace_job,
  All-find_job, All-replace_job, All-append, All-stop_job, names-stop_job,
}

-- A timer is armed only on an enabled job that is not stopped.
abbrev pub IsArmedWell : Bool → JobState → Type 0
IsArmedWell disabled s =
    s.timer ≡ true → (s.stopped ≡ false) × (disabled ≡ false) × (s.definition.disabled ≡ false)

pub record IsSound (sched : Scheduler) : Type 0 where
  pub distinct : Distinct (registered_job_names sched)
  pub formed : All IsWellFormed sched.jobs
  pub armed : All (IsArmedWell sched.disabled) sched.jobs

pub IsSound-create : (disabled : Bool) → IsSound (create_unified_scheduler disabled)
unfolding create_unified_scheduler registered_job_names
IsSound-create disabled = record { distinct = tt; formed = tt; armed = tt }

pub register-IsSound :
    (d : JobDefinition) (sched : Scheduler) {t : Scheduler}
    → register d sched ≡ ok t
    → IsSound sched
    → IsSound t
unfolding register registered_job_names
register-IsSound d sched {t} e h = elim (Bool-cases (is_some (find_job d.name sched.jobs))) [
  | inl old ↦ absurd (ground arith)
  | inr new ↦
      let added : record sched { jobs = sched.jobs ++ (new_job d ∷ []) } ≡ t = ground arith in
      subst IsSound added (record {
        distinct = rw names-append_new (
            Distinct-append d.name (names sched.jobs) (find_job-none_contains d.name sched.jobs new)
              h.distinct);
        formed = All-append IsWellFormed (new_job d) sched.jobs (new_job-IsWellFormed d) h.formed;
        armed =
            All-append (IsArmedWell sched.disabled) (new_job d) sched.jobs
              (unfold new_job in λ e. absurd (ground arith)) h.armed;
      })
]

stop_job-IsArmedWell :
    {disabled : Bool} (s : JobState) → IsArmedWell disabled s → IsArmedWell disabled (stop_job s)
unfolding stop_job
stop_job-IsArmedWell s h = λ e. absurd (ground arith)

pub begin_stop-IsSound : (sched : Scheduler) → IsSound sched → IsSound (begin_stop sched)
unfolding begin_stop registered_job_names
begin_stop-IsSound sched h = record {
  distinct = rw names-stop_job h.distinct;
  formed = All-stop_job IsWellFormed sched.jobs stop_job-IsWellFormed h.formed;
  armed = All-stop_job (IsArmedWell sched.disabled) sched.jobs stop_job-IsArmedWell h.armed;
}

module _ (sanitize : String → String) where
  pub run_job_keeps :
      (disabled : Bool) (current started_at : ℕ) (how : Launch) (s : JobState)
      → let t = (run_job sanitize disabled current started_at how s).0 in
        (t.definition ≡ s.definition) × (t.timer ≡ s.timer) × (t.stopped ≡ s.stopped)
  unfolding run_job
  run_job_keeps disabled current started_at promised s = ground arith
  run_job_keeps disabled current started_at (threw f r e) s = ground arith

  complete_keeps :
      (started_at : ℕ) (c : Completion) (s : JobState)
      → let t = (complete sanitize started_at c s).0 in
        (t.definition ≡ s.definition) × (t.timer ≡ s.timer) × (t.stopped ≡ s.stopped)
  unfolding complete
  complete_keeps started_at (resolved f r) s = ground arith
  complete_keeps started_at (rejected f r e) s = ground arith

  start_job_keeps :
      (disabled : Bool) (a : Attempt) (s : JobState)
      → let t = (start_job sanitize disabled a s).0 in
        (t.definition ≡ s.definition) × (IsArmedWell disabled s → IsArmedWell disabled t)
  unfolding start_job
  start_job_keeps disabled a s =
      ground
        (arith, run_job_keeps disabled a.current a.started_at a.how (record s { stopped = false }))

  -- One job of the map is replaced by what a step makes of it.
  replace-IsSound :
      (n : String) (s t : JobState) (sched : Scheduler) (reported : List Metric)
      → find_job n sched.jobs ≡ some s
      → (t.definition ≡ s.definition) × (t.timer ≡ s.timer) × (t.stopped ≡ s.stopped)
      → IsWellFormed t
      → IsSound sched
      → IsSound (record sched { jobs = replace_job n t sched.jobs; metrics = reported })
  unfolding registered_job_names
  replace-IsSound n s t sched reported found (d, tm, st) w h =
      let armed = All-find_job (IsArmedWell sched.disabled) n s sched.jobs found h.armed in
      record {
        distinct = rw (names-replace_job n s t sched.jobs found d) h.distinct;
        formed = All-replace_job IsWellFormed n t sched.jobs w h.formed;
        armed =
            All-replace_job (IsArmedWell sched.disabled) n t sched.jobs
              (λ e. rw (st, d) (armed (rw (← tm) e))) h.armed;
      }

  pub run_now-IsSound :
      (n : String) (a : Attempt) (sched : Scheduler) {t : Scheduler}
      → LaunchInRange a.how
      → run_now sanitize n a sched ≡ ok t
      → IsSound sched
      → IsSound t
  unfolding run_now
  run_now-IsSound n a sched {t} r e h = elim (Option-cases (find_job n sched.jobs)) [
    | inl missing ↦ absurd (ground arith)
    | inr (s, found) ↦
        let ran = run_job sanitize sched.disabled a.current a.started_at a.how s in
        let made : record sched {
          jobs = replace_job n ran.0 sched.jobs;
          metrics = sched.metrics ++ ran.1;
        }
            ≡ t =
          ground arith in
        subst IsSound made (
          replace-IsSound n s ran.0 sched (sched.metrics ++ ran.1) found
            (run_job_keeps sched.disabled a.current a.started_at a.how s)
            (run_job-IsWellFormed sanitize sched.disabled a.current a.started_at a.how s r
              (All-find_job IsWellFormed n s sched.jobs found h.formed))
            h)
  ]

  pub complete_job-IsSound :
      (n : String) (started_at : ℕ) (c : Completion) (s : JobState) (sched : Scheduler)
      → CompletionInRange c
      → find_job n sched.jobs ≡ some s
      → s.in_flight ≡ some (pending started_at)
      → IsSound sched
      → IsSound (complete_job sanitize n started_at c sched)
  unfolding complete_job
  complete_job-IsSound n started_at c s sched r found flying h =
      rw (found, complete_job)
        (replace-IsSound n s (complete sanitize started_at c s).0 sched
          (sched.metrics ++ (complete sanitize started_at c s).1) found
          (complete_keeps started_at c s)
          (complete-IsWellFormed sanitize started_at c s r flying
            (All-find_job IsWellFormed n s sched.jobs found h.formed))
          h)

  start_jobs_keeps :
      (disabled : Bool) (env : String → Attempt) (jobs : List JobState)
      → ((n : String) → LaunchInRange (env n).how)
      → All IsWellFormed jobs
      → All (IsArmedWell disabled) jobs
      → let ts = (start_jobs sanitize disabled env jobs).0 in
        (names ts ≡ names jobs) × All IsWellFormed ts × All (IsArmedWell disabled) ts
  unfolding start_jobs
  start_jobs_keeps disabled env [] r w a = (refl, tt, tt)
  start_jobs_keeps disabled env (s ∷ jobs) r w a =
      let (d, armed) = start_job_keeps disabled (env s.definition.name) s in
      let (same, ws, as_) = start_jobs_keeps disabled env jobs r w.1 a.1 in
      (
        rw (d, same),
        (start_job-IsWellFormed sanitize disabled s (env s.definition.name) (r _) w.0, ws),
        (armed a.0, as_),
      )

  pub start-IsSound :
      (env : String → Attempt) (sched : Scheduler)
      → ((n : String) → LaunchInRange (env n).how)
      → IsSound sched
      → IsSound (start sanitize env sched)
  unfolding start registered_job_names
  start-IsSound env sched r h = elim (Bool-cases sched.started) [
    | inl on ↦ simp on h
    | inr off ↦
        let (same, ws, as_) = start_jobs_keeps sched.disabled env sched.jobs r h.formed h.armed in
        rw (off, start) (record { distinct = rw same h.distinct; formed = ws; armed = as_ })
  ]
