-- ===== src/Scheduler/Registry/Timers.antt =====
-- The intervals of src/services/job-scheduler.ts that are armed. `start` stores the handle of a new
-- interval without a look at the one that is there, so it matters whether a caller starts the
-- scheduler while a `stop` still waits.
use opengecko.Prelude.{
  ℕ, suc, ◌≤◌, String, ◌≡◌, refl, Bool, true, false, not, ◌&&◌, ◌||◌, some, List, [], ◌∷◌, ◌++◌,
  map, ok, All, ltb, is_some, Bool-cases, Option-cases, inl, inr, if◌then◌else◌, arith,
}
use mathlib.Core.Path.{subst}
use opengecko.Scheduler.{
  JobDefinition, JobState, Metric, Launch, Completion, promised, threw, resolved, rejected, new_job,
  run_job, complete,
}
use opengecko.Scheduler.Registry.{
  Scheduler, Attempt, create_unified_scheduler, find_job, replace_job, register, stop_job,
  begin_stop, end_stop, run_now, start_job, start_jobs, start, complete_job,
}
use opengecko.Scheduler.Registry.Names.{All-find_job, All-replace_job, All-append, All-stop_job}

-- How many intervals the stored handle stands for.
abbrev pub handles : JobState → ℕ
handles s = if s.timer then 1 else 0

-- Where the callers wait for each `stop` before they start again, every armed interval of a job is
-- the one whose handle is stored; else there may be more.
abbrev pub IsTimed : Bool → JobState → Type 0
IsTimed true s = s.intervals ≡ handles s
IsTimed false s = handles s ≤ s.intervals

abbrev pub IsUnarmed : JobState → Type 0
IsUnarmed s = s.timer ≡ false

abbrev pub RestsIf : Bool → List JobState → Type 0
RestsIf true jobs = All IsUnarmed jobs
RestsIf false jobs = Unit

-- The intervals of all jobs, while `waiting` calls of `stop` wait. Where callers wait for each
-- `stop`, no handle is stored while one waits or before the start.
pub record IsTimely (awaited : Bool) (waiting : ℕ) (sched : Scheduler) : Type 0 where
  pub timed : All (IsTimed awaited) sched.jobs
  pub rests : RestsIf (awaited && (ltb 0 waiting || not sched.started)) sched.jobs

-- Whether `start` may be called while so many calls of `stop` wait.
abbrev pub MayStart : Bool → ℕ → Type 0
MayStart true waiting = waiting ≡ 0
MayStart false waiting = Unit

rests_always : (b : Bool) (jobs : List JobState) → All IsUnarmed jobs → RestsIf b jobs
rests_always true jobs h = h
rests_always false jobs h = tt

rests_map :
    (b : Bool) (jobs ts : List JobState)
    → (All IsUnarmed jobs → All IsUnarmed ts)
    → RestsIf b jobs
    → RestsIf b ts
rests_map true jobs ts f h = f h
rests_map false jobs ts f h = tt

pub IsTimely-create :
    (awaited disabled : Bool) → IsTimely awaited 0 (create_unified_scheduler disabled)
unfolding create_unified_scheduler
IsTimely-create awaited disabled = record { timed = tt; rests = rests_always _ [] tt }

new_job-IsTimed : (awaited : Bool) (d : JobDefinition) → IsTimed awaited (new_job d)
unfolding new_job
new_job-IsTimed true d = refl
new_job-IsTimed false d = omega arith

new_job-IsUnarmed : (d : JobDefinition) → IsUnarmed (new_job d)
unfolding new_job
new_job-IsUnarmed d = refl

pub register-IsTimely :
    (awaited : Bool) (waiting : ℕ) (d : JobDefinition) (sched : Scheduler) {t : Scheduler}
    → register d sched ≡ ok t
    → IsTimely awaited waiting sched
    → IsTimely awaited waiting t
unfolding register
register-IsTimely awaited waiting d sched {t} e h =
    elim (Bool-cases (is_some (find_job d.name sched.jobs))) [
      | inl old ↦ absurd (ground arith)
      | inr new ↦
          let added : record sched { jobs = sched.jobs ++ (new_job d ∷ []) } ≡ t = ground arith in
          subst (IsTimely awaited waiting) added (record {
            timed =
                All-append (IsTimed awaited) (new_job d) sched.jobs (new_job-IsTimed awaited d)
                  h.timed;
            rests =
                rests_map (awaited && (ltb 0 waiting || not sched.started)) sched.jobs
                  (sched.jobs ++ (new_job d ∷ []))
                  (All-append IsUnarmed (new_job d) sched.jobs (new_job-IsUnarmed d)) h.rests;
          })
    ]

stop_job-IsTimed :
    (awaited : Bool) (s : JobState) → IsTimed awaited s → IsTimed awaited (stop_job s)
unfolding stop_job
stop_job-IsTimed true s h = ground arith
stop_job-IsTimed false s h = ground arith

stop_job-IsUnarmed : (jobs : List JobState) → All IsUnarmed (map stop_job jobs)
unfolding stop_job
stop_job-IsUnarmed [] = tt
stop_job-IsUnarmed (s ∷ jobs) = (refl, stop_job-IsUnarmed jobs)

pub begin_stop-IsTimely :
    (awaited : Bool) (waiting : ℕ) (sched : Scheduler)
    → IsTimely awaited waiting sched
    → IsTimely awaited (suc waiting) (begin_stop sched)
unfolding begin_stop
begin_stop-IsTimely awaited waiting sched h = record {
  timed = All-stop_job (IsTimed awaited) sched.jobs (stop_job-IsTimed awaited) h.timed;
  rests = rests_always _ (map stop_job sched.jobs) (stop_job-IsUnarmed sched.jobs);
}

rests_at : (a b : Bool) (jobs : List JobState) → a ≡ b → RestsIf a jobs → RestsIf b jobs
rests_at a b jobs e h = rw⁻¹ e h

pub end_stop-IsTimely :
    (awaited : Bool) (waiting : ℕ) (sched : Scheduler)
    → IsTimely awaited (suc waiting) sched
    → IsTimely awaited waiting (end_stop sched)
unfolding end_stop
end_stop-IsTimely awaited waiting sched h = record {
  timed = h.timed;
  rests =
      rests_at (awaited && (ltb 0 (suc waiting) || not sched.started))
        (awaited && (ltb 0 waiting || true)) sched.jobs (ground arith) h.rests;
}

module _ (sanitize : String → String) where
  run_job-intervals :
      (disabled : Bool) (current started_at : ℕ) (how : Launch) (s : JobState)
      → let t = (run_job sanitize disabled current started_at how s).0 in
        (t.timer ≡ s.timer) × (t.intervals ≡ s.intervals)
  unfolding run_job
  run_job-intervals disabled current started_at promised s = ground arith
  run_job-intervals disabled current started_at (threw f r e) s = ground arith

  complete-intervals :
      (started_at : ℕ) (c : Completion) (s : JobState)
      → let t = (complete sanitize started_at c s).0 in
        (t.timer ≡ s.timer) × (t.intervals ≡ s.intervals)
  unfolding complete
  complete-intervals started_at (resolved f r) s = ground arith
  complete-intervals started_at (rejected f r e) s = ground arith

  same-IsTimed :
      (awaited : Bool) (s t : JobState)
      → (t.timer ≡ s.timer) × (t.intervals ≡ s.intervals)
      → IsTimed awaited s
      → IsTimed awaited t
  same-IsTimed true s t (e, f) h = rw (e, f) h
  same-IsTimed false s t (e, f) h = rw (e, f) h

  replace-IsTimely :
      (awaited : Bool) (waiting : ℕ) (n : String) (s t : JobState) (sched : Scheduler)
      (reported : List Metric)
      → find_job n sched.jobs ≡ some s
      → (t.timer ≡ s.timer) × (t.intervals ≡ s.intervals)
      → IsTimely awaited waiting sched
      → IsTimely awaited waiting
          (record sched { jobs = replace_job n t sched.jobs; metrics = reported })
  replace-IsTimely awaited waiting n s t sched reported found same h = record {
    timed =
        All-replace_job (IsTimed awaited) n t sched.jobs
          (same-IsTimed awaited s t same
            (All-find_job (IsTimed awaited) n s sched.jobs found h.timed))
          h.timed;
    rests =
        rests_map (awaited && (ltb 0 waiting || not sched.started)) sched.jobs
          (replace_job n t sched.jobs)
          (λ u.
            All-replace_job IsUnarmed n t sched.jobs
              (rw (same.0) (All-find_job IsUnarmed n s sched.jobs found u)) u)
          h.rests;
  }

  pub run_now-IsTimely :
      (awaited : Bool) (waiting : ℕ) (n : String) (a : Attempt) (sched : Scheduler) {t : Scheduler}
      → run_now sanitize n a sched ≡ ok t
      → IsTimely awaited waiting sched
      → IsTimely awaited waiting t
  unfolding run_now
  run_now-IsTimely awaited waiting n a sched {t} e h = elim (Option-cases (find_job n sched.jobs)) [
    | inl missing ↦ absurd (ground arith)
    | inr (s, found) ↦
        let ran = run_job sanitize sched.disabled a.current a.started_at a.how s in
        let made : record sched {
          jobs = replace_job n ran.0 sched.jobs;
          metrics = sched.metrics ++ ran.1;
        }
            ≡ t =
          ground arith in
        subst (IsTimely awaited waiting) made (
          replace-IsTimely awaited waiting n s ran.0 sched (sched.metrics ++ ran.1) found
            (run_job-intervals sched.disabled a.current a.started_at a.how s) h)
  ]

  pub complete_job-IsTimely :
      (awaited : Bool) (waiting : ℕ) (n : String) (started_at : ℕ) (c : Completion) (s : JobState)
      (sched : Scheduler)
      → find_job n sched.jobs ≡ some s
      → IsTimely awaited waiting sched
      → IsTimely awaited waiting (complete_job sanitize n started_at c sched)
  unfolding complete_job
  complete_job-IsTimely awaited waiting n started_at c s sched found h =
      rw (found, complete_job)
        (replace-IsTimely awaited waiting n s (complete sanitize started_at c s).0 sched
          (sched.metrics ++ (complete sanitize started_at c s).1) found
          (complete-intervals started_at c s) h)

  start_job-IsTimed :
      (awaited disabled : Bool) (a : Attempt) (s : JobState) (jobs : List JobState)
      → RestsIf awaited (s ∷ jobs)
      → IsTimed awaited s
      → IsTimed awaited (start_job sanitize disabled a s).0
  unfolding start_job
  start_job-IsTimed true disabled a s jobs r h = ground (
    arith,
    r.0,
    run_job-intervals disabled a.current a.started_at a.how (record s { stopped = false }),
  )
  start_job-IsTimed false disabled a s jobs r h = ground (
    arith,
    run_job-intervals disabled a.current a.started_at a.how (record s { stopped = false }),
  )

  rests_tail :
      (b : Bool) (s : JobState) (jobs : List JobState) → RestsIf b (s ∷ jobs) → RestsIf b jobs
  rests_tail true s jobs h = h.1
  rests_tail false s jobs h = tt

  start_jobs-IsTimed :
      (awaited disabled : Bool) (env : String → Attempt) (jobs : List JobState)
      → RestsIf awaited jobs
      → All (IsTimed awaited) jobs
      → All (IsTimed awaited) (start_jobs sanitize disabled env jobs).0
  unfolding start_jobs
  start_jobs-IsTimed awaited disabled env [] r h = tt
  start_jobs-IsTimed awaited disabled env (s ∷ jobs) r h = (
    start_job-IsTimed awaited disabled (env s.definition.name) s jobs r h.0,
    start_jobs-IsTimed awaited disabled env jobs (rests_tail awaited s jobs r) h.1,
  )

  started_rests :
      (awaited : Bool) (waiting : ℕ)
      → MayStart awaited waiting
      → false ≡ (awaited && (ltb 0 waiting || not true))
  started_rests true waiting m = rw m refl
  started_rests false waiting m = refl

  unstarted_rests :
      (awaited : Bool) (waiting : ℕ) → (awaited && (ltb 0 waiting || not false)) ≡ awaited
  unstarted_rests awaited waiting = ground arith

  pub start-IsTimely :
      (awaited : Bool) (waiting : ℕ) (env : String → Attempt) (sched : Scheduler)
      → MayStart awaited waiting
      → IsTimely awaited waiting sched
      → IsTimely awaited waiting (start sanitize env sched)
  unfolding start
  start-IsTimely awaited waiting env sched m h = elim (Bool-cases sched.started) [
    | inl on ↦ simp on h
    | inr off ↦
        let clean : RestsIf awaited sched.jobs =
          rests_at (awaited && (ltb 0 waiting || not false)) awaited sched.jobs
            (unstarted_rests awaited waiting) (rw off at h.rests) in
        rw (off, start)
          (record {
            timed = start_jobs-IsTimed awaited sched.disabled env sched.jobs clean h.timed;
            rests =
                rests_at false (awaited && (ltb 0 waiting || not true))
                  (start_jobs sanitize sched.disabled env sched.jobs).0
                  (started_rests awaited waiting m) tt;
          })
  ]
