-- ===== src/Scheduler/Registry/Reach.antt =====
-- The scheduler of src/services/job-scheduler.ts as a whole: registration, start, attempts,
-- completions and the two halves of `stop`, in any order, with the number of calls of `stop` that
-- wait.
use opengecko.Prelude.{ℕ, suc, String, ◌≡◌, Bool, some, ok}
use opengecko.Scheduler.{JobDefinition, pending, JobState, Completion}
use opengecko.Scheduler.Invariant.{LaunchInRange, CompletionInRange}
use opengecko.Scheduler.Registry.{
  Scheduler, Attempt, create_unified_scheduler, find_job, registered_job_names, register,
  begin_stop, end_stop, run_now, start, complete_job,
}
use opengecko.Scheduler.Registry.Sound.{
  IsSound, IsSound-create, register-IsSound, begin_stop-IsSound, run_now-IsSound,
  complete_job-IsSound, start-IsSound,
}
use opengecko.Scheduler.Registry.Timers.{
  IsTimely, MayStart, IsTimely-create, register-IsTimely, begin_stop-IsTimely, end_stop-IsTimely,
  run_now-IsTimely, complete_job-IsTimely, start-IsTimely,
}

-- `awaited` says whether the callers wait for each `stop` before they call `start`.
module _ (sanitize : String → String) (awaited : Bool) where
  pub data SchedulerStep (waiting : ℕ) (sched : Scheduler) : ℕ → Scheduler → Type 0 where
    registers :
        (d : JobDefinition) {t : Scheduler}
        → register d sched ≡ ok t
        → SchedulerStep waiting sched waiting t
    starts :
        (env : String → Attempt)
        → ((n : String) → LaunchInRange (env n).how)
        → MayStart awaited waiting
        → SchedulerStep waiting sched waiting (start sanitize env sched)
    attempts :
        (n : String) (a : Attempt) {t : Scheduler}
        → LaunchInRange a.how
        → run_now sanitize n a sched ≡ ok t
        → SchedulerStep waiting sched waiting t
    completes :
        (n : String) (started_at : ℕ) (c : Completion) (s : JobState)
        → CompletionInRange c
        → find_job n sched.jobs ≡ some s
        → s.in_flight ≡ some (pending started_at)
        → SchedulerStep waiting sched waiting (complete_job sanitize n started_at c sched)
    begins_stop : SchedulerStep waiting sched (suc waiting) (begin_stop sched)
    ends_stop : {v : ℕ} → waiting ≡ suc v → SchedulerStep waiting sched v (end_stop sched)

  -- What can be reached from a scheduler for which no `stop` waits.
  pub data SchedulerReach (sched : Scheduler) : ℕ → Scheduler → Type 0 where
    here : SchedulerReach sched 0 sched
    next :
        {v w : ℕ} {t u : Scheduler}
        → SchedulerReach sched v t
        → SchedulerStep v t w u
        → SchedulerReach sched w u

  SchedulerStep-IsSound :
      {v w : ℕ} {s t : Scheduler} → SchedulerStep v s w t → IsSound s → IsSound t
  unfolding end_stop registered_job_names
  SchedulerStep-IsSound {s} (registers d e) h = register-IsSound d s e h
  SchedulerStep-IsSound {s} (starts env r m) h = start-IsSound sanitize env s r h
  SchedulerStep-IsSound {s} (attempts n a r e) h = run_now-IsSound sanitize n a s r e h
  SchedulerStep-IsSound {s} (completes n started_at c j r found flying) h =
      complete_job-IsSound sanitize n started_at c j s r found flying h
  SchedulerStep-IsSound {s} begins_stop h = begin_stop-IsSound s h
  SchedulerStep-IsSound {s} (ends_stop e) h = record {
    distinct = h.distinct;
    formed = h.formed;
    armed = h.armed;
  }

  IsTimely-cast : (v w : ℕ) (s : Scheduler) → v ≡ w → IsTimely awaited v s → IsTimely awaited w s
  IsTimely-cast v w s e h = rw⁻¹ e h

  SchedulerStep-IsTimely :
      {v w : ℕ} {s t : Scheduler}
      → SchedulerStep v s w t
      → IsTimely awaited v s
      → IsTimely awaited w t
  SchedulerStep-IsTimely {v} {s} (registers d e) h = register-IsTimely awaited v d s e h
  SchedulerStep-IsTimely {v} {s} (starts env r m) h = start-IsTimely sanitize awaited v env s m h
  SchedulerStep-IsTimely {v} {s} (attempts n a r e) h =
      run_now-IsTimely sanitize awaited v n a s e h
  SchedulerStep-IsTimely {v} {s} (completes n started_at c j r found flying) h =
      complete_job-IsTimely sanitize awaited v n started_at c j s found h
  SchedulerStep-IsTimely {v} {s} begins_stop h = begin_stop-IsTimely awaited v s h
  SchedulerStep-IsTimely {v} {w} {s} (ends_stop e) h =
      end_stop-IsTimely awaited w s (IsTimely-cast v (suc w) s e h)

  -- Whatever is registered, started, attempted, completed and stopped, in any order: the names
  -- of the jobs are distinct, every job is well formed, and the handle of an interval is stored
  -- only for a job that is enabled and not stopped. Where `start` is never called while a `stop`
  -- waits, the armed intervals of a job are exactly the one whose handle is stored, so that none
  -- is armed on a stopped job; else there are at least as many.
  pub SchedulerReach-IsSound :
      (disabled : Bool) {waiting : ℕ} {t : Scheduler}
      → SchedulerReach (create_unified_scheduler disabled) waiting t
      → IsSound t × IsTimely awaited waiting t
  SchedulerReach-IsSound disabled here = (IsSound-create disabled, IsTimely-create awaited disabled)
  SchedulerReach-IsSound disabled (next r st) =
      let (sound, timely) = SchedulerReach-IsSound disabled r in
      (SchedulerStep-IsSound st sound, SchedulerStep-IsTimely st timely)
