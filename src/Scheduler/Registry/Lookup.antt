-- ===== src/Scheduler/Registry/Lookup.antt =====
-- What `register`, `runNow` and `stop` of src/services/job-scheduler.ts do to the map of jobs.
use opengecko.Prelude.{
  ℕ, String, ◌≡◌, ◌↔◌, ◌≢◌, refl, inl, inr, Bool, true, false, none, some, List, [], ◌∷◌, ◌++◌, map,
  ok, err, All, is_some, eq_iff, str_eq, ◌∙◌, Option-cases, if◌then◌else◌, arith,
}
use opengecko.Scheduler.{JobDefinition, JobState, new_job, run_job}
use opengecko.Scheduler.Attempts.{skip_reason-eq-none_iff, launches_or_skips}
use opengecko.Scheduler.Registry.{
  Scheduler, already_registered, Attempt, find_job, replace_job, register, stop_job, begin_stop,
  run_now,
}
use opengecko.Scheduler.Registry.Names.{All-find_job, All-replace_job}
use opengecko.Scheduler.Registry.Sound.{run_job_keeps}

find_job-append_new :
    (k : String) (d : JobDefinition) (jobs : List JobState)
    → find_job k (jobs ++ new_job d ∷ []) ≡ (
        if is_some (find_job k jobs)
        then find_job k jobs
        else if str_eq d.name k
        then some (new_job d)
        else none)
unfolding find_job new_job
find_job-append_new k d [] = ground arith
find_job-append_new k d (s ∷ jobs) = ground (arith, find_job-append_new k d jobs)

-- Registration fails exactly on a name that is taken. Where it succeeds, the new name finds the
-- fresh job, and every other name finds what it found before.
pub register-find_job :
    (d : JobDefinition) (sched : Scheduler)
    → ((register d sched ≡ err (already_registered d.name))
        ↔ (is_some (find_job d.name sched.jobs) ≡ true))
      × ((t : Scheduler)
          → register d sched ≡ ok t
          → (find_job d.name t.jobs ≡ some (new_job d))
            × ((k : String) → k ≢ d.name → find_job k t.jobs ≡ find_job k sched.jobs))
unfolding register
register-find_job d sched = (
  ground arith,
  λ t e. (
    ground (arith, find_job-append_new d.name d sched.jobs, eq_iff d.name d.name),
    λ k other. ground (arith, find_job-append_new k d sched.jobs, eq_iff d.name k),
  ),
)

abbrev pub run_counts : List JobState → List ℕ
run_counts = map (λ s. s.run_count)

run_counts-replace_job :
    (n : String) (s t : JobState) (jobs : List JobState)
    → find_job n jobs ≡ some s
    → t.run_count ≡ s.run_count
    → run_counts (replace_job n t jobs) ≡ run_counts jobs
unfolding find_job replace_job
run_counts-replace_job n s t [] h e = cc
run_counts-replace_job n s t (u ∷ jobs) h e = ground (arith, run_counts-replace_job n s t jobs)

abbrev pub IsStopped : JobState → Type 0
IsStopped s = (s.stopped ≡ true) × (s.timer ≡ false)

begin_stop-IsStopped : (jobs : List JobState) → All IsStopped (map stop_job jobs)
unfolding stop_job
begin_stop-IsStopped [] = tt
begin_stop-IsStopped (s ∷ jobs) = ((refl, refl), begin_stop-IsStopped jobs)

run_counts-stop_job : (jobs : List JobState) → run_counts (map stop_job jobs) ≡ run_counts jobs
unfolding stop_job
run_counts-stop_job [] = refl
run_counts-stop_job (s ∷ jobs) = rw (run_counts-stop_job jobs)

module _ (sanitize : String → String) where
  run_job-IsStopped :
      (disabled : Bool) (a : Attempt) (s : JobState)
      → IsStopped s
      → let t = (run_job sanitize disabled a.current a.started_at a.how s).0 in
        (t.run_count ≡ s.run_count) × IsStopped t
  run_job-IsStopped disabled a s h = ground (
    arith,
    launches_or_skips sanitize disabled a.current a.started_at a.how s,
    skip_reason-eq-none_iff disabled a.current s,
    run_job_keeps sanitize disabled a.current a.started_at a.how s,
  )

  run_now-IsStopped :
      (n : String) (a : Attempt) (sched t : Scheduler)
      → All IsStopped sched.jobs
      → run_now sanitize n a sched ≡ ok t
      → (run_counts t.jobs ≡ run_counts sched.jobs) × All IsStopped t.jobs
  unfolding run_now
  run_now-IsStopped n a sched t h e = elim (Option-cases (find_job n sched.jobs)) [
    | inl missing ↦ absurd (ground arith)
    | inr (s, found) ↦
        let ran = run_job sanitize sched.disabled a.current a.started_at a.how s in
        let (same, still) =
          run_job-IsStopped sched.disabled a s (All-find_job IsStopped n s sched.jobs found h) in
        let jobs : replace_job n ran.0 sched.jobs ≡ t.jobs = ground arith in
        (
          rw (← jobs) (run_counts-replace_job n s ran.0 sched.jobs found same),
          rw (← jobs) (All-replace_job IsStopped n ran.0 sched.jobs still h),
        )
  ]

  -- After `stop` has stopped every job and cleared the interval of every stored handle, an attempt
  -- on any registered job begins no run: the counts of runs are those from before `stop`, and
  -- every job is still stopped, with no handle stored.
  pub begin_stop-run_now :
      (sched t : Scheduler) (n : String) (a : Attempt)
      → run_now sanitize n a (begin_stop sched) ≡ ok t
      → (run_counts t.jobs ≡ run_counts sched.jobs) × All IsStopped t.jobs
  unfolding begin_stop
  begin_stop-run_now sched t n a e =
      let (same, still) =
        run_now-IsStopped n a (begin_stop sched) t (begin_stop-IsStopped sched.jobs) e in
      (same ∙ run_counts-stop_job sched.jobs, still)
