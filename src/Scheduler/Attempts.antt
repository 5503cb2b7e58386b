-- ===== src/Scheduler/Attempts.antt =====
-- When `runJob` of src/services/job-scheduler.ts begins a run, and when it skips.
use opengecko.Prelude.{
  ℕ, ◌+◌, ◌≤◌, ◌<◌, String, ◌≡◌, ◌↔◌, ◌⊎◌, Bool, true, false, Option, none, some, is_some, arith,
}
use opengecko.Scheduler.{
  backoff, JobState, Launch, promised, threw, rejected, is_waiting, skip_reason, run_job, complete,
}
use opengecko.Scheduler.Backoff.{random_unit}
use opengecko.Scheduler.Backoff.Bounds.{compute_backoff_ms_bounds}

-- The end of the backoff has come, or there is none.
abbrev pub IsDue : Option ℕ → ℕ → Type 0
IsDue none now = Unit
IsDue (some t) now = t ≤ now

not-waiting_iff : (o : Option ℕ) (now : ℕ) → (is_waiting o now ≡ false) ↔ IsDue o now
not-waiting_iff none now = ground arith
not-waiting_iff (some t) now = ground arith

pub skip_reason-eq-none_iff :
    (disabled : Bool) (current : ℕ) (s : JobState)
    → (skip_reason disabled current s ≡ none) ↔ (
        (disabled ≡ false)
        × (s.definition.disabled ≡ false)
        × (s.stopped ≡ false)
        × (s.in_flight ≡ none)
        × IsDue s.next_eligible_at current)
unfolding skip_reason
skip_reason-eq-none_iff disabled current s =
    ground (arith, not-waiting_iff s.next_eligible_at current)

module _ (sanitize : String → String) where
  pub launches_or_skips :
      (disabled : Bool) (current started_at : ℕ) (how : Launch) (s : JobState)
      → let t = (run_job sanitize disabled current started_at how s).0 in
        ((skip_reason disabled current s ≡ none)
          × (t.run_count ≡ s.run_count + 1)
          × (t.skipped_count ≡ s.skipped_count))
        ⊎ ((is_some (skip_reason disabled current s) ≡ true)
            × (t.run_count ≡ s.run_count)
            × (t.skipped_count ≡ s.skipped_count + 1)
            × (t.in_flight ≡ s.in_flight))
  unfolding run_job
  launches_or_skips disabled current started_at promised s = ground arith
  launches_or_skips disabled current started_at (threw f r e) s = ground arith

  -- An attempt begins a run exactly when neither the scheduler nor the job is disabled, the job
  -- is not stopped, no promise is in flight and the backoff is over.
  pub run_job_begins_iff :
      (disabled : Bool) (current started_at : ℕ) (how : Launch) (s : JobState)
      → ((run_job sanitize disabled current started_at how s).0.run_count ≡ s.run_count + 1) ↔ (
          (disabled ≡ false)
          × (s.definition.disabled ≡ false)
          × (s.stopped ≡ false)
          × (s.in_flight ≡ none)
          × IsDue s.next_eligible_at current)
  run_job_begins_iff disabled current started_at how s =
      let outcome = launches_or_skips disabled current started_at how s in
      let guards = skip_reason-eq-none_iff disabled current s in
      (λ e. guards.0 (ground (arith, outcome)), λ g. ground (arith, outcome, guards.1 g))

  -- Each attempt is counted once, as a run or as a skip, and an attempt on a job in flight
  -- leaves the promise in flight and begins no run.
  pub run_job_counts :
      (disabled : Bool) (current started_at : ℕ) (how : Launch) (s : JobState)
      → let t = (run_job sanitize disabled current started_at how s).0 in
        (t.run_count + t.skipped_count ≡ s.run_count + s.skipped_count + 1)
        × (is_some s.in_flight ≡ true → (t.in_flight ≡ s.in_flight) × (t.run_count ≡ s.run_count))
  run_job_counts disabled current started_at how s =
      let outcome = launches_or_skips disabled current started_at how s in
      let guards = skip_reason-eq-none_iff disabled current s in
      (omega (arith, outcome), λ flying. ground (arith, outcome, guards.0))

  -- After a run that is rejected at `finished`, an enabled job that is not stopped is skipped
  -- for its backoff at any instant before `finished` + 0.8 s, and may run again at any instant
  -- from `finished` + 360 s on.
  pub rejected_backoff :
      (started_at finished random : ℕ) (error : String) (now : ℕ) (s : JobState)
      → random < random_unit
      → s.definition.disabled ≡ false
      → s.stopped ≡ false
      → let t = (complete sanitize started_at (rejected finished random error) s).0 in
        (now < finished + 800 → skip_reason false now t ≡ some backoff)
        × (finished + 360000 ≤ now → skip_reason false now t ≡ none)
  unfolding complete skip_reason
  rejected_backoff started_at finished random error now s r d p =
      let b =
        compute_backoff_ms_bounds s.definition.interval_seconds (s.error_count + 1) random r in
      (λ early. ground (arith, b), λ late. ground (arith, b))
