-- ===== src/Coverage/Planner/Windows.antt =====
-- The windows of the tasks of src/services/history-backfill-planner.ts.
use Prim.Native.Nat.{Ordering}
use opengecko.Prelude.{
  ℕ, ◌+◌, ◌*◌, ◌≤◌, ◌<◌, String, ◌≡◌, refl, inl, inr, Option, none, some, List, [], ◌∷◌, ◌++◌, All,
  ◌==◌, str_eq, Option-cases, Bool-cases, arith,
}
use opengecko.Prelude.Sorting.{All-sort}
use mathlib.Core.Path.{subst}
use opengecko.Coverage.{CoverageTarget, target_key}
use opengecko.Coverage.Planner.{
  day_ms, history_backfill_chunk_days, first_sync_window_days, Reason, missing, stale,
  production_stale, shallow, gap_repair, Gap, ObservedState, Task, days_before, build_task,
  map_lookup, observed_key, enabled_targets, gap_tasks, stale_tasks, shallow_tasks, missing_task,
  target_tasks, all_tasks, dated_tasks, compare_tasks, plan_history_backfill_tasks,
}

-- What was observed lies in the past.
abbrev pub AtMost : Option ℕ → ℕ → Type 0
AtMost none now = Unit
AtMost (some t) now = t ≤ now

pub record IsPast (now : ℕ) (s : ObservedState) : Type 0 where
  pub latest : AtMost s.latest_at now
  pub oldest : AtMost s.oldest_at now
  pub gaps : All (λ g. (g.from ≤ g.to) × (g.to ≤ now)) s.gaps

-- A window in the past, not empty, and of at most 30 or 180 days where it deepens the history.
abbrev pub Fits : Reason → ℕ → ℕ → Type 0
Fits missing from to = to ≤ from + first_sync_window_days * day_ms
Fits shallow from to = (from < to) × (to ≤ from + history_backfill_chunk_days * day_ms)
Fits stale from to = from < to
Fits production_stale from to = from < to
Fits gap_repair from to = Unit

pub record IsWindow (now : ℕ) (t : Task) : Type 0 where
  pub ordered : t.from ≤ t.to
  pub past : t.to ≤ now
  pub fits : Fits t.reason t.from t.to

All-append : (P : Task → Type 0) (xs ys : List Task) → All P xs → All P ys → All P (xs ++ ys)
All-append P [] ys h k = k
All-append P (x ∷ xs) ys h k = (h.0, All-append P xs ys h.1 k)

missing_task-IsWindow : (target : CoverageTarget) (now : ℕ) → IsWindow now (missing_task target now)
unfolding missing_task build_task days_before
missing_task-IsWindow target now = record {
  ordered = omega arith;
  past = omega arith;
  fits = omega arith;
}

stale_tasks-IsWindow :
    (target : CoverageTarget) (latest now : ℕ)
    → latest ≤ now
    → All (IsWindow now) (stale_tasks target latest now)
unfolding stale_tasks build_task
stale_tasks-IsWindow target latest now h = ground arith

shallow_tasks-IsWindow :
    (target : CoverageTarget) (oldest now : ℕ)
    → oldest ≤ now
    → All (IsWindow now) (shallow_tasks target oldest now)
unfolding shallow_tasks build_task days_before
shallow_tasks-IsWindow target oldest now h = ground arith

gap_tasks-IsWindow :
    (target : CoverageTarget) (now : ℕ) (gs : List Gap)
    → All (λ g. (g.from ≤ g.to) × (g.to ≤ now)) gs
    → All (IsWindow now) (gap_tasks target gs)
unfolding gap_tasks build_task
gap_tasks-IsWindow target now [] h = tt
gap_tasks-IsWindow target now (g ∷ gs) h =
    (record { ordered = h.0.0; past = h.0.1; fits = tt }, gap_tasks-IsWindow target now gs h.1)

dated_tasks-IsWindow :
    (target : CoverageTarget) (now : ℕ) (s : ObservedState) (latest oldest : Option ℕ)
    → AtMost latest now
    → AtMost oldest now
    → All (λ g. (g.from ≤ g.to) × (g.to ≤ now)) s.gaps
    → All (IsWindow now) (dated_tasks target now s latest oldest)
dated_tasks-IsWindow target now s none oldest l o g = (missing_task-IsWindow target now, tt)
dated_tasks-IsWindow target now s (some latest) none l o g = (missing_task-IsWindow target now, tt)
dated_tasks-IsWindow target now s (some latest) (some oldest) l o g =
    elim (Bool-cases (s.source_row_count == 0)) [
      | inl empty ↦ rw empty (missing_task-IsWindow target now, tt)
      | inr rows ↦ rw rows (
          All-append (IsWindow now) (stale_tasks target latest now) _
            (stale_tasks-IsWindow target latest now l)
            (All-append (IsWindow now) (shallow_tasks target oldest now) _
              (shallow_tasks-IsWindow target oldest now o)
              (gap_tasks-IsWindow target now s.gaps g)))
    ]

pub target_tasks-IsWindow :
    (target : CoverageTarget) (now : ℕ) (state : Option ObservedState)
    → ((s : ObservedState) → state ≡ some s → IsPast now s)
    → All (IsWindow now) (target_tasks target now state)
unfolding target_tasks
target_tasks-IsWindow target now none h = (missing_task-IsWindow target now, tt)
target_tasks-IsWindow target now (some s) h =
    let p = h s refl in
    dated_tasks-IsWindow target now s s.latest_at s.oldest_at p.latest p.oldest p.gaps

map_lookup-All :
    {A : Type 0} (P : A → Type 0) (key : A → String) (k : String) (xs : List A)
    → All P xs
    → (x : A) → map_lookup key k xs ≡ some x
    → P x
unfolding map_lookup
map_lookup-All P key k [] h x e = absurd (ground (arith, e))
map_lookup-All P key k (y ∷ ys) h x e = elim (Option-cases (map_lookup key k ys)) [
  | inr (z, later) ↦ map_lookup-All P key k ys h.1 x (ground (arith, later, e))
  | inl last ↦ elim (Bool-cases (str_eq (key y) k)) [
    | inl same ↦ let found : y ≡ x = ground (arith, last, same, e) in subst P found h.0
    | inr other ↦ absurd (ground (arith, last, other, e))
  ]
]

all_tasks-IsWindow :
    (ts : List CoverageTarget) (observed : List ObservedState) (now : ℕ)
    → All (IsPast now) observed
    → All (IsWindow now) (all_tasks ts observed now)
unfolding all_tasks
all_tasks-IsWindow [] observed now h = tt
all_tasks-IsWindow (t ∷ ts) observed now h =
    All-append (IsWindow now) (target_tasks t now (map_lookup observed_key (target_key t) observed))
      _
      (target_tasks-IsWindow t now (map_lookup observed_key (target_key t) observed)
        (map_lookup-All (IsPast now) observed_key (target_key t) observed h))
      (all_tasks-IsWindow ts observed now h)

-- Where all that was observed lies in the past, every planned window is ordered and lies in the
-- past; one that refreshes a target is not empty; a first sync spans at most 30 days, and one
-- that deepens the history is not empty and spans at most 180 days.
pub plan_history_backfill_tasks-IsWindow :
    (locale_compare : String → String → Ordering) (targets : List CoverageTarget)
    (observed : List ObservedState) (now : ℕ)
    → All (IsPast now) observed
    → All (IsWindow now) (plan_history_backfill_tasks locale_compare targets observed now)
unfolding plan_history_backfill_tasks
plan_history_backfill_tasks-IsWindow locale_compare targets observed now h =
    let enabled = enabled_targets targets in
    All-sort (compare_tasks locale_compare enabled) (IsWindow now) (all_tasks enabled observed now)
      (all_tasks-IsWindow enabled observed now h)
