-- ===== src/Coverage/Planner/Order.antt =====
-- The order of the tasks of src/services/history-backfill-planner.ts, and when there is none.
use Prim.Native.Nat.{Ordering}
use mathlib.Core.List.{Perm}
use opengecko.Prelude.{
  ℕ, ◌+◌, ◌-◌, ◌*◌, ◌≤◌, ◌<◌, String, ◌≡◌, ◌↔◌, refl, inl, inr, false, Option, none, some, List, [],
  ◌∷◌, ◌++◌, All, ◌==◌, Bool-cases, arith,
}
use opengecko.Prelude.Sorting.{
  IsComparison, Sorted, sort, sort-perm, sort-Sorted, compare-IsComparison, then_by-IsComparison,
  All-of_sort,
}
use opengecko.Coverage.{CoverageTarget, target_key, family_text, interval_text}
use opengecko.Coverage.Planner.{
  day_ms, reason_rank, Gap, ObservedState, Task, days_before, map_lookup, observed_key,
  task_tier_rank, enabled_targets, gap_tasks, stale_tasks, shallow_tasks, target_tasks, all_tasks,
  compare_tasks, plan_history_backfill_tasks, dated_tasks,
}

on-IsComparison :
    {A B : Type 0} (cmp : B → B → Ordering) (f : A → B)
    → IsComparison cmp
    → IsComparison (λ a b. cmp (f a) (f b))
on-IsComparison cmp f law = record {
  flipped = λ a b. law.flipped (f a) (f b);
  trans = λ a b c. law.trans (f a) (f b) (f c);
}

compare_tasks-IsComparison :
    (locale_compare : String → String → Ordering) (targets : List CoverageTarget)
    → IsComparison locale_compare
    → IsComparison (compare_tasks locale_compare targets)
unfolding compare_tasks
compare_tasks-IsComparison locale_compare targets law =
    then_by-IsComparison _ _ (compare-IsComparison (task_tier_rank targets)) (
      then_by-IsComparison _ _ (compare-IsComparison (λ t. reason_rank t.reason)) (
        then_by-IsComparison _ _ (compare-IsComparison (λ t. t.priority)) (
          then_by-IsComparison _ _ (on-IsComparison locale_compare (λ t. family_text t.family) law)
            (then_by-IsComparison _ _ (on-IsComparison locale_compare (λ t. t.provider) law) (
              then_by-IsComparison _ _ (on-IsComparison locale_compare (λ t. t.coin_id) law) (
                then_by-IsComparison _ _
                  (on-IsComparison locale_compare (λ t. interval_text t.interval) law)
                  (on-IsComparison locale_compare (λ t. t.vs_currency) law)))))))

-- The plan holds exactly the tasks of the enabled targets, in the order of the comparison: first
-- by tier, then by reason, then by priority.
pub plan_history_backfill_tasks-Sorted :
    (locale_compare : String → String → Ordering) (targets : List CoverageTarget)
    (observed : List ObservedState) (now : ℕ)
    → IsComparison locale_compare
    → let enabled = enabled_targets targets in
      let plan = plan_history_backfill_tasks locale_compare targets observed now in
      Perm plan (all_tasks enabled observed now)
      × Sorted (compare_tasks locale_compare enabled) plan
unfolding plan_history_backfill_tasks
plan_history_backfill_tasks-Sorted locale_compare targets observed now law =
    let enabled = enabled_targets targets in
    (
      sort-perm _ (all_tasks enabled observed now),
      sort-Sorted _ (compare_tasks-IsComparison locale_compare enabled law)
          (all_tasks enabled observed now),
    )

-- A target that needs nothing: rows are there, the latest is within both spans, the oldest is
-- old enough, and there is no gap.
pub record IsCovered (t : CoverageTarget) (now : ℕ) (s : ObservedState) : Type 0 where
  pub rows : 0 < s.source_row_count
  pub fresh :
      (latest : ℕ) × (s.latest_at ≡ some latest)
      × (now ≤ latest + t.freshness_slo_seconds * 1000)
      × (now ≤ latest + t.production_freshness_slo_seconds * 1000)
  pub deep :
      (oldest : ℕ) × (s.oldest_at ≡ some oldest) × (oldest ≤ now - t.target_history_days * day_ms)
  pub whole : s.gaps ≡ []

abbrev pub Covered : CoverageTarget → ℕ → Option ObservedState → Type 0
Covered t now none = ⊥
Covered t now (some s) = IsCovered t now s

append-eq-nil : (xs ys : List Task) → (xs ++ ys ≡ []) ↔ ((xs ≡ []) × (ys ≡ []))
append-eq-nil [] ys = (λ e. (refl, e), λ e. e.1)
append-eq-nil (x ∷ xs) ys = (λ e. cc, λ e. cc)

gap_tasks-eq-nil : (t : CoverageTarget) (gs : List Gap) → (gap_tasks t gs ≡ []) ↔ (gs ≡ [])
unfolding gap_tasks
gap_tasks-eq-nil t [] = (λ e. refl, λ e. refl)
gap_tasks-eq-nil t (g ∷ gs) = (λ e. cc, λ e. cc)

stale_tasks-eq-nil :
    (t : CoverageTarget) (latest now : ℕ)
    → (stale_tasks t latest now ≡ []) ↔ (
        (now ≤ latest + t.freshness_slo_seconds * 1000)
        × (now ≤ latest + t.production_freshness_slo_seconds * 1000))
unfolding stale_tasks
stale_tasks-eq-nil t latest now = ground arith

shallow_tasks-eq-nil :
    (t : CoverageTarget) (oldest now : ℕ)
    → (shallow_tasks t oldest now ≡ []) ↔ (oldest ≤ now - t.target_history_days * day_ms)
unfolding shallow_tasks days_before
shallow_tasks-eq-nil t oldest now = ground arith

abbrev Needs : CoverageTarget → ℕ → ObservedState → Option ℕ → Option ℕ → Type 0
Needs t now s latest_at oldest_at =
    (0 < s.source_row_count)
    × ((latest : ℕ) × (latest_at ≡ some latest)
        × (now ≤ latest + t.freshness_slo_seconds * 1000)
        × (now ≤ latest + t.production_freshness_slo_seconds * 1000))
    × ((oldest : ℕ) × (oldest_at ≡ some oldest) × (oldest ≤ now - t.target_history_days * day_ms))
    × (s.gaps ≡ [])

dated_tasks-eq-nil :
    (t : CoverageTarget) (now : ℕ) (s : ObservedState) (latest oldest : Option ℕ)
    → (dated_tasks t now s latest oldest ≡ []) ↔ Needs t now s latest oldest
dated_tasks-eq-nil t now s none oldest = (λ e. cc, λ (_, (l, e, _, _), _, _). cc)
dated_tasks-eq-nil t now s (some latest) none = (λ e. cc, λ (_, _, (o, e, _), _). cc)
dated_tasks-eq-nil t now s (some latest) (some oldest) = (
  λ e. elim (Bool-cases (s.source_row_count == 0)) [
    | inl empty ↦ absurd (ground (arith, rw empty at e))
    | inr rows ↦
        let parts =
          (append-eq-nil (stale_tasks t latest now)
              (shallow_tasks t oldest now ++ gap_tasks t s.gaps)).0
            (rw rows at e) in
        let later = (append-eq-nil (shallow_tasks t oldest now) (gap_tasks t s.gaps)).0 parts.1 in
        let fresh = (stale_tasks-eq-nil t latest now).0 parts.0 in
        (
          ground (arith, rows),
          (latest, refl, fresh.0, fresh.1),
          (oldest, refl, (shallow_tasks-eq-nil t oldest now).0 later.0),
          (gap_tasks-eq-nil t s.gaps).0 later.1,
        )
  ],
  λ (some_rows, (l, el, soon, sooner), (o, eo, old), whole).
      let rows : (s.source_row_count == 0) ≡ false = ground (arith, some_rows) in
      rw rows (
        (append-eq-nil (stale_tasks t latest now)
            (shallow_tasks t oldest now ++ gap_tasks t s.gaps)).1
          (
            (stale_tasks-eq-nil t latest now).1 (ground (arith, el), ground (arith, el)),
            (append-eq-nil (shallow_tasks t oldest now) (gap_tasks t s.gaps)).1 (
              (shallow_tasks-eq-nil t oldest now).1 (ground (arith, eo)),
              (gap_tasks-eq-nil t s.gaps).1 whole,
            ),
          )),
)

target_tasks-eq-nil :
    (t : CoverageTarget) (now : ℕ) (state : Option ObservedState)
    → (target_tasks t now state ≡ []) ↔ Covered t now state
unfolding target_tasks
target_tasks-eq-nil t now none = (λ e. cc, λ e. absurd e)
target_tasks-eq-nil t now (some s) =
    let h = dated_tasks-eq-nil t now s s.latest_at s.oldest_at in
    (
      λ e.
          let (rows, fresh, deep, whole) = h.0 e in
          record { rows = rows; fresh = fresh; deep = deep; whole = whole },
      λ c. h.1 (c.rows, c.fresh, c.deep, c.whole),
    )

all_tasks-eq-nil :
    (ts : List CoverageTarget) (observed : List ObservedState) (now : ℕ)
    → (all_tasks ts observed now ≡ [])
      ↔ All (λ t. Covered t now (map_lookup observed_key (target_key t) observed)) ts
unfolding all_tasks
all_tasks-eq-nil [] observed now = (λ e. tt, λ h. refl)
all_tasks-eq-nil (t ∷ ts) observed now =
    let state = map_lookup observed_key (target_key t) observed in
    let here = target_tasks-eq-nil t now state in
    let rest = all_tasks-eq-nil ts observed now in
    let both = append-eq-nil (target_tasks t now state) (all_tasks ts observed now) in
    (
      λ e. let parts = both.0 e in (here.0 parts.0, rest.0 parts.1),
      λ h. both.1 (here.1 h.0, rest.1 h.1),
    )

sort-eq-nil : (cmp : Task → Task → Ordering) (ts : List Task) → (sort cmp ts ≡ []) ↔ (ts ≡ [])
unfolding sort
sort-eq-nil cmp [] = (λ e. refl, λ e. refl)
sort-eq-nil cmp (t ∷ ts) = (λ e. absurd (All-of_sort cmp (λ u. ⊥) (t ∷ ts) (rw e tt)).0, λ e. cc)

-- Nothing is planned exactly where every enabled target is covered by what was observed of it.
pub plan_history_backfill_tasks-eq-nil_iff :
    (locale_compare : String → String → Ordering) (targets : List CoverageTarget)
    (observed : List ObservedState) (now : ℕ)
    → (plan_history_backfill_tasks locale_compare targets observed now ≡ [])
      ↔ All
          (λ t. Covered t now (map_lookup observed_key (target_key t) observed))
          (enabled_targets targets)
unfolding plan_history_backfill_tasks
plan_history_backfill_tasks-eq-nil_iff locale_compare targets observed now =
    let enabled = enabled_targets targets in
    let sorted =
      sort-eq-nil (compare_tasks locale_compare enabled) (all_tasks enabled observed now) in
    let all = all_tasks-eq-nil enabled observed now in
    (λ e. all.0 (sorted.0 e), λ h. sorted.1 (all.1 h))
