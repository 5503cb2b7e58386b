-- ===== src/Coverage/Planner.antt =====
-- src/services/history-backfill-planner.ts: the tasks that fetch missing history. Instants are
-- milliseconds; an instant before the first one, which `daysBefore` could give, is taken as the
-- first.
pub mod Windows
pub mod Order
pub mod Deepening
use Prim.Native.Nat.{compare, Ordering}
use opengecko.Prelude.{
  ℕ, ◌+◌, ◌-◌, ◌*◌, min, max, String, Bool, true, false, Option, none, some, List, [], ◌∷◌, ◌++◌,
  ltb, ◌==◌, ◌||◌, str_eq, if◌then◌else◌,
}
use opengecko.Prelude.Sorting.{sort, then_by}
use opengecko.Coverage.{
  Family, Interval, Tier, tier_s, tier_a, tier_b, long_tail, CoverageTarget, family_text,
  interval_text, join_key, target_key,
}

abbrev pub day_ms : ℕ
day_ms = 86400000

abbrev pub first_sync_window_days : ℕ
first_sync_window_days = 30

abbrev pub history_backfill_chunk_days : ℕ
history_backfill_chunk_days = 180

pub data Reason : Type 0 where
  missing stale production_stale shallow gap_repair : Reason

pub record Gap : Type 0 where
  pub from : ℕ
  pub to : ℕ

-- `gaps` is empty where the source has no field for it.
pub record ObservedState : Type 0 where
  pub family : Family
  pub provider : String
  pub coin_id : String
  pub interval : Interval
  pub vs_currency : String
  pub latest_at : Option ℕ
  pub oldest_at : Option ℕ
  pub source_row_count : ℕ
  pub gaps : List Gap

pub record Task : Type 0 where
  pub family : Family
  pub provider : String
  pub coin_id : String
  pub interval : Interval
  pub vs_currency : String
  pub from : ℕ
  pub to : ℕ
  pub reason : Reason
  pub priority : ℕ

abbrev pub tier_rank : Tier → ℕ
tier_rank tier_s = 0
tier_rank tier_a = 1
tier_rank tier_b = 2
tier_rank long_tail = 3

abbrev pub reason_rank : Reason → ℕ
reason_rank production_stale = 0
reason_rank stale = 1
reason_rank missing = 2
reason_rank shallow = 3
reason_rank gap_repair = 4

pub observed_key : ObservedState → String
unfolding join_key
observed_key s =
    join_key (family_text s.family) s.provider s.coin_id (interval_text s.interval) s.vs_currency

pub task_target_key : Task → String
unfolding join_key
task_target_key t =
    join_key (family_text t.family) t.provider t.coin_id (interval_text t.interval) t.vs_currency

pub days_before : ℕ → ℕ → ℕ
days_before date days = date - days * day_ms

pub build_task : CoverageTarget → ℕ → ℕ → Reason → Task
build_task target from to reason = record {
  family = target.family;
  provider = target.provider;
  coin_id = target.entity_id;
  interval = target.interval;
  vs_currency = target.vs_currency;
  from = from;
  to = to;
  reason = reason;
  priority = target.priority;
}

abbrev last_or : {A : Type 0} → Option A → Option A → Option A
last_or none first = first
last_or (some later) first = some later

-- `new Map(xs.map((x) => [key(x), x])).get(k)`: of the values with one key the last one stays.
pub map_lookup : {A : Type 0} → (A → String) → String → List A → Option A
map_lookup key k [] = none
map_lookup key k (x ∷ xs) =
    last_or (map_lookup key k xs) (if str_eq (key x) k then some x else none)

pub enabled_targets : List CoverageTarget → List CoverageTarget
enabled_targets [] = []
enabled_targets (t ∷ ts) = let rest = enabled_targets ts in if t.enabled then t ∷ rest else rest

abbrev tier_of : Option CoverageTarget → Tier
tier_of none = long_tail
tier_of (some t) = t.tier

-- The tier of a task's target, by the map of the enabled targets.
pub task_tier_rank : List CoverageTarget → Task → ℕ
unfolding map_lookup target_key task_target_key
task_tier_rank targets t = tier_rank (tier_of (map_lookup target_key (task_target_key t) targets))

pub gap_tasks : CoverageTarget → List Gap → List Task
unfolding build_task
gap_tasks target [] = []
gap_tasks target (g ∷ gs) = build_task target g.from g.to gap_repair ∷ gap_tasks target gs

-- The age of the latest row in milliseconds, against spans in seconds.
pub stale_tasks : CoverageTarget → ℕ → ℕ → List Task
unfolding build_task
stale_tasks target latest now =
    if ltb (target.freshness_slo_seconds * 1000) (now - latest)
    then build_task target latest now stale ∷ []
    else if ltb (target.production_freshness_slo_seconds * 1000) (now - latest)
    then build_task target latest now production_stale ∷ []
    else []

pub shallow_tasks : CoverageTarget → ℕ → ℕ → List Task
unfolding build_task days_before
shallow_tasks target oldest now =
    let desired = days_before now target.target_history_days in
    let from = max desired (oldest - history_backfill_chunk_days * day_ms) in
    if ltb desired oldest then build_task target from oldest shallow ∷ [] else []

pub missing_task : CoverageTarget → ℕ → Task
unfolding build_task days_before
missing_task target now =
    build_task target (days_before now (min target.target_history_days first_sync_window_days)) now
      missing

abbrev dated_tasks : CoverageTarget → ℕ → ObservedState → Option ℕ → Option ℕ → List Task
dated_tasks target now s (some latest) (some oldest) =
    if s.source_row_count == 0
    then missing_task target now ∷ []
    else stale_tasks target latest now
      ++ (shallow_tasks target oldest now ++ gap_tasks target s.gaps)
dated_tasks target now s none oldest = missing_task target now ∷ []
dated_tasks target now s (some latest) none = missing_task target now ∷ []

-- One round of the loop over the targets.
pub target_tasks : CoverageTarget → ℕ → Option ObservedState → List Task
unfolding stale_tasks shallow_tasks gap_tasks missing_task
target_tasks target now none = missing_task target now ∷ []
target_tasks target now (some s) = dated_tasks target now s s.latest_at s.oldest_at

pub all_tasks : List CoverageTarget → List ObservedState → ℕ → List Task
unfolding map_lookup observed_key target_key target_tasks
all_tasks [] observed now = []
all_tasks (t ∷ ts) observed now =
    target_tasks t now (map_lookup observed_key (target_key t) observed)
    ++ all_tasks ts observed now

-- `localeCompare` is the platform's.
module _ (locale_compare : String → String → Ordering) where
  pub compare_tasks : List CoverageTarget → Task → Task → Ordering
  unfolding task_tier_rank
  compare_tasks targets left right =
      then_by (compare (task_tier_rank targets left) (task_tier_rank targets right)) (
        then_by (compare (reason_rank left.reason) (reason_rank right.reason)) (
          then_by (compare left.priority right.priority) (
            then_by (locale_compare (family_text left.family) (family_text right.family)) (
              then_by (locale_compare left.provider right.provider) (
                then_by (locale_compare left.coin_id right.coin_id) (
                  then_by
                    (locale_compare (interval_text left.interval) (interval_text right.interval))
                    (locale_compare left.vs_currency right.vs_currency)))))))

  pub plan_history_backfill_tasks : List CoverageTarget → List ObservedState → ℕ → List Task
  unfolding enabled_targets compare_tasks all_tasks
  plan_history_backfill_tasks targets observed now =
      let enabled = enabled_targets targets in
      sort (compare_tasks enabled) (all_tasks enabled observed now)
