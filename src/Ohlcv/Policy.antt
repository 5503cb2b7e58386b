-- ===== src/Ohlcv/Policy.antt =====
-- src/services/ohlcv-scheduling-policy.ts: which target the OHLCV worker leases next. Where the
-- source subtracts a span from an instant, the model adds the span on the other side.
pub mod Order
use Prim.Native.Nat.{compare, Ordering}
use opengecko.Prelude.{
  ℕ, ◌+◌, ◌-◌, ◌*◌, ◌/◌, String, Bool, true, false, not, ◌&&◌, Option, none, some, List, [], ◌∷◌,
  ltb, leb, or_else, str_eq, if◌then◌else◌,
}
use opengecko.Prelude.Sorting.{sort, then_by}
use opengecko.Ohlcv.{
  PriorityTier, top100, requested, long_tail, TargetStatus, idle, running, failed, Target,
}

abbrev pub day_ms : ℕ
day_ms = 86400000

abbrev pub default_lease_ttl_ms : ℕ
default_lease_ttl_ms = 900000

abbrev pub priority_rank : PriorityTier → ℕ
priority_rank top100 = 0
priority_rank requested = 1
priority_rank long_tail = 2

interval_recent_freshness_ms : String → ℕ
interval_recent_freshness_ms interval = if str_eq interval "1m" then 300000 else day_ms

interval_lease_rank : String → ℕ
interval_lease_rank interval =
    if str_eq interval "1m" then 0 else if str_eq interval "1d" then 1 else 10

pub historical_gap_ms : Target → ℕ → ℕ
historical_gap_ms target now = elim target.oldest_synced_at [
  | some oldest ↦ (oldest + target.target_history_days * day_ms) - now
  | none ↦ target.target_history_days * day_ms
]

-- The gap in days, rounded up.
pub remaining_depth_days : Target → ℕ → ℕ
unfolding historical_gap_ms
remaining_depth_days target now = (historical_gap_ms target now + (day_ms - 1)) / day_ms

pub is_recent_coverage_current_enough : Option ℕ → ℕ → Bool
is_recent_coverage_current_enough none now = false
is_recent_coverage_current_enough (some latest) now = leb now (latest + day_ms)

unfoldable pub is_lease_expired : Target → ℕ → ℕ → Bool
is_lease_expired target now lease_ttl_ms = elim target.lease_expires_at [
  | some expires ↦ leb expires now
  | none ↦ elim target.last_attempt_at [
    | none ↦ true
    | some attempt ↦ leb (attempt + lease_ttl_ms) now
  ]
]

abbrev pub is_retry_due : Option ℕ → ℕ → Bool
is_retry_due none now = true
is_retry_due (some t) now = leb t now

abbrev lease_eligible_in : TargetStatus → Target → ℕ → ℕ → Bool
lease_eligible_in running target now lease_ttl_ms = is_lease_expired target now lease_ttl_ms
lease_eligible_in idle target now lease_ttl_ms = is_retry_due target.next_retry_at now
lease_eligible_in failed target now lease_ttl_ms = is_retry_due target.next_retry_at now

unfoldable pub is_target_lease_eligible : Target → ℕ → ℕ → Bool
unfolding is_lease_expired
is_target_lease_eligible target now lease_ttl_ms =
    lease_eligible_in target.status target now lease_ttl_ms

pub is_target_recent_stale : Target → ℕ → Bool
unfolding interval_recent_freshness_ms
is_target_recent_stale target now = elim target.latest_synced_at [
  | none ↦ true
  | some latest ↦ ltb (latest + interval_recent_freshness_ms target.key.interval) now
]

abbrev retry_rank : TargetStatus → ℕ
retry_rank failed = 0
retry_rank idle = 1
retry_rank running = 1

stale_rank : ℕ → Target → ℕ
stale_rank now target = if is_target_recent_stale target now then 0 else 1

eligible_targets : ℕ → ℕ → List Target → List Target
unfolding is_target_lease_eligible
eligible_targets now lease_ttl_ms [] = []
eligible_targets now lease_ttl_ms (t ∷ ts) =
    let rest = eligible_targets now lease_ttl_ms ts in
    if is_target_lease_eligible t now lease_ttl_ms then t ∷ rest else rest

-- `targets[0] ?? null`
abbrev pub first_of : List Target → Option Target
first_of [] = none
first_of (t ∷ ts) = some t

-- `localeCompare` is the platform's.
module _ (locale_compare : String → String → Ordering) where
  pub compare_lease_targets : ℕ → Target → Target → Ordering
  unfolding is_target_recent_stale interval_lease_rank remaining_depth_days stale_rank
  compare_lease_targets now left right =
      then_by (compare (priority_rank left.priority_tier) (priority_rank right.priority_tier)) (
        then_by (compare (retry_rank left.status) (retry_rank right.status)) (
          then_by (compare (stale_rank now left) (stale_rank now right)) (
            then_by
              (compare (interval_lease_rank left.key.interval)
                (interval_lease_rank right.key.interval))
              (then_by (compare (remaining_depth_days right now) (remaining_depth_days left now)) (
                then_by (compare (or_else left.last_success_at 0) (or_else right.last_success_at 0))
                  (locale_compare left.key.coin_id right.key.coin_id))))))

  pub rank_lease_targets : List Target → ℕ → ℕ → List Target
  unfolding eligible_targets
  rank_lease_targets targets now lease_ttl_ms =
      sort (compare_lease_targets now) (eligible_targets now lease_ttl_ms targets)

  unfoldable pub select_next_lease_target : List Target → ℕ → ℕ → Option Target
  unfolding rank_lease_targets
  select_next_lease_target targets now lease_ttl_ms =
      first_of (rank_lease_targets targets now lease_ttl_ms)

-- A cursor candle is given by its timestamp.
abbrev last_of : List ℕ → Option ℕ
last_of [] = none
last_of (t ∷ []) = some t
last_of (t ∷ u ∷ ts) = last_of (u ∷ ts)

pub derive_latest_synced_at : Target → List ℕ → Option ℕ
derive_latest_synced_at target accepted = elim (last_of accepted) [
  | none ↦ target.latest_synced_at
  | some t ↦ some t
]

pub derive_oldest_synced_at : Target → List ℕ → Option ℕ
derive_oldest_synced_at target [] = target.oldest_synced_at
derive_oldest_synced_at target (t ∷ ts) = some t

pub should_deepen_history : Target → Option ℕ → ℕ → Bool
unfolding is_recent_coverage_current_enough
should_deepen_history target next_latest_synced_at now =
    is_recent_coverage_current_enough target.latest_synced_at now
    && is_recent_coverage_current_enough next_latest_synced_at now
