-- ===== src/Market/Freshness.antt =====
-- src/modules/market-freshness.ts: which snapshots may be served. A time stamp that is given as a
-- number may be in seconds.
pub mod Served
use opengecko.Prelude.{
  ℕ, ◌-◌, ◌*◌, ◌/◌, String, Bool, true, false, not, ◌&&◌, Option, none, some, ltb, or_else,
  if◌then◌else◌,
}
use opengecko.Market.{
  OverrideMode, off, stale_disallowed, stale_allowed, degraded_seeded_bootstrap, seeded_bootstrap,
  zero_live_completed_boot, MarketState,
}

-- `Date | number`, not before 1970; a number is taken to be whole.
pub data RuntimeTimestamp : Type 0 where
  date : ℕ → RuntimeTimestamp
  invalid_date : RuntimeTimestamp
  number : ℕ → RuntimeTimestamp
  not_finite : RuntimeTimestamp

abbrev pub second_timestamp_max : ℕ
second_timestamp_max = 10000000000

abbrev pub min_reasonable_runtime_timestamp_ms : ℕ
min_reasonable_runtime_timestamp_ms = 946684800000

-- The last instant that a `Date` can hold.
abbrev pub max_date_ms : ℕ
max_date_ms = 8640000000000000

unfoldable pub normalize_number : ℕ → Option ℕ
normalize_number raw =
    let normalized = if ltb raw second_timestamp_max then raw * 1000 else raw in
    if ltb normalized min_reasonable_runtime_timestamp_ms
    then none
    else if ltb max_date_ms normalized
    then none
    else some normalized

unfoldable pub normalize_runtime_timestamp : RuntimeTimestamp → Option ℕ
unfolding normalize_number
normalize_runtime_timestamp (date t) = normalize_number t
normalize_runtime_timestamp (number t) = normalize_number t
normalize_runtime_timestamp invalid_date = none
normalize_runtime_timestamp not_finite = none

-- A valid date that cannot be normalised is taken as it is.
unfoldable pub coerce_runtime_timestamp : RuntimeTimestamp → Option ℕ
unfolding normalize_runtime_timestamp
coerce_runtime_timestamp (date t) = some (or_else (normalize_runtime_timestamp (date t)) t)
coerce_runtime_timestamp (number t) = normalize_runtime_timestamp (number t)
coerce_runtime_timestamp invalid_date = none
coerce_runtime_timestamp not_finite = none

pub record Snapshot : Type 0 where
  pub last_updated : RuntimeTimestamp
  pub source_count : ℕ

unfoldable pub normalize_runtime_snapshot_timestamp : Snapshot → Option Snapshot
unfolding coerce_runtime_timestamp
normalize_runtime_snapshot_timestamp s = elim (coerce_runtime_timestamp s.last_updated) [
  | none ↦ none
  | some t ↦ some (record s { last_updated = date t })
]

-- `getSnapshotOwnership(snapshot) === 'live'`
abbrev pub is_live_snapshot : Snapshot → Bool
is_live_snapshot s = ltb 0 s.source_count

pub record SnapshotAccessPolicy : Type 0 where
  pub policy_sync_completed : Bool
  pub policy_allow_stale : Bool

unfoldable pub get_snapshot_access_policy : MarketState → SnapshotAccessPolicy
get_snapshot_access_policy s = elim s.validation_override.mode [
  | stale_disallowed ↦ record { policy_sync_completed = true; policy_allow_stale = false }
  | stale_allowed ↦ record { policy_sync_completed = true; policy_allow_stale = true }
  | seeded_bootstrap ↦ record { policy_sync_completed = false; policy_allow_stale = true }
  | degraded_seeded_bootstrap ↦ record { policy_sync_completed = false; policy_allow_stale = false }
  | off ↦ record {
    policy_sync_completed = s.initial_sync_completed;
    policy_allow_stale = s.allow_stale_live_service;
  }
  | zero_live_completed_boot ↦ record {
    policy_sync_completed = s.initial_sync_completed;
    policy_allow_stale = s.allow_stale_live_service;
  }
]

-- The age of a snapshot in whole seconds; none where its time stamp cannot be read.
unfoldable pub snapshot_age_seconds : Snapshot → ℕ → Option ℕ
unfolding coerce_runtime_timestamp
snapshot_age_seconds s now = elim (coerce_runtime_timestamp s.last_updated) [
  | none ↦ none
  | some t ↦ some ((now - t) / 1000)
]

-- `getSnapshotFreshness(…).isStale`
unfoldable pub is_stale_snapshot : Snapshot → ℕ → ℕ → Bool
unfolding snapshot_age_seconds
is_stale_snapshot s threshold_seconds now = elim (snapshot_age_seconds s now) [
  | none ↦ true
  | some age ↦ ltb threshold_seconds age
]

unfoldable pub usable_snapshot : Snapshot → ℕ → SnapshotAccessPolicy → ℕ → Option Snapshot
unfolding is_stale_snapshot
usable_snapshot s threshold_seconds policy now =
    if not (is_live_snapshot s)
    then if not policy.policy_sync_completed then some s else none
    else if not (is_stale_snapshot s threshold_seconds now)
    then some s
    else if policy.policy_allow_stale
    then some s
    else none

unfoldable pub get_usable_snapshot :
    Option Snapshot → ℕ → SnapshotAccessPolicy → ℕ → Option Snapshot
unfolding normalize_runtime_snapshot_timestamp usable_snapshot
get_usable_snapshot none threshold_seconds policy now = none
get_usable_snapshot (some s) threshold_seconds policy now =
    elim (normalize_runtime_snapshot_timestamp s) [
      | none ↦ none
      | some normalized ↦ usable_snapshot normalized threshold_seconds policy now
    ]
