-- ===== src/Market.antt =====
-- src/services/market-runtime-state.ts: the state of the market data that the server works with,
-- and its phase. A function that mutates the state returns the new one.
pub mod Attempts
pub mod Freshness
pub mod Events
pub mod Phases
mod Tests
use Prim.Native.Nat.{Ordering}
use opengecko.Prelude.{
  ℕ, ◌+◌, String, Bool, true, false, not, ◌&&◌, ◌||◌, Option, none, some, List, [], ◌∷◌, ltb, ◌==◌,
  or_else, if◌then◌else◌,
}
use opengecko.Breaker.Delay.{PartialOptions}
use opengecko.Breaker.{
  create_provider_breaker_state, BreakerState, BreakerStatus, closed, opened, half_open,
  EntrySummary, summarize_provider_breaker_state,
}

pub data OverrideMode : Type 0 where
  off stale_disallowed stale_allowed degraded_seeded_bootstrap seeded_bootstrap : OverrideMode
  zero_live_completed_boot : OverrideMode

pub record ValidationOverride : Type 0 where
  pub mode : OverrideMode
  pub reason : Option String
  pub snapshot_timestamp_override : Option ℕ
  pub snapshot_source_count_override : Option ℕ

pub record ForcedProviderFailure : Type 0 where
  pub active : Bool
  pub reason : Option String

pub record MarketState : Type 0 where
  pub initial_sync_completed : Bool
  pub listener_bind_deferred : Bool
  pub completed_without_usable_live_snapshots : Bool
  pub allow_stale_live_service : Bool
  pub sync_failure_reason : Option String
  pub listener_bound : Bool
  pub hot_data_revision : ℕ
  pub validation_override : ValidationOverride
  pub provider_failure_cooldown_until : Option ℕ
  pub provider_breakers : BreakerState
  pub forced_provider_failure : ForcedProviderFailure

pub data MarketPhase : Type 0 where
  cold_boot syncing live_ready stale_ready zero_live_ready provider_degraded : MarketPhase
  validation_override_phase : MarketPhase

abbrev pub is_off : OverrideMode → Bool
is_off off = true
is_off stale_disallowed = false
is_off stale_allowed = false
is_off degraded_seeded_bootstrap = false
is_off seeded_bootstrap = false
is_off zero_live_completed_boot = false

abbrev is_zero_live : OverrideMode → Bool
is_zero_live zero_live_completed_boot = true
is_zero_live off = false
is_zero_live stale_disallowed = false
is_zero_live stale_allowed = false
is_zero_live degraded_seeded_bootstrap = false
is_zero_live seeded_bootstrap = false

abbrev is_seeded : OverrideMode → Bool
is_seeded seeded_bootstrap = true
is_seeded degraded_seeded_bootstrap = true
is_seeded off = false
is_seeded stale_disallowed = false
is_seeded stale_allowed = false
is_seeded zero_live_completed_boot = false

abbrev is_open : BreakerStatus → Bool
is_open opened = true
is_open closed = false
is_open half_open = false

unfoldable pub any_open : List EntrySummary → Bool
any_open [] = false
any_open (e ∷ es) = let rest = any_open es in if is_open e.status then true else rest

abbrev pub cools_down : Option ℕ → ℕ → Bool
cools_down none now = false
cools_down (some until) now = ltb now until

module _ (locale_compare : String → String → Ordering) where
  unfoldable pub is_degraded : MarketState → ℕ → Bool
  unfolding any_open
  is_degraded s now =
      s.forced_provider_failure.active
      || cools_down s.provider_failure_cooldown_until now
      || any_open (summarize_provider_breaker_state locale_compare s.provider_breakers now)

  unfoldable pub get_market_runtime_phase : MarketState → ℕ → MarketPhase
  unfolding is_degraded
  get_market_runtime_phase s now =
      if not (is_off s.validation_override.mode)
      then validation_override_phase
      else if is_degraded s now
      then provider_degraded
      else if s.initial_sync_completed && s.completed_without_usable_live_snapshots
      then zero_live_ready
      else if s.allow_stale_live_service
      then stale_ready
      else if s.initial_sync_completed
      then live_ready
      else if s.listener_bound
      then syncing
      else cold_boot

unfoldable pub bump_market_data_revision : MarketState → MarketState
bump_market_data_revision s = record s { hot_data_revision = s.hot_data_revision + 1 }

unfoldable pub clear_recovered_market_runtime_degradation : MarketState → MarketState
clear_recovered_market_runtime_degradation s = record s {
  sync_failure_reason = none;
  allow_stale_live_service = false;
  provider_failure_cooldown_until = none;
  listener_bind_deferred = false;
}

unfoldable pub enable_stale_live_fallback : MarketState → MarketState
enable_stale_live_fallback s = record s { allow_stale_live_service = true }

unfoldable pub record_initial_sync_failure : String → MarketState → MarketState
record_initial_sync_failure reason s = record s { sync_failure_reason = some reason }

unfoldable pub record_initial_sync_snapshot_availability : Bool → MarketState → MarketState
record_initial_sync_snapshot_availability usable s = record s {
  completed_without_usable_live_snapshots = not usable;
}

abbrev residual_reason : String
residual_reason =
    "initial sync completed without usable fresh live snapshots; serving residual source-backed snapshots as stale fallback"

unfoldable pub complete_initial_market_sync : MarketState → MarketState
unfolding bump_market_data_revision clear_recovered_market_runtime_degradation
complete_initial_market_sync s =
    let preserved = s.completed_without_usable_live_snapshots && s.allow_stale_live_service in
    if s.completed_without_usable_live_snapshots
    then bump_market_data_revision (record s {
      initial_sync_completed = true;
      listener_bind_deferred = false;
      provider_failure_cooldown_until = none;
      allow_stale_live_service = preserved;
      sync_failure_reason =
          if preserved then some (or_else s.sync_failure_reason residual_reason) else none;
    })
    else record (bump_market_data_revision
        (clear_recovered_market_runtime_degradation (record s { initial_sync_completed = true }))) {
          listener_bind_deferred = true;
        }

unfoldable pub record_market_refresh_success : MarketState → MarketState
unfolding bump_market_data_revision clear_recovered_market_runtime_degradation
record_market_refresh_success s = bump_market_data_revision (
    clear_recovered_market_runtime_degradation
      (record s { completed_without_usable_live_snapshots = false }))

unfoldable pub record_market_refresh_failure : String → MarketState → MarketState
unfolding enable_stale_live_fallback
record_market_refresh_failure reason s =
    enable_stale_live_fallback (record s { sync_failure_reason = some reason })

unfoldable pub record_provider_failure_cooldown : ℕ → MarketState → MarketState
record_provider_failure_cooldown until s = record s { provider_failure_cooldown_until = some until }

unfoldable pub clear_provider_failure_cooldown : MarketState → MarketState
clear_provider_failure_cooldown s = record s { provider_failure_cooldown_until = none }

unfoldable pub record_forced_provider_failure : ForcedProviderFailure → MarketState → MarketState
unfolding clear_provider_failure_cooldown
record_forced_provider_failure failure s =
    let forced = record s { forced_provider_failure = failure } in
    if failure.active then forced else clear_provider_failure_cooldown forced

abbrev no_override : ValidationOverride
no_override = record {
  mode = off;
  reason = none;
  snapshot_timestamp_override = none;
  snapshot_source_count_override = none;
}

unfoldable pub record_seeded_bootstrap_runtime : Bool → MarketState → MarketState
record_seeded_bootstrap_runtime bootstrap_only s = record s {
  initial_sync_completed = not bootstrap_only;
  completed_without_usable_live_snapshots = false;
  allow_stale_live_service = true;
  sync_failure_reason = none;
  listener_bind_deferred = false;
  validation_override =
      if bootstrap_only
      then record s.validation_override { mode = seeded_bootstrap }
      else no_override;
  hot_data_revision = if s.hot_data_revision == 0 then 1 else s.hot_data_revision;
}

unfoldable pub complete_bootstrap_runtime : Bool → MarketState → MarketState
unfolding bump_market_data_revision
complete_bootstrap_runtime bootstrap_only s =
    let completed = record s {
      initial_sync_completed = true;
      allow_stale_live_service = bootstrap_only && s.completed_without_usable_live_snapshots;
      sync_failure_reason = none;
    } in
    if not s.completed_without_usable_live_snapshots && ltb 0 s.hot_data_revision
    then bump_market_data_revision completed
    else completed

unfoldable pub record_validation_runtime_override : ValidationOverride → MarketState → MarketState
unfolding bump_market_data_revision
record_validation_runtime_override override s = bump_market_data_revision (record s {
  validation_override = override;
  initial_sync_completed =
      if is_zero_live override.mode
      then true
      else if is_seeded override.mode
      then false
      else s.initial_sync_completed;
  completed_without_usable_live_snapshots = is_zero_live override.mode;
  allow_stale_live_service =
      if is_zero_live override.mode then false else s.allow_stale_live_service;
})

-- With whether the start-up prewarm should run.
unfoldable pub mark_market_runtime_listener_bound : MarketState → MarketState × Bool
mark_market_runtime_listener_bound s =
    (record s { listener_bound = true; listener_bind_deferred = false }, s.listener_bind_deferred)

unfoldable pub mark_market_runtime_listener_stopped : MarketState → MarketState
mark_market_runtime_listener_stopped s = record s { listener_bound = false }

-- `createProviderBreakerState` is called without options.
abbrev default_options : PartialOptions
default_options = record {
  base_backoff_ms = none;
  max_backoff_ms = none;
  multiplier = none;
  jitter_ratio = none;
  jitter = none;
}

unfoldable pub create_market_data_runtime_state : List String → MarketState
unfolding create_provider_breaker_state
create_market_data_runtime_state provider_ids = record {
  initial_sync_completed = false;
  listener_bind_deferred = false;
  completed_without_usable_live_snapshots = false;
  allow_stale_live_service = false;
  sync_failure_reason = none;
  listener_bound = false;
  hot_data_revision = 0;
  validation_override = no_override;
  provider_failure_cooldown_until = none;
  provider_breakers = create_provider_breaker_state provider_ids default_options;
  forced_provider_failure = record { active = false; reason = none };
}
