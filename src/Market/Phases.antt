-- ===== src/Market/Phases.antt =====
-- src/services/market-runtime-state.ts with src/modules/market-freshness.ts: what a refresh and the
-- initial sync mean for the phase, and for which snapshots are served.
use Prim.Native.Nat.{Ordering}
use opengecko.Prelude.{ℕ, ◌≡◌, refl, String, true, false, ◌&&◌, if◌then◌else◌, arith}
use opengecko.Breaker.{summarize_provider_breaker_state}
use opengecko.Market.{
  off, MarketState, cold_boot, syncing, live_ready, stale_ready, zero_live_ready, any_open,
  cools_down, is_degraded, provider_degraded, get_market_runtime_phase, bump_market_data_revision,
  clear_recovered_market_runtime_degradation, enable_stale_live_fallback,
  complete_initial_market_sync, record_market_refresh_success, record_market_refresh_failure,
}
use opengecko.Market.Freshness.{get_snapshot_access_policy}

-- Neither an override nor a forced failure is set.
abbrev pub IsPlain : MarketState → Type 0
IsPlain s = (s.validation_override.mode ≡ off) × (s.forced_provider_failure.active ≡ false)

module _ (locale_compare : String → String → Ordering) where
  abbrev pub NoBreakerOpen : MarketState → ℕ → Type 0
  NoBreakerOpen s now =
      any_open (summarize_provider_breaker_state locale_compare s.provider_breakers now) ≡ false

  -- Where no override, no forced failure and no open breaker is set: after a successful refresh the
  -- phase is the one without trouble, whatever failures there were before, and stale data is refused;
  -- after a failed one stale data is allowed, and the phase is the degraded one during a cooldown,
  -- and else stale, or without live snapshots where the initial sync was completed so; and the
  -- initial sync, once completed, leaves the phase live or without live snapshots.
  pub phase-record_market_refresh :
      (s : MarketState) (now : ℕ) (reason : String)
      → IsPlain s
      → NoBreakerOpen s now
      → let failed = record_market_refresh_failure reason s in
        let recovered = record_market_refresh_success failed in
        let completed = complete_initial_market_sync s in
        (get_market_runtime_phase locale_compare recovered now ≡ (
          if s.initial_sync_completed
          then live_ready
          else if s.listener_bound
          then syncing
          else cold_boot))
        × ((get_snapshot_access_policy recovered).policy_allow_stale ≡ false)
        × ((get_snapshot_access_policy failed).policy_allow_stale ≡ true)
        × (get_market_runtime_phase locale_compare failed now ≡ (
            if cools_down s.provider_failure_cooldown_until now
            then provider_degraded
            else if s.initial_sync_completed && s.completed_without_usable_live_snapshots
            then zero_live_ready
            else stale_ready))
        × (get_market_runtime_phase locale_compare completed now
            ≡ (if s.completed_without_usable_live_snapshots then zero_live_ready else live_ready))
  unfolding record_market_refresh_success record_market_refresh_failure complete_initial_market_sync
      get_snapshot_access_policy bump_market_data_revision
      clear_recovered_market_runtime_degradation enable_stale_live_fallback get_market_runtime_phase
      is_degraded
  phase-record_market_refresh s now reason (o, f) b = (
    ground (arith, o, f, b),
    rw o refl,
    rw o refl,
    ground (arith, o, f, b),
    ground (arith, o, f, b),
  )
