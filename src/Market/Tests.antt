-- ===== src/Market/Tests.antt =====
-- What the state, the phases, the attempts and the snapshots of the market data come to on concrete ones.
use Prim.Native.Nat.{Ordering, eq}
use opengecko.Prelude.{
  ◌+◌, ◌≤◌, ◌≡◌, refl, String, true, false, ◌&&◌, none, some, List, [], ◌∷◌, if◌then◌else◌,
}
use opengecko.Breaker.{create_provider_breaker_state, put_all, summarize_provider_breaker_state}
use opengecko.Prelude.Sorting.{sort}
use opengecko.Market.{
  MarketState, any_open, cools_down, provider_degraded, create_market_data_runtime_state,
  get_market_runtime_phase, live_ready, stale_ready, zero_live_ready, syncing, cold_boot,
  record_market_refresh_failure, record_market_refresh_success, complete_initial_market_sync,
  mark_market_runtime_listener_bound,
}
use opengecko.Market.Events.{
  Event, sync_completed, listener_bound_event, refresh_failed, refresh_succeeded, run, completions,
  run_monotone,
}
use opengecko.Market.Freshness.{
  Snapshot, number, date, SnapshotAccessPolicy, coerce_runtime_timestamp, get_usable_snapshot,
  get_snapshot_access_policy,
}
use opengecko.Market.Freshness.Served.{served, get_usable_snapshot-served}
use opengecko.Market.Phases.{phase-record_market_refresh}
use opengecko.Prelude.{Option, length, take}
use opengecko.Market.Attempts.{
  market, chart, timed_out, successful, no_attempts, provider_attempt_key,
  provider_attempt_recent_limit, property_of, start_provider_attempt, finish_provider_attempt,
}
use opengecko.Market.Attempts.Counts.{
  AttemptCall, started, finished, reset, Counts, record_calls, record_calls-no_attempts,
}
use opengecko.Market.Attempts.Spans.{concerns, start-finish_provider_attempt}

abbrev booted : MarketState
booted = create_market_data_runtime_state []

abbrev first_hour : List Event
first_hour =
    sync_completed ∷ listener_bound_event ∷ refresh_failed "timeout" ∷ refresh_succeeded ∷ []

run_monotone_example :
    let (t, prewarms) = run first_hour booted in
    (booted.hot_data_revision ≤ t.hot_data_revision)
    × (prewarms + (if t.listener_bind_deferred then 1 else 0)
        ≤ (if booted.listener_bind_deferred then 1 else 0) + completions first_hour)
run_monotone_example = run_monotone first_hour booted

run-first_hour : ((run first_hour booted).0.hot_data_revision ≡ 2) × ((run first_hour booted).1 ≡ 1)
unfolding run create_market_data_runtime_state record_market_refresh_success
    record_market_refresh_failure mark_market_runtime_listener_bound complete_initial_market_sync
run-first_hour = (refl, refl)

-- 1 June 2024, in seconds.
abbrev quoted : Snapshot
quoted = record { last_updated = number 1717200000; source_count = 3 }

abbrev strict : SnapshotAccessPolicy
strict = record { policy_sync_completed = true; policy_allow_stale = false }

get_usable_snapshot-served_example :
    get_usable_snapshot (some quoted) 300 strict 1717200300999
    ≡ served quoted (coerce_runtime_timestamp quoted.last_updated) 300 strict 1717200300999
get_usable_snapshot-served_example = get_usable_snapshot-served quoted 300 strict 1717200300999

quoted_is_served :
    get_usable_snapshot (some quoted) 300 strict 1717200300999
    ≡ some (record quoted { last_updated = date 1717200000000 })
unfolding get_usable_snapshot
quoted_is_served = refl

quoted_is_stale : get_usable_snapshot (some quoted) 300 strict 1717200301000 ≡ none
unfolding get_usable_snapshot
quoted_is_stale = refl

-- No two identifiers are compared where there is no provider.
abbrev by_nothing : String → String → Ordering
by_nothing l r = eq

phase-record_market_refresh_example :
    let failed = record_market_refresh_failure "timeout" booted in
    let recovered = record_market_refresh_success failed in
    let completed = complete_initial_market_sync booted in
    (get_market_runtime_phase by_nothing recovered 1000 ≡ (
      if booted.initial_sync_completed
      then live_ready
      else if booted.listener_bound
      then syncing
      else cold_boot))
    × ((get_snapshot_access_policy recovered).policy_allow_stale ≡ false)
    × ((get_snapshot_access_policy failed).policy_allow_stale ≡ true)
    × (get_market_runtime_phase by_nothing failed 1000 ≡ (
        if cools_down booted.provider_failure_cooldown_until 1000
        then provider_degraded
        else if booted.initial_sync_completed && booted.completed_without_usable_live_snapshots
        then zero_live_ready
        else stale_ready))
    × (get_market_runtime_phase by_nothing completed 1000
        ≡ (if booted.completed_without_usable_live_snapshots then zero_live_ready else live_ready))
unfolding create_market_data_runtime_state any_open create_provider_breaker_state put_all
    summarize_provider_breaker_state sort
phase-record_market_refresh_example =
    phase-record_market_refresh by_nothing booted 1000 "timeout" (refl, refl) refl

abbrev as_it_is : Option String → Option String
as_it_is reason = reason

abbrev elsewhere : List AttemptCall
elsewhere =
    started "kraken" chart 1200
    ∷ finished "kraken" chart timed_out (some "slow") 1500 none
    ∷ reset
    ∷ []

record_calls-no_attempts_example :
    let (t, log) = record_calls as_it_is elsewhere (no_attempts, []) in
    (length t.recent_outcomes ≤ 50) × Counts as_it_is t log
record_calls-no_attempts_example = record_calls-no_attempts as_it_is elsewhere

start-finish_provider_attempt_example :
    let (before, logged) =
      record_calls as_it_is elsewhere
        (start_provider_attempt "binance" market 1000 no_attempts, []) in
    let after =
      finish_provider_attempt as_it_is "binance" market successful none 2000 none before in
    (property_of (provider_attempt_key "binance" market) before.in_flight
      ≡ some (record { provider = "binance"; family = market; started_at = 1000 }))
    × (property_of (provider_attempt_key "binance" market) after.in_flight ≡ none)
    × (after.recent_outcomes
        ≡ take provider_attempt_recent_limit (
            record {
              provider = "binance";
              family = market;
              outcome = successful;
              started_at = 1000;
              finished_at = 2000;
              duration_ms = 1000;
              reason = none;
            }
            ∷ before.recent_outcomes))
unfolding concerns
start-finish_provider_attempt_example =
    start-finish_provider_attempt as_it_is "binance" market successful none 1000 2000 none elsewhere
      no_attempts [] (refl, (refl, (refl, tt)))
