-- ===== src/Market/Events.antt =====
-- The life of the state of src/services/market-runtime-state.ts: what is called on it, in any order.
use opengecko.Prelude.{ℕ, ◌+◌, ◌≤◌, ◌≡◌, String, Bool, false, List, [], ◌∷◌, if◌then◌else◌, arith}
use opengecko.Market.{
  ValidationOverride, ForcedProviderFailure, MarketState, record_initial_sync_failure,
  record_initial_sync_snapshot_availability, complete_initial_market_sync,
  record_market_refresh_success, record_market_refresh_failure, record_provider_failure_cooldown,
  clear_provider_failure_cooldown, record_forced_provider_failure, record_seeded_bootstrap_runtime,
  complete_bootstrap_runtime, record_validation_runtime_override,
  mark_market_runtime_listener_bound, mark_market_runtime_listener_stopped,
}

pub data Event : Type 0 where
  sync_failed refresh_failed : String → Event
  availability : Bool → Event
  sync_completed refresh_succeeded cooldown_cleared listener_stopped : Event
  cooldown_set : ℕ → Event
  failure_forced : ForcedProviderFailure → Event
  seeded bootstrap_completed : Bool → Event
  overridden : ValidationOverride → Event
  listener_bound_event : Event

-- With whether the prewarm should run.
unfoldable pub apply : Event → MarketState → MarketState × Bool
apply (sync_failed reason) s = (record_initial_sync_failure reason s, false)
apply (refresh_failed reason) s = (record_market_refresh_failure reason s, false)
apply (availability usable) s = (record_initial_sync_snapshot_availability usable s, false)
apply sync_completed s = (complete_initial_market_sync s, false)
apply refresh_succeeded s = (record_market_refresh_success s, false)
apply cooldown_cleared s = (clear_provider_failure_cooldown s, false)
apply listener_stopped s = (mark_market_runtime_listener_stopped s, false)
apply (cooldown_set until) s = (record_provider_failure_cooldown until s, false)
apply (failure_forced failure) s = (record_forced_provider_failure failure s, false)
apply (seeded only) s = (record_seeded_bootstrap_runtime only s, false)
apply (bootstrap_completed only) s = (complete_bootstrap_runtime only s, false)
apply (overridden override) s = (record_validation_runtime_override override s, false)
apply listener_bound_event s = mark_market_runtime_listener_bound s

-- How often the prewarm was asked to run.
unfoldable pub run : List Event → MarketState → MarketState × ℕ
unfolding apply
run [] s = (s, 0)
run (e ∷ es) s =
    let (after, prewarm) = apply e s in
    let (last, n) = run es after in (last, (if prewarm then 1 else 0) + n)

-- How often the initial sync was completed.
unfoldable pub completions : List Event → ℕ
completions [] = 0
completions (sync_completed ∷ es) = completions es + 1
completions (sync_failed r ∷ es) = completions es
completions (refresh_failed r ∷ es) = completions es
completions (availability b ∷ es) = completions es
completions (refresh_succeeded ∷ es) = completions es
completions (cooldown_cleared ∷ es) = completions es
completions (listener_stopped ∷ es) = completions es
completions (cooldown_set t ∷ es) = completions es
completions (failure_forced f ∷ es) = completions es
completions (seeded b ∷ es) = completions es
completions (bootstrap_completed b ∷ es) = completions es
completions (overridden o ∷ es) = completions es
completions (listener_bound_event ∷ es) = completions es

abbrev deferred : MarketState → ℕ
deferred s = if s.listener_bind_deferred then 1 else 0

abbrev completing : Event → ℕ
completing e = completions (e ∷ [])

apply-lem :
    (e : Event) (s : MarketState)
    → let (t, prewarm) = apply e s in
      (s.hot_data_revision ≤ t.hot_data_revision)
      × ((if prewarm then 1 else 0) + deferred t ≤ deferred s + completing e)
unfolding apply completions record_initial_sync_failure record_market_refresh_failure
    record_initial_sync_snapshot_availability complete_initial_market_sync
    record_market_refresh_success clear_provider_failure_cooldown
    mark_market_runtime_listener_stopped record_provider_failure_cooldown
    record_forced_provider_failure record_seeded_bootstrap_runtime complete_bootstrap_runtime
    record_validation_runtime_override mark_market_runtime_listener_bound
apply-lem (sync_failed r) s = ground arith
apply-lem (refresh_failed r) s = ground arith
apply-lem (availability b) s = ground arith
apply-lem sync_completed s = ground arith
apply-lem refresh_succeeded s = ground arith
apply-lem cooldown_cleared s = ground arith
apply-lem listener_stopped s = ground arith
apply-lem (cooldown_set t) s = ground arith
apply-lem (failure_forced f) s = ground arith
apply-lem (seeded b) s = ground arith
apply-lem (bootstrap_completed b) s = ground arith
apply-lem (overridden o) s = ground arith
apply-lem listener_bound_event s = ground arith

completions-cons :
    (e : Event) (es : List Event) → completions (e ∷ es) ≡ completing e + completions es
unfolding completions
completions-cons sync_completed es = omega arith
completions-cons (sync_failed r) es = omega arith
completions-cons (refresh_failed r) es = omega arith
completions-cons (availability b) es = omega arith
completions-cons refresh_succeeded es = omega arith
completions-cons cooldown_cleared es = omega arith
completions-cons listener_stopped es = omega arith
completions-cons (cooldown_set t) es = omega arith
completions-cons (failure_forced f) es = omega arith
completions-cons (seeded b) es = omega arith
completions-cons (bootstrap_completed b) es = omega arith
completions-cons (overridden o) es = omega arith
completions-cons listener_bound_event es = omega arith

-- Whatever is called, the revision of the data never falls, and the prewarm is asked for at most
-- once for each completed initial sync, and once more where it was still due at the start.
pub run_monotone :
    (es : List Event) (s : MarketState)
    → let (t, prewarms) = run es s in
      (s.hot_data_revision ≤ t.hot_data_revision)
      × (prewarms + (if t.listener_bind_deferred then 1 else 0)
          ≤ (if s.listener_bind_deferred then 1 else 0) + completions es)
unfolding run completions
run_monotone [] s = (omega arith, omega arith)
run_monotone (e ∷ es) s =
    let (le, due) = apply-lem e s in
    let (rest_le, rest_due) = run_monotone es (apply e s).0 in
    (omega (arith, le, rest_le), omega (arith, due, rest_due, completions-cons e es))
