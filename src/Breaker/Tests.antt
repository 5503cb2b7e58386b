-- ===== src/Breaker/Tests.antt =====
-- The theorems on src/services/provider-breaker.ts at concrete providers.
use opengecko.Prelude.{
  ◌+◌, ◌≤◌, ◌<◌, String, ◌≡◌, ◌≢◌, eq_iff, Bool, true, false, none, List, [], ◌∷◌, str_eq, arith,
}
use opengecko.Breaker.Delay.{PartialOptions, normalize_options}
use opengecko.Breaker.Delay.Bounds.{plain_ms}
use opengecko.Breaker.Failures.{
  FailurePattern, timeout_pattern, regional_block_pattern, rate_limit_pattern,
  unavailable_market_pattern, malformed_pattern, unavailable_pattern, TextEngine,
}
use opengecko.Breaker.{
  closed, BreakerState, Entry, create_entry, create_provider_breaker_state, get_or_create_entry,
  can_attempt_provider, fail_entry,
}
use opengecko.Breaker.Life.{BreakerCall, success, failure, call}
use opengecko.Breaker.Life.Run.{
  IsSound, calls, calls-create-IsSound, failure_window, success_resets,
}

abbrev only_timeouts : FailurePattern → String → Bool
only_timeouts timeout_pattern text = str_eq text "timed out"
only_timeouts regional_block_pattern text = false
only_timeouts rate_limit_pattern text = false
only_timeouts unavailable_market_pattern text = false
only_timeouts malformed_pattern text = false
only_timeouts unavailable_pattern text = false

abbrev engine : TextEngine
engine = record { fold_spaces = λ text. text; test = only_timeouts }

abbrev defaults : PartialOptions
defaults = record {
  base_backoff_ms = none;
  max_backoff_ms = none;
  multiplier = none;
  jitter_ratio = none;
  jitter = none;
}

abbrev two : BreakerState
two = create_provider_breaker_state ("binance" ∷ "kraken" ∷ []) defaults

abbrev elsewhere : List BreakerCall
elsewhere = success "kraken" 2000 ∷ failure "kraken" 2500 none ∷ []

abbrev kraken : String
kraken = "kraken"

other_name : kraken ≢ "binance"
other_name e = ground (arith, eq_iff kraken "binance", e)

calls-create-IsSound_example : IsSound (calls engine elsewhere two)
calls-create-IsSound_example =
    calls-create-IsSound engine elsewhere ("binance" ∷ "kraken" ∷ []) defaults

small_ratio : two.options.jitter_ratio ≤ 1000
unfolding create_provider_breaker_state normalize_options
small_ratio = omega arith

failure_window_example :
    let t = calls engine elsewhere (call engine (failure "binance" 1000 none) two) in
    let failures = (get_or_create_entry two "binance").failure_count + 1 in
    (1500 < 1000 + plain_ms two.options failures
      → (can_attempt_provider t "binance" 1500).1 ≡ false)
    × (1000 + two.options.max_backoff_ms ≤ 1500 → (can_attempt_provider t "binance" 1500).1 ≡ true)
failure_window_example =
    failure_window engine two "binance" 1000 none elsewhere 1500 small_ratio
      (other_name, (other_name, tt))

success_resets_example :
    let t = calls engine elsewhere (call engine (success "binance" 1000) two) in
    ((can_attempt_provider t "binance" 1500).1 ≡ true)
    × ((get_or_create_entry t "binance").failure_count ≡ 0)
    × ((get_or_create_entry t "binance").status ≡ closed)
    × ((get_or_create_entry (call engine (failure "binance" 1500 none) t) "binance").failure_count
        ≡ 1)
success_resets_example =
    success_resets engine two "binance" 1000 elsewhere 1500 none (other_name, (other_name, tt))

abbrev failed_entry : Entry
failed_entry = fail_entry engine two.options (create_entry "binance") 1000 none
