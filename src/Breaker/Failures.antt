-- ===== src/Breaker/Failures.antt =====
-- The kinds of failure of src/services/provider-breaker.ts.
use opengecko.Prelude.{String, Bool, false, ◌≡◌, ◌↔◌, arith, if◌then◌else◌}

pub data FailureKind : Type 0 where
  timeout regional_block rate_limited unavailable_market malformed_response provider_unavailable
        unknown :
      FailureKind

-- The regular expressions of `classifyProviderFailure`, in the order of their tests.
pub data FailurePattern : Type 0 where
  timeout_pattern regional_block_pattern rate_limit_pattern unavailable_market_pattern
        malformed_pattern unavailable_pattern :
      FailurePattern

-- The engine of regular expressions and the folding of white space are the platform's.
pub record TextEngine : Type 0 where
  pub fold_spaces : String → String
  pub test : FailurePattern → String → Bool

unfoldable pub classify_provider_failure : TextEngine → String → FailureKind × String
classify_provider_failure engine message =
    let normalized = engine.fold_spaces message in
    if engine.test timeout_pattern normalized
    then (timeout, "provider request timed out")
    else if engine.test regional_block_pattern normalized
    then (regional_block, "provider regionally blocked")
    else if engine.test rate_limit_pattern normalized
    then (rate_limited, "provider rate limited")
    else if engine.test unavailable_market_pattern normalized
    then (unavailable_market, "provider market unavailable")
    else if engine.test malformed_pattern normalized
    then (malformed_response, "provider response malformed")
    else if engine.test unavailable_pattern normalized
    then (provider_unavailable, "provider unavailable")
    else (unknown, "provider failed")

abbrev pub reason_of : FailureKind → String
reason_of timeout = "provider request timed out"
reason_of regional_block = "provider regionally blocked"
reason_of rate_limited = "provider rate limited"
reason_of unavailable_market = "provider market unavailable"
reason_of malformed_response = "provider response malformed"
reason_of provider_unavailable = "provider unavailable"
reason_of unknown = "provider failed"

no_match :
    (engine : TextEngine) (message : String) (p : FailurePattern)
    → (classify_provider_failure engine message).0 ≡ unknown
    → engine.test p (engine.fold_spaces message) ≡ false
unfolding classify_provider_failure
no_match engine message timeout_pattern e = ground arith
no_match engine message _ e = ground arith

-- The reported reason is one of seven fixed texts, chosen by the kind: nothing of the provider's
-- own message passes into it. The kind is `unknown` exactly where no pattern matches.
pub classify_provider_failure-reason :
    (engine : TextEngine) (message : String)
    → ((classify_provider_failure engine message).1
        ≡ reason_of (classify_provider_failure engine message).0)
      × (((classify_provider_failure engine message).0 ≡ unknown)
          ↔ ((p : FailurePattern) → engine.test p (engine.fold_spaces message) ≡ false))
unfolding classify_provider_failure
classify_provider_failure-reason engine message = (
  ground arith,
  (
    (λ e p. no_match engine message p e),
    λ none. ground (
      arith,
      none timeout_pattern,
      none regional_block_pattern,
      none rate_limit_pattern,
      none unavailable_market_pattern,
      none malformed_pattern,
      none unavailable_pattern,
    ),
  ),
)
