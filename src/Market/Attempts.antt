-- ===== src/Market/Attempts.antt =====
-- src/services/market-runtime-state.ts: the attempts that are made with providers, how they ended,
-- and the faults that are injected. A time stamp is its instant in milliseconds.
pub mod Counts
pub mod Spans
use Prim.Native.String.{◌++◌}
use opengecko.Prelude.{
  ℕ, ◌+◌, ◌-◌, String, Bool, true, false, Option, none, some, List, [], ◌∷◌, take, str_eq, or_else,
  if◌then◌else◌,
}

pub data Outcome : Type 0 where
  successful timed_out attempt_canceled failed breaker_open attempt_blocked : Outcome
  skipped recovered : Outcome

pub data Family : Type 0 where
  market exchange ticker chart onchain : Family

pub data FaultMode : Type 0 where
  timeout failure canceled blocked_unavailable fault_off : FaultMode

abbrev pub family_name : Family → String
family_name market = "market"
family_name exchange = "exchange"
family_name ticker = "ticker"
family_name chart = "chart"
family_name onchain = "onchain"

abbrev pub outcome_name : Outcome → String
outcome_name successful = "successful"
outcome_name timed_out = "timed_out"
outcome_name attempt_canceled = "canceled"
outcome_name failed = "failed"
outcome_name breaker_open = "breaker_open"
outcome_name attempt_blocked = "blocked_unavailable"
outcome_name skipped = "skipped"
outcome_name recovered = "recovered"

pub record AttemptRecord : Type 0 where
  pub provider : String
  pub family : Family
  pub outcome : Outcome
  pub started_at : ℕ
  pub finished_at : ℕ
  pub duration_ms : ℕ
  pub reason : Option String

pub record InFlightAttempt : Type 0 where
  pub provider : String
  pub family : Family
  pub started_at : ℕ

pub record FaultControl : Type 0 where
  pub provider : String
  pub family : Family
  pub mode : FaultMode
  pub reason : Option String

-- An object with the given values, each under its key.
module _ {ℓ} {A : Type ℓ} where
  unfoldable pub property_of : String → List (String × A) → Option A
  property_of key [] = none
  property_of key ((k, a) ∷ rest) = if str_eq k key then some a else property_of key rest

  unfoldable pub put_property : String → A → List (String × A) → List (String × A)
  put_property key a [] = (key, a) ∷ []
  put_property key a ((k, b) ∷ rest) =
      if str_eq k key then (k, a) ∷ rest else (k, b) ∷ put_property key a rest

  unfoldable pub delete_property : String → List (String × A) → List (String × A)
  delete_property key [] = []
  delete_property key ((k, b) ∷ rest) =
      let others = delete_property key rest in if str_eq k key then others else (k, b) ∷ others

pub record AttemptsState : Type 0 where
  pub in_flight : List (String × InFlightAttempt)
  pub recent_outcomes : List AttemptRecord
  pub outcome_counts : List (String × ℕ)
  pub fault_controls : List (String × FaultControl)

abbrev pub provider_attempt_recent_limit : ℕ
provider_attempt_recent_limit = 50

abbrev pub no_attempts : AttemptsState
no_attempts = record {
  in_flight = [];
  recent_outcomes = [];
  outcome_counts = [];
  fault_controls = [];
}

abbrev pub provider_attempt_key : String → Family → String
provider_attempt_key provider family = family_name family ++ (":" ++ provider)

abbrev pub count_key : String → Family → Outcome → String
count_key provider family outcome =
    family_name family ++ (":" ++ (provider ++ (":" ++ outcome_name outcome)))

unfoldable pub start_provider_attempt : String → Family → ℕ → AttemptsState → AttemptsState
unfolding put_property
start_provider_attempt provider family started_at s = record s {
  in_flight =
      put_property (provider_attempt_key provider family)
        (record { provider = provider; family = family; started_at = started_at }) s.in_flight;
}

-- A duration that is given: a number below zero, one from zero on, or none that is finite.
pub data GivenDuration : Type 0 where
  below_zero not_finite : GivenDuration
  milliseconds : ℕ → GivenDuration

-- `Math.max(0, measuredDurationMs)`, where a difference of instants stops at zero.
abbrev pub duration_of : Option GivenDuration → (started finished : ℕ) → ℕ
duration_of none started finished = finished - started
duration_of (some below_zero) started finished = 0
duration_of (some not_finite) started finished = 0
duration_of (some (milliseconds ms)) started finished = ms

abbrev pub started_of : Option InFlightAttempt → ℕ → ℕ
started_of none finished_at = finished_at
started_of (some attempt) finished_at = attempt.started_at

module _ (sanitize : Option String → Option String) where
  -- The record of an attempt that ends.
  unfoldable pub finished_record :
      String
      → Family
      → Outcome
      → Option String
      → ℕ
      → Option GivenDuration
      → AttemptsState
      → AttemptRecord
  unfolding property_of
  finished_record provider family outcome reason finished_at given s =
      let started =
        started_of (property_of (provider_attempt_key provider family) s.in_flight) finished_at in
      record {
        provider = provider;
        family = family;
        outcome = outcome;
        started_at = started;
        finished_at = finished_at;
        duration_ms = duration_of given started finished_at;
        reason = sanitize reason;
      }

  unfoldable pub finish_provider_attempt :
      String
      → Family
      → Outcome
      → Option String
      → ℕ
      → Option GivenDuration
      → AttemptsState
      → AttemptsState
  unfolding finished_record delete_property put_property property_of
  finish_provider_attempt provider family outcome reason finished_at given s =
      let counted = count_key provider family outcome in
      record s {
        in_flight = delete_property (provider_attempt_key provider family) s.in_flight;
        outcome_counts =
            put_property counted (or_else (property_of counted s.outcome_counts) 0 + 1)
              s.outcome_counts;
        recent_outcomes = take provider_attempt_recent_limit (
            finished_record provider family outcome reason finished_at given s ∷ s.recent_outcomes);
      }

  unfoldable pub set_provider_fault_control : FaultControl → AttemptsState → AttemptsState
  unfolding put_property delete_property
  set_provider_fault_control control s =
      let key = provider_attempt_key control.provider control.family in
      let stored =
        put_property key (record control { reason = sanitize control.reason }) s.fault_controls in
      record s {
        fault_controls = elim control.mode [
          | fault_off ↦ delete_property key s.fault_controls
          | timeout ↦ stored
          | failure ↦ stored
          | canceled ↦ stored
          | blocked_unavailable ↦ stored
        ];
      }

unfoldable pub reset_provider_fault_controls : AttemptsState → AttemptsState
reset_provider_fault_controls s = record s { fault_controls = [] }

unfoldable pub get_provider_fault_control : AttemptsState → String → Family → Option FaultControl
unfolding property_of
get_provider_fault_control s provider family =
    property_of (provider_attempt_key provider family) s.fault_controls
