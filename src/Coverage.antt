-- ===== src/Coverage.antt =====
-- src/services/coverage-targets.ts: the manifest of the targets whose history is to be covered. A
-- number of the manifest is a natural number, or another one: negative or with a fraction.
pub mod Manifests
pub mod Planner
mod Tests
use opengecko.Prelude.{
  ℕ, zero, suc, String, Bool, true, false, ◌&&◌, not, Option, none, some, List, [], ◌∷◌, Result, ok,
  err, ◌>>=◌, ◌>>◌, guard, ◌==◌, str_eq, if◌then◌else◌,
}
use Prim.Native.String.{◌++◌}

pub data Family : Type 0 where
  market_charts ohlcv : Family

pub data Interval : Type 0 where
  one_day one_hour one_minute : Interval

pub data Tier : Type 0 where
  tier_s tier_a tier_b long_tail : Tier

pub data Number : Type 0 where
  natural : ℕ → Number
  other_number : Number

pub record ManifestRow : Type 0 where
  pub family : String
  pub provider : String
  pub entity_type : String
  pub entity_id : String
  pub interval : String
  pub vs_currency : String
  pub tier : String
  pub target_history_days : Number
  pub freshness_slo_seconds : Number
  pub production_freshness_slo_seconds : Number
  pub enabled : Bool
  pub priority : Number

pub record Manifest : Type 0 where
  pub version : Number
  pub targets : List ManifestRow

-- The one supported type of entity, `coin`, is no field.
pub record CoverageTarget : Type 0 where
  pub family : Family
  pub provider : String
  pub entity_id : String
  pub interval : Interval
  pub vs_currency : String
  pub tier : Tier
  pub target_history_days : ℕ
  pub freshness_slo_seconds : ℕ
  pub production_freshness_slo_seconds : ℕ
  pub enabled : Bool
  pub priority : ℕ

pub data ManifestError : Type 0 where
  unsupported_version : ManifestError
  required : String → ManifestError
  unsupported : (message value : String) → ManifestError
  not_positive : String → ManifestError
  duplicate : String → ManifestError

abbrev pub family_text : Family → String
family_text market_charts = "market_charts"
family_text ohlcv = "ohlcv"

abbrev pub interval_text : Interval → String
interval_text one_day = "1d"
interval_text one_hour = "1h"
interval_text one_minute = "1m"

abbrev supported_family : String → Result ManifestError Family
supported_family text =
    if str_eq text "market_charts"
    then ok market_charts
    else if str_eq text "ohlcv"
    then ok ohlcv
    else err (unsupported "Unsupported coverage target family" text)

abbrev supported_interval : String → Result ManifestError Interval
supported_interval text =
    if str_eq text "1d"
    then ok one_day
    else if str_eq text "1h"
    then ok one_hour
    else if str_eq text "1m"
    then ok one_minute
    else err (unsupported "Unsupported coverage target interval" text)

abbrev supported_tier : String → Result ManifestError Tier
supported_tier text =
    if str_eq text "S"
    then ok tier_s
    else if str_eq text "A"
    then ok tier_a
    else if str_eq text "B"
    then ok tier_b
    else if str_eq text "long_tail"
    then ok long_tail
    else err (unsupported "Unsupported coverage target tier" text)

-- The number, where it is a positive integer.
abbrev positive_integer : Number → String → Result ManifestError ℕ
positive_integer (natural zero) field = err (not_positive field)
positive_integer (natural (suc n)) field = ok (suc n)
positive_integer other_number field = err (not_positive field)

abbrev is_version_one : Number → Bool
is_version_one (natural n) = n == 1
is_version_one other_number = false

-- `[family, provider, entityType, entityId, interval, vsCurrency].join(':')`
pub join_key : (family provider entity_id interval vs_currency : String) → String
join_key family provider entity_id interval vs_currency =
    family ++ ":" ++ provider ++ ":" ++ "coin" ++ ":" ++ entity_id ++ ":" ++ interval ++ ":"
    ++ vs_currency

pub target_key : CoverageTarget → String
unfolding join_key
target_key t =
    join_key (family_text t.family) t.provider t.entity_id (interval_text t.interval) t.vs_currency

abbrev pub contains : String → List String → Bool
contains k [] = false
contains k (x ∷ xs) = if str_eq x k then true else contains k xs

pub record Names : Type 0 where
  pub family : Family
  pub provider : String
  pub entity_id : String
  pub interval : Interval
  pub vs_currency : String
  pub tier : Tier

-- The numbers of a row, behind its texts.
parse_numbers : ManifestRow → Names → Result ManifestError CoverageTarget
parse_numbers row names = do
  days ← positive_integer row.target_history_days "target_history_days"
  freshness ← positive_integer row.freshness_slo_seconds "freshness_slo_seconds"
  production ←
      positive_integer row.production_freshness_slo_seconds "production_freshness_slo_seconds"
  priority ← positive_integer row.priority "priority"
  ok (record {
    family = names.family;
    provider = names.provider;
    entity_id = names.entity_id;
    interval = names.interval;
    vs_currency = names.vs_currency;
    tier = names.tier;
    target_history_days = days;
    freshness_slo_seconds = freshness;
    production_freshness_slo_seconds = production;
    enabled = row.enabled;
    priority = priority;
  })

-- `trim` and `toLowerCase` are the platform's.
module _ (trim to_lower_case : String → String) where
  normalize_required_text : String → String → Result ManifestError String
  normalize_required_text value field =
      let normalized = to_lower_case (trim value) in
      if str_eq normalized "" then err (required field) else ok normalized

  -- The texts of a row.
  parse_names : ManifestRow → Result ManifestError Names
  unfolding normalize_required_text
  parse_names row = do
    family_name ← normalize_required_text row.family "family"
    provider ← normalize_required_text row.provider "provider"
    entity_type ← normalize_required_text row.entity_type "entity_type"
    entity_id ← normalize_required_text row.entity_id "entity_id"
    interval_name ← normalize_required_text row.interval "interval"
    vs_currency ← normalize_required_text row.vs_currency "vs_currency"
    family ← supported_family family_name
    guard (str_eq entity_type "coin")
        (unsupported "Unsupported coverage target entity_type" entity_type)
    interval ← supported_interval interval_name
    tier ← supported_tier (trim row.tier)
    ok (record {
      family = family;
      provider = provider;
      entity_id = entity_id;
      interval = interval;
      vs_currency = vs_currency;
      tier = tier;
    })

  -- A row up to the test for duplicates.
  pub parse_row : ManifestRow → Result ManifestError CoverageTarget
  unfolding parse_names parse_numbers
  parse_row row = do names ← parse_names row; parse_numbers row names

  -- The test for duplicates, with the keys of the enabled rows before, and the keys after it.
  check_key : List String → CoverageTarget → Result ManifestError (List String)
  unfolding target_key
  check_key keys t =
      if t.enabled
      then if contains (target_key t) keys
        then err (duplicate (target_key t))
        else ok (target_key t ∷ keys)
      else ok keys

  pub parse_rows : List String → List ManifestRow → Result ManifestError (List CoverageTarget)
  unfolding parse_row check_key
  parse_rows keys [] = ok []
  parse_rows keys (row ∷ rows) = do
    t ← parse_row row
    later ← check_key keys t
    ts ← parse_rows later rows
    ok (t ∷ ts)

  pub parse_coverage_target_manifest : Manifest → Result ManifestError (List CoverageTarget)
  unfolding parse_rows
  parse_coverage_target_manifest manifest = do
    guard (is_version_one manifest.version) unsupported_version
    parse_rows [] manifest.targets

-- A target of `market-chart-sync.ts`.
pub record MarketChartSyncTarget : Type 0 where
  pub provider : String
  pub coin_id : String
  pub interval : Interval
  pub vs_currency : String

abbrev is_market_charts : Family → Bool
is_market_charts market_charts = true
is_market_charts ohlcv = false

pub market_chart_targets : List CoverageTarget → List MarketChartSyncTarget
market_chart_targets [] = []
market_chart_targets (t ∷ ts) =
    let rest = market_chart_targets ts in
    if t.enabled && is_market_charts t.family
    then (record {
      provider = t.provider;
      coin_id = t.entity_id;
      interval = t.interval;
      vs_currency = t.vs_currency;
    })
      ∷ rest
    else rest
