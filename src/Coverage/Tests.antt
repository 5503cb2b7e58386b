-- ===== src/Coverage/Tests.antt =====
-- The theorems on src/services/coverage-targets.ts and src/services/history-backfill-planner.ts
-- at concrete targets.
use Prim.Native.Nat.{Ordering}
use opengecko.Prelude.{
  ℕ, ◌-◌, ◌*◌, ◌≤◌, min, String, ◌≡◌, ◌↔◌, refl, true, some, [], ◌∷◌, All, ok, arith,
}
use opengecko.Prelude.Sorting.{IsComparison}
use opengecko.Coverage.{
  market_charts, one_day, tier_a, natural, ManifestRow, Manifest, CoverageTarget, target_key,
  parse_rows, parse_row, parse_names, parse_numbers, check_key, normalize_required_text,
  parse_coverage_target_manifest,
}
use opengecko.Coverage.Planner.{
  day_ms, ObservedState, map_lookup, observed_key, enabled_targets, shallow_tasks,
  plan_history_backfill_tasks,
}
use opengecko.Coverage.Planner.Windows.{IsPast, IsWindow, plan_history_backfill_tasks-IsWindow}
use opengecko.Coverage.Planner.Order.{Covered, plan_history_backfill_tasks-eq-nil_iff}
use opengecko.Coverage.Planner.Deepening.{deepened, deepened_enough}

abbrev as_is : String → String
as_is text = text

abbrev tie : String → String → Ordering
tie a b = Ordering.eq

tie-IsComparison : IsComparison tie
tie-IsComparison = record { flipped = λ a b. ground arith; trans = λ a b c h k. ground arith }

abbrev row : ManifestRow
row = record {
  family = "market_charts";
  provider = "binance";
  entity_type = "coin";
  entity_id = "bitcoin";
  interval = "1d";
  vs_currency = "usd";
  tier = "A";
  target_history_days = natural 365;
  freshness_slo_seconds = natural 7200;
  production_freshness_slo_seconds = natural 3600;
  enabled = true;
  priority = natural 1;
}

abbrev bitcoin : CoverageTarget
bitcoin = record {
  family = market_charts;
  provider = "binance";
  entity_id = "bitcoin";
  interval = one_day;
  vs_currency = "usd";
  tier = tier_a;
  target_history_days = 365;
  freshness_slo_seconds = 7200;
  production_freshness_slo_seconds = 3600;
  enabled = true;
  priority = 1;
}

abbrev manifest : Manifest
manifest = record { version = natural 1; targets = row ∷ [] }

accepts : parse_coverage_target_manifest as_is as_is manifest ≡ ok (bitcoin ∷ [])
unfolding parse_coverage_target_manifest parse_rows parse_row parse_names parse_numbers check_key
    normalize_required_text
accepts = refl

-- An instant with some years of milliseconds before it.
abbrev today : ℕ
today = 100000000000

abbrev observed : ObservedState
observed = record {
  family = market_charts;
  provider = "binance";
  coin_id = "bitcoin";
  interval = one_day;
  vs_currency = "usd";
  latest_at = some 99990000000;
  oldest_at = some 90000000000;
  source_row_count = 10;
  gaps = record { from = 95000000000; to = 96000000000 } ∷ [];
}

observed-IsPast : IsPast today observed
observed-IsPast = record {
  latest = omega arith;
  oldest = omega arith;
  gaps = ((omega arith, omega arith), tt);
}

plan_history_backfill_tasks-IsWindow_example :
    All (IsWindow today) (plan_history_backfill_tasks tie (bitcoin ∷ []) (observed ∷ []) today)
plan_history_backfill_tasks-IsWindow_example =
    plan_history_backfill_tasks-IsWindow tie (bitcoin ∷ []) (observed ∷ []) today
      (observed-IsPast, tt)

plan_history_backfill_tasks-eq-nil_iff_example :
    (plan_history_backfill_tasks tie (bitcoin ∷ []) (observed ∷ []) today ≡ [])
    ↔ All
        (λ t. Covered t today (map_lookup observed_key (target_key t) (observed ∷ [])))
        (enabled_targets (bitcoin ∷ []))
plan_history_backfill_tasks-eq-nil_iff_example =
    plan_history_backfill_tasks-eq-nil_iff tie (bitcoin ∷ []) (observed ∷ []) today

deepened_enough_example :
    (shallow_tasks bitcoin (deepened 2 bitcoin 90000000000 today) today ≡ [])
    × (min 90000000000 (today - 365 * day_ms) ≤ deepened 2 bitcoin 90000000000 today)
deepened_enough_example = deepened_enough 2 bitcoin 90000000000 today (omega arith)
