-- ===== src/Ohlcv/Runtime/Tests.antt =====
-- The theorems on src/services/ohlcv-runtime.ts, ohlcv-sync.ts and ohlcv-priority.ts at a concrete
-- table.
use Prim.Native.Nat.{Ordering}
use opengecko.Prelude.{
  ℕ, zero, suc, ◌≤◌, ◌<◌, ◌≡◌, ◌≢◌, ◌⊎◌, refl, String, Bool, true, false, none, some, List, [], ◌∷◌,
  All, take, length, ok, err, if◌then◌else◌, arith,
}
use mathlib.Core.List.{filter}
use opengecko.Prelude.Sorting.{IsComparison}
use opengecko.Ohlcv.{top100, requested, long_tail, idle, Target, key_eq}
use opengecko.Ohlcv.Table.{Table, read_target}
use opengecko.Ohlcv.Table.Laws.{IsKeyed}
use opengecko.Ohlcv.Leases.{Lease}
use opengecko.Ohlcv.Tiers.{has_coin, refresh_ohlcv_priority_tiers}
use opengecko.Ohlcv.Tiers.Laws.{KeepsWork, refresh_ohlcv_priority_tiers-tier}
use opengecko.Ohlcv.Seeds.{TargetSeed}
use opengecko.Candles.{minute, Series}
use opengecko.Candles.Doubles.{units, not_a_number}
use opengecko.Candles.Store.{IsSound}
use opengecko.Candles.Repair.{FetchedCandle, fetched_is_valid}
use opengecko.Ohlcv.Sync.{SyncError, is_lease_active_for_write, persist_candles, historical_window}
use opengecko.Ohlcv.Sync.Writes.{upsert_all, valid_candle, persist_candles-IsFenced}
use opengecko.Ohlcv.Sync.Windows.{IsAsked, historical_window-IsAsked}
use opengecko.Ohlcv.Runtime.{World, TickCalls, refresh_failed, refresh_targets, sync_target, tick}
use opengecko.Ohlcv.Runtime.Refreshed.{IsRefreshed}
use opengecko.Ohlcv.Runtime.Settled.{IsSettled, RespectsLease, leased_row, tick-IsSettled}
use opengecko.Ohlcv.Leases.Held.{IsHeld}

-- A comparison under which all texts tie.
abbrev tie : String → String → Ordering
tie a b = Ordering.eq

tie-IsComparison : IsComparison tie
tie-IsComparison = record { flipped = λ a b. ground arith; trans = λ a b c h k. ground arith }

abbrev ether : Target
ether = record {
  key = record {
    coin_id = "ether";
    exchange_id = "binance";
    symbol = "ETH/USDT";
    interval = "1m";
    vs_currency = "usd";
  };
  priority_tier = requested;
  latest_synced_at = none;
  oldest_synced_at = none;
  target_history_days = 365;
  status = idle;
  last_attempt_at = none;
  last_success_at = none;
  last_error = none;
  failure_count = 0;
  next_retry_at = none;
  last_requested_at = none;
  lease_owner = some "worker";
  lease_token = some "t1";
  lease_acquired_at = none;
  lease_expires_at = some 500;
  lease_recovery_count = 0;
  last_lease_recovered_at = none;
  last_lease_recovery_reason = none;
  created_at = 0;
  updated_at = 0;
}

abbrev table : Table
table = ether ∷ []

keyed : IsKeyed table
unfolding read_target
keyed = (refl, tt)

found : read_target ether.key table ≡ some ether
unfolding read_target key_eq
found = refl

refresh_ohlcv_priority_tiers-tier_example :
    IsKeyed (refresh_ohlcv_priority_tiers ("bitcoin" ∷ []) 7 table)
    × ((u : Target) × (read_target ether.key (refresh_ohlcv_priority_tiers ("bitcoin" ∷ []) 7 table)
          ≡ some u)
        × (u.priority_tier ≡ (if has_coin "ether" ("bitcoin" ∷ []) then top100 else long_tail))
        × (u.priority_tier ≢ requested)
        × KeepsWork ("bitcoin" ∷ []) 7 ether u)
refresh_ohlcv_priority_tiers-tier_example =
    refresh_ohlcv_priority_tiers-tier ("bitcoin" ∷ []) 7 table ether.key ether keyed found

abbrev fetched : ℕ → FetchedCandle
fetched t = record {
  timestamp = t;
  open_price = units 5;
  high = units 9;
  low = units 2;
  close = units 6;
  volume = none;
}

abbrev spoilt : FetchedCandle
spoilt = record {
  timestamp = 3;
  open_price = not_a_number;
  high = units 9;
  low = units 2;
  close = units 6;
  volume = none;
}

abbrev series : Series
series = record { coin_id = "ether"; vs_currency = "usd"; interval = minute }

abbrev answer : List FetchedCandle
answer = fetched 60000 ∷ spoilt ∷ fetched 120000 ∷ []

-- The lease ends after the first write.
abbrev clock : ℕ → ℕ
clock n = elim n [ zero ↦ 100 | suc m ↦ 900 ]

persist_candles-IsFenced_example :
    let allowed : ℕ → Bool = λ n. is_lease_active_for_write ether (clock n) table in
    let (after, result) = persist_candles series allowed answer [] in
    IsSound after
    × All (λ c. fetched_is_valid c ≡ true) result.accepted_candles
    × (result.accepted_candles ≡ filter valid_candle answer)
    × ((m : ℕ) × (m ≤ length result.accepted_candles)
        × ((i : ℕ) → i < m → allowed i ≡ true)
        × ((m ≡ length result.accepted_candles) ⊎ (allowed m ≡ false))
        × (result.persisted_candles ≡ take m result.accepted_candles)
        × (after ≡ upsert_all series (take m result.accepted_candles) []))
persist_candles-IsFenced_example =
    persist_candles-IsFenced ether series clock (λ n. table) answer [] (tt, tt)

historical_window-IsAsked_example :
    IsAsked ether minute 100000000000 (historical_window ether minute 100000000000)
historical_window-IsAsked_example = historical_window-IsAsked ether minute 100000000000

abbrev seed : TargetSeed
seed = record {
  coin_id = "solana";
  exchange_id = "binance";
  symbol = "SOL/USDT";
  interval = "1d";
  priority_tier = requested;
  target_history_days = 730;
}

-- The exchange fails.
abbrev calls : TickCalls
calls = record {
  build_targets = λ world. (world, ok (seed ∷ []));
  top_coin_ids = λ world. "bitcoin" ∷ [];
  sync_recent = λ t now world. (world, err (SyncError.provider_failed "offline"));
  deepen_historical = λ t now world. (world, err (SyncError.provider_failed "offline"));
  error_message = λ e. "offline";
  ended_at = 2000;
}

abbrev lease : Lease
lease = record { owner = "worker"; token = "t2"; ttl_ms = 900000 }

abbrev world : World
world = record { targets = table; candles = [] }

held : IsHeld lease 1000 2000
held = (refl, refl, omega arith)

respects :
    (t : Target)
    → RespectsLease
        (sync_target calls (leased_row tie tie-IsComparison calls lease 1000 t) 1000)
        (leased_row tie tie-IsComparison calls lease 1000 t)
unfolding sync_target
respects t w d e = (d, e)

tick-IsSettled_example :
    let result = tick tie calls lease 1000 world in
    let refreshed = (refresh_targets calls 1000 world).0 in
    ((e : String) × ((calls.build_targets world).1 ≡ err e) × (result ≡ (world, refresh_failed e)))
    ⊎ ((seeds : List TargetSeed) × ((calls.build_targets world).1 ≡ ok seeds)
        × IsRefreshed seeds table refreshed.targets
        × IsSettled tie tie-IsComparison calls lease 1000 refreshed result)
tick-IsSettled_example =
    tick-IsSettled tie tie-IsComparison calls lease 1000 world keyed held respects
