-- ===== src/Ohlcv/Summary/Tests.antt =====
-- The theorems on the report of src/services/ohlcv-runtime.ts at a concrete table.
use Prim.Native.Nat.{Ordering}
use opengecko.Prelude.{◌≡◌, ◌↔◌, refl, String, none, some, [], ◌∷◌, arith}
use opengecko.Prelude.Sorting.{IsComparison}
use opengecko.Ohlcv.{requested, failed, Target}
use opengecko.Ohlcv.Table.{Table, read_target}
use opengecko.Ohlcv.Table.Laws.{IsKeyed}
use opengecko.Ohlcv.Leases.{Lease, lease_next_target}
use opengecko.Ohlcv.Summary.{summarize_ohlcv_sync_status}
use opengecko.Ohlcv.Summary.Balance.{IsBalanced, summarize_ohlcv_sync_status-IsBalanced}
use opengecko.Ohlcv.Summary.Tiers.{eligible_count, eligible_for_lease_iff}

abbrev tie : String → String → Ordering
tie a b = Ordering.eq

tie-IsComparison : IsComparison tie
tie-IsComparison = record { flipped = λ a b. ground arith; trans = λ a b c h k. ground arith }

abbrev ether : Target
ether = record {
  key = record {
    coin_id = "ether";
    exchange_id = "binance";
    symbol = "ETH/USDT";
    interval = "1m";
    vs_currency = "usd";
  };
  priority_tier = requested;
  latest_synced_at = none;
  oldest_synced_at = some 5;
  target_history_days = 365;
  status = failed;
  last_attempt_at = some 10;
  last_success_at = none;
  last_error = none;
  failure_count = 2;
  next_retry_at = some 9000;
  last_requested_at = none;
  lease_owner = none;
  lease_token = none;
  lease_acquired_at = none;
  lease_expires_at = none;
  lease_recovery_count = 0;
  last_lease_recovered_at = none;
  last_lease_recovery_reason = none;
  created_at = 0;
  updated_at = 0;
}

abbrev table : Table
table = ether ∷ []

keyed : IsKeyed table
unfolding read_target
keyed = (refl, tt)

summarize_ohlcv_sync_status-IsBalanced_example :
    IsBalanced 1 (summarize_ohlcv_sync_status table 8000)
summarize_ohlcv_sync_status-IsBalanced_example = summarize_ohlcv_sync_status-IsBalanced table 8000

abbrev lease : Lease
lease = record { owner = "worker"; token = "t2"; ttl_ms = 900000 }

eligible_for_lease_iff_example :
    (eligible_count (summarize_ohlcv_sync_status table 8000) ≡ 0)
    ↔ (lease_next_target tie lease 8000 table ≡ (table, none))
eligible_for_lease_iff_example =
    eligible_for_lease_iff tie tie-IsComparison lease 8000 table keyed refl
