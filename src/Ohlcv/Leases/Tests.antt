-- ===== src/Ohlcv/Leases/Tests.antt =====
-- The theorems on the OHLCV targets of src/services/ohlcv-worker-state.ts and
-- src/services/ohlcv-scheduling-policy.ts at a concrete table.
use Prim.Native.Nat.{Ordering}
use opengecko.Prelude.{String, ◌≡◌, refl, true, none, some, [], ◌∷◌, arith}
use opengecko.Prelude.Sorting.{IsComparison, sort}
use opengecko.Ohlcv.{PriorityTier, top100, requested, long_tail, TargetStatus, idle, Target, key_eq}
use opengecko.Ohlcv.Policy.{select_next_lease_target}
use opengecko.Ohlcv.Table.{Table, read_target}
use opengecko.Ohlcv.Table.Laws.{IsKeyed}
use opengecko.Ohlcv.Seeds.{TargetSeed, upsert_sync_targets}
use opengecko.Ohlcv.Seeds.Laws.{Keeps, upsert_sync_targets-Keeps}
use opengecko.Ohlcv.Leases.{
  LeaseIdentity, Lease, is_active_lease, lease_target, lease_from, lease_next_target,
  is_target_lease_active, mark_target_success, mark_target_failure,
}
use opengecko.Ohlcv.Leases.Guards.{lease_from_exclusive}
use opengecko.Ohlcv.Leases.Marks.{
  IsIdleRow, IsFailedRow, IsMarked, mark_target_success-IsMarked, mark_target_failure-IsMarked,
}
use opengecko.Ohlcv.Leases.Selection.{IsFirstLease, lease_next_target-first}

-- A comparison under which all texts tie.
abbrev tie : String → String → Ordering
tie a b = Ordering.eq

tie-IsComparison : IsComparison tie
tie-IsComparison = record { flipped = λ a b. ground arith; trans = λ a b c h k. ground arith }

abbrev target : String → PriorityTier → TargetStatus → Target
target coin tier status = record {
  key = record {
    coin_id = coin;
    exchange_id = "binance";
    symbol = coin;
    interval = "1d";
    vs_currency = "usd";
  };
  priority_tier = tier;
  latest_synced_at = none;
  oldest_synced_at = none;
  target_history_days = 365;
  status = status;
  last_attempt_at = none;
  last_success_at = none;
  last_error = none;
  failure_count = 0;
  next_retry_at = none;
  last_requested_at = none;
  lease_owner = none;
  lease_token = none;
  lease_acquired_at = none;
  lease_expires_at = none;
  lease_recovery_count = 0;
  last_lease_recovered_at = none;
  last_lease_recovery_reason = none;
  created_at = 0;
  updated_at = 0;
}

abbrev lease : Lease
lease = record { owner = "worker"; token = "t1"; ttl_ms = 900000 }

abbrev other : Lease
other = record { owner = "rival"; token = "t2"; ttl_ms = 900000 }

abbrev bitcoin : Target
bitcoin = lease_target lease 1000 none (target "bitcoin" top100 idle)

abbrev ether : Target
ether = target "ether" requested idle

abbrev table : Table
table = bitcoin ∷ ether ∷ []

keyed : IsKeyed table
unfolding key_eq read_target lease_target
keyed = (refl, (refl, tt))

found_bitcoin : read_target bitcoin.key table ≡ some bitcoin
unfolding key_eq read_target lease_target
found_bitcoin = refl

active_bitcoin : is_active_lease "worker" "t1" 2000 bitcoin ≡ true
unfolding is_active_lease lease_target
active_bitcoin = refl

lease_next_target-first_example :
    IsFirstLease tie other 2000 table table (lease_next_target tie other 2000 table)
lease_next_target-first_example =
    lease_next_target-first tie tie-IsComparison other 2000 table keyed

lease_from_exclusive_example :
    read_target bitcoin.key (lease_from tie 2 other 2000 table table).0 ≡ some bitcoin
lease_from_exclusive_example =
    lease_from_exclusive tie 2 other 2000 table table bitcoin.key bitcoin "worker" "t1"
      found_bitcoin active_bitcoin

abbrev holder : LeaseIdentity
holder = record { lease_owner = some (some "worker"); lease_token = some (some "t1") }

mark_target_success-IsMarked_example :
    IsMarked bitcoin.key table
      (IsIdleRow (some 1900) (some 100) 2000 bitcoin)
      (is_target_lease_active bitcoin.key holder 2000 table)
      (mark_target_success bitcoin.key holder (some 1900) (some 100) 2000 table)
mark_target_success-IsMarked_example =
    mark_target_success-IsMarked bitcoin.key holder 2000 table keyed bitcoin found_bitcoin
      (some 1900) (some 100)

mark_target_failure-IsMarked_example :
    IsMarked bitcoin.key table
      (IsFailedRow 2000 "boom" bitcoin)
      (is_target_lease_active bitcoin.key holder 2000 table)
      (mark_target_failure bitcoin.key holder 2000 "boom" table)
mark_target_failure-IsMarked_example =
    mark_target_failure-IsMarked bitcoin.key holder 2000 table keyed bitcoin found_bitcoin "boom"

selects_ether : select_next_lease_target tie table 2000 900000 ≡ some ether
unfolding select_next_lease_target lease_target sort
selects_ether = refl

abbrev seed : TargetSeed
seed = record {
  coin_id = "bitcoin";
  exchange_id = "binance";
  symbol = "bitcoin";
  interval = "1d";
  priority_tier = long_tail;
  target_history_days = 730;
}

upsert_sync_targets-Keeps_example :
    IsKeyed (upsert_sync_targets (seed ∷ []) 3000 table)
    × ((u : Target) × (read_target bitcoin.key (upsert_sync_targets (seed ∷ []) 3000 table)
          ≡ some u)
        × Keeps bitcoin u)
upsert_sync_targets-Keeps_example =
    upsert_sync_targets-Keeps (seed ∷ []) 3000 bitcoin.key table bitcoin keyed found_bitcoin
