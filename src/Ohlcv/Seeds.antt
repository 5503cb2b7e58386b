-- ===== src/Ohlcv/Seeds.antt =====
-- The registration and promotion of targets in src/services/ohlcv-worker-state.ts.
pub mod Laws
use opengecko.Prelude.{ℕ, String, Bool, true, Option, none, List, [], ◌∷◌, if◌then◌else◌}
use opengecko.Ohlcv.{PriorityTier, top100, requested, long_tail, idle, TargetKey, Target, key_eq}
use opengecko.Ohlcv.Table.{Table, update_where}

pub record TargetSeed : Type 0 where
  pub coin_id : String
  pub exchange_id : String
  pub symbol : String
  pub interval : String
  pub priority_tier : PriorityTier
  pub target_history_days : ℕ

abbrev pub seed_key : TargetSeed → TargetKey
seed_key seed = record {
  coin_id = seed.coin_id;
  exchange_id = seed.exchange_id;
  symbol = seed.symbol;
  interval = seed.interval;
  vs_currency = "usd";
}

-- The `CASE` of the conflict clause: the tier of the row, then that of the seed.
pub merge_tier : PriorityTier → PriorityTier → PriorityTier
merge_tier top100 seed = top100
merge_tier requested top100 = top100
merge_tier long_tail top100 = top100
merge_tier requested requested = requested
merge_tier requested long_tail = requested
merge_tier long_tail requested = requested
merge_tier long_tail long_tail = long_tail

fresh_target : TargetSeed → ℕ → Target
fresh_target seed now = record {
  key = seed_key seed;
  priority_tier = seed.priority_tier;
  latest_synced_at = none;
  oldest_synced_at = none;
  target_history_days = seed.target_history_days;
  status = idle;
  last_attempt_at = none;
  last_success_at = none;
  last_error = none;
  failure_count = 0;
  next_retry_at = none;
  last_requested_at = none;
  lease_owner = none;
  lease_token = none;
  lease_acquired_at = none;
  lease_expires_at = none;
  lease_recovery_count = 0;
  last_lease_recovered_at = none;
  last_lease_recovery_reason = none;
  created_at = now;
  updated_at = now;
}

merge_seed : TargetSeed → ℕ → Target → Target
unfolding merge_tier
merge_seed seed now t = record t {
  priority_tier = merge_tier t.priority_tier seed.priority_tier;
  target_history_days = seed.target_history_days;
  updated_at = now;
}

upsert_target : TargetSeed → ℕ → Table → Table
unfolding fresh_target merge_seed
upsert_target seed now [] = fresh_target seed now ∷ []
upsert_target seed now (t ∷ ts) =
    if key_eq t.key (seed_key seed)
    then merge_seed seed now t ∷ ts
    else t ∷ upsert_target seed now ts

pub upsert_sync_targets : List TargetSeed → ℕ → Table → Table
unfolding upsert_target
upsert_sync_targets [] now table = table
upsert_sync_targets (seed ∷ seeds) now table =
    upsert_sync_targets seeds now (upsert_target seed now table)

pub promote_target_priority : TargetKey → PriorityTier → ℕ → Table → Table
unfolding update_where
promote_target_priority key tier now table =
    (update_where key (λ t. true) (λ t. record t { priority_tier = tier; updated_at = now })
      table).0
