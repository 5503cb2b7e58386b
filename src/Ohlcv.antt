-- ===== src/Ohlcv.antt =====
-- The targets of the OHLCV worker: src/db/schema.ts (`ohlcvSyncTargets`). A row's primary key is
-- one record; an instant is in milliseconds.
pub mod Policy
pub mod Table
pub mod Seeds
pub mod Leases
pub mod Tiers
pub mod Sync
pub mod Runtime
pub mod Summary
use opengecko.Prelude.{ℕ, String, Bool, ◌&&◌, Option, ◌≡◌, ◌↔◌, true, eq_iff, str_eq, arith}

pub data PriorityTier : Type 0 where
  top100 requested long_tail : PriorityTier

pub data TargetStatus : Type 0 where
  idle running failed : TargetStatus

pub record TargetKey : Type 0 where
  pub coin_id : String
  pub exchange_id : String
  pub symbol : String
  pub interval : String
  pub vs_currency : String

pub record Target : Type 0 where
  pub key : TargetKey
  pub priority_tier : PriorityTier
  pub latest_synced_at : Option ℕ
  pub oldest_synced_at : Option ℕ
  pub target_history_days : ℕ
  pub status : TargetStatus
  pub last_attempt_at : Option ℕ
  pub last_success_at : Option ℕ
  pub last_error : Option String
  pub failure_count : ℕ
  pub next_retry_at : Option ℕ
  pub last_requested_at : Option ℕ
  pub lease_owner : Option String
  pub lease_token : Option String
  pub lease_acquired_at : Option ℕ
  pub lease_expires_at : Option ℕ
  pub lease_recovery_count : ℕ
  pub last_lease_recovered_at : Option ℕ
  pub last_lease_recovery_reason : Option String
  pub created_at : ℕ
  pub updated_at : ℕ

unfoldable pub key_eq : TargetKey → TargetKey → Bool
key_eq a b =
    str_eq a.coin_id b.coin_id
    && str_eq a.exchange_id b.exchange_id
    && str_eq a.symbol b.symbol
    && str_eq a.interval b.interval
    && str_eq a.vs_currency b.vs_currency

pub key_eq_iff : (a b : TargetKey) → (key_eq a b ≡ true) ↔ (a ≡ b)
unfolding key_eq
key_eq_iff a b = ground (
  arith,
  eq_iff a.coin_id b.coin_id,
  eq_iff a.exchange_id b.exchange_id,
  eq_iff a.symbol b.symbol,
  eq_iff a.interval b.interval,
  eq_iff a.vs_currency b.vs_currency,
)
