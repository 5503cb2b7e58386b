-- ===== src/Ohlcv/Runtime.antt =====
-- `tick` of src/services/ohlcv-runtime.ts: the targets are registered, one is leased, its windows
-- are synchronised, and the lease ends with a success or a failure. What happens to the database
-- while a call is awaited, by that call or by other workers, is a parameter.
pub mod Ended
pub mod Refreshed
pub mod Settled
mod Tests
use Prim.Native.Nat.{Ordering}
use opengecko.Prelude.{
  ℕ, String, Bool, true, false, Option, none, some, List, map, if◌then◌else◌, Result, ok, err,
}
use opengecko.Candles.{Store}
use opengecko.Candles.Repair.{FetchedCandle}
use opengecko.Ohlcv.{TargetKey, Target}
use opengecko.Ohlcv.Table.{Table}
use opengecko.Ohlcv.Policy.{derive_latest_synced_at, derive_oldest_synced_at, should_deepen_history}
use opengecko.Ohlcv.Seeds.{TargetSeed, upsert_sync_targets}
use opengecko.Ohlcv.Leases.{Lease, lease_next_target, mark_target_success, mark_target_failure}
use opengecko.Ohlcv.Tiers.{refresh_ohlcv_priority_tiers}
use opengecko.Ohlcv.Sync.{SyncError, SyncResult, target_lease}

pub record World : Type 0 where
  pub targets : Table
  pub candles : Store

-- The calls of a tick: `buildOhlcvSyncTargets`, the coins that `selectTopOhlcvCoins` returns, the
-- two synchronisations, the message of an error, and the clock at the end.
pub record TickCalls : Type 0 where
  pub build_targets : World → World × Result String (List TargetSeed)
  pub top_coin_ids : World → List String
  pub sync_recent : Target → ℕ → World → World × Result SyncError SyncResult
  pub deepen_historical : Target → ℕ → World → World × Result SyncError SyncResult
  pub error_message : SyncError → String
  pub ended_at : ℕ

pub data TickEnd : Type 0 where
  refresh_failed : String → TickEnd
  nothing_due : TickEnd
  succeeded failed_tick : Bool → TickEnd

abbrev pub persisted_timestamps : SyncResult → List ℕ
persisted_timestamps result = map (λ c. c.timestamp) result.persisted_candles

unfoldable pub refresh_targets : TickCalls → ℕ → World → World × Result String (Unit {0})
refresh_targets calls now world =
    let (built, seeds) = calls.build_targets world in
    elim seeds [
      | err e ↦ (built, err e)
      | ok seeds ↦
          let upserted = upsert_sync_targets seeds now built.targets in
          let top = calls.top_coin_ids (record built { targets = upserted }) in
          (record built { targets = refresh_ohlcv_priority_tiers top now upserted }, ok tt)
    ]

-- The body of the inner `try`: the latest and the oldest instant that the target then has.
unfoldable pub sync_target :
    TickCalls → Target → ℕ → World → World × Result SyncError (Option ℕ × Option ℕ)
sync_target calls leased now world =
    let (synced, recent) = calls.sync_recent leased now world in
    elim recent [
      | err e ↦ (synced, err e)
      | ok result ↦
          let latest = derive_latest_synced_at leased (persisted_timestamps result) in
          elim (should_deepen_history leased latest now) [
            | false ↦ (synced, ok (latest, leased.oldest_synced_at))
            | true ↦
                let target = record leased { latest_synced_at = latest } in
                let (deepened, historical) = calls.deepen_historical target now synced in
                elim historical [
                  | err e ↦ (deepened, err e)
                  | ok history ↦ (
                    deepened,
                    ok (latest, derive_oldest_synced_at leased (persisted_timestamps history)),
                  )
                ]
          ]
    ]

unfoldable pub end_lease :
    TickCalls → Target → Result SyncError (Option ℕ × Option ℕ) → World → World × TickEnd
end_lease calls leased (ok (latest, oldest)) world =
    let (targets, marked) =
      mark_target_success leased.key (target_lease leased) latest oldest calls.ended_at
        world.targets in
    (record world { targets = targets }, succeeded marked)
end_lease calls leased (err e) world =
    let (targets, marked) =
      mark_target_failure leased.key (target_lease leased) calls.ended_at (calls.error_message e)
        world.targets in
    (record world { targets = targets }, failed_tick marked)

module _ (locale_compare : String → String → Ordering) where
  unfoldable pub run_due_target : TickCalls → Lease → ℕ → World → World × TickEnd
  unfolding sync_target end_lease
  run_due_target calls lease now world =
      let (targets, leased) = lease_next_target locale_compare lease now world.targets in
      elim leased [
        | none ↦ (record world { targets = targets }, nothing_due)
        | some target ↦
            let (synced, outcome) =
              sync_target calls target now (record world { targets = targets }) in
            end_lease calls target outcome synced
      ]

  unfoldable pub tick : TickCalls → Lease → ℕ → World → World × TickEnd
  unfolding refresh_targets run_due_target
  tick calls lease now world =
      let (refreshed, result) = refresh_targets calls now world in
      elim result [
        | err e ↦ (refreshed, refresh_failed e)
        | ok done ↦ run_due_target calls lease now refreshed
      ]
