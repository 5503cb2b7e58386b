-- ===== src/Ohlcv/Runtime/Ended.antt =====
-- What `tick` of src/services/ohlcv-runtime.ts makes of the work on a target: its outcome, and the
-- end of its lease.
use opengecko.Prelude.{
  ℕ, ◌≡◌, ◌≢◌, ◌⊎◌, refl, true, false, Option, some, Result-cases, Bool-cases, Result, ok, err, inl,
  inr,
}
use opengecko.Ohlcv.{TargetKey, Target}
use opengecko.Ohlcv.Table.{read_target}
use opengecko.Ohlcv.Table.Laws.{IsKeyed}
use opengecko.Ohlcv.Policy.{derive_latest_synced_at, derive_oldest_synced_at, should_deepen_history}
use opengecko.Ohlcv.Leases.{is_target_lease_active}
use opengecko.Ohlcv.Leases.Marks.{
  IsIdleRow, IsFailedRow, mark_target_success-IsMarked, mark_target_failure-IsMarked,
}
use opengecko.Ohlcv.Sync.{SyncError, SyncResult, target_lease}
use opengecko.Ohlcv.Runtime.{
  World, persisted_timestamps, TickCalls, TickEnd, succeeded, failed_tick, sync_target, end_lease,
}

-- How a tick ends the lease of a row, after work with an outcome: as a success with the progress
-- of the work, or as a failure with its error, which is accepted; other rows and the candles stay
-- as the work has left them.
abbrev pub IsClosed :
    TickCalls → Target → Result SyncError (Option ℕ × Option ℕ) → World × TickEnd → Type 0
IsClosed calls leased (ok span) result =
    (result.1 ≡ succeeded true)
    × ((row : Target) × (read_target leased.key result.0.targets ≡ some row)
        × IsIdleRow span.0 span.1 calls.ended_at leased row)
IsClosed calls leased (err e) result =
    (result.1 ≡ failed_tick true)
    × ((row : Target) × (read_target leased.key result.0.targets ≡ some row)
        × IsFailedRow calls.ended_at (calls.error_message e) leased row)

abbrev pub IsEnded :
    TickCalls → Target → World × Result SyncError (Option ℕ × Option ℕ) → World × TickEnd → Type 0
IsEnded calls leased work result =
    IsClosed calls leased work.1 result
    × ((k : TargetKey)
        → k ≢ leased.key
        → read_target k result.0.targets ≡ read_target k work.0.targets)
    × (result.0.candles ≡ work.0.candles)

pub end_lease-IsEnded :
    (calls : TickCalls) (leased : Target) (outcome : Result SyncError (Option ℕ × Option ℕ))
    (world : World)
    → IsKeyed world.targets
    → read_target leased.key world.targets ≡ some leased
    → is_target_lease_active leased.key (target_lease leased) calls.ended_at world.targets ≡ true
    → IsEnded calls leased (world, outcome) (end_lease calls leased outcome world)
unfolding end_lease
end_lease-IsEnded calls leased (ok (latest, oldest)) world keyed found active =
    let (accepted, marked, refused) =
      mark_target_success-IsMarked leased.key (target_lease leased) calls.ended_at world.targets
        keyed leased found latest oldest in
    let yes = rw active at accepted in ((rw yes refl, (marked yes).0), (marked yes).1, refl)
end_lease-IsEnded calls leased (err e) world keyed found active =
    let (accepted, marked, refused) =
      mark_target_failure-IsMarked leased.key (target_lease leased) calls.ended_at world.targets
        keyed leased found (calls.error_message e) in
    let yes = rw active at accepted in ((rw yes refl, (marked yes).0), (marked yes).1, refl)

-- The outcome of the work on a leased row, from what the synchronisations answer: an error of the
-- first, or, where history is to be deepened, of the second, and else the progress by the candles
-- that they have persisted.
abbrev pub IsSynced :
    TickCalls → Target → ℕ → World → Result SyncError (Option ℕ × Option ℕ) → Type 0
IsSynced calls leased now held outcome =
    let recent = calls.sync_recent leased now held in
    ((e : SyncError) × (recent.1 ≡ err e) × (outcome ≡ err e))
    ⊎ ((r : SyncResult) × (recent.1 ≡ ok r)
        × (let latest = derive_latest_synced_at leased (persisted_timestamps r) in
            let history =
              calls.deepen_historical (record leased { latest_synced_at = latest }) now recent.0 in
            ((should_deepen_history leased latest now ≡ false)
              × (outcome ≡ ok (latest, leased.oldest_synced_at)))
            ⊎ ((e : SyncError) × (should_deepen_history leased latest now ≡ true)
                × (history.1 ≡ err e)
                × (outcome ≡ err e))
            ⊎ ((h : SyncResult) × (should_deepen_history leased latest now ≡ true)
                × (history.1 ≡ ok h)
                × (outcome
                    ≡ ok (latest, derive_oldest_synced_at leased (persisted_timestamps h))))))

pub sync_target-IsSynced :
    (calls : TickCalls) (leased : Target) (now : ℕ) (held : World)
    → IsSynced calls leased now held (sync_target calls leased now held).1
unfolding sync_target
sync_target-IsSynced calls leased now held =
    elim (Result-cases (calls.sync_recent leased now held).1) [
      | inr (e, failed) ↦ inl (e, failed, rw (failed, sync_target) refl)
      | inl (r, done) ↦
          let latest = derive_latest_synced_at leased (persisted_timestamps r) in
          let history =
            calls.deepen_historical (record leased { latest_synced_at = latest }) now
              (calls.sync_recent leased now held).0 in
          inr (
            r,
            done,
            elim (Bool-cases (should_deepen_history leased latest now)) [
              | inr enough ↦ inl (enough, rw (done, enough, sync_target) refl)
              | inl deepen ↦ elim (Result-cases history.1) [
                | inr (e, failed) ↦
                    inr (inl (e, deepen, failed, rw (done, deepen, failed, sync_target) refl))
                | inl (h, deepened) ↦
                    inr (inr (h, deepen, deepened, rw (done, deepen, deepened, sync_target) refl))
              ]
            ],
          )
    ]
