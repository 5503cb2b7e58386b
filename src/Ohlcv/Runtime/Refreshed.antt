-- ===== src/Ohlcv/Runtime/Refreshed.antt =====
-- What the registration of the targets in `tick` of src/services/ohlcv-runtime.ts leaves.
use opengecko.Prelude.{
  [], ◌∷◌, arith, ℕ, String, ◌≡◌, ◌≢◌, ◌⊎◌, refl, some, All, Result-cases, List, ok, err, inl, inr,
}
use opengecko.Ohlcv.{TargetKey, Target, requested}
use opengecko.Ohlcv.Table.{Table, read_target}
use opengecko.Ohlcv.Table.Laws.{IsKeyed}
use opengecko.Ohlcv.Seeds.{TargetSeed, seed_key, upsert_sync_targets}
use opengecko.Ohlcv.Seeds.Laws.{
  upsert_sync_targets-IsKeyed, upsert_sync_targets-Keeps, upsert_sync_targets-present,
}
use opengecko.Ohlcv.Tiers.{refresh_ohlcv_priority_tiers}
use opengecko.Ohlcv.Tiers.Laws.{
  refresh_ohlcv_priority_tiers-IsKeyed, refresh_ohlcv_priority_tiers-unrequested,
  refresh_ohlcv_priority_tiers-tier,
}
use opengecko.Ohlcv.Runtime.{World, TickCalls, refresh_targets}

-- The rows that a registration keeps: each is there, with its lease, retry and progress.
abbrev pub IsKept : Target → Target → Type 0
IsKept u v =
    (v.status ≡ u.status)
    × (v.lease_owner ≡ u.lease_owner)
    × (v.lease_token ≡ u.lease_token)
    × (v.lease_expires_at ≡ u.lease_expires_at)
    × (v.next_retry_at ≡ u.next_retry_at)
    × (v.latest_synced_at ≡ u.latest_synced_at)
    × (v.oldest_synced_at ≡ u.oldest_synced_at)

-- The table of targets that the worker sees after it has registered those that were built: they
-- are there, the rows that were there are kept, and no row is requested.
abbrev pub IsRefreshed : List TargetSeed → Table → Table → Type 0
IsRefreshed seeds built table =
    IsKeyed table
    × ((k : TargetKey) (u : Target) → read_target k table ≡ some u → u.priority_tier ≢ requested)
    × ((k : TargetKey) (u : Target)
        → read_target k built ≡ some u
        → (v : Target) × (read_target k table ≡ some v) × IsKept u v)
    × All (λ seed. (v : Target) × (read_target (seed_key seed) table ≡ some v)) seeds

module _ (calls : TickCalls) (now : ℕ) where
  refreshed-IsKept :
      (seeds : List TargetSeed) (top : List String) (built : Table)
      → IsKeyed built
      → (k : TargetKey) (u : Target) → read_target k built ≡ some u
      → (v : Target) × (read_target k
            (refresh_ohlcv_priority_tiers top now (upsert_sync_targets seeds now built))
          ≡ some v)
        × IsKept u v
  refreshed-IsKept seeds top built keyed k u found =
      let (keyed', (w, there, kept)) = upsert_sync_targets-Keeps seeds now k built u keyed found in
      let (still, (v, here, tier, unrequested, work)) =
        refresh_ohlcv_priority_tiers-tier top now (upsert_sync_targets seeds now built) k w keyed'
          there in
      (v, here, ground (arith, kept, work))

  refreshed-present :
      (seeds all : List TargetSeed) (top : List String) (built : Table)
      → IsKeyed built
      → All
          (λ seed.
            (v : Target) × (read_target (seed_key seed) (upsert_sync_targets all now built)
              ≡ some v))
          seeds
      → All
          (λ seed.
            (v : Target) × (read_target
                (seed_key seed)
                (refresh_ohlcv_priority_tiers top now (upsert_sync_targets all now built))
              ≡ some v))
          seeds
  refreshed-present [] all top built keyed h = tt
  refreshed-present (seed ∷ seeds) all top built keyed ((w, there), h) =
      let (still, (v, here, tier, unrequested, work)) =
        refresh_ohlcv_priority_tiers-tier top now (upsert_sync_targets all now built)
          (seed_key seed) w (upsert_sync_targets-IsKeyed all now built keyed) there in
      ((v, here), refreshed-present seeds all top built keyed h)

  pub refresh_targets-cases :
      (world : World)
      → IsKeyed (calls.build_targets world).0.targets
      → ((e : String) × ((calls.build_targets world).1 ≡ err e)
          × (refresh_targets calls now world ≡ ((calls.build_targets world).0, err e)))
        ⊎ ((seeds : List TargetSeed) × ((calls.build_targets world).1 ≡ ok seeds)
            × ((refresh_targets calls now world).1 ≡ ok tt)
            × IsRefreshed seeds
                (calls.build_targets world).0.targets
                (refresh_targets calls now world).0.targets)
  unfolding refresh_targets
  refresh_targets-cases world keyed = elim (Result-cases (calls.build_targets world).1) [
    | inr (e, failed) ↦ inl (e, failed, rw (failed, refresh_targets) refl)
    | inl (seeds, built) ↦
        let upserted = upsert_sync_targets seeds now (calls.build_targets world).0.targets in
        let keyed' =
          upsert_sync_targets-IsKeyed seeds now (calls.build_targets world).0.targets keyed in
        let top =
          calls.top_coin_ids (record (calls.build_targets world).0 { targets = upserted }) in
        inr (
          seeds,
          built,
          rw (built, refresh_targets) refl,
          rw (built, refresh_targets)
              (
                refresh_ohlcv_priority_tiers-IsKeyed top now upserted keyed',
                λ k u. refresh_ohlcv_priority_tiers-unrequested top now upserted k u keyed',
                refreshed-IsKept seeds top (calls.build_targets world).0.targets keyed,
                refreshed-present seeds seeds top (calls.build_targets world).0.targets keyed (
                    upsert_sync_targets-present seeds now (calls.build_targets world).0.targets
                      keyed),
              ),
        )
  ]
