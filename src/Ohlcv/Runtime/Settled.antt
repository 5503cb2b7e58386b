-- ===== src/Ohlcv/Runtime/Settled.antt =====
-- How a tick of src/services/ohlcv-runtime.ts ends.
use Prim.Native.Nat.{Ordering}
use opengecko.Prelude.{
  ℕ, String, ◌≡◌, ◌⊎◌, refl, ap, ◌∙◌, true, false, Option, none, some, All, List, Result, ok, err,
  inl, inr,
}
use opengecko.Prelude.Sorting.{IsComparison}
use opengecko.Ohlcv.{TargetKey, Target}
use opengecko.Ohlcv.Table.{Table, read_target}
use opengecko.Ohlcv.Table.Laws.{IsKeyed}
use opengecko.Ohlcv.Policy.{is_target_lease_eligible}
use opengecko.Ohlcv.Leases.{Lease, lease_target, lease_next_target, classify_lease_recovery_reason}
use opengecko.Ohlcv.Seeds.{TargetSeed}
use opengecko.Ohlcv.Leases.Guards.{lease_target-key}
use opengecko.Ohlcv.Leases.Held.{IsHeld, held_active, lease_next_target-IsKeyed}
use opengecko.Ohlcv.Leases.Selection.{lease_next_target-first}
use opengecko.Ohlcv.Sync.{SyncError}
use opengecko.Ohlcv.Runtime.{
  World, TickCalls, TickEnd, refresh_failed, nothing_due, refresh_targets, sync_target, end_lease,
  run_due_target, tick,
}
use opengecko.Ohlcv.Runtime.Ended.{IsEnded, end_lease-IsEnded, IsSynced, sync_target-IsSynced}
use opengecko.Ohlcv.Runtime.Refreshed.{IsRefreshed, refresh_targets-cases}

-- The work on a target keeps the table of targets in order, and leaves the row that is leased.
abbrev pub RespectsLease :
    (World → World × Result SyncError (Option ℕ × Option ℕ)) → Target → Type 0
RespectsLease work leased =
    (world : World)
    → IsKeyed world.targets
    → read_target leased.key world.targets ≡ some leased
    → IsKeyed (work world).0.targets × (read_target leased.key (work world).0.targets ≡ some leased)

reads_at :
    {k l : TargetKey} (table : Table) {row : Option Target}
    → k ≡ l
    → read_target l table ≡ row
    → read_target k table ≡ row
reads_at table e h = rw e h

module _ (locale_compare : String → String → Ordering) (law : IsComparison locale_compare)
    (calls : TickCalls) (lease : Lease) (now : ℕ) where
  abbrev pub leased_row : Target → Target
  leased_row t = lease_target lease now (classify_lease_recovery_reason t now lease.ttl_ms) t

  -- The table with the row leased that a worker asks for.
  abbrev pub held_world : World → World
  held_world world = record world {
    targets = (lease_next_target locale_compare lease now world.targets).0;
  }

  -- What a tick comes to after the registration of the targets.
  abbrev pub IsSettled : World → World × TickEnd → Type 0
  IsSettled world result =
      ((result ≡ (world, nothing_due))
        × All (λ u. is_target_lease_eligible u now lease.ttl_ms ≡ false) world.targets)
      ⊎ ((t : Target) × (read_target t.key world.targets ≡ some t)
          × (is_target_lease_eligible t now lease.ttl_ms ≡ true)
          × IsSynced calls (leased_row t) now (held_world world)
              (sync_target calls (leased_row t) now (held_world world)).1
          × IsEnded calls (leased_row t) (sync_target calls (leased_row t) now (held_world world))
              result)

  run_due_target-none :
      (world : World)
      → lease_next_target locale_compare lease now world.targets ≡ (world.targets, none)
      → run_due_target locale_compare calls lease now world ≡ (world, nothing_due)
  unfolding run_due_target
  run_due_target-none world e =
      let found : (lease_next_target locale_compare lease now world.targets).1 ≡ none =
        ap (λ r. r.1) e in
      rw (found, run_due_target) (ap (λ r. (record world { targets = r.0 }, nothing_due)) e)

  run_due_target-some :
      (world : World) (leased : Target)
      → (lease_next_target locale_compare lease now world.targets).1 ≡ some leased
      → let held = record world {
        targets = (lease_next_target locale_compare lease now world.targets).0;
      } in
        let (synced, outcome) = sync_target calls leased now held in
        run_due_target locale_compare calls lease now world ≡ end_lease calls leased outcome synced
  unfolding run_due_target
  run_due_target-some world leased e = rw (e, run_due_target) refl

  run_due_target-IsSettled :
      (world : World)
      → IsKeyed world.targets
      → IsHeld lease now calls.ended_at
      → ((t : Target) → RespectsLease (sync_target calls (leased_row t) now) (leased_row t))
      → IsSettled world (run_due_target locale_compare calls lease now world)
  run_due_target-IsSettled world keyed held respects =
      elim (lease_next_target-first locale_compare law lease now world.targets keyed) [
        | inl (nothing, none_good) ↦ inl (run_due_target-none world nothing, none_good)
        | inr (t, there, good, before, leased, written, others) ↦
            let table = (lease_next_target locale_compare lease now world.targets).0 in
            let row = leased_row t in
            let keyed' = lease_next_target-IsKeyed locale_compare lease now world.targets keyed in
            let same_key : row.key ≡ t.key = lease_target-key lease now _ t in
            let written_row : read_target row.key table ≡ some row =
              reads_at table same_key (written ∙ leased) in
            let work = sync_target calls row now (record world { targets = table }) in
            let (keyed'', found) =
              respects t (record world { targets = table }) keyed' written_row in
            inr (
              t,
              there,
              good,
              sync_target-IsSynced calls row now (record world { targets = table }),
              rw (run_due_target-some world row leased) (
                  end_lease-IsEnded calls row work.1 work.0 keyed'' found
                    (held_active lease now calls.ended_at _ t work.0.targets held found)),
            )
      ]

  abbrev after_refresh : World × Result String (Unit {0}) → World × TickEnd
  after_refresh refreshed = elim refreshed.1 [
    | err e ↦ (refreshed.0, refresh_failed e)
    | ok done ↦ run_due_target locale_compare calls lease now refreshed.0
  ]

  after_refresh-ok :
      (refreshed : World × Result String (Unit {0}))
      → refreshed.1 ≡ ok tt
      → after_refresh refreshed ≡ run_due_target locale_compare calls lease now refreshed.0
  after_refresh-ok refreshed e = rw e refl

  carried_over :
      (world : World) {a b : World × TickEnd} → a ≡ b → IsSettled world b → IsSettled world a
  carried_over world e h = rw e h

  -- Where the work on a target keeps its row and ends before the lease does, a tick stops where the
  -- targets cannot be built and touches no lease; or finds no registered target due and changes
  -- nothing more; or leases one that is due and ends that lease by what the synchronisations
  -- answered: at an error of either the row is failed, with one failure more and a later retry,
  -- and else it is idle, with the progress of the candles that were persisted. No other row is
  -- changed by that end. When targets are leased, those that were built have a row, the rows that
  -- were there are kept with their lease, retry and progress, and none is requested: the refresh
  -- of the tiers has lowered those that were registered as requested.
  pub tick-IsSettled :
      (world : World)
      → IsKeyed (calls.build_targets world).0.targets
      → IsHeld lease now calls.ended_at
      → ((t : Target) → RespectsLease (sync_target calls (leased_row t) now) (leased_row t))
      → let result = tick locale_compare calls lease now world in
        let refreshed = (refresh_targets calls now world).0 in
        ((e : String) × ((calls.build_targets world).1 ≡ err e)
          × (result ≡ ((calls.build_targets world).0, refresh_failed e)))
        ⊎ ((seeds : List TargetSeed) × ((calls.build_targets world).1 ≡ ok seeds)
            × IsRefreshed seeds (calls.build_targets world).0.targets refreshed.targets
            × IsSettled refreshed result)
  unfolding tick
  tick-IsSettled world keyed held respects = elim (refresh_targets-cases calls now world keyed) [
    | inl (e, unbuilt, failed) ↦ inl (e, unbuilt, ap after_refresh failed)
    | inr (seeds, built, done, fresh) ↦
        let refreshed = (refresh_targets calls now world).0 in
        inr (
          seeds,
          built,
          fresh,
          carried_over refreshed (after_refresh-ok (refresh_targets calls now world) done)
              (run_due_target-IsSettled refreshed fresh.0 held respects),
        )
  ]
