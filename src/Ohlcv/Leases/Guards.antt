-- ===== src/Ohlcv/Leases/Guards.antt =====
-- Who may change a leased row of src/services/ohlcv-worker-state.ts, and when.
use Prim.Native.Nat.{Ordering}
use opengecko.Prelude.{
  ℕ, zero, suc, String, ◌≡◌, refl, true, false, Option, some, Option-cases, inl, inr, arith,
}
use opengecko.Ohlcv.{TargetKey, Target}
use opengecko.Ohlcv.Policy.{is_target_lease_eligible, select_next_lease_target}
use opengecko.Ohlcv.Table.{Table, read_target, without}
use opengecko.Ohlcv.Table.Laws.{read_target-update_where}
use opengecko.Ohlcv.Leases.{
  is_active_lease, classify_lease_recovery_reason, Lease, is_leasable, lease_target, lease_from,
}

-- The condition of the `UPDATE` in SQL is the test by which the candidates were selected.
pub is_leasable-is_target_lease_eligible :
    (t : Target) (now ttl : ℕ) → is_leasable now ttl t ≡ is_target_lease_eligible t now ttl
unfolding is_leasable is_target_lease_eligible
is_leasable-is_target_lease_eligible t now ttl = ground arith

-- A row whose lease is active for someone can be leased by nobody.
pub active_lease_not_leasable :
    (t : Target) (owner token : String) (now ttl : ℕ)
    → is_active_lease owner token now t ≡ true
    → is_leasable now ttl t ≡ false
unfolding is_active_lease is_leasable
active_lease_not_leasable t owner token now ttl h = ground arith

pub lease_target-key :
    (lease : Lease) (now : ℕ) (reason : Option String) (t : Target)
    → (lease_target lease now reason t).key ≡ t.key
unfolding lease_target
lease_target-key lease now reason t = refl

module _ (locale_compare : String → String → Ordering) where
  -- Whatever candidates a worker has read before, and however many rounds it makes, a row that
  -- may not be leased now stays as it is.
  pub lease_from_kept :
      (fuel : ℕ) (lease : Lease) (now : ℕ) (candidates table : Table) (k : TargetKey) (t : Target)
      → read_target k table ≡ some t
      → is_leasable now lease.ttl_ms t ≡ false
      → read_target k (lease_from locale_compare fuel lease now candidates table).0 ≡ some t
  unfolding lease_from
  lease_from_kept zero lease now candidates table k t e h = e
  lease_from_kept (suc fuel) lease now candidates table k t e h =
      elim (Option-cases (select_next_lease_target locale_compare candidates now lease.ttl_ms)) [
        | inl nothing ↦ rw (nothing, lease_from) e
        | inr (s, selected) ↦
            let reason = classify_lease_recovery_reason s now lease.ttl_ms in
            rw (selected, lease_from)
              (ground (
                arith,
                read_target-update_where s.key (is_leasable now lease.ttl_ms)
                    (lease_target lease now reason) (lease_target-key lease now reason) k table,
                lease_from_kept fuel lease now (without s.key candidates) table k t e h,
              ))
      ]

  -- While the lease of a row is active, no attempt of any worker to lease a target, with whatever
  -- token and from whatever candidates, changes the row.
  pub lease_from_exclusive :
      (fuel : ℕ) (lease : Lease) (now : ℕ) (candidates table : Table) (k : TargetKey) (t : Target)
      (owner token : String)
      → read_target k table ≡ some t
      → is_active_lease owner token now t ≡ true
      → read_target k (lease_from locale_compare fuel lease now candidates table).0 ≡ some t
  lease_from_exclusive fuel lease now candidates table k t owner token e active =
      lease_from_kept fuel lease now candidates table k t e
        (active_lease_not_leasable t owner token now lease.ttl_ms active)
