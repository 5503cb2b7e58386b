-- ===== src/Ohlcv/Leases/Held.antt =====
-- A lease of src/services/ohlcv-worker-state.ts that its worker still holds.
use Prim.Native.Nat.{Ordering}
use opengecko.Prelude.{
  ℕ, zero, suc, ◌+◌, ◌<◌, String, ◌≡◌, true, false, Option, some, Option-cases, str_eq, length, inl,
  inr, arith,
}
use opengecko.Ohlcv.{Target}
use opengecko.Ohlcv.Table.{Table, read_target, without}
use opengecko.Ohlcv.Table.Laws.{IsKeyed, update_where-IsKeyed}
use opengecko.Ohlcv.Policy.{select_next_lease_target}
use opengecko.Ohlcv.Leases.{
  Lease, lease_target, lease_from, lease_next_target, classify_lease_recovery_reason, is_leasable,
  is_target_lease_active, required_lease_identity, select_candidates,
}
use opengecko.Ohlcv.Leases.Guards.{lease_target-key}
use opengecko.Ohlcv.Leases.Marks.{lease_target_lifetime}

module _ (locale_compare : String → String → Ordering) where
  lease_from-IsKeyed :
      (fuel : ℕ) (lease : Lease) (now : ℕ) (candidates table : Table)
      → IsKeyed table
      → IsKeyed (lease_from locale_compare fuel lease now candidates table).0
  unfolding lease_from
  lease_from-IsKeyed zero lease now candidates table d = d
  lease_from-IsKeyed (suc fuel) lease now candidates table d =
      elim (Option-cases (select_next_lease_target locale_compare candidates now lease.ttl_ms)) [
        | inl nothing ↦ rw (nothing, lease_from) d
        | inr (s, selected) ↦
            let reason = classify_lease_recovery_reason s now lease.ttl_ms in
            rw (selected, lease_from)
              (ground (
                arith,
                update_where-IsKeyed s.key (is_leasable now lease.ttl_ms)
                    (lease_target lease now reason) (lease_target-key lease now reason) table d,
                lease_from-IsKeyed fuel lease now (without s.key candidates) table d,
              ))
      ]

  pub lease_next_target-IsKeyed :
      (lease : Lease) (now : ℕ) (table : Table)
      → IsKeyed table
      → IsKeyed (lease_next_target locale_compare lease now table).0
  unfolding lease_next_target
  lease_next_target-IsKeyed lease now table d =
      lease_from-IsKeyed (length (select_candidates now table)) lease now
        (select_candidates now table) table d

-- A lease with an owner and a token, still active when the work ends.
abbrev pub IsHeld : Lease → (now later : ℕ) → Type 0
IsHeld lease now later =
    (str_eq lease.owner "" ≡ false) × (str_eq lease.token "" ≡ false) × (later < now + lease.ttl_ms)

pub held_active :
    (lease : Lease) (now later : ℕ) (reason : Option String) (t : Target) (table : Table)
    → IsHeld lease now later
    → let row = lease_target lease now reason t in
      read_target row.key table ≡ some row
      → is_target_lease_active row.key
          (record { lease_owner = some row.lease_owner; lease_token = some row.lease_token })
          later
          table
        ≡ true
unfolding is_target_lease_active required_lease_identity lease_target
held_active lease now later reason t table (o, k, h) found =
    ground (arith, lease_target_lifetime lease now later 0 reason lease.owner lease.token t)
