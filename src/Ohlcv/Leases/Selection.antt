-- ===== src/Ohlcv/Leases/Selection.antt =====
-- Which target `leaseNextOhlcvTarget` of src/services/ohlcv-worker-state.ts leases.
use Prim.Native.Nat.{Ordering}
use opengecko.Prelude.{
  ℕ, zero, suc, ◌≤◌, String, ◌≡◌, ◌≢◌, ◌⊎◌, refl, true, false, Option, none, some, [], ◌∷◌, All,
  All-imp, length, Bool-cases, Option-cases, inl, inr, if◌then◌else◌, arith,
}
use opengecko.Prelude.Sorting.{IsComparison, All-sort, All-of_sort}
use opengecko.Ohlcv.{TargetKey, Target}
use opengecko.Ohlcv.Policy.{
  is_target_lease_eligible, compare_lease_targets, select_next_lease_target,
}
use opengecko.Ohlcv.Policy.Order.{
  select_next_lease_target-first, select_next_lease_target-none, select_next_lease_target-All,
  not_true,
}
use opengecko.Ohlcv.Table.{Table, read_target}
use opengecko.Ohlcv.Table.Laws.{IsKeyed, IsKeyed-read_target}
use opengecko.Ohlcv.Leases.{
  classify_lease_recovery_reason, Lease, is_leasable, lease_target, candidates_from,
  select_candidates, lease_from, lease_next_target, candidate_in,
}
use opengecko.Ohlcv.Leases.Marks.{update_where_guarded}
use opengecko.Ohlcv.Leases.Guards.{is_leasable-is_target_lease_eligible, lease_target-key}

-- Every eligible row is among the candidates, and every candidate is a row.
All-candidates :
    (P : Target → Type 0) (now : ℕ) (table : Table)
    → All P table
    → All P (candidates_from now table)
unfolding candidates_from
All-candidates P now [] h = tt
All-candidates P now (t ∷ ts) h = ground (arith, All-candidates P now ts h.1)

eligible_candidates :
    (P : Target → Type 0) (now ttl : ℕ) (table : Table)
    → All (λ t. is_target_lease_eligible t now ttl ≡ true → P t) (candidates_from now table)
    → All (λ t. is_target_lease_eligible t now ttl ≡ true → P t) table
unfolding candidates_from is_target_lease_eligible
eligible_candidates P now ttl [] h = tt
eligible_candidates P now ttl (t ∷ ts) h = elim (Bool-cases (candidate_in t.status t now)) [
  | inl kept ↦
      let both : (is_target_lease_eligible t now ttl ≡ true → P t)
          × All (λ t. is_target_lease_eligible t now ttl ≡ true → P t) (candidates_from now ts) =
        rw (kept, if◌then◌else◌) at h in
      (both.0, eligible_candidates P now ttl ts both.1)
  | inr dropped ↦
      let rest : All (λ t. is_target_lease_eligible t now ttl ≡ true → P t)
          (candidates_from now ts) =
        rw (dropped, if◌then◌else◌) at h in
      (λ e. ground (arith, dropped), eligible_candidates P now ttl ts rest)
]

-- The outcome of an attempt to lease: nothing where no row is eligible, or else a row that is
-- eligible and that no eligible row precedes.
abbrev pub IsFirstLease :
    (String → String → Ordering)
    → Lease
    → ℕ
    → (among table : Table) → Table × Option Target
    → Type 0
IsFirstLease locale_compare lease now among table result =
    ((result ≡ (table, none))
      × All (λ u. is_target_lease_eligible u now lease.ttl_ms ≡ false) among)
    ⊎ ((t : Target) × (read_target t.key table ≡ some t)
        × (is_target_lease_eligible t now lease.ttl_ms ≡ true)
        × All
            (λ u.
              is_target_lease_eligible u now lease.ttl_ms ≡ true
              → compare_lease_targets locale_compare now t u ≢ Ordering.gt)
            among
        × (result.1
            ≡ some (lease_target lease now (classify_lease_recovery_reason t now lease.ttl_ms) t))
        × (read_target t.key result.0 ≡ result.1)
        × ((k : TargetKey) → k ≢ t.key → read_target k result.0 ≡ read_target k table))

-- What holds of the eligible rows that are selected holds of the eligible rows of the table.
select_candidates-All :
    (P : Target → Type 0) (now ttl : ℕ) (table : Table)
    → All (λ t. is_target_lease_eligible t now ttl ≡ true → P t) (select_candidates now table)
    → All (λ t. is_target_lease_eligible t now ttl ≡ true → P t) table
unfolding select_candidates
select_candidates-All P now ttl table h =
    eligible_candidates P now ttl table (All-of_sort _ _ (candidates_from now table) h)

All-select_candidates :
    (P : Target → Type 0) (now : ℕ) (table : Table)
    → All P table
    → All P (select_candidates now table)
unfolding select_candidates
All-select_candidates P now table h =
    All-sort _ P (candidates_from now table) (All-candidates P now table h)

module _ (locale_compare : String → String → Ordering) (law : IsComparison locale_compare) where
  lease_from-first :
      (fuel : ℕ) (lease : Lease) (now : ℕ) (candidates table : Table)
      → IsKeyed table
      → All (λ t. read_target t.key table ≡ some t) candidates
      → length candidates ≤ fuel
      → IsFirstLease locale_compare lease now candidates table
          (lease_from locale_compare fuel lease now candidates table)
  unfolding lease_from
  lease_from-first zero lease now [] table keyed rows enough = inl (refl, tt)
  lease_from-first zero lease now (t ∷ ts) table keyed rows enough = absurd (ground (arith, enough))
  lease_from-first (suc fuel) lease now candidates table keyed rows enough =
      elim (Option-cases (select_next_lease_target locale_compare candidates now lease.ttl_ms)) [
        | inl nothing ↦ inl (
          rw (nothing, lease_from) refl,
          (select_next_lease_target-none locale_compare law candidates now lease.ttl_ms).0 nothing,
        )
        | inr (t, selected) ↦
            let ttl = lease.ttl_ms in
            let reason = classify_lease_recovery_reason t now ttl in
            let (there, good, before) =
              select_next_lease_target-first locale_compare law candidates now ttl t selected in
            let row =
              select_next_lease_target-All locale_compare law
                (λ t. read_target t.key table ≡ some t) candidates now ttl t selected rows in
            let leasable : is_leasable now ttl t ≡ true =
              rw (is_leasable-is_target_lease_eligible t now ttl) good in
            let (changed, leased, others) =
              update_where_guarded t.key (is_leasable now ttl) (lease_target lease now reason)
                (lease_target-key lease now reason) table keyed t row leasable in
            inr (
              t,
              row,
              good,
              All-imp candidates (λ u h e. (h e).0) before,
              rw (selected, lease_from) (rw changed leased),
              rw (selected, lease_from) (rw changed refl),
              rw (selected, lease_from) (rw changed others),
            )
      ]

  -- A worker that asks for a target leases one whenever a row of the table is eligible, whatever
  -- rows the first query leaves out: the row is eligible, no eligible row of the table precedes
  -- it in the order of the policy, it is written with the worker's lease, and the other rows are
  -- kept. Where no row is eligible, nothing is leased and nothing changes. The table has one row
  -- for each key, and the comparison of names is a linear preorder.
  pub lease_next_target-first :
      (lease : Lease) (now : ℕ) (table : Table)
      → IsKeyed table
      → IsFirstLease locale_compare lease now table table
          (lease_next_target locale_compare lease now table)
  unfolding lease_next_target
  lease_next_target-first lease now table keyed =
      let found = select_candidates now table in
      elim (lease_from-first (length found) lease now found table keyed
        (All-select_candidates _ now table (IsKeyed-read_target table keyed)) (omega arith)) [
          | inl (nothing, none_good) ↦ inl (
            nothing,
            All-imp table (λ u h. not_true (is_target_lease_eligible u now lease.ttl_ms) h)
                (select_candidates-All (λ u. ⊥) now lease.ttl_ms table
                  (All-imp found (λ u h e. cc) none_good)),
          )
          | inr (t, row, good, before, leased, written, others) ↦ inr (
            t,
            row,
            good,
            select_candidates-All (λ u. compare_lease_targets locale_compare now t u ≢ Ordering.gt)
                now lease.ttl_ms table before,
            leased,
            written,
            others,
          )
        ]
