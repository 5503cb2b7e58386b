-- ===== src/Ohlcv/Leases/Marks.antt =====
-- The end of a lease in src/services/ohlcv-worker-state.ts: success, failure, and the next lease.
use native.Mathlib.Nat.{pow-suc}
use opengecko.Prelude.{
  ℕ, suc, ◌+◌, ◌-◌, ◌*◌, ◌^◌, ap, none, String, ◌≡◌, ◌≢◌, ◌⊎◌, refl, Bool, true, false, not, Option,
  some, ltb, leb, eq_iff, Bool-cases, Option-cases, inl, inr, arith,
}
use opengecko.Ohlcv.{idle, failed, TargetKey, Target, key_eq_iff}
use opengecko.Ohlcv.Table.{Table, read_target, update_where}
use opengecko.Ohlcv.Table.Laws.{
  IsKeyed, read_target-update_where, update_where-count, update_where_unmatched,
}
use opengecko.Ohlcv.Leases.{
  Lease, lease_target, LeaseIdentity, has_matching_lease, required_lease_identity, is_active_lease,
  is_leasable, is_target_lease_active, succeed_target, mark_target_success, retry_backoff_ms,
  fail_target, mark_target_failure,
}

module _ (key : TargetKey) (guard : Target → Bool) (change : Target → Target)
    (same_key : (t : Target) → (change t).key ≡ t.key) (table : Table) (keyed : IsKeyed table)
    (t : Target) (found : read_target key table ≡ some t) where
  pub update_where_guarded :
      guard t ≡ true
      → (ltb 0 (update_where key guard change table).1 ≡ true)
        × (read_target key (update_where key guard change table).0 ≡ some (change t))
        × ((k : TargetKey)
            → k ≢ key
            → read_target k (update_where key guard change table).0 ≡ read_target k table)
  update_where_guarded g = (
    ground (arith, update_where-count key guard change same_key table keyed),
    ground
        (arith, read_target-update_where key guard change same_key key table, key_eq_iff key key),
    λ k other. elim (Option-cases (read_target k table)) [
      | inl missing ↦ ground (arith, read_target-update_where key guard change same_key k table)
      | inr (u, there) ↦
          ground
            (arith, read_target-update_where key guard change same_key k table, key_eq_iff k key)
    ],
  )

  update_where_refused :
      guard t ≡ false
      → (ltb 0 (update_where key guard change table).1 ≡ false)
        × ((update_where key guard change table).0 ≡ table)
  update_where_refused g =
      let none_changed : (update_where key guard change table).1 ≡ 0 =
        ground (arith, update_where-count key guard change same_key table keyed) in
      (rw none_changed, update_where_unmatched key guard change same_key table none_changed)

-- A row without a lease.
abbrev IsReleased : Target → Type 0
IsReleased row =
    (row.lease_owner ≡ none)
    × (row.lease_token ≡ none)
    × (row.lease_acquired_at ≡ none)
    × (row.lease_expires_at ≡ none)

-- The row that a success leaves: idle, with the given progress, no failure and no lease.
abbrev pub IsIdleRow : (latest oldest : Option ℕ) → ℕ → Target → Target → Type 0
IsIdleRow latest oldest completed_at t row =
    (row.key ≡ t.key)
    × (row.priority_tier ≡ t.priority_tier)
    × (row.target_history_days ≡ t.target_history_days)
    × (row.status ≡ idle)
    × (row.latest_synced_at ≡ latest)
    × (row.oldest_synced_at ≡ oldest)
    × (row.last_success_at ≡ some completed_at)
    × (row.failure_count ≡ 0)
    × (row.last_error ≡ none)
    × (row.next_retry_at ≡ none)
    × IsReleased row

-- The row that a failure leaves: failed, with the progress that it had, one failure more, a delay
-- that doubles with each failure, and no lease.
abbrev pub IsFailedRow : ℕ → String → Target → Target → Type 0
IsFailedRow failed_at error t row =
    (row.key ≡ t.key)
    × (row.priority_tier ≡ t.priority_tier)
    × (row.target_history_days ≡ t.target_history_days)
    × (row.status ≡ failed)
    × (row.latest_synced_at ≡ t.latest_synced_at)
    × (row.oldest_synced_at ≡ t.oldest_synced_at)
    × (row.last_success_at ≡ t.last_success_at)
    × (row.failure_count ≡ t.failure_count + 1)
    × (row.last_error ≡ some error)
    × (row.next_retry_at ≡ some (failed_at + 300000 * 2 ^ t.failure_count))
    × IsReleased row

succeed_target-IsIdleRow :
    (latest oldest : Option ℕ) (now : ℕ) (t : Target)
    → IsIdleRow latest oldest now t (succeed_target latest oldest now t)
unfolding succeed_target
succeed_target-IsIdleRow latest oldest now t = ground arith

first_delay : (now n : ℕ) → some (now + 5 * 2 ^ (n + 1 - 1) * 60000) ≡ some (now + 300000 * 2 ^ n)
first_delay now n = let e : n + 1 - 1 ≡ n = omega arith in rw e (ap some (omega arith))

fail_target-IsFailedRow :
    (now : ℕ) (error : String) (t : Target)
    → IsFailedRow now error t (fail_target now error (t.failure_count + 1) t)
unfolding fail_target retry_backoff_ms
fail_target-IsFailedRow now error t = (
  refl,
  refl,
  refl,
  refl,
  refl,
  refl,
  refl,
  refl,
  refl,
  first_delay now t.failure_count,
  (refl, refl, refl, refl),
)

-- What an update leaves that is made exactly where `active` holds: the row of the key becomes what
-- is asked of it, the rows of the other keys are not changed; and where it is refused nothing is.
abbrev pub IsMarked : TargetKey → Table → (Target → Type 0) → Bool → Table × Bool → Type 0
IsMarked key table Becomes active result =
    (result.1 ≡ active)
    × (result.1 ≡ true
        → ((row : Target) × (read_target key result.0 ≡ some row) × Becomes row)
          × ((k : TargetKey) → k ≢ key → read_target k result.0 ≡ read_target k table))
    × (result.1 ≡ false → result.0 ≡ table)

module _ (key : TargetKey) (guard : Target → Bool) (change : Target → Target)
    (same_key : (t : Target) → (change t).key ≡ t.key) (table : Table) (keyed : IsKeyed table)
    (t : Target) (found : read_target key table ≡ some t) (Becomes : Target → Type 0)
    (becomes : Becomes (change t)) where
  update_where-IsMarked :
      let (marked, count) = update_where key guard change table in
      IsMarked key table Becomes (guard t) (marked, ltb 0 count)
  update_where-IsMarked = elim (Bool-cases (guard t)) [
    | inl good ↦
        let (accepted, row, others) =
          update_where_guarded key guard change same_key table keyed t found good in
        (rw good accepted, λ e. ((change t, row, becomes), others), λ e. cc (rw accepted at e))
    | inr bad ↦
        let (refused, same) =
          update_where_refused key guard change same_key table keyed t found bad in
        (rw bad refused, λ e. cc (rw refused at e), λ e. same)
  ]

module _ (key : TargetKey) (input : LeaseIdentity) (now : ℕ) (table : Table) (keyed : IsKeyed table)
    (t : Target) (found : read_target key table ≡ some t) where
  -- A success is accepted exactly where the lease of the row is active for the worker's owner and
  -- token. Accepted, it makes the row idle, with the progress, no failure and no lease, and leaves
  -- the other rows; refused, it changes nothing.
  pub mark_target_success-IsMarked :
      (latest oldest : Option ℕ)
      → IsMarked key table
          (IsIdleRow latest oldest now t)
          (is_target_lease_active key input now table)
          (mark_target_success key input latest oldest now table)
  unfolding mark_target_success is_target_lease_active succeed_target
  mark_target_success-IsMarked latest oldest = elim (Option-cases (required_lease_identity input)) [
    | inl anonymous ↦
        rw (anonymous, mark_target_success, is_target_lease_active) (refl, λ e. cc, λ e. refl)
    | inr (holder, identified) ↦
        rw (identified, mark_target_success, is_target_lease_active)
          (rw found (
            update_where-IsMarked key (is_active_lease holder.0 holder.1 now)
              (succeed_target latest oldest now) (λ u. refl) table keyed t found
              (IsIdleRow latest oldest now t) (succeed_target-IsIdleRow latest oldest now t)))
  ]

  active_matches :
      (owner token : String)
      → required_lease_identity input ≡ some (owner, token)
      → is_active_lease owner token now t ≡ true
      → has_matching_lease t input ≡ true
  unfolding required_lease_identity is_active_lease has_matching_lease
  active_matches owner token e h = ground arith

  -- A failure is accepted exactly where the lease of the row is active for the worker's owner and
  -- token. Accepted, it makes the row failed, with one failure more, no lease, and a delay before
  -- the next attempt of five minutes that doubles with each failure, and leaves the progress and
  -- the other rows; refused, it changes nothing.
  pub mark_target_failure-IsMarked :
      (error : String)
      → IsMarked key table
          (IsFailedRow now error t)
          (is_target_lease_active key input now table)
          (mark_target_failure key input now error table)
  unfolding mark_target_failure is_target_lease_active fail_target
  mark_target_failure-IsMarked error = elim (Option-cases (required_lease_identity input)) [
    | inl anonymous ↦
        rw (anonymous, mark_target_failure, is_target_lease_active) (refl, λ e. cc, λ e. refl)
    | inr (holder, identified) ↦
        let active = is_active_lease holder.0 holder.1 now in
        rw (identified, mark_target_failure, is_target_lease_active)
          (rw found (elim (Bool-cases (has_matching_lease t input)) [
            | inl matching ↦ rw matching (
                update_where-IsMarked key active (fail_target now error (t.failure_count + 1))
                  (λ u. refl) table keyed t found (IsFailedRow now error t)
                  (fail_target-IsFailedRow now error t))
            | inr other ↦
                let inactive : active t ≡ false =
                  ground (arith, active_matches holder.0 holder.1 identified) in
                rw (other, inactive) (refl, λ e. cc, λ e. refl)
          ]))
  ]

-- The row that a lease leaves is active for its owner and token until the lease ends, and can be
-- leased again from then on: at each instant exactly one of the two. For another owner or token
-- it is never active.
pub lease_target_lifetime :
    (lease : Lease) (now later ttl : ℕ) (reason : Option String) (owner token : String) (t : Target)
    → let row = lease_target lease now reason t in
      (is_active_lease lease.owner lease.token later row ≡ ltb later (now + lease.ttl_ms))
      × (is_leasable later ttl row ≡ not (is_active_lease lease.owner lease.token later row))
      × ((owner ≢ lease.owner) ⊎ (token ≢ lease.token)
          → is_active_lease owner token later row ≡ false)
unfolding lease_target is_active_lease is_leasable
lease_target_lifetime lease now later ttl reason owner token t = ground (
  arith,
  eq_iff lease.owner lease.owner,
  eq_iff lease.token lease.token,
  eq_iff lease.owner owner,
  eq_iff lease.token token,
)

-- The first failure delays the next lease by five minutes, and each further failure twice as long
-- as the one before; a row that failed can be leased exactly from the end of its delay on.
pub retry_schedule :
    (now later ttl failures : ℕ) (error : String) (t : Target)
    → (retry_backoff_ms 1 ≡ 300000)
      × (retry_backoff_ms (failures + 2) ≡ 2 * retry_backoff_ms (failures + 1))
      × (is_leasable later ttl (fail_target now error (failures + 1) t)
          ≡ leb (now + retry_backoff_ms (failures + 1)) later)
unfolding retry_backoff_ms fail_target is_leasable
retry_schedule now later ttl failures error t = (
  refl,
  let e : failures + 2 - 1 ≡ suc failures = omega arith in
      let f : failures + 1 - 1 ≡ failures = omega arith in rw (e, f, pow-suc) (omega arith),
  refl,
)
