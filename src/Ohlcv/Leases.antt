-- ===== src/Ohlcv/Leases.antt =====
-- src/services/ohlcv-worker-state.ts: the leases of the OHLCV workers, kept in the rows of their
-- table. Where the source subtracts a span from an instant, the model adds the
-- span on the other side.
pub mod Guards
pub mod Selection
pub mod Marks
pub mod Held
mod Tests
use Prim.Native.Nat.{compare, Ordering}
use opengecko.Prelude.{
  ℕ, zero, suc, ◌+◌, ◌-◌, ◌*◌, ◌^◌, String, Bool, true, false, not, ◌&&◌, ◌||◌, Option, none, some,
  List, [], ◌∷◌, ◌++◌, length, ltb, leb, str_eq, is_some, if◌then◌else◌,
}
use opengecko.Prelude.Sorting.{sort, then_by}
use opengecko.Ohlcv.{
  PriorityTier, top100, requested, long_tail, TargetStatus, idle, running, failed, TargetKey,
  Target, key_eq,
}
use opengecko.Ohlcv.Table.{Table, read_target, update_where, without}
use opengecko.Ohlcv.Policy.{is_lease_expired, is_retry_due, select_next_lease_target}

-- A field that is absent (`undefined`) is none; one that is null is some none.
pub record LeaseIdentity : Type 0 where
  pub lease_owner : Option (Option String)
  pub lease_token : Option (Option String)

abbrev option_eq : Option String → Option String → Bool
option_eq none none = true
option_eq (some a) (some b) = str_eq a b
option_eq none (some b) = false
option_eq (some a) none = false

abbrev agrees : Option String → Option (Option String) → Bool
agrees held none = true
agrees held (some wanted) = option_eq held wanted

pub has_matching_lease : Target → LeaseIdentity → Bool
has_matching_lease row input =
    agrees row.lease_token input.lease_token && agrees row.lease_owner input.lease_owner

abbrev required_text : Option (Option String) → Option String
required_text (some (some t)) = if str_eq t "" then none else some t
required_text (some none) = none
required_text none = none

-- The owner and the token, where both are texts that are not empty.
pub required_lease_identity : LeaseIdentity → Option (String × String)
required_lease_identity input = elim (required_text input.lease_owner) [
  | none ↦ none
  | some owner ↦ elim (required_text input.lease_token) [
    | none ↦ none
    | some token ↦ some (owner, token)
  ]
]

abbrev is_running : TargetStatus → Bool
is_running running = true
is_running idle = false
is_running failed = false

abbrev expires_after : Option ℕ → ℕ → Bool
expires_after none now = false
expires_after (some t) now = ltb now t

-- The condition of `activeLeaseWhere` on the row of the key.
pub is_active_lease : (owner token : String) → ℕ → Target → Bool
is_active_lease owner token active_at t =
    is_running t.status
    && option_eq t.lease_owner (some owner)
    && option_eq t.lease_token (some token)
    && expires_after t.lease_expires_at active_at

pub classify_lease_recovery_reason : Target → ℕ → ℕ → Option String
classify_lease_recovery_reason target now lease_ttl_ms =
    if not (is_running target.status) || not (is_lease_expired target now lease_ttl_ms)
    then none
    else if is_some target.lease_expires_at
    then some "expired_lease_deadline"
    else if is_some target.last_attempt_at
    then some "legacy_running_without_deadline"
    else some "running_without_attempt_or_deadline"

-- Who leases, and for how long.
pub record Lease : Type 0 where
  pub owner : String
  pub token : String
  pub ttl_ms : ℕ

-- The condition of the `UPDATE` of `leaseNextOhlcvTarget` on the row of the key.
abbrev leasable_in : TargetStatus → Target → ℕ → ℕ → Bool
leasable_in idle t now ttl_ms = is_retry_due t.next_retry_at now
leasable_in failed t now ttl_ms = is_retry_due t.next_retry_at now
leasable_in running t now ttl_ms = elim t.lease_expires_at [
  | some expires ↦ leb expires now
  | none ↦ elim t.last_attempt_at [ none ↦ true | some attempt ↦ leb (attempt + ttl_ms) now ]
]

pub is_leasable : ℕ → ℕ → Target → Bool
is_leasable now ttl_ms t = leasable_in t.status t now ttl_ms

-- Its assignments; `reason` is that of the row which was selected.
pub lease_target : Lease → ℕ → Option String → Target → Target
lease_target lease now reason t = record t {
  status = running;
  lease_owner = some lease.owner;
  lease_token = some lease.token;
  lease_acquired_at = some now;
  lease_expires_at = some (now + lease.ttl_ms);
  last_attempt_at = some now;
  updated_at = now;
  lease_recovery_count =
      if is_running t.status then t.lease_recovery_count + 1 else t.lease_recovery_count;
  last_lease_recovered_at =
      if is_running t.status
      then if is_some reason then some now else none
      else t.last_lease_recovered_at;
  last_lease_recovery_reason = if is_running t.status then reason else t.last_lease_recovery_reason;
}

-- The rows that the first `SELECT` returns: those that may be due, and those that are running.
abbrev candidate_in : TargetStatus → Target → ℕ → Bool
candidate_in idle t now = is_retry_due t.next_retry_at now
candidate_in failed t now = is_retry_due t.next_retry_at now
candidate_in running t now = true

candidates_from : ℕ → Table → Table
candidates_from now [] = []
candidates_from now (t ∷ ts) =
    let rest = candidates_from now ts in if candidate_in t.status t now then t ∷ rest else rest

-- An ascending order has the nulls first.
abbrev compare_nullable : Option ℕ → Option ℕ → Ordering
compare_nullable none none = Ordering.eq
compare_nullable none (some b) = Ordering.lt
compare_nullable (some a) none = Ordering.gt
compare_nullable (some a) (some b) = compare a b

select_candidates : ℕ → Table → Table
unfolding candidates_from
select_candidates now table =
    sort
      (λ l r.
        then_by (compare_nullable l.last_success_at r.last_success_at)
          (compare l.updated_at r.updated_at))
      (candidates_from now table)

module _ (locale_compare : String → String → Ordering) where
  -- The loop of `leaseNextOhlcvTarget`, on fuel for the rounds; the table is that of the updates.
  pub lease_from : ℕ → Lease → ℕ → Table → Table → Table × Option Target
  lease_from zero lease now candidates table = (table, none)
  lease_from (suc fuel) lease now candidates table =
      elim (select_next_lease_target locale_compare candidates now lease.ttl_ms) [
        | none ↦ (table, none)
        | some selected ↦
            let reason = classify_lease_recovery_reason selected now lease.ttl_ms in
            let (leased, changed) =
              update_where selected.key (is_leasable now lease.ttl_ms)
                (lease_target lease now reason) table in
            let later = lease_from fuel lease now (without selected.key candidates) table in
            if ltb 0 changed then (leased, read_target selected.key leased) else later
      ]

  pub lease_next_target : Lease → ℕ → Table → Table × Option Target
  unfolding lease_from select_candidates
  lease_next_target lease now table =
      let candidates = select_candidates now table in
      lease_from (length candidates) lease now candidates table

pub is_target_lease_active : TargetKey → LeaseIdentity → ℕ → Table → Bool
unfolding required_lease_identity is_active_lease
is_target_lease_active key input active_at table = elim (required_lease_identity input) [
  | none ↦ false
  | some (owner, token) ↦ elim (read_target key table) [
    | none ↦ false
    | some t ↦ is_active_lease owner token active_at t
  ]
]

pub succeed_target : (latest oldest : Option ℕ) → ℕ → Target → Target
succeed_target latest oldest completed_at t = record t {
  status = idle;
  latest_synced_at = latest;
  oldest_synced_at = oldest;
  last_success_at = some completed_at;
  last_error = none;
  failure_count = 0;
  next_retry_at = none;
  lease_owner = none;
  lease_token = none;
  lease_acquired_at = none;
  lease_expires_at = none;
  updated_at = completed_at;
}

pub mark_target_success :
    TargetKey → LeaseIdentity → (latest oldest : Option ℕ) → ℕ → Table → Table × Bool
unfolding required_lease_identity
mark_target_success key input latest oldest completed_at table =
    elim (required_lease_identity input) [
      | none ↦ (table, false)
      | some (owner, token) ↦
          let (marked, changed) =
            update_where key (is_active_lease owner token completed_at)
              (succeed_target latest oldest completed_at) table in
          (marked, ltb 0 changed)
    ]

pub retry_backoff_ms : ℕ → ℕ
retry_backoff_ms failure_count = 5 * 2 ^ (failure_count - 1) * 60000

pub fail_target : ℕ → String → ℕ → Target → Target
unfolding retry_backoff_ms
fail_target failed_at error failure_count t = record t {
  status = failed;
  last_error = some error;
  failure_count = failure_count;
  next_retry_at = some (failed_at + retry_backoff_ms failure_count);
  lease_owner = none;
  lease_token = none;
  lease_acquired_at = none;
  lease_expires_at = none;
  updated_at = failed_at;
}

pub mark_target_failure : TargetKey → LeaseIdentity → ℕ → String → Table → Table × Bool
unfolding required_lease_identity
mark_target_failure key input failed_at error table = elim (required_lease_identity input) [
  | none ↦ (table, false)
  | some (owner, token) ↦ elim (read_target key table) [
    | none ↦ (table, false)
    | some current ↦
        let (marked, changed) =
          update_where key (is_active_lease owner token failed_at)
            (fail_target failed_at error (current.failure_count + 1)) table in
        if has_matching_lease current input then (marked, ltb 0 changed) else (table, false)
  ]
]
