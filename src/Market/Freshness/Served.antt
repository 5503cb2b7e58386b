-- ===== src/Market/Freshness/Served.antt =====
-- When src/modules/market-freshness.ts serves a snapshot.
use opengecko.Prelude.{
  Option, ℕ, ◌+◌, ◌*◌, ◌≡◌, refl, Bool, true, false, not, none, some, Option-cases, inl, inr, ltb,
  if◌then◌else◌, arith,
}
use opengecko.Market.Freshness.{
  RuntimeTimestamp, date, invalid_date, number, not_finite, normalize_number,
  normalize_runtime_timestamp, coerce_runtime_timestamp, Snapshot,
  normalize_runtime_snapshot_timestamp, is_live_snapshot, SnapshotAccessPolicy,
  snapshot_age_seconds, is_stale_snapshot, usable_snapshot, get_usable_snapshot,
}

-- A time stamp that was normalised is a time stamp in milliseconds, and normalising it again
-- changes nothing.
coerce-again :
    (t : RuntimeTimestamp) (u : ℕ)
    → coerce_runtime_timestamp t ≡ some u
    → (coerce_runtime_timestamp (date u) ≡ some u)
unfolding coerce_runtime_timestamp normalize_runtime_timestamp normalize_number
coerce-again (date t) u e = ground arith
coerce-again (number t) u e = ground arith
coerce-again invalid_date u e = ground arith
coerce-again not_finite u e = ground arith

stale_iff :
    (s : Snapshot) (u threshold now : ℕ)
    → coerce_runtime_timestamp s.last_updated ≡ some u
    → is_stale_snapshot s threshold now
      ≡ (if ltb now (u + (threshold + 1) * 1000) then false else true)
unfolding is_stale_snapshot snapshot_age_seconds
stale_iff s u threshold now e = ground arith

-- Whether a snapshot with that time stamp may be served at an instant.
abbrev may_serve : Snapshot → (u threshold : ℕ) → SnapshotAccessPolicy → ℕ → Bool
may_serve s u threshold policy now =
    if is_live_snapshot s
    then if policy.policy_allow_stale then true else ltb now (u + (threshold + 1) * 1000)
    else not policy.policy_sync_completed

usable-may_serve :
    (s : Snapshot) (u threshold : ℕ) (policy : SnapshotAccessPolicy) (now : ℕ)
    → coerce_runtime_timestamp s.last_updated ≡ some u
    → usable_snapshot s threshold policy now
      ≡ (if may_serve s u threshold policy now then some s else none)
unfolding usable_snapshot
usable-may_serve s u threshold policy now e = ground (arith, stale_iff s u threshold now e)

-- What is served of a snapshot whose time stamp was read.
abbrev pub served : Snapshot → Option ℕ → ℕ → SnapshotAccessPolicy → ℕ → Option Snapshot
served s none threshold policy now = none
served s (some u) threshold policy now =
    if may_serve s u threshold policy now then some (record s { last_updated = date u }) else none

-- A live snapshot is served until its age is a whole second over the threshold, and later only
-- where stale ones are allowed; a seeded one only before the initial sync is completed; one whose
-- time stamp cannot be read never. What is served carries the time stamp in milliseconds.
pub get_usable_snapshot-served :
    (s : Snapshot) (threshold : ℕ) (policy : SnapshotAccessPolicy) (now : ℕ)
    → get_usable_snapshot (some s) threshold policy now
      ≡ served s (coerce_runtime_timestamp s.last_updated) threshold policy now
unfolding get_usable_snapshot normalize_runtime_snapshot_timestamp
get_usable_snapshot-served s threshold policy now =
    elim (Option-cases (coerce_runtime_timestamp s.last_updated)) [
      | inl e ↦ rw (e, get_usable_snapshot) refl
      | inr (u, e) ↦
          rw (e, get_usable_snapshot)
            (usable-may_serve (record s { last_updated = date u }) u threshold policy now
              (coerce-again s.last_updated u e))
    ]
