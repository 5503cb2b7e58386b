-- ===== src/Ohlcv/Seeds/Laws.antt =====
-- What the registration of targets in src/services/ohlcv-worker-state.ts keeps.
use opengecko.Prelude.{
  ℕ, ◌≤◌, ◌≡◌, refl, Option, none, some, List, [], ◌∷◌, Bool-cases, Option-cases, All, inl, inr,
  if◌then◌else◌, arith,
}
use opengecko.Ohlcv.{
  PriorityTier, top100, requested, long_tail, TargetKey, Target, key_eq, key_eq_iff,
}
use opengecko.Ohlcv.Policy.{priority_rank}
use opengecko.Ohlcv.Table.{Table, read_target}
use opengecko.Ohlcv.Table.Laws.{IsKeyed}
use opengecko.Ohlcv.Seeds.{
  TargetSeed, seed_key, merge_tier, fresh_target, merge_seed, upsert_target, upsert_sync_targets,
}

merge_tier-rank :
    (a b : PriorityTier)
    → (priority_rank (merge_tier a b) ≤ priority_rank a)
      × (priority_rank (merge_tier a b) ≤ priority_rank b)
unfolding merge_tier
merge_tier-rank top100 b = ground arith
merge_tier-rank requested b = ground arith
merge_tier-rank long_tail b = ground arith

abbrev merged : TargetSeed → ℕ → Option Target → Target
merged seed now none = fresh_target seed now
merged seed now (some t) = merge_seed seed now t

read_target-upsert_target :
    (seed : TargetSeed) (now : ℕ) (k : TargetKey) (table : Table)
    → read_target k (upsert_target seed now table) ≡ (
        if key_eq (seed_key seed) k
        then some (merged seed now (read_target k table))
        else read_target k table)
unfolding upsert_target read_target fresh_target merge_seed
read_target-upsert_target seed now k [] = ground arith
read_target-upsert_target seed now k (t ∷ ts) = ground (
  arith,
  read_target-upsert_target seed now k ts,
  key_eq_iff t.key k,
  key_eq_iff t.key (seed_key seed),
  key_eq_iff (seed_key seed) k,
)

upsert_target-IsKeyed :
    (seed : TargetSeed) (now : ℕ) (table : Table)
    → IsKeyed table
    → IsKeyed (upsert_target seed now table)
unfolding upsert_target merge_seed read_target
upsert_target-IsKeyed seed now [] d = (refl, tt)
upsert_target-IsKeyed seed now (t ∷ ts) d = ground (
  arith,
  upsert_target-IsKeyed seed now ts d.1,
  read_target-upsert_target seed now t.key ts,
  key_eq_iff t.key (seed_key seed),
  key_eq_iff (seed_key seed) t.key,
)

-- What a row keeps whatever is registered: its lease, its status, its retry and its progress; and
-- its tier is never lowered.
pub record Keeps (old new : Target) : Type 0 where
  pub key : new.key ≡ old.key
  pub status : new.status ≡ old.status
  pub owner : new.lease_owner ≡ old.lease_owner
  pub token : new.lease_token ≡ old.lease_token
  pub expiry : new.lease_expires_at ≡ old.lease_expires_at
  pub retry : new.next_retry_at ≡ old.next_retry_at
  pub failures : new.failure_count ≡ old.failure_count
  pub latest : new.latest_synced_at ≡ old.latest_synced_at
  pub oldest : new.oldest_synced_at ≡ old.oldest_synced_at
  pub tier : priority_rank new.priority_tier ≤ priority_rank old.priority_tier

upsert_target-Keeps :
    (seed : TargetSeed) (now : ℕ) (k : TargetKey) (table : Table) (t : Target)
    → read_target k table ≡ some t
    → (u : Target) × (read_target k (upsert_target seed now table) ≡ some u) × Keeps t u
unfolding merge_seed
upsert_target-Keeps seed now k table t found = elim (Bool-cases (key_eq (seed_key seed) k)) [
  | inl same ↦ (
    merge_seed seed now t,
    ground (arith, read_target-upsert_target seed now k table),
    record {
      key = refl;
      status = refl;
      owner = refl;
      token = refl;
      expiry = refl;
      retry = refl;
      failures = refl;
      latest = refl;
      oldest = refl;
      tier = (merge_tier-rank t.priority_tier seed.priority_tier).0;
    },
  )
  | inr other ↦ (t, ground (arith, read_target-upsert_target seed now k table), ground arith)
]

Keeps-trans : (a b c : Target) → Keeps a b → Keeps b c → Keeps a c
Keeps-trans a b c h k = ground (arith, h, k)

-- Registering targets leaves one row for each key. A row that was there keeps its lease, its
-- status, its retry and its progress, whoever holds it, and its tier is never lowered.
pub upsert_sync_targets-Keeps :
    (seeds : List TargetSeed) (now : ℕ) (k : TargetKey) (table : Table) (t : Target)
    → IsKeyed table
    → read_target k table ≡ some t
    → IsKeyed (upsert_sync_targets seeds now table)
      × ((u : Target) × (read_target k (upsert_sync_targets seeds now table) ≡ some u) × Keeps t u)
unfolding upsert_sync_targets
upsert_sync_targets-Keeps [] now k table t keyed found = (keyed, (t, found, ground arith))
upsert_sync_targets-Keeps (seed ∷ seeds) now k table t keyed found =
    let (u, found_u, h) = upsert_target-Keeps seed now k table t found in
    let (rest, (v, found_v, g)) =
      upsert_sync_targets-Keeps seeds now k (upsert_target seed now table) u
        (upsert_target-IsKeyed seed now table keyed) found_u in
    (rest, (v, found_v, Keeps-trans t u v h g))

pub upsert_sync_targets-IsKeyed :
    (seeds : List TargetSeed) (now : ℕ) (table : Table)
    → IsKeyed table
    → IsKeyed (upsert_sync_targets seeds now table)
unfolding upsert_sync_targets
upsert_sync_targets-IsKeyed [] now table d = d
upsert_sync_targets-IsKeyed (seed ∷ seeds) now table d =
    upsert_sync_targets-IsKeyed seeds now (upsert_target seed now table)
      (upsert_target-IsKeyed seed now table d)

upsert_target-present :
    (seed : TargetSeed) (now : ℕ) (table : Table)
    → (u : Target) × (read_target (seed_key seed) (upsert_target seed now table) ≡ some u)
upsert_target-present seed now table =
    elim (Option-cases (read_target (seed_key seed) (upsert_target seed now table))) [
      | inr found ↦ found
      | inl missing ↦ absurd (
          ground (
            arith,
            read_target-upsert_target seed now (seed_key seed) table,
            key_eq_iff (seed_key seed) (seed_key seed),
          ))
    ]

-- A target that is registered has a row.
pub upsert_sync_targets-present :
    (seeds : List TargetSeed) (now : ℕ) (table : Table)
    → IsKeyed table
    → All
        (λ seed.
          (v : Target) × (read_target (seed_key seed) (upsert_sync_targets seeds now table)
            ≡ some v))
        seeds
unfolding upsert_sync_targets
upsert_sync_targets-present [] now table keyed = tt
upsert_sync_targets-present (seed ∷ seeds) now table keyed =
    let keyed' = upsert_target-IsKeyed seed now table keyed in
    let (u, there) = upsert_target-present seed now table in
    let (still, (v, here, kept)) =
      upsert_sync_targets-Keeps seeds now (seed_key seed) (upsert_target seed now table) u keyed'
        there in
    ((v, here), upsert_sync_targets-present seeds now (upsert_target seed now table) keyed')
