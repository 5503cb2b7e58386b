-- ===== src/Ohlcv/Tiers/Laws.antt =====
-- What the refresh of the tiers in src/services/ohlcv-priority.ts leaves.
use opengecko.Prelude.{
  ℕ, String, ◌≡◌, ◌≢◌, refl, true, false, none, some, List, [], ◌∷◌, Bool-cases, Option-cases, inl,
  inr, if◌then◌else◌, arith,
}
use opengecko.Ohlcv.{
  PriorityTier, top100, requested, long_tail, TargetKey, Target, key_eq, key_eq_iff,
}
use opengecko.Ohlcv.Table.{Table, read_target, update_where}
use opengecko.Ohlcv.Table.Laws.{IsKeyed, read_target-update_where, update_where-IsKeyed}
use opengecko.Ohlcv.Tiers.{
  has_coin, tier_eq, next_priority_tier, set_tier, refresh_rows, refresh_ohlcv_priority_tiers,
}

-- The row with the tier of its coin's rank.
unfoldable pub retiered : List String → ℕ → Target → Target
retiered top now t =
    let tier = next_priority_tier top t in
    if tier_eq t.priority_tier tier then t else set_tier tier now t

module _ (top : List String) (now : ℕ) where
  abbrev refresh_row : Target → Table → Table
  refresh_row row table =
      let tier = next_priority_tier top row in
      if tier_eq row.priority_tier tier
      then table
      else (update_where row.key (λ t. true) (set_tier tier now) table).0

  set_tier-key : (tier : PriorityTier) (t : Target) → (set_tier tier now t).key ≡ t.key
  unfolding set_tier
  set_tier-key tier t = refl

  refresh_row-other :
      (row : Target) (k : TargetKey) (table : Table)
      → key_eq row.key k ≡ false
      → read_target k (refresh_row row table) ≡ read_target k table
  refresh_row-other row k table e = elim (Option-cases (read_target k table)) [
    | inl missing ↦ ground (
      arith,
      key_eq_iff row.key k,
      key_eq_iff k row.key,
      read_target-update_where row.key (λ t. true) (set_tier (next_priority_tier top row) now)
          (set_tier-key (next_priority_tier top row)) k table,
    )
    | inr (t, there) ↦ ground (
      arith,
      key_eq_iff row.key k,
      key_eq_iff k row.key,
      read_target-update_where row.key (λ t. true) (set_tier (next_priority_tier top row) now)
          (set_tier-key (next_priority_tier top row)) k table,
    )
  ]

  refresh_row-same :
      (row : Target) (table : Table)
      → read_target row.key table ≡ some row
      → read_target row.key (refresh_row row table) ≡ some (retiered top now row)
  unfolding retiered
  refresh_row-same row table e = ground (
    arith,
    key_eq_iff row.key row.key,
    read_target-update_where row.key (λ t. true) (set_tier (next_priority_tier top row) now)
        (set_tier-key (next_priority_tier top row)) row.key table,
  )

  refresh_row-IsKeyed :
      (row : Target) (table : Table) → IsKeyed table → IsKeyed (refresh_row row table)
  refresh_row-IsKeyed row table d = ground (
    arith,
    update_where-IsKeyed row.key (λ t. true) (set_tier (next_priority_tier top row) now)
        (set_tier-key (next_priority_tier top row)) table d,
  )

  refresh_rows-IsKeyed :
      (rows table : Table) → IsKeyed table → IsKeyed (refresh_rows top now rows table)
  unfolding refresh_rows
  refresh_rows-IsKeyed [] table d = d
  refresh_rows-IsKeyed (row ∷ rows) table d =
      refresh_rows-IsKeyed rows (refresh_row row table) (refresh_row-IsKeyed row table d)

  refresh_rows-absent :
      (rows table : Table) (k : TargetKey)
      → read_target k rows ≡ none
      → read_target k (refresh_rows top now rows table) ≡ read_target k table
  unfolding refresh_rows read_target
  refresh_rows-absent [] table k e = refl
  refresh_rows-absent (row ∷ rows) table k e = elim (Bool-cases (key_eq row.key k)) [
    | inl same ↦ ground arith
    | inr other ↦ ground (
      arith,
      refresh_rows-absent rows (refresh_row row table) k,
      refresh_row-other row k table other,
    )
  ]

  refresh_rows-present :
      (rows table : Table) (k : TargetKey) (t : Target)
      → IsKeyed rows
      → read_target k rows ≡ some t
      → read_target k table ≡ some t
      → read_target k (refresh_rows top now rows table) ≡ some (retiered top now t)
  unfolding refresh_rows read_target
  refresh_rows-present [] table k t d e f = cc
  refresh_rows-present (row ∷ rows) table k t d e f = elim (Bool-cases (key_eq row.key k)) [
    | inl same ↦
        let key : row.key ≡ k = ground (arith, key_eq_iff row.key k) in
        let row_t : row ≡ t = ground arith in
        ground (
          arith,
          refresh_rows-absent rows (refresh_row row table) row.key d.0,
          refresh_row-same row table,
        )
    | inr other ↦ ground (
      arith,
      refresh_rows-present rows (refresh_row row table) k t d.1,
      refresh_row-other row k table other,
    )
  ]

  retiered-tier : (t : Target) → (retiered top now t).priority_tier ≡ next_priority_tier top t
  unfolding retiered set_tier
  retiered-tier t = ground arith

  -- What the refresh keeps of a row, whoever holds it.
  abbrev pub KeepsWork : Target → Target → Type 0
  KeepsWork t u =
      (u.key ≡ t.key)
      × (u.status ≡ t.status)
      × (u.lease_owner ≡ t.lease_owner)
      × (u.lease_token ≡ t.lease_token)
      × (u.lease_expires_at ≡ t.lease_expires_at)
      × (u.next_retry_at ≡ t.next_retry_at)
      × (u.latest_synced_at ≡ t.latest_synced_at)
      × (u.oldest_synced_at ≡ t.oldest_synced_at)

  retiered-KeepsWork : (t : Target) → KeepsWork t (retiered top now t)
  unfolding retiered set_tier
  retiered-KeepsWork t = ground arith

  pub refresh_ohlcv_priority_tiers-IsKeyed :
      (table : Table) → IsKeyed table → IsKeyed (refresh_ohlcv_priority_tiers top now table)
  unfolding refresh_ohlcv_priority_tiers
  refresh_ohlcv_priority_tiers-IsKeyed table d = refresh_rows-IsKeyed table table d

  -- The refresh gives each row the tier top100 where its coin is among the top ones, and else
  -- long_tail, also where the row was requested; it keeps one row for each key, and the row's
  -- lease, status, retry and progress.
  pub refresh_ohlcv_priority_tiers-tier :
      (table : Table) (k : TargetKey) (t : Target)
      → IsKeyed table
      → read_target k table ≡ some t
      → IsKeyed (refresh_ohlcv_priority_tiers top now table)
        × ((u : Target) × (read_target k (refresh_ohlcv_priority_tiers top now table) ≡ some u)
            × (u.priority_tier ≡ (if has_coin t.key.coin_id top then top100 else long_tail))
            × (u.priority_tier ≢ requested)
            × KeepsWork t u)
  unfolding refresh_ohlcv_priority_tiers
  refresh_ohlcv_priority_tiers-tier table k t d e = (
    refresh_rows-IsKeyed table table d,
    (
      retiered top now t,
      refresh_rows-present table table k t d e e,
      retiered-tier t,
      ground (arith, retiered-tier t),
      retiered-KeepsWork t,
    ),
  )

  -- After the refresh no row is requested.
  pub refresh_ohlcv_priority_tiers-unrequested :
      (table : Table) (k : TargetKey) (u : Target)
      → IsKeyed table
      → read_target k (refresh_ohlcv_priority_tiers top now table) ≡ some u
      → u.priority_tier ≢ requested
  unfolding refresh_ohlcv_priority_tiers
  refresh_ohlcv_priority_tiers-unrequested table k u d e =
      elim (Option-cases (read_target k table)) [
        | inl missing ↦ ground (arith, refresh_rows-absent table table k missing)
        | inr (t, there) ↦
            let (keyed, (v, found, tier, other, rest)) =
              refresh_ohlcv_priority_tiers-tier table k t d there in
            ground arith
      ]
