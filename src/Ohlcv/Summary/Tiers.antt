-- ===== src/Ohlcv/Summary/Tiers.antt =====
-- What the report of src/services/ohlcv-runtime.ts says of a tier, and of the queue.
use Prim.Native.Nat.{Ordering}
use opengecko.Prelude.{
  ℕ, ◌+◌, ◌≡◌, ◌↔◌, refl, sym, String, Bool, true, false, [], ◌∷◌, All, none, some, ltb, Bool-cases,
  inl, inr, if◌then◌else◌, arith,
}
use opengecko.Prelude.Sorting.{IsComparison}
use opengecko.Ohlcv.{PriorityTier, top100, requested, long_tail, Target, TargetKey, key_eq}
use opengecko.Ohlcv.Policy.{remaining_depth_days, is_target_lease_eligible, default_lease_ttl_ms}
use opengecko.Ohlcv.Table.{Table, read_target}
use opengecko.Ohlcv.Table.Laws.{IsKeyed}
use opengecko.Ohlcv.Tiers.{tier_eq}
use opengecko.Ohlcv.Leases.{Lease, lease_next_target}
use opengecko.Ohlcv.Leases.Selection.{lease_next_target-first}
use opengecko.Ohlcv.Summary.{
  complete, DepthCounts, classify_tier_slo_status, Counts, Summary, empty_summary, when,
  count_queue, count_target, count_row, summarize_from, summarize_ohlcv_sync_status,
}
use opengecko.Ohlcv.Summary.Balance.{depth-step}

abbrev pub counts_of : PriorityTier → Summary → Counts
counts_of top100 s = s.of_top100
counts_of requested s = s.of_requested
counts_of long_tail s = s.of_long_tail

abbrev behind_count : Counts → ℕ
behind_count c = c.depth.catching_up_count + c.depth.blocked_count

behind-step :
    (tier : PriorityTier) (now : ℕ) (row : Target) (s : Summary)
    → behind_count (counts_of tier (count_row now row s))
      ≡ behind_count (counts_of tier s)
        + (if tier_eq row.priority_tier tier
            then when (ltb 0 (remaining_depth_days row now))
            else 0)
unfolding count_row count_target
behind-step top100 now row s =
    ground (arith, depth-step (remaining_depth_days row now) row.status s.of_top100.depth)
behind-step requested now row s =
    ground (arith, depth-step (remaining_depth_days row now) row.status s.of_requested.depth)
behind-step long_tail now row s =
    ground (arith, depth-step (remaining_depth_days row now) row.status s.of_long_tail.depth)

abbrev IsDeepIn : PriorityTier → ℕ → Target → Type 0
IsDeepIn tier now row = tier_eq row.priority_tier tier ≡ true → remaining_depth_days row now ≡ 0

behind_none_iff :
    (tier : PriorityTier) (now : ℕ) (rows : Table) (s : Summary)
    → (behind_count (counts_of tier (summarize_from now rows s)) ≡ 0)
      ↔ ((behind_count (counts_of tier s) ≡ 0) × All (IsDeepIn tier now) rows)
unfolding summarize_from
behind_none_iff tier now [] s = (λ e. (e, tt), λ h. h.0)
behind_none_iff tier now (row ∷ rows) s =
    let (to, from) = behind_none_iff tier now rows (count_row now row s) in
    let step = behind-step tier now row s in
    (
      λ e. let (h, a) = to e in (ground arith, ((λ same. ground arith), a)),
      λ h. from (ground arith, h.1.1),
    )

classify_tier_iff :
    (c : DepthCounts)
    → (classify_tier_slo_status c ≡ complete) ↔ (c.catching_up_count + c.blocked_count ≡ 0)
unfolding classify_tier_slo_status
classify_tier_iff c = ground arith

none_behind : (tier : PriorityTier) → behind_count (counts_of tier empty_summary) ≡ 0
none_behind top100 = refl
none_behind requested = refl
none_behind long_tail = refl

no_when : (b : Bool) → when b ≡ 0 → b ≡ false
no_when b e = ground arith

abbrev pub IsTierComplete : PriorityTier → Table → ℕ → Type 0
IsTierComplete tier rows now =
    (classify_tier_slo_status (counts_of tier (summarize_ohlcv_sync_status rows now)).depth
      ≡ complete)
    ↔ All (λ row. tier_eq row.priority_tier tier ≡ true → remaining_depth_days row now ≡ 0) rows

-- A tier is reported as complete exactly where each of its targets has all the history that it
-- wants.
pub classify_tier_slo_status_iff :
    (tier : PriorityTier) (rows : Table) (now : ℕ) → IsTierComplete tier rows now
unfolding summarize_ohlcv_sync_status
classify_tier_slo_status_iff tier rows now =
    let (to, from) = behind_none_iff tier now rows empty_summary in
    let slo = classify_tier_iff (counts_of tier (summarize_from now rows empty_summary)).depth in
    (λ e. (to (slo.0 e)).1, λ a. slo.1 (from (none_behind tier, a)))

abbrev pub eligible_count : Summary → ℕ
eligible_count s = s.totals.queue.eligible_for_lease

eligible-step :
    (now : ℕ) (row : Target) (s : Summary)
    → eligible_count (count_row now row s)
      ≡ eligible_count s + when (is_target_lease_eligible row now default_lease_ttl_ms)
unfolding count_row count_target count_queue
eligible-step now row s = refl

eligible_none_iff :
    (now : ℕ) (rows : Table) (s : Summary)
    → (eligible_count (summarize_from now rows s) ≡ 0) ↔ (
        (eligible_count s ≡ 0)
        × All (λ row. is_target_lease_eligible row now default_lease_ttl_ms ≡ false) rows)
unfolding summarize_from
eligible_none_iff now [] s = (λ e. (e, tt), λ h. h.0)
eligible_none_iff now (row ∷ rows) s =
    let (to, from) = eligible_none_iff now rows (count_row now row s) in
    let step = eligible-step now row s in
    (
      λ e.
          let (h, a) = to e in
          (
            omega (arith, h, step),
            (
              no_when (is_target_lease_eligible row now default_lease_ttl_ms)
                  (omega (arith, h, step)),
              a,
            ),
          ),
      λ h. from (ground (arith, step, h), h.1.1),
    )

All-read_target :
    (P : Target → Type 0) (k : TargetKey) (t : Target) (rows : Table)
    → All P rows
    → read_target k rows ≡ some t
    → P t
unfolding read_target
All-read_target P k t [] a e = cc
All-read_target P k t (u ∷ rows) a e = elim (Bool-cases (key_eq u.key k)) [
  | inl same ↦ ground arith
  | inr other ↦ All-read_target P k t rows a.1 (ground arith)
]

-- The report counts no target as eligible for a lease exactly where a worker of the default lease
-- finds none at that moment.
pub eligible_for_lease_iff :
    (locale_compare : String → String → Ordering) (law : IsComparison locale_compare)
    (lease : Lease) (now : ℕ) (rows : Table)
    → IsKeyed rows
    → lease.ttl_ms ≡ default_lease_ttl_ms
    → (eligible_count (summarize_ohlcv_sync_status rows now) ≡ 0)
      ↔ (lease_next_target locale_compare lease now rows ≡ (rows, none))
unfolding summarize_ohlcv_sync_status
eligible_for_lease_iff locale_compare law lease now rows keyed default =
    let (to, from) = eligible_none_iff now rows empty_summary in
    elim (lease_next_target-first locale_compare law lease now rows keyed) [
      | inl (nothing, none_good) ↦ (λ e. nothing, λ e. from (refl, rw default at none_good))
      | inr (t, there, good, before, leased, written, others) ↦ (
        λ e. cc (
            rw (sym default, good) at
              (All-read_target (λ u. is_target_lease_eligible u now default_lease_ttl_ms ≡ false)
                t.key t rows (to e).1 there)),
        λ e. cc (rw e at leased),
      )
    ]
