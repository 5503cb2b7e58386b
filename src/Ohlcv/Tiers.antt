-- ===== src/Ohlcv/Tiers.antt =====
-- src/services/ohlcv-priority.ts: the tiers of the targets by market capitalisation.
pub mod Laws
use Prim.Native.Nat.{compare, Ordering}
use opengecko.Prelude.{
  ℕ, String, Bool, true, false, ◌&&◌, Option, none, some, List, [], ◌∷◌, map, take, leb, str_eq,
  if◌then◌else◌,
}
use opengecko.Prelude.Sorting.{sort, then_by}
use opengecko.Ohlcv.{PriorityTier, top100, requested, long_tail, Target}
use opengecko.Ohlcv.Table.{Table, update_where}

-- The columns of `marketSnapshots` that are read.
pub record MarketSnapshot : Type 0 where
  pub coin_id : String
  pub vs_currency : String
  pub market_cap_rank : Option ℕ

-- `null <= limit` is not true.
abbrev rank_within : ℕ → Option ℕ → Bool
rank_within limit none = false
rank_within limit (some rank) = leb rank limit

abbrev rank_of : MarketSnapshot → ℕ
rank_of s = elim s.market_cap_rank [ none ↦ 0 | some rank ↦ rank ]

unfoldable pub ranked_snapshots : ℕ → List MarketSnapshot → List MarketSnapshot
ranked_snapshots limit [] = []
ranked_snapshots limit (s ∷ ss) =
    let rest = ranked_snapshots limit ss in
    if str_eq s.vs_currency "usd" && rank_within limit s.market_cap_rank then s ∷ rest else rest

-- `text_compare` is the order of the texts in the database.
unfoldable pub select_top_ohlcv_coins :
    (String → String → Ordering) → List MarketSnapshot → ℕ → List String
unfolding ranked_snapshots
select_top_ohlcv_coins text_compare snapshots limit =
    map (λ s. s.coin_id)
      (take limit (
        sort (λ a b. then_by (compare (rank_of a) (rank_of b)) (text_compare a.coin_id b.coin_id))
          (ranked_snapshots limit snapshots)))

-- `topCoinIds.has`
unfoldable pub has_coin : String → List String → Bool
has_coin id [] = false
has_coin id (c ∷ cs) = let rest = has_coin id cs in if str_eq c id then true else rest

abbrev pub tier_eq : PriorityTier → PriorityTier → Bool
tier_eq top100 top100 = true
tier_eq requested requested = true
tier_eq long_tail long_tail = true
tier_eq top100 requested = false
tier_eq top100 long_tail = false
tier_eq requested top100 = false
tier_eq requested long_tail = false
tier_eq long_tail top100 = false
tier_eq long_tail requested = false

abbrev pub next_priority_tier : List String → Target → PriorityTier
next_priority_tier top t = if has_coin t.key.coin_id top then top100 else long_tail

unfoldable pub set_tier : PriorityTier → ℕ → Target → Target
set_tier tier now t = record t { priority_tier = tier; updated_at = now }

-- The loop over the rows that were read, with one update for each row whose tier changes.
unfoldable pub refresh_rows : List String → ℕ → Table → Table → Table
unfolding set_tier
refresh_rows top now [] table = table
refresh_rows top now (row ∷ rows) table =
    let tier = next_priority_tier top row in
    let (updated, n) = update_where row.key (λ t. true) (set_tier tier now) table in
    refresh_rows top now rows (if tier_eq row.priority_tier tier then table else updated)

unfoldable pub refresh_ohlcv_priority_tiers : List String → ℕ → Table → Table
unfolding refresh_rows
refresh_ohlcv_priority_tiers top now table = refresh_rows top now table table
