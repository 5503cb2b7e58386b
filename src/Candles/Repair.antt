-- ===== src/Candles/Repair.antt =====
-- `repairOhlcvGaps` and `enforceOhlcvRetention` of src/services/candle-store.ts. The exchange and
-- the guard before a write are parameters; no one else writes to the table during a repair.
pub mod Kept
pub mod Termination
pub mod Retention
use Prim.Native.Nat.{compare}
use opengecko.Prelude.{
  ℕ, zero, suc, ◌+◌, ◌*◌, String, Bool, true, false, not, ◌&&◌, ◌||◌, Option, none, some, List, [],
  ◌∷◌, length, or_else, is_some, ltb, leb, ◌==◌, if◌then◌else◌, Result, ok, err,
}
use opengecko.Prelude.Sorting.{sort}
use opengecko.Candles.{
  interval_ms, Candle, Store, Series, CandleInput, has_valid_ohlc_invariants, upsert_candle,
  in_series,
}
use opengecko.Candles.Doubles.{Number}
use opengecko.Candles.Gaps.{
  everything, select_candles, has, Gap, missing_slot_count, detect_ohlcv_gaps,
}

pub record FetchedCandle : Type 0 where
  pub timestamp : ℕ
  pub open_price : Number
  pub high : Number
  pub low : Number
  pub close : Number
  pub volume : Option Number

abbrev pub fetched_is_valid : FetchedCandle → Bool
fetched_is_valid c = has_valid_ohlc_invariants c.open_price c.high c.low c.close

-- The write of a fetched candle, here and in the synchronisation.
unfoldable pub fetched_input : Series → FetchedCandle → CandleInput
fetched_input series c = record {
  series = series;
  timestamp = c.timestamp;
  open_price = c.open_price;
  high = c.high;
  low = c.low;
  close = c.close;
  volume = c.volume;
  market_cap = none;
  total_volume = c.volume;
  source = none;
  replace_existing = true;
}

-- The callback of `gaps.reduce`: the longest gap, and of those the first.
abbrev better_gap : Gap → Gap → Bool
better_gap candidate selected =
    ltb (missing_slot_count selected) (missing_slot_count candidate)
    || ((missing_slot_count candidate == missing_slot_count selected)
        && ltb candidate.gap_start selected.gap_start)

unfoldable pub select_gap : Gap → List Gap → Gap
select_gap selected [] = selected
select_gap selected (candidate ∷ gaps) =
    select_gap (if better_gap candidate selected then candidate else selected) gaps

-- The variables of the loop; `asked` counts the calls of the guard and `fetches` those of the exchange.
pub record Repair : Type 0 where
  pub store : Store
  pub repaired_count : ℕ
  pub exhausted_gap_starts : List ℕ
  pub asked : ℕ
  pub fetches : ℕ

-- Why the loop ends.
pub data RepairEnd : Type 0 where
  no_gap_left lease_lost gap_exhausted write_refused out_of_fuel : RepairEnd
  fetch_failed : String → RepairEnd

-- What one fetched candle comes to: it is skipped, the guard refuses it, or it is written.
pub data Fate : Type 0 where
  skipped refused accepted : Fate

-- `before_write n` is the answer of the guard to its call number n; without a guard it is always
-- true. `fetch_candles n since limit` is the answer of the exchange to its call number n.
module _ (series : Series) (before_write : ℕ → Bool) where
  unfoldable pub fate_of : List ℕ → FetchedCandle → Repair → Fate
  fate_of requested c s =
      if not (has c.timestamp requested) || not (fetched_is_valid c)
      then skipped
      else if before_write s.asked
      then accepted
      else refused

  unfoldable pub write_fetched : FetchedCandle → Repair → Repair
  unfolding fetched_input
  write_fetched c s = record s {
    store = upsert_candle (fetched_input series c) s.store;
    repaired_count = s.repaired_count + 1;
    asked = s.asked + 1;
  }

  -- The loop over the fetched candles, with whether it went through.
  unfoldable pub write_pass : List ℕ → List FetchedCandle → Repair → Repair × Bool
  unfolding fate_of write_fetched
  write_pass requested [] s = (s, true)
  write_pass requested (c ∷ cs) s = elim (fate_of requested c s) [
    | skipped ↦ write_pass requested cs s
    | refused ↦ (record s { asked = s.asked + 1 }, false)
    | accepted ↦ write_pass requested cs (write_fetched c s)
  ]

-- The end of a pass: a gap for which nothing was written is exhausted.
unfoldable pub close_pass : Gap → ℕ → Repair → Repair
close_pass gap repaired_before s =
    if s.repaired_count == repaired_before
    then record s { exhausted_gap_starts = gap.gap_start ∷ s.exhausted_gap_starts }
    else s

module _ (series : Series) (before_write : ℕ → Bool)
    (fetch_candles : ℕ → ℕ → ℕ → Result String (List FetchedCandle)) where
  -- The loop, on fuel for its rounds.
  unfoldable pub repair_loop : ℕ → Repair → Repair × RepairEnd
  unfolding select_gap write_pass close_pass
  repair_loop zero s = (s, out_of_fuel)
  repair_loop (suc fuel) s = elim (detect_ohlcv_gaps series s.store) [
    | [] ↦ (s, no_gap_left)
    | first ∷ gaps ↦ elim (before_write s.asked) [
      | false ↦ (record s { asked = s.asked + 1 }, lease_lost)
      | true ↦
          let gap = select_gap first gaps in
          let asked = record s { asked = s.asked + 1 } in
          elim (has gap.gap_start s.exhausted_gap_starts) [
            | true ↦ (asked, gap_exhausted)
            | false ↦
                let fetching = record asked { fetches = s.fetches + 1 } in
                elim (fetch_candles s.fetches gap.gap_start (missing_slot_count gap)) [
                  | err e ↦ (fetching, fetch_failed e)
                  | ok candles ↦
                      let (after, through) =
                        write_pass series before_write gap.missing_timestamps candles fetching in
                      elim through [
                        | false ↦ (after, write_refused)
                        | true ↦ repair_loop fuel (close_pass gap s.repaired_count after)
                      ]
                ]
          ]
    ]
  ]

-- The newest row of a series.
abbrev newest_of : List Candle → Option ℕ
newest_of [] = none
newest_of (c ∷ cs) = some c.key.timestamp

unfoldable pub newest_timestamp : Series → Store → Option ℕ
newest_timestamp series store =
    newest_of (
      sort (λ a b. compare b.key.timestamp a.key.timestamp)
        (select_candles series everything store))

-- `DELETE … WHERE timestamp <= cutoff`, with the number of rows. Where the source subtracts the
-- span from the instant, the model adds it on the other side.
unfoldable pub delete_old : Series → (reference_time retention_ms : ℕ) → Store → Store × ℕ
delete_old series reference_time retention_ms [] = ([], 0)
delete_old series reference_time retention_ms (c ∷ cs) =
    let (rest, n) = delete_old series reference_time retention_ms cs in
    if in_series series c && leb (c.key.timestamp + retention_ms) reference_time
    then (rest, n + 1)
    else (c ∷ rest, n)

unfoldable pub enforce_ohlcv_retention : Series → ℕ → Option ℕ → Store → Store × ℕ
unfolding newest_timestamp delete_old
enforce_ohlcv_retention series retention_days now store = elim (newest_timestamp series store) [
  | none ↦ (store, 0)
  | some newest ↦ delete_old series (or_else now newest) (retention_days * 86400000) store
]

pub record RepairSummary : Type 0 where
  pub gaps_repaired : ℕ
  pub candles_repaired : ℕ
  pub repair_interval_ms : ℕ

abbrev start_repair : Store → Repair
start_repair store = record {
  store = store;
  repaired_count = 0;
  exhausted_gap_starts = [];
  asked = 0;
  fetches = 0;
}

module _ (series : Series) (retention_days : Option ℕ) (before_write : ℕ → Bool)
    (fetch_candles : ℕ → ℕ → ℕ → Result String (List FetchedCandle)) where
  -- `target.retentionDays && (…)`
  unfoldable pub retain_after : Repair → Store
  unfolding enforce_ohlcv_retention
  retain_after s = elim retention_days [
    | none ↦ s.store
    | some zero ↦ s.store
    | some (suc days) ↦
        if before_write s.asked
        then (enforce_ohlcv_retention series (suc days) none s.store).0
        else s.store
  ]

  unfoldable pub summarize_repair : ℕ → Repair → RepairSummary
  summarize_repair initial_gap_count s = record {
    gaps_repaired = initial_gap_count;
    candles_repaired = s.repaired_count;
    repair_interval_ms = interval_ms series.interval;
  }

  -- What follows the loop.
  unfoldable pub finish_repair :
      RepairSummary → Repair → RepairEnd → Store × Option (Result String RepairSummary)
  unfolding retain_after
  finish_repair summary s no_gap_left = (retain_after s, some (ok summary))
  finish_repair summary s lease_lost = (retain_after s, some (ok summary))
  finish_repair summary s gap_exhausted = (retain_after s, some (ok summary))
  finish_repair summary s write_refused = (s.store, some (ok summary))
  finish_repair summary s (fetch_failed e) = (s.store, some (err e))
  finish_repair summary s out_of_fuel = (s.store, none)

  -- `repairOhlcvGaps`, with the table that it leaves.
  unfoldable pub repair_ohlcv_gaps : ℕ → Store → Store × Option (Result String RepairSummary)
  unfolding repair_loop finish_repair summarize_repair
  repair_ohlcv_gaps fuel store =
      let initial_gap_count = length (detect_ohlcv_gaps series store) in
      let (s, end) = repair_loop series before_write fetch_candles fuel (start_repair store) in
      finish_repair (summarize_repair initial_gap_count s) s end
