-- ===== src/Candles/Gaps.antt =====
-- The reads of src/services/candle-store.ts: the candles of a series in the order of time, and the
-- gaps between them.
pub mod Slots
pub mod Total
pub mod Rows
pub mod Complete
use Prim.Native.Nat.{compare}
use opengecko.Prelude.{
  ℕ, zero, suc, ◌+◌, ◌-◌, Bool, true, false, ◌&&◌, Option, none, some, List, [], ◌∷◌, map, length,
  ltb, leb, ◌==◌, if◌then◌else◌,
}
use opengecko.Prelude.Sorting.{sort}
use opengecko.Candles.{CandleInterval, interval_ms, Candle, Store, Series, in_series}
use opengecko.Candles.Doubles.{Number}

pub record CandleRange : Type 0 where
  pub from : Option ℕ
  pub to : Option ℕ

abbrev pub everything : CandleRange
everything = record { from = none; to = none }

abbrev in_range : CandleRange → ℕ → Bool
in_range range t =
    elim range.from [ none ↦ true | some from ↦ leb from t ]
    && elim range.to [ none ↦ true | some to ↦ leb t to ]

-- `SELECT … WHERE`
unfoldable pub select_candles : Series → CandleRange → Store → Store
unfolding in_series
select_candles series range [] = []
select_candles series range (c ∷ cs) =
    let rest = select_candles series range cs in
    if in_series series c && in_range range c.key.timestamp then c ∷ rest else rest

unfoldable pub get_canonical_candles : Series → CandleRange → Store → List Candle
unfolding select_candles
get_canonical_candles series range store =
    sort (λ a b. compare a.key.timestamp b.key.timestamp) (select_candles series range store)

pub record ClosePoint : Type 0 where
  pub timestamp : ℕ
  pub price : Number
  pub market_cap : Option Number
  pub total_volume : Option Number

abbrev close_point : Candle → ClosePoint
close_point c = record {
  timestamp = c.key.timestamp;
  price = c.close;
  market_cap = c.market_cap;
  total_volume = c.total_volume;
}

unfoldable pub get_canonical_close_series : Series → CandleRange → Store → List ClosePoint
unfolding get_canonical_candles
get_canonical_close_series series range store =
    map close_point (get_canonical_candles series range store)

pub record Gap : Type 0 where
  pub gap_start : ℕ
  pub gap_end : ℕ
  pub missing_timestamps : List ℕ

abbrev pub missing_slot_count : Gap → ℕ
missing_slot_count gap = length gap.missing_timestamps

-- `Set.has`
unfoldable pub has : ℕ → List ℕ → Bool
has x [] = false
has x (y ∷ ys) = if x == y then true else has x ys

-- The inner loop of `detectOhlcvGaps`, on fuel for its rounds.
unfoldable pub steps_from : ℕ → (timestamp current step : ℕ) → List ℕ
steps_from zero timestamp current step = []
steps_from (suc fuel) timestamp current step =
    let later = steps_from fuel (timestamp + step) current step in
    if ltb timestamp current then timestamp ∷ later else []

-- The instants of the grid of `previous` that lie strictly between the two rows.
unfoldable pub missing_between : (step previous current : ℕ) → List ℕ
unfolding steps_from
missing_between step previous current =
    steps_from (current - previous) (previous + step) current step

abbrev last_of : ℕ → List ℕ → ℕ
last_of t [] = t
last_of t (u ∷ ts) = last_of u ts

-- A gap is pushed only where an instant is missing.
abbrev push_gap : List ℕ → List Gap → List Gap
push_gap [] gaps = gaps
push_gap (t ∷ ts) gaps =
    record { gap_start = t; gap_end = last_of t ts; missing_timestamps = t ∷ ts } ∷ gaps

-- The loop of `detectOhlcvGaps` over the timestamps of the rows.
unfoldable pub gaps_of : ℕ → List ℕ → List Gap
unfolding missing_between
gaps_of step [] = []
gaps_of step (previous ∷ []) = []
gaps_of step (previous ∷ current ∷ rows) =
    let later = gaps_of step (current ∷ rows) in
    if leb current (previous + step)
    then later
    else push_gap (missing_between step previous current) later

abbrev pub timestamp_of : Candle → ℕ
timestamp_of c = c.key.timestamp

unfoldable pub detect_ohlcv_gaps : Series → Store → List Gap
unfolding get_canonical_candles gaps_of
detect_ohlcv_gaps series store =
    gaps_of (interval_ms series.interval)
      (map timestamp_of (get_canonical_candles series everything store))
