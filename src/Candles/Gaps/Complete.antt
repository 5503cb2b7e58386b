-- ===== src/Candles/Gaps/Complete.antt =====
-- The gaps that `detectOhlcvGaps` of src/services/candle-store.ts returns.
use opengecko.Prelude.{ℕ, ◌+◌, ◌<◌, ◌≡◌, ◌↔◌, true, false, is_some, arith}
use opengecko.Candles.{
  CandleInterval, minute, day, Store, Series, interval_ms, series_key, read_candle,
}
use opengecko.Candles.Gaps.{detect_ohlcv_gaps}
use opengecko.Candles.Gaps.Slots.{OnGrid}
use opengecko.Candles.Gaps.Total.{Consecutive-absent}
use opengecko.Candles.Gaps.Total.Found.{IsMissing, found_missing, found_missing_iff}
use opengecko.Candles.Gaps.Rows.{
  timestamps, timestamps-IsAscending, has-timestamps, detect_ohlcv_gaps_lem,
}

grid_above :
    (interval : CandleInterval) (p q x : ℕ)
    → OnGrid (interval_ms interval) (p + interval_ms interval) q x
    → p < x
grid_above minute p q x (k, e, h) = omega arith
grid_above day p q x (k, e, h) = omega arith

-- An instant is in a gap that is detected exactly where it lies strictly between two consecutive
-- rows of the series, a whole number of intervals after the first; and no row is there.
pub detect_ohlcv_gaps_iff :
    (series : Series) (store : Store) (x : ℕ)
    → ((found_missing x (detect_ohlcv_gaps series store) ≡ true)
        ↔ IsMissing (interval_ms series.interval) x (timestamps series store))
      × (found_missing x (detect_ohlcv_gaps series store) ≡ true
          → is_some (read_candle (series_key series "canonical" x) store) ≡ false)
detect_ohlcv_gaps_iff series store x =
    let found = found_missing_iff series.interval x (timestamps series store) in
    rw (detect_ohlcv_gaps_lem series store) (
      found,
      λ e.
          let (p, q, c, g) = found.0 e in
          let absent =
            Consecutive-absent p q x (timestamps series store) (timestamps-IsAscending series store)
              c (grid_above series.interval p q x g) (g.2) in
          rw (has-timestamps series x store) at absent,
    )
