-- ===== src/Candles/Repair/Retention.antt =====
-- What the retention of src/services/candle-store.ts deletes.
use Prim.Native.Nat.{compare, Ordering}
use opengecko.Prelude.{ℕ, ◌+◌, ◌≤◌, ◌≡◌, Bool, true, ◌&&◌, some, leb}
use opengecko.Candles.{CandleKey, Candle, Store, Series, in_series, read_candle}
use opengecko.Candles.Repair.{newest_timestamp}

abbrev deleted : Series → (reference_time retention_ms : ℕ) → Candle → Bool
deleted series reference_time retention_ms c =
    in_series series c && leb (c.key.timestamp + retention_ms) reference_time

-- The newest row of a series.
abbrev pub IsLatestRow : Series → Store → Candle → Type 0
IsLatestRow series store d =
    (read_candle d.key store ≡ some d)
    × (in_series series d ≡ true)
    × (newest_timestamp series store ≡ some d.key.timestamp)
    × ((k : CandleKey) (c : Candle)
        → in_series series c ≡ true
        → read_candle k store ≡ some c
        → c.key.timestamp ≤ d.key.timestamp)

newest_first : Candle → Candle → Ordering
newest_first a b = compare b.key.timestamp a.key.timestamp
