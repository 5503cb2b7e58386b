-- ===== src/Candles.antt =====
-- src/services/candle-store.ts: the table of candles (`ohlcvCandles` of src/db/schema.ts), its
-- gaps, their repair, and retention. An instant is in milliseconds.
pub mod Doubles
pub mod Store
pub mod Gaps
pub mod Repair
mod Tests
use opengecko.Prelude.{
  ℕ, ◌+◌, ◌*◌, String, Bool, true, false, not, ◌&&◌, ◌≡◌, ◌↔◌, Option, none, some, List, [], ◌∷◌,
  or_else, is_some, leb, ◌==◌, if◌then◌else◌, str_eq, eq_iff, arith,
}
use opengecko.Candles.Doubles.{Number, is_finite_positive_number, le, max_number, min_number}

pub data CandleInterval : Type 0 where
  minute day : CandleInterval

abbrev pub interval_ms : CandleInterval → ℕ
interval_ms minute = 60000
interval_ms day = 86400000

abbrev interval_name : CandleInterval → String
interval_name minute = "1m"
interval_name day = "1d"

pub record CandleKey : Type 0 where
  pub coin_id : String
  pub vs_currency : String
  pub source : String
  pub interval : String
  pub timestamp : ℕ

pub record Candle : Type 0 where
  pub key : CandleKey
  pub open_price : Number
  pub high : Number
  pub low : Number
  pub close : Number
  pub volume : Option Number
  pub market_cap : Option Number
  pub total_volume : Option Number

abbrev pub Store : Type 0
Store = List Candle

pub record Series : Type 0 where
  pub coin_id : String
  pub vs_currency : String
  pub interval : CandleInterval

unfoldable pub key_eq : CandleKey → CandleKey → Bool
key_eq a b =
    str_eq a.coin_id b.coin_id
    && str_eq a.vs_currency b.vs_currency
    && str_eq a.source b.source
    && str_eq a.interval b.interval
    && (a.timestamp == b.timestamp)

pub key_eq_iff : (a b : CandleKey) → (key_eq a b ≡ true) ↔ (a ≡ b)
unfolding key_eq
key_eq_iff a b = ground (
  arith,
  eq_iff a.coin_id b.coin_id,
  eq_iff a.vs_currency b.vs_currency,
  eq_iff a.source b.source,
  eq_iff a.interval b.interval,
)

unfoldable pub has_valid_ohlc_invariants : (open_price high low close : Number) → Bool
has_valid_ohlc_invariants open_price high low close =
    is_finite_positive_number open_price
    && is_finite_positive_number high
    && is_finite_positive_number low
    && is_finite_positive_number close
    && le low open_price
    && le low close
    && le open_price high
    && le close high
    && le low high

pub record CandleInput : Type 0 where
  pub series : Series
  pub timestamp : ℕ
  pub open_price : Number
  pub high : Number
  pub low : Number
  pub close : Number
  pub volume : Option Number
  pub market_cap : Option Number
  pub total_volume : Option Number
  pub source : Option String
  pub replace_existing : Bool

unfoldable pub series_key : Series → String → ℕ → CandleKey
series_key series source timestamp = record {
  coin_id = series.coin_id;
  vs_currency = series.vs_currency;
  source = source;
  interval = interval_name series.interval;
  timestamp = timestamp;
}

unfoldable pub input_key : CandleInput → CandleKey
unfolding series_key
input_key input = series_key input.series (or_else input.source "canonical") input.timestamp

unfoldable pub read_candle : CandleKey → Store → Option Candle
read_candle key [] = none
read_candle key (c ∷ cs) = if key_eq c.key key then some c else read_candle key cs

unfoldable pub fresh_candle : CandleInput → Candle
fresh_candle input = record {
  key = input_key input;
  open_price = input.open_price;
  high = input.high;
  low = input.low;
  close = input.close;
  volume = input.volume;
  market_cap = input.market_cap;
  total_volume = input.total_volume;
}

-- The assignments of the conflict clause.
unfoldable pub merge_candle : CandleInput → Candle → Candle
merge_candle input c =
    if input.replace_existing
    then record c {
      open_price = input.open_price;
      high = input.high;
      low = input.low;
      close = input.close;
      volume = input.volume;
      market_cap = input.market_cap;
      total_volume = input.total_volume;
    }
    else record c {
      high = max_number c.high input.high;
      low = min_number c.low input.low;
      close = input.close;
      volume = input.volume;
      market_cap = input.market_cap;
      total_volume = input.total_volume;
    }

unfoldable pub merge_candles : CandleInput → Store → Store
unfolding merge_candle input_key
merge_candles input [] = []
merge_candles input (c ∷ cs) =
    let rest = merge_candles input cs in
    if key_eq c.key (input_key input) then merge_candle input c ∷ rest else c ∷ rest

-- `upsertCanonicalOhlcvCandle`. The order of the rows in the table has no meaning.
unfoldable pub upsert_candle : CandleInput → Store → Store
unfolding fresh_candle merge_candles
upsert_candle input store =
    if not (has_valid_ohlc_invariants input.open_price input.high input.low input.close)
    then store
    else if is_some (read_candle (input_key input) store)
    then merge_candles input store
    else fresh_candle input ∷ store

-- `upsertCanonicalCandle`: one price for the whole candle.
unfoldable pub upsert_price :
    Series
    → ℕ
    → Number
    → (volume market_cap total_volume : Option Number) → Option String
    → Store
    → Store
unfolding upsert_candle
upsert_price series timestamp price volume market_cap total_volume source store =
    upsert_candle
      (record {
        series = series;
        timestamp = timestamp;
        open_price = price;
        high = price;
        low = price;
        close = price;
        volume = volume;
        market_cap = market_cap;
        total_volume = total_volume;
        source = source;
        replace_existing = false;
      })
      store

-- Whether the row is one of the series: `buildRangeWhere` without a range.
unfoldable pub in_series : Series → Candle → Bool
unfolding series_key
in_series series c = key_eq c.key (series_key series "canonical" c.key.timestamp)
