-- ===== src/Candles/Gaps/Rows.antt =====
-- The timestamps of a series in src/services/candle-store.ts, and what a write does to them.
use Prim.Native.Nat.{compare, Ordering}
use opengecko.Prelude.{
  ℕ, ◌≡◌, refl, ap, sym, ◌∙◌, true, List, [], ◌∷◌, map, is_some, ◌==◌, Bool-cases, inl, inr,
  if◌then◌else◌, arith,
}
use opengecko.Prelude.Sorting.{insert, sort, sort-Sorted, compare-IsComparison}
use opengecko.Candles.{
  Candle, Store, Series, CandleInput, key_eq_iff, series_key, input_key, in_series,
  has_valid_ohlc_invariants, read_candle, fresh_candle, merge_candles, upsert_candle, interval_ms,
}
use opengecko.Candles.Store.{merge_candle-key}
use opengecko.Candles.Gaps.{
  everything, select_candles, get_canonical_candles, timestamp_of, has, gaps_of, detect_ohlcv_gaps,
}
use opengecko.Candles.Gaps.Total.{IsAscending}

-- The timestamps of the rows of a series, in no order.
unfoldable stamps : Series → Store → List ℕ
stamps series store = map timestamp_of (select_candles series everything store)

-- In the order of time.
unfoldable pub timestamps : Series → Store → List ℕ
unfolding stamps
timestamps series store = sort compare (stamps series store)

by_time : Candle → Candle → Ordering
by_time a b = compare a.key.timestamp b.key.timestamp

map-insert :
    (c : Candle) (cs : List Candle)
    → map timestamp_of (insert by_time c cs) ≡ insert compare (timestamp_of c) (map timestamp_of cs)
unfolding insert by_time
map-insert c [] = refl
map-insert c (d ∷ cs) = ground (arith, map-insert c cs)

map-sort :
    (cs : List Candle) → map timestamp_of (sort by_time cs) ≡ sort compare (map timestamp_of cs)
unfolding sort
map-sort [] = refl
map-sort (c ∷ cs) =
    map-insert c (sort by_time cs) ∙ ap (insert compare (timestamp_of c)) (map-sort cs)

pub timestamps_lem :
    (series : Series) (store : Store)
    → map timestamp_of (get_canonical_candles series everything store) ≡ timestamps series store
unfolding get_canonical_candles timestamps stamps by_time
timestamps_lem series store = map-sort (select_candles series everything store)

pub detect_ohlcv_gaps_lem :
    (series : Series) (store : Store)
    → detect_ohlcv_gaps series store
      ≡ gaps_of (interval_ms series.interval) (timestamps series store)
unfolding detect_ohlcv_gaps
detect_ohlcv_gaps_lem series store =
    ap (gaps_of (interval_ms series.interval)) (timestamps_lem series store)

pub timestamps-IsAscending :
    (series : Series) (store : Store) → IsAscending (timestamps series store)
unfolding timestamps
timestamps-IsAscending series store =
    sort-Sorted compare (compare-IsComparison (λ n. n)) (stamps series store)

pub has-insert :
    (x y : ℕ) (ts : List ℕ) → has x (insert compare y ts) ≡ (if x == y then true else has x ts)
unfolding has insert
has-insert x y [] = refl
has-insert x y (t ∷ ts) = ground (arith, has-insert x y ts)

has-sort : (x : ℕ) (ts : List ℕ) → has x (sort compare ts) ≡ has x ts
unfolding has sort
has-sort x [] = refl
has-sort x (t ∷ ts) = ground (arith, has-insert x t (sort compare ts), has-sort x ts)

-- The row of the series at an instant is there where the instant is one of its timestamps.
has-stamps :
    (series : Series) (x : ℕ) (store : Store)
    → has x (stamps series store) ≡ is_some (read_candle (series_key series "canonical" x) store)
unfolding has stamps select_candles in_series read_candle
has-stamps series x [] = refl
has-stamps series x (c ∷ cs) = ground (
  arith,
  has-stamps series x cs,
  key_eq_iff c.key (series_key series "canonical" x),
  key_eq_iff c.key (series_key series "canonical" c.key.timestamp),
)

pub has-timestamps :
    (series : Series) (x : ℕ) (store : Store)
    → has x (timestamps series store)
      ≡ is_some (read_candle (series_key series "canonical" x) store)
unfolding timestamps
has-timestamps series x store = has-sort x (stamps series store) ∙ has-stamps series x store

stamps-merge_candles :
    (series : Series) (input : CandleInput) (store : Store)
    → stamps series (merge_candles input store) ≡ stamps series store
unfolding stamps select_candles merge_candles in_series
stamps-merge_candles series input [] = refl
stamps-merge_candles series input (c ∷ cs) =
    ground (arith, stamps-merge_candles series input cs, merge_candle-key input c)

stamps-fresh_candle :
    (series : Series) (x : ℕ) (input : CandleInput) (store : Store)
    → input_key input ≡ series_key series "canonical" x
    → stamps series (fresh_candle input ∷ store) ≡ x ∷ stamps series store
unfolding stamps select_candles in_series fresh_candle series_key
stamps-fresh_candle series x input store e =
    ground (arith, key_eq_iff (input_key input) (series_key series "canonical" x))

-- A valid candle of the series adds its instant where it is new, and else keeps the timestamps.
pub timestamps-upsert_candle :
    (series : Series) (x : ℕ) (input : CandleInput) (store : Store)
    → input_key input ≡ series_key series "canonical" x
    → has_valid_ohlc_invariants input.open_price input.high input.low input.close ≡ true
    → timestamps series (upsert_candle input store) ≡ (
        if has x (timestamps series store)
        then timestamps series store
        else insert compare x (timestamps series store))
unfolding upsert_candle timestamps sort
timestamps-upsert_candle series x input store e v =
    rw (v, has-timestamps series x store, sym e)
      (elim (Bool-cases (is_some (read_candle (input_key input) store))) [
        | inl there ↦ rw there (ap (sort compare) (stamps-merge_candles series input store))
        | inr absent ↦ rw absent (ap (sort compare) (stamps-fresh_candle series x input store e))
      ])
