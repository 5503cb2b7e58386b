-- ===== src/Candles/Tests.antt =====
-- The theorems on the candles of src/services/candle-store.ts at a concrete table.
use opengecko.Prelude.{
  ℕ, ◌+◌, ◌≤◌, ◌≡◌, ◌≢◌, ◌↔◌, refl, String, Bool, true, false, none, some, List, [], ◌∷◌, is_some,
  Result, ok, arith,
}
use opengecko.Candles.{
  minute, CandleKey, Candle, Store, Series, CandleInput, series_key, key_eq,
  has_valid_ohlc_invariants, input_key, read_candle, upsert_candle,
}
use opengecko.Prelude.Sorting.{sort}
use opengecko.Candles.Doubles.{units}
use opengecko.Candles.Store.{IsSound, written, upsert_candle-IsWritten}
use opengecko.Candles.Gaps.{detect_ohlcv_gaps}
use opengecko.Candles.Gaps.Total.Found.{IsMissing, found_missing, slots_found}
use opengecko.Candles.Gaps.Rows.{timestamps}
use opengecko.Candles.Gaps.Complete.{detect_ohlcv_gaps_iff}
use opengecko.Candles.Repair.{FetchedCandle, repair_ohlcv_gaps}
use opengecko.Candles.Repair.Kept.{repair_ohlcv_gaps-Keeps}
use opengecko.Candles.Repair.Termination.{repair_ohlcv_gaps-ends}

abbrev bitcoin : Series
bitcoin = record { coin_id = "bitcoin"; vs_currency = "usd"; interval = minute }

abbrev candle : ℕ → Candle
candle t = record {
  key = record {
    coin_id = "bitcoin";
    vs_currency = "usd";
    source = "canonical";
    interval = "1m";
    timestamp = t;
  };
  open_price = units 5;
  high = units 9;
  low = units 2;
  close = units 6;
  volume = none;
  market_cap = none;
  total_volume = none;
}

-- Two instants are missing.
abbrev store : Store
store = candle 240000 ∷ candle 60000 ∷ []

sound : IsSound store
unfolding has_valid_ohlc_invariants key_eq read_candle
sound = ((refl, (refl, tt)), (refl, (refl, tt)))

found : read_candle (candle 60000).key store ≡ some (candle 60000)
unfolding key_eq read_candle
found = refl

abbrev merged_input : CandleInput
merged_input = record {
  series = bitcoin;
  timestamp = 60000;
  open_price = units 7;
  high = units 11;
  low = units 3;
  close = units 4;
  volume = none;
  market_cap = none;
  total_volume = none;
  source = none;
  replace_existing = false;
}

upsert_candle-IsWritten_example :
    IsSound (upsert_candle merged_input store)
    × (has_valid_ohlc_invariants (units 7) (units 11) (units 3) (units 4) ≡ false
        → upsert_candle merged_input store ≡ store)
    × (has_valid_ohlc_invariants (units 7) (units 11) (units 3) (units 4) ≡ true
        → (read_candle (input_key merged_input) (upsert_candle merged_input store)
            ≡ some (written merged_input (read_candle (input_key merged_input) store)))
          × ((k : CandleKey)
              → k ≢ input_key merged_input
              → read_candle k (upsert_candle merged_input store) ≡ read_candle k store))
upsert_candle-IsWritten_example = upsert_candle-IsWritten merged_input store sound

detect_ohlcv_gaps_iff_example :
    ((found_missing 120000 (detect_ohlcv_gaps bitcoin store) ≡ true)
      ↔ IsMissing 60000 120000 (timestamps bitcoin store))
    × (found_missing 120000 (detect_ohlcv_gaps bitcoin store) ≡ true
        → is_some (read_candle (series_key bitcoin "canonical" 120000) store) ≡ false)
detect_ohlcv_gaps_iff_example = detect_ohlcv_gaps_iff bitcoin store 120000

abbrev fetched : ℕ → FetchedCandle
fetched t = record {
  timestamp = t;
  open_price = units 5;
  high = units 9;
  low = units 2;
  close = units 6;
  volume = none;
}

-- The exchange has one of the two instants, and candles that nobody asked for.
abbrev exchange : ℕ → ℕ → ℕ → Result String (List FetchedCandle)
exchange call since limit = ok (fetched 120000 ∷ fetched 60000 ∷ [])

abbrev always : ℕ → Bool
always call = true

enough : slots_found (detect_ohlcv_gaps bitcoin store) + 2 ≤ 4
unfolding slots_found detect_ohlcv_gaps key_eq sort
enough = omega arith

repair_ohlcv_gaps-ends_example :
    is_some (repair_ohlcv_gaps bitcoin none always exchange 4 store).1 ≡ true
repair_ohlcv_gaps-ends_example = repair_ohlcv_gaps-ends bitcoin always exchange none 4 store enough

repair_ohlcv_gaps-Keeps_example :
    let repaired = (repair_ohlcv_gaps bitcoin none always exchange 4 store).0 in
    IsSound repaired × (read_candle (candle 60000).key repaired ≡ some (candle 60000))
repair_ohlcv_gaps-Keeps_example =
    repair_ohlcv_gaps-Keeps bitcoin always (candle 60000).key (candle 60000) exchange 4 store sound
      found
