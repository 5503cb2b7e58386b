-- ===== src/Candles/Store.antt =====
-- What the writes of src/services/candle-store.ts keep of the table.
use opengecko.Prelude.{
  ◌≡◌, ◌≢◌, refl, true, false, Option, none, some, [], ◌∷◌, All, if◌then◌else◌, arith,
}
use opengecko.Candles.{
  CandleKey, Candle, Store, CandleInput, key_eq, key_eq_iff, has_valid_ohlc_invariants, input_key,
  read_candle, fresh_candle, merge_candle, merge_candles, upsert_candle,
}

abbrev pub IsValid : Candle → Type 0
IsValid c = has_valid_ohlc_invariants c.open_price c.high c.low c.close ≡ true

abbrev pub IsKeyed : Store → Type 0
IsKeyed [] = Unit
IsKeyed (c ∷ cs) = (read_candle c.key cs ≡ none) × IsKeyed cs

merge_candle-IsValid :
    (input : CandleInput) (c : Candle)
    → has_valid_ohlc_invariants input.open_price input.high input.low input.close ≡ true
    → IsValid c
    → IsValid (merge_candle input c)
unfolding merge_candle has_valid_ohlc_invariants
merge_candle-IsValid input c h k = ground arith

-- What a valid input leaves under its key.
abbrev pub written : CandleInput → Option Candle → Candle
written input none = fresh_candle input
written input (some c) = merge_candle input c

pub merge_candle-key : (input : CandleInput) (c : Candle) → (merge_candle input c).key ≡ c.key
unfolding merge_candle
merge_candle-key input c = ground arith

read_candle-merge_candles :
    (input : CandleInput) (k : CandleKey) (store : Store)
    → read_candle k (merge_candles input store) ≡ elim (read_candle k store) [
      | none ↦ none
      | some c ↦ if key_eq (input_key input) k then some (merge_candle input c) else some c
    ]
unfolding read_candle merge_candles
read_candle-merge_candles input k [] = refl
read_candle-merge_candles input k (c ∷ cs) = ground (
  arith,
  read_candle-merge_candles input k cs,
  merge_candle-key input c,
  key_eq_iff c.key k,
  key_eq_iff c.key (input_key input),
  key_eq_iff (input_key input) k,
)

pub read_candle-upsert_candle :
    (input : CandleInput) (k : CandleKey) (store : Store)
    → read_candle k (upsert_candle input store) ≡ (
        if has_valid_ohlc_invariants input.open_price input.high input.low input.close
        then if key_eq (input_key input) k
          then some (written input (read_candle k store))
          else read_candle k store
        else read_candle k store)
unfolding upsert_candle read_candle fresh_candle
read_candle-upsert_candle input k store =
    ground (arith, read_candle-merge_candles input k store, key_eq_iff (input_key input) k)

All-merge_candles :
    (input : CandleInput) (store : Store)
    → has_valid_ohlc_invariants input.open_price input.high input.low input.close ≡ true
    → All IsValid store
    → All IsValid (merge_candles input store)
unfolding merge_candles
All-merge_candles input [] v a = tt
All-merge_candles input (c ∷ cs) v a =
    ground (arith, All-merge_candles input cs v a.1, merge_candle-IsValid input c v a.0)

merge_candles-IsKeyed :
    (input : CandleInput) (store : Store) → IsKeyed store → IsKeyed (merge_candles input store)
unfolding merge_candles
merge_candles-IsKeyed input [] d = tt
merge_candles-IsKeyed input (c ∷ cs) d = ground (
  arith,
  merge_candles-IsKeyed input cs d.1,
  merge_candle-key input c,
  read_candle-merge_candles input c.key cs,
)

-- What every write keeps: one row for each key, and every row has positive finite prices with the
-- low below and the high above the others.
abbrev pub IsSound : Store → Type 0
IsSound store = IsKeyed store × All IsValid store

fresh_candle-IsValid :
    (input : CandleInput)
    → has_valid_ohlc_invariants input.open_price input.high input.low input.close ≡ true
    → IsValid (fresh_candle input)
unfolding fresh_candle
fresh_candle-IsValid input v = v

pub upsert_candle-IsSound :
    (input : CandleInput) (store : Store) → IsSound store → IsSound (upsert_candle input store)
unfolding upsert_candle fresh_candle
upsert_candle-IsSound input store (d, a) = ground (
  arith,
  merge_candles-IsKeyed input store d,
  All-merge_candles input store,
  fresh_candle-IsValid input,
)

-- A write of a candle, whether it replaces or merges, leaves one row for each key and keeps every
-- row valid, also where the high and the low are merged with those that were there. A candle whose
-- prices are no positive finite numbers, or not in order, is not written; any other is, under its
-- key alone.
pub upsert_candle-IsWritten :
    (input : CandleInput) (store : Store)
    → IsSound store
    → IsSound (upsert_candle input store)
      × (has_valid_ohlc_invariants input.open_price input.high input.low input.close ≡ false
          → upsert_candle input store ≡ store)
      × (has_valid_ohlc_invariants input.open_price input.high input.low input.close ≡ true
          → (read_candle (input_key input) (upsert_candle input store)
              ≡ some (written input (read_candle (input_key input) store)))
            × ((k : CandleKey)
                → k ≢ input_key input
                → read_candle k (upsert_candle input store) ≡ read_candle k store))
unfolding upsert_candle
upsert_candle-IsWritten input store sound = (
  upsert_candle-IsSound input store sound,
  λ invalid. ground arith,
  λ valid. (
    ground (
      arith,
      read_candle-upsert_candle input (input_key input) store,
      key_eq_iff (input_key input) (input_key input),
    ),
    λ k other.
        ground (arith, read_candle-upsert_candle input k store, key_eq_iff (input_key input) k),
  ),
)
