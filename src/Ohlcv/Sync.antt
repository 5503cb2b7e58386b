-- ===== src/Ohlcv/Sync.antt =====
-- src/services/ohlcv-sync.ts: the windows that are fetched for a target, and the writes under its
-- lease. The exchange and the clock are parameters. A span that would reach before 1970 ends there.
pub mod Writes
pub mod Windows
use opengecko.Prelude.{
  ℕ, zero, suc, ◌+◌, ◌-◌, ◌*◌, ◌/◌, max, String, Bool, true, false, Option, none, some, List, [],
  ◌∷◌, length, leb, str_eq, is_some, or_else, if◌then◌else◌, Result, ok, err, ◌>>=◌,
}
use opengecko.Ohlcv.{Target, TargetKey}
use opengecko.Ohlcv.Table.{Table}
use opengecko.Ohlcv.Leases.{LeaseIdentity, required_lease_identity, is_target_lease_active}
use opengecko.Candles.{CandleInterval, minute, day, interval_ms, Store, Series, upsert_candle}
use opengecko.Candles.Gaps.{detect_ohlcv_gaps}
use opengecko.Candles.Gaps.Total.Found.{slots_found}
use opengecko.Candles.Repair.{
  FetchedCandle, fetched_is_valid, fetched_input, RepairSummary, repair_ohlcv_gaps,
}

abbrev pub day_ms : ℕ
day_ms = 86400000

pub data SyncError : Type 0 where
  unsupported_interval : String → SyncError
  provider_failed : String → SyncError

unfoldable pub get_supported_target_interval : Target → Result SyncError CandleInterval
get_supported_target_interval target =
    if str_eq target.key.interval "1m"
    then ok minute
    else if str_eq target.key.interval "1d"
    then ok day
    else err (unsupported_interval target.key.interval)

abbrev pub target_series : Target → CandleInterval → Series
target_series target interval = record {
  coin_id = target.key.coin_id;
  vs_currency = target.key.vs_currency;
  interval = interval;
}

abbrev pub target_lease : Target → LeaseIdentity
target_lease target = record {
  lease_owner = some target.lease_owner;
  lease_token = some target.lease_token;
}

-- `isLeaseActiveForWrite` on the table and at the instant of the write.
unfoldable pub is_lease_active_for_write : Target → ℕ → Table → Bool
is_lease_active_for_write target write_at table =
    if is_some (required_lease_identity (target_lease target))
    then is_target_lease_active target.key (target_lease target) write_at table
    else true

-- `candles.filter(hasValidOhlcInvariants)`
unfoldable pub accept_candles : List FetchedCandle → List FetchedCandle
accept_candles [] = []
accept_candles (c ∷ cs) =
    let rest = accept_candles cs in if fetched_is_valid c then c ∷ rest else rest

pub record SyncResult : Type 0 where
  pub raw_fetched_count : ℕ
  pub accepted_candles : List FetchedCandle
  pub persisted_candles : List FetchedCandle

-- The loop of `persistCandles`; `before_write n` is the answer of the lease to its question number n.
unfoldable pub write_accepted :
    Series → (ℕ → Bool) → ℕ → List FetchedCandle → Store → Store × List FetchedCandle
write_accepted series before_write n [] store = (store, [])
write_accepted series before_write n (c ∷ cs) store =
    let (after, persisted) =
      write_accepted series before_write (n + 1) cs
        (upsert_candle (fetched_input series c) store) in
    if before_write n then (after, c ∷ persisted) else (store, [])

unfoldable pub persist_candles :
    Series → (ℕ → Bool) → List FetchedCandle → Store → Store × SyncResult
unfolding write_accepted accept_candles
persist_candles series before_write candles store =
    let accepted = accept_candles candles in
    let (after, persisted) = write_accepted series before_write 0 accepted store in
    (
      after,
      record {
        raw_fetched_count = length candles;
        accepted_candles = accepted;
        persisted_candles = persisted;
      },
    )

abbrev empty_result : SyncResult
empty_result = record { raw_fetched_count = 0; accepted_candles = []; persisted_candles = [] }

-- What is asked of the exchange.
pub record Window : Type 0 where
  pub since : ℕ
  pub limit : Option ℕ

unfoldable pub recent_window : Target → CandleInterval → ℕ → Window
recent_window target interval now = elim target.latest_synced_at [
  | some latest ↦ record { since = latest + interval_ms interval; limit = none }
  | none ↦ elim interval [
    | minute ↦ record { since = now - 60 * 60000; limit = some 60 }
    | day ↦ record { since = now - 30 * day_ms; limit = none }
  ]
]

abbrev pub chunk_days : ℕ
chunk_days = 180 + 2

abbrev ceil_div : ℕ → CandleInterval → ℕ
ceil_div n minute = (n + 59999) / 60000
ceil_div n day = (n + 86399999) / 86400000

unfoldable pub is_deep_enough : Target → ℕ → Bool
is_deep_enough target now = elim target.oldest_synced_at [
  | none ↦ false
  | some oldest ↦ leb (oldest + target.target_history_days * day_ms) now
]

-- Nothing where the history is deep enough.
unfoldable pub historical_window : Target → CandleInterval → ℕ → Option Window
unfolding is_deep_enough
historical_window target interval now =
    let desired_oldest = now - target.target_history_days * day_ms in
    let reference_end = or_else target.oldest_synced_at (or_else target.latest_synced_at now) in
    let since = max desired_oldest (reference_end - chunk_days * day_ms) in
    let window : Window = record {
      since = since;
      limit = some (max (ceil_div (reference_end - since) interval) 1);
    } in
    if is_deep_enough target now then none else some window

-- The exchange, the answers of the lease to the two loops, and the calls of the repair.
pub record SyncCalls : Type 0 where
  pub fetch_exchange_ohlcv : TargetKey → Window → Result String (List FetchedCandle)
  pub persist_allowed : ℕ → Bool
  pub repair_allowed : ℕ → Bool
  pub fetch_repair : ℕ → ℕ → ℕ → Result String (List FetchedCandle)

-- `repairPersistedGaps`, on the fuel that its repair needs.
unfoldable pub repair_persisted_gaps :
    SyncCalls → Series → Store → Store × Option (Result String RepairSummary)
unfolding repair_ohlcv_gaps
repair_persisted_gaps calls series store =
    repair_ohlcv_gaps series none calls.repair_allowed calls.fetch_repair
      (slots_found (detect_ohlcv_gaps series store) + 2) store

abbrev sync_outcome :
    SyncResult → Store × Option (Result String RepairSummary) → Store × Result SyncError SyncResult
sync_outcome result (store, none) = (store, ok result)
sync_outcome result (store, some (ok summary)) = (store, ok result)
sync_outcome result (store, some (err e)) = (store, err (provider_failed e))

unfoldable pub fetch_and_persist :
    SyncCalls → Target → CandleInterval → Window → Store → Store × Result SyncError SyncResult
unfolding persist_candles repair_persisted_gaps
fetch_and_persist calls target interval window store =
    elim (calls.fetch_exchange_ohlcv target.key window) [
      | err e ↦ (store, err (provider_failed e))
      | ok candles ↦
          let series = target_series target interval in
          let (persisted, result) = persist_candles series calls.persist_allowed candles store in
          sync_outcome result (repair_persisted_gaps calls series persisted)
    ]

unfoldable pub sync_recent_ohlcv_window :
    SyncCalls → Target → ℕ → Store → Store × Result SyncError SyncResult
unfolding get_supported_target_interval recent_window fetch_and_persist
sync_recent_ohlcv_window calls target now store = elim (get_supported_target_interval target) [
  | err e ↦ (store, err e)
  | ok interval ↦ fetch_and_persist calls target interval (recent_window target interval now) store
]

unfoldable pub deepen_historical_ohlcv_window :
    SyncCalls → Target → ℕ → Store → Store × Result SyncError SyncResult
unfolding get_supported_target_interval historical_window fetch_and_persist
deepen_historical_ohlcv_window calls target now store =
    elim (get_supported_target_interval target) [
      | err e ↦ (store, err e)
      | ok interval ↦ elim (historical_window target interval now) [
        | none ↦ (store, ok empty_result)
        | some window ↦ fetch_and_persist calls target interval window store
      ]
    ]
