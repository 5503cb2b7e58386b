-- ===== src/Ohlcv/Sync/Windows.antt =====
-- The windows that src/services/ohlcv-sync.ts asks the exchange for.
use opengecko.Prelude.{
  ℕ, ◌+◌, ◌-◌, ◌*◌, ◌≤◌, ◌<◌, ◌≡◌, ◌⊎◌, ltb, max, refl, true, false, Option, none, some, or_else,
  Option-cases, Bool-cases, inl, inr, arith,
}
use opengecko.Candles.{CandleInterval, minute, day, interval_ms}
use opengecko.Ohlcv.{Target}
use opengecko.Ohlcv.Sync.{Window, day_ms, chunk_days, ceil_div, is_deep_enough, historical_window}

abbrev pub reference_end : Target → ℕ → ℕ
reference_end target now = or_else target.oldest_synced_at (or_else target.latest_synced_at now)

abbrev pub slots_of_chunk : CandleInterval → ℕ
slots_of_chunk minute = 182 * 1440
slots_of_chunk day = 182

-- A window of history: it starts at the desired depth or a whole chunk before the oldest candle,
-- whichever is later, and asks for at least one candle, for enough to reach the oldest candle, for
-- no more than that takes and no more than a chunk holds.
abbrev pub IsChunk : Target → CandleInterval → ℕ → Window → Type 0
IsChunk target interval now window =
    (limit : ℕ) × (window.limit ≡ some limit)
    × (1 ≤ limit)
    × (reference_end target now ≤ window.since + limit * interval_ms interval)
    × (limit ≤ slots_of_chunk interval)
    × (now ≤ window.since + target.target_history_days * day_ms)
    × (reference_end target now ≤ window.since + 182 * day_ms)
    × ((window.since ≡ now - target.target_history_days * day_ms)
        ⊎ (window.since ≡ reference_end target now - 182 * day_ms))
    × ((limit ≡ 1) ⊎ (window.since + (limit - 1) * interval_ms interval < reference_end target now))

abbrev pub IsAsked : Target → CandleInterval → ℕ → Option Window → Type 0
IsAsked target interval now none =
    (oldest : ℕ) × (target.oldest_synced_at ≡ some oldest)
    × (oldest + target.target_history_days * day_ms ≤ now)
IsAsked target interval now (some window) =
    IsChunk target interval now window
    × ((oldest : ℕ)
        → target.oldest_synced_at ≡ some oldest
        → now < oldest + target.target_history_days * day_ms)

ceil_div-covers :
    (n : ℕ) (interval : CandleInterval)
    → (n ≤ max (ceil_div n interval) 1 * interval_ms interval)
      × (1 ≤ max (ceil_div n interval) 1)
      × (n ≤ 182 * day_ms → max (ceil_div n interval) 1 ≤ slots_of_chunk interval)
      × ((max (ceil_div n interval) 1 ≡ 1)
          ⊎ ((max (ceil_div n interval) 1 - 1) * interval_ms interval < n))
ceil_div-covers n minute = ground arith
ceil_div-covers n day = ground arith

max_cases :
    (target : Target) (now end : ℕ)
    → reference_end target now ≡ end
    → let since = max (now - target.target_history_days * day_ms) (end - chunk_days * day_ms) in
      (since ≡ now - target.target_history_days * day_ms)
      ⊎ (since ≡ reference_end target now - 182 * day_ms)
max_cases target now end e =
    elim (Bool-cases
      (ltb (now - target.target_history_days * day_ms) (end - chunk_days * day_ms))) [
        | inl less ↦ inr (ground (arith, e, less))
        | inr more ↦ inl (ground (arith, e, more))
      ]

window-IsChunk :
    (target : Target) (interval : CandleInterval) (now end : ℕ)
    → reference_end target now ≡ end
    → let since = max (now - target.target_history_days * day_ms) (end - chunk_days * day_ms) in
      IsChunk target interval now
        (record { since = since; limit = some (max (ceil_div (end - since) interval) 1) })
window-IsChunk target interval now end e =
    let since = max (now - target.target_history_days * day_ms) (end - chunk_days * day_ms) in
    let (covers, positive, small, minimal) = ceil_div-covers (end - since) interval in
    (
      max (ceil_div (end - since) interval) 1,
      refl,
      positive,
      omega (arith, e, covers),
      small (omega arith),
      omega arith,
      omega (arith, e),
      max_cases target now end e,
      elim minimal [ inl one ↦ inl one | inr few ↦ inr (omega (arith, e, few)) ],
    )

deep_enough_iff :
    (target : Target) (now : ℕ)
    → (is_deep_enough target now ≡ true
        → (oldest : ℕ) × (target.oldest_synced_at ≡ some oldest)
          × (oldest + target.target_history_days * day_ms ≤ now))
      × ((oldest : ℕ)
          → target.oldest_synced_at ≡ some oldest
          → is_deep_enough target now ≡ false
          → now < oldest + target.target_history_days * day_ms)
unfolding is_deep_enough
deep_enough_iff target now = (
  λ e. elim (Option-cases target.oldest_synced_at) [
    | inl never ↦ ground arith
    | inr (oldest, synced) ↦ (oldest, synced, ground arith)
  ],
  λ oldest synced e. ground arith,
)

-- No history is asked for exactly where the oldest candle is as old as the depth of the target
-- wants; else one window is asked for, which starts at the desired depth or a chunk before the
-- oldest candle, whichever is later, and asks for as many candles as it takes to reach that candle.
pub historical_window-IsAsked :
    (target : Target) (interval : CandleInterval) (now : ℕ)
    → IsAsked target interval now (historical_window target interval now)
unfolding historical_window
historical_window-IsAsked target interval now =
    let chunk = window-IsChunk target interval now (reference_end target now) refl in
    elim (Bool-cases (is_deep_enough target now)) [
      | inl deep ↦ rw (deep, historical_window) ((deep_enough_iff target now).0 deep)
      | inr shallow ↦
          rw (shallow, historical_window)
            (chunk, λ oldest e. (deep_enough_iff target now).1 oldest e shallow)
    ]
