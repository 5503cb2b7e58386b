-- ===== src/Candles/Repair/Kept.antt =====
-- What the repair of src/services/candle-store.ts leaves as it was.
use opengecko.Prelude.{
  ℕ, zero, suc, ◌+◌, ◌≡◌, ◌≢◌, refl, String, Bool, true, none, some, List, [], ◌∷◌, Bool-cases,
  Result-cases, Result, inl, inr, arith,
}
use opengecko.Candles.{
  CandleKey, Candle, Store, Series, series_key, input_key, key_eq_iff, read_candle,
}
use opengecko.Candles.Store.{IsSound, upsert_candle-IsSound, read_candle-upsert_candle}
use opengecko.Candles.Gaps.{has, Gap, detect_ohlcv_gaps, missing_slot_count}
use opengecko.Candles.Gaps.Total.{Consecutive-absent}
use opengecko.Candles.Gaps.Rows.{timestamps, timestamps-IsAscending, has-timestamps}
use opengecko.Candles.Repair.{
  FetchedCandle, fetched_input, select_gap, Repair, RepairEnd, no_gap_left, lease_lost,
  gap_exhausted, write_refused, out_of_fuel, fetch_failed, accepted, fate_of, write_fetched,
  write_pass, close_pass, repair_loop, start_repair, repair_ohlcv_gaps, finish_repair,
  RepairSummary,
}
use opengecko.Candles.Repair.Termination.{
  missing_inside, Fate-cases, List-cases, IsGapOf-select_gap,
}

module _ (series : Series) (before_write : ℕ → Bool) (k : CandleKey) (c : Candle) where
  -- The table is sound, and has the row.
  abbrev Has : Repair → Type 0
  Has s = IsSound s.store × (read_candle k s.store ≡ some c)

  abbrev Avoids : List ℕ → Type 0
  Avoids requested = (x : ℕ) → has x requested ≡ true → series_key series "canonical" x ≢ k

  write_fetched-Has :
      (requested : List ℕ) (f : FetchedCandle) (s : Repair)
      → Avoids requested
      → fate_of series before_write requested f s ≡ accepted
      → Has s
      → Has (write_fetched series before_write f s)
  unfolding fate_of write_fetched fetched_input input_key series_key
  write_fetched-Has requested f s avoids accept (sound, there) = (
    upsert_candle-IsSound (fetched_input series f) s.store sound,
    ground (
      arith,
      read_candle-upsert_candle (fetched_input series f) k s.store,
      key_eq_iff (input_key (fetched_input series f)) k,
      avoids f.timestamp,
    ),
  )

  write_pass-Has :
      (requested : List ℕ) (fs : List FetchedCandle) (s : Repair)
      → Avoids requested
      → Has s
      → Has (write_pass series before_write requested fs s).0
  unfolding write_pass
  write_pass-Has requested [] s avoids h = h
  write_pass-Has requested (f ∷ fs) s avoids h =
      elim (Fate-cases (fate_of series before_write requested f s)) [
        | inl skip ↦ rw (skip, write_pass) (write_pass-Has requested fs s avoids h)
        | inr (inl refuse) ↦ rw (refuse, write_pass) h
        | inr (inr accept) ↦
            rw (accept, write_pass)
              (write_pass-Has requested fs (write_fetched series before_write f s) avoids
                (write_fetched-Has requested f s avoids accept h))
      ]

  close_pass-Has : (gap : Gap) (n : ℕ) (s : Repair) → Has s → Has (close_pass gap n s)
  unfolding close_pass
  close_pass-Has gap n s h = ground arith

  module _ (fetch_candles : ℕ → ℕ → ℕ → Result String (List FetchedCandle)) where
    -- What a gap asks for is not in the table.
    select_gap-Avoids :
        (s : Repair) (first : Gap) (gaps : List Gap)
        → detect_ohlcv_gaps series s.store ≡ first ∷ gaps
        → Has s
        → Avoids (select_gap first gaps).missing_timestamps
    select_gap-Avoids s first gaps e (sound, there) x m same =
        let (p, q, consecutive, missing, start) =
          IsGapOf-select_gap series before_write fetch_candles s first gaps e in
        let (above, under) = missing_inside series.interval p q x (rw missing at m) in
        let absent =
          Consecutive-absent p q x (timestamps series s.store)
            (timestamps-IsAscending series s.store) consecutive above under in
        let missing_row = rw (has-timestamps series x s.store, same, there) at absent in cc

    repair_loop-Has :
        (fuel : ℕ) (s : Repair)
        → Has s
        → Has (repair_loop series before_write fetch_candles fuel s).0
    unfolding repair_loop
    repair_loop-Has zero s h = h
    repair_loop-Has (suc fuel) s h = elim (List-cases (detect_ohlcv_gaps series s.store)) [
      | inl none_left ↦ rw (none_left, repair_loop) h
      | inr (first, gaps, e) ↦ elim (Bool-cases (before_write s.asked)) [
        | inr lost ↦ rw (e, lost, repair_loop) h
        | inl allowed ↦
            elim (Bool-cases (has (select_gap first gaps).gap_start s.exhausted_gap_starts)) [
              | inl exhausted ↦ rw (e, allowed, exhausted, repair_loop) h
              | inr fresh ↦
                  elim (Result-cases (
                    fetch_candles s.fetches (select_gap first gaps).gap_start
                      (missing_slot_count (select_gap first gaps)))) [
                        | inr (error, failed) ↦ rw (e, allowed, fresh, failed, repair_loop) h
                        | inl (candles, fetched) ↦
                            let fetching = record s {
                              asked = s.asked + 1;
                              fetches = s.fetches + 1;
                            } in
                            let gap = select_gap first gaps in
                            let after =
                              write_pass-Has gap.missing_timestamps candles fetching
                                (select_gap-Avoids s first gaps e h) h in
                            elim (Bool-cases
                              (write_pass series before_write gap.missing_timestamps candles
                                fetching).1) [
                                  | inr stopped ↦
                                      rw (e, allowed, fresh, fetched, stopped, repair_loop) after
                                  | inl through ↦
                                      rw (e, allowed, fresh, fetched, through, repair_loop)
                                        (repair_loop-Has fuel _
                                          (close_pass-Has gap s.repaired_count _ after))
                                ]
                      ]
            ]
      ]
    ]

    finish_repair-store :
        (summary : RepairSummary) (s : Repair) (end : RepairEnd)
        → (finish_repair series none before_write fetch_candles summary s end).0 ≡ s.store
    unfolding finish_repair
    finish_repair-store summary s no_gap_left = refl
    finish_repair-store summary s lease_lost = refl
    finish_repair-store summary s gap_exhausted = refl
    finish_repair-store summary s write_refused = refl
    finish_repair-store summary s (fetch_failed e) = refl
    finish_repair-store summary s out_of_fuel = refl

    -- A repair without retention leaves every row that was there as it was, whatever the exchange
    -- answers, and the table sound: it writes only where no row is.
    pub repair_ohlcv_gaps-Keeps :
        (fuel : ℕ) (store : Store)
        → IsSound store
        → read_candle k store ≡ some c
        → let repaired = (repair_ohlcv_gaps series none before_write fetch_candles fuel store).0 in
          IsSound repaired × (read_candle k repaired ≡ some c)
    unfolding repair_ohlcv_gaps
    repair_ohlcv_gaps-Keeps fuel store sound there =
        let ran = repair_loop series before_write fetch_candles fuel (start_repair store) in
        rw (finish_repair-store _ ran.0 ran.1)
          (repair_loop-Has fuel (start_repair store) (sound, there))
