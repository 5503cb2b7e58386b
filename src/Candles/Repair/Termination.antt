-- ===== src/Candles/Repair/Termination.antt =====
-- The repair of src/services/candle-store.ts ends: each pass leaves fewer instants missing, or
-- exhausts its gap.
use Prim.Native.Nat.{compare}
use opengecko.Prelude.{
  ℕ, zero, suc, ◌+◌, ◌≤◌, ◌<◌, ◌≡◌, ◌⊎◌, refl, sym, String, Bool, true, false, Option, List, [],
  ◌∷◌, All, is_some, ◌==◌, Bool-cases, Result-cases, Result, inl, inr, if◌then◌else◌, arith,
}
use opengecko.Prelude.Sorting.{insert}
use opengecko.Candles.{
  Store, Series, CandleInterval, minute, day, interval_ms, series_key, input_key,
}
use opengecko.Candles.Gaps.{has, missing_between, Gap, detect_ohlcv_gaps, missing_slot_count}
use opengecko.Candles.Gaps.Slots.{missing_between-OnGrid}
use opengecko.Candles.Gaps.Total.{
  total_missing, Consecutive, Consecutive-has, Consecutive-absent, total_missing-insert_le,
  total_missing-insert_lt,
}
use opengecko.Candles.Gaps.Total.Found.{IsGapOf, gaps_of-IsGapOf, slots_found, gaps_of-slots}
use opengecko.Candles.Gaps.Rows.{
  timestamps, detect_ohlcv_gaps_lem, timestamps-IsAscending, timestamps-upsert_candle, has-insert,
}
use opengecko.Candles.Repair.{
  FetchedCandle, fetched_input, better_gap, select_gap, Repair, RepairEnd, no_gap_left, lease_lost,
  gap_exhausted, write_refused, out_of_fuel, fetch_failed, Fate, skipped, refused, accepted,
  fate_of, write_fetched, write_pass, close_pass, repair_loop, start_repair, repair_ohlcv_gaps,
  finish_repair, RepairSummary,
}

pub missing_inside :
    (interval : CandleInterval) (p q x : ℕ)
    → has x (missing_between (interval_ms interval) p q) ≡ true
    → (p < x) × (x < q)
missing_inside minute p q x m =
    let (k, e, h) = missing_between-OnGrid 60000 p q x m in (omega arith, h)
missing_inside day p q x m =
    let (k, e, h) = missing_between-OnGrid 86400000 p q x m in (omega arith, h)

pub Fate-cases : (f : Fate) → (f ≡ skipped) ⊎ (f ≡ refused) ⊎ (f ≡ accepted)
Fate-cases skipped = inl refl
Fate-cases refused = inr (inl refl)
Fate-cases accepted = inr (inr refl)

module _ (series : Series) (before_write : ℕ → Bool) where
  abbrev stamps_of : Repair → List ℕ
  stamps_of s = timestamps series s.store

  abbrev total : Repair → ℕ
  total s = total_missing (interval_ms series.interval) (stamps_of s)

  stamps-write_fetched :
      (requested : List ℕ) (c : FetchedCandle) (s : Repair)
      → fate_of series before_write requested c s ≡ accepted
      → (has c.timestamp requested ≡ true)
        × (stamps_of (write_fetched series before_write c s) ≡ (
            if has c.timestamp (stamps_of s)
            then stamps_of s
            else insert compare c.timestamp (stamps_of s)))
  unfolding fate_of write_fetched fetched_input input_key series_key
  stamps-write_fetched requested c s e =
      ground (arith, timestamps-upsert_candle series c.timestamp (fetched_input series c) s.store)

  count-write_fetched :
      (c : FetchedCandle) (s : Repair)
      → (write_fetched series before_write c s).repaired_count ≡ s.repaired_count + 1
  unfolding write_fetched
  count-write_fetched c s = refl

  module _ (p q : ℕ) where
    abbrev requested : List ℕ
    requested = missing_between (interval_ms series.interval) p q

    write_fetched-le :
        (c : FetchedCandle) (s : Repair)
        → fate_of series before_write requested c s ≡ accepted
        → has p (stamps_of s) ≡ true
        → has q (stamps_of s) ≡ true
        → let s' = write_fetched series before_write c s in
          (total s' ≤ total s) × (has p (stamps_of s') ≡ true) × (has q (stamps_of s') ≡ true)
    write_fetched-le c s e hp hq =
        let (wanted, stamps) = stamps-write_fetched requested c s e in
        let (above, under) = missing_inside series.interval p q c.timestamp wanted in
        let shorter =
          total_missing-insert_le series.interval p q c.timestamp (stamps_of s)
            (timestamps-IsAscending series s.store) (omega arith) (omega arith) hp hq in
        rw stamps (elim (Bool-cases (has c.timestamp (stamps_of s))) [
          | inl there ↦ rw there (omega arith, hp, hq)
          | inr absent ↦ rw absent (
            shorter,
            ground (arith, has-insert p c.timestamp (stamps_of s)),
            ground (arith, has-insert q c.timestamp (stamps_of s)),
          )
        ])

    write_pass-le :
        (cs : List FetchedCandle) (s : Repair)
        → has p (stamps_of s) ≡ true
        → has q (stamps_of s) ≡ true
        → (total (write_pass series before_write requested cs s).0 ≤ total s)
          × (s.repaired_count ≤ (write_pass series before_write requested cs s).0.repaired_count)
    unfolding write_pass
    write_pass-le [] s hp hq = (omega arith, omega arith)
    write_pass-le (c ∷ cs) s hp hq = elim (Fate-cases (fate_of series before_write requested c s)) [
      | inl skip ↦ rw (skip, write_pass) (write_pass-le cs s hp hq)
      | inr (inl refuse) ↦ rw (refuse, write_pass) (omega arith, omega arith)
      | inr (inr accept) ↦
          rw (accept, write_pass)
            (let (shorter, hp', hq') = write_fetched-le c s accept hp hq in
              let (rest, count) =
                write_pass-le cs (write_fetched series before_write c s) hp' hq' in
              (omega (arith, rest, shorter), omega (arith, count, count-write_fetched c s)))
    ]

    -- A pass over the fetched candles of a gap writes nothing, or leaves fewer instants missing.
    write_pass-progress :
        (cs : List FetchedCandle) (s : Repair)
        → Consecutive p q (stamps_of s)
        → let s' = (write_pass series before_write requested cs s).0 in
          ((s'.store ≡ s.store)
            × (s'.repaired_count ≡ s.repaired_count)
            × (s'.exhausted_gap_starts ≡ s.exhausted_gap_starts))
          ⊎ ((total s' < total s) × (s.repaired_count < s'.repaired_count))
    unfolding write_pass
    write_pass-progress [] s c = inl (refl, refl, refl)
    write_pass-progress (f ∷ cs) s c =
        elim (Fate-cases (fate_of series before_write requested f s)) [
          | inl skip ↦ rw (skip, write_pass) (write_pass-progress cs s c)
          | inr (inl refuse) ↦ rw (refuse, write_pass) (inl (refl, refl, refl))
          | inr (inr accept) ↦
              rw (accept, write_pass)
                (let (wanted, stamps) = stamps-write_fetched requested f s accept in
                  let (above, under) = missing_inside series.interval p q f.timestamp wanted in
                  let ascending = timestamps-IsAscending series s.store in
                  let absent =
                    Consecutive-absent p q f.timestamp (stamps_of s) ascending c above under in
                  let shorter =
                    total_missing-insert_lt series.interval p q f.timestamp (stamps_of s) ascending
                      c wanted (above, under) in
                  let (hp, hq) = Consecutive-has p q (stamps_of s) c in
                  let (le, hp', hq') = write_fetched-le f s accept hp hq in
                  let (rest, count) =
                    write_pass-le cs (write_fetched series before_write f s) hp' hq' in
                  let first : total (write_fetched series before_write f s) < total s =
                    rw (stamps, absent) shorter in
                  inr (omega (arith, rest, first), omega (arith, count, count-write_fetched f s)))
        ]

  write_pass-progress_of :
      (p q : ℕ) (missing : List ℕ)
      → missing ≡ missing_between (interval_ms series.interval) p q
      → (cs : List FetchedCandle) (s : Repair) → Consecutive p q (stamps_of s)
      → let s' = (write_pass series before_write missing cs s).0 in
        ((s'.store ≡ s.store)
          × (s'.repaired_count ≡ s.repaired_count)
          × (s'.exhausted_gap_starts ≡ s.exhausted_gap_starts))
        ⊎ ((total s' < total s) × (s.repaired_count < s'.repaired_count))
  write_pass-progress_of p q missing e cs s c = rw e (write_pass-progress p q cs s c)

pub select_gap-All :
    (P : Gap → Type 0) (selected : Gap) (gaps : List Gap)
    → P selected
    → All P gaps
    → P (select_gap selected gaps)
unfolding select_gap
select_gap-All P selected [] h a = h
select_gap-All P selected (candidate ∷ gaps) h a =
    elim (Bool-cases (better_gap candidate selected)) [
      | inl better ↦ rw better (select_gap-All P candidate gaps a.0 a.1)
      | inr worse ↦ rw worse (select_gap-All P selected gaps h a.1)
    ]

pub List-cases {ℓ} :
    {A : Type ℓ} (xs : List A) → (xs ≡ []) ⊎ ((x : A) × (ys : List A) × (xs ≡ x ∷ ys))
List-cases [] = inl refl
List-cases (x ∷ xs) = inr (x, xs, refl)

abbrev has_ended : RepairEnd → Bool
has_ended no_gap_left = true
has_ended lease_lost = true
has_ended gap_exhausted = true
has_ended write_refused = true
has_ended (fetch_failed e) = true
has_ended out_of_fuel = false

module _ (series : Series) (before_write : ℕ → Bool)
    (fetch_candles : ℕ → ℕ → ℕ → Result String (List FetchedCandle)) where
  abbrev loop : ℕ → Repair → Repair × RepairEnd
  loop = repair_loop series before_write fetch_candles

  -- A round whose gap is exhausted is the last.
  repair_loop-exhausted :
      (fuel : ℕ) (s : Repair) (first : Gap) (gaps : List Gap)
      → detect_ohlcv_gaps series s.store ≡ first ∷ gaps
      → has (select_gap first gaps).gap_start s.exhausted_gap_starts ≡ true
      → has_ended (loop (suc fuel) s).1 ≡ true
  unfolding repair_loop
  repair_loop-exhausted fuel s first gaps e h = elim (Bool-cases (before_write s.asked)) [
    | inl allowed ↦ rw (e, allowed, h, repair_loop) refl
    | inr lost ↦ rw (e, lost, repair_loop) refl
  ]

  pub IsGapOf-select_gap :
      (s : Repair) (first : Gap) (gaps : List Gap)
      → detect_ohlcv_gaps series s.store ≡ first ∷ gaps
      → IsGapOf (interval_ms series.interval) (timestamps series s.store) (select_gap first gaps)
  IsGapOf-select_gap s first gaps e =
      let all = gaps_of-IsGapOf (interval_ms series.interval) (timestamps series s.store) in
      let (h, a) = rw (sym (detect_ohlcv_gaps_lem series s.store), e) at all in
      select_gap-All (IsGapOf (interval_ms series.interval) (timestamps series s.store)) first gaps
        h a

  abbrev fetching : Repair → Repair
  fetching s = record s { asked = s.asked + 1; fetches = s.fetches + 1 }

  abbrev Ends : ℕ → Type 0
  Ends fuel =
      (s : Repair) → total series before_write s + 2 ≤ fuel → has_ended (loop fuel s).1 ≡ true

  -- After a pass that wrote nothing the same gap is selected again, and is exhausted.
  exhausted_round :
      (fuel : ℕ) (s after : Repair) (first : Gap) (gaps : List Gap)
      → detect_ohlcv_gaps series s.store ≡ first ∷ gaps
      → 1 ≤ fuel
      → after.store ≡ s.store
      → after.repaired_count ≡ s.repaired_count
      → has_ended (loop fuel (close_pass (select_gap first gaps) s.repaired_count after)).1 ≡ true
  unfolding close_pass has
  exhausted_round zero s after first gaps e h same count = ground arith
  exhausted_round (suc fuel) s after first gaps e h same count =
      repair_loop-exhausted fuel (close_pass (select_gap first gaps) s.repaired_count after) first
        gaps (ground arith) (ground arith)

  advanced_round :
      (fuel : ℕ) (s after : Repair) (gap : Gap)
      → Ends fuel
      → total series before_write after + 2 ≤ fuel
      → s.repaired_count < after.repaired_count
      → has_ended (loop fuel (close_pass gap s.repaired_count after)).1 ≡ true
  unfolding close_pass
  advanced_round fuel s after gap ih h count =
      let fresh : (after.repaired_count == s.repaired_count) ≡ false = ground arith in
      rw fresh (ih after h)

  next_round :
      (fuel : ℕ) (s : Repair) (first : Gap) (gaps : List Gap) (candles : List FetchedCandle)
      → Ends fuel
      → detect_ohlcv_gaps series s.store ≡ first ∷ gaps
      → total series before_write s + 1 ≤ fuel
      → let gap = select_gap first gaps in
        has_ended
          (loop fuel (
            close_pass gap s.repaired_count
              (write_pass series before_write gap.missing_timestamps candles (fetching s)).0)).1
        ≡ true
  next_round fuel s first gaps candles ih e h =
      let gap = select_gap first gaps in
      let (p, q, c, missing, start) = IsGapOf-select_gap s first gaps e in
      elim (write_pass-progress_of series before_write p q gap.missing_timestamps missing candles
        (fetching s) c) [
          | inl (same, count, kept) ↦
              exhausted_round fuel s _ first gaps e (omega (arith, h)) same count
          | inr (shorter, count) ↦ advanced_round fuel s _ gap ih (omega (arith, h, shorter)) count
        ]

  repair_loop-Ends : (fuel : ℕ) → Ends fuel
  unfolding repair_loop
  repair_loop-Ends zero s h = ground arith
  repair_loop-Ends (suc fuel) s h = elim (List-cases (detect_ohlcv_gaps series s.store)) [
    | inl none_left ↦ rw (none_left, repair_loop) refl
    | inr (first, gaps, e) ↦ elim (Bool-cases (before_write s.asked)) [
      | inr lost ↦ rw (e, lost, repair_loop) refl
      | inl allowed ↦
          elim (Bool-cases (has (select_gap first gaps).gap_start s.exhausted_gap_starts)) [
            | inl exhausted ↦ rw (e, allowed, exhausted, repair_loop) refl
            | inr fresh ↦
                elim (Result-cases (
                  fetch_candles s.fetches (select_gap first gaps).gap_start
                    (missing_slot_count (select_gap first gaps)))) [
                      | inr (error, failed) ↦ rw (e, allowed, fresh, failed, repair_loop) refl
                      | inl (candles, fetched) ↦
                          elim (Bool-cases
                            (write_pass series before_write
                              (select_gap first gaps).missing_timestamps candles (fetching s)).1) [
                                | inr stopped ↦
                                    rw (e, allowed, fresh, fetched, stopped, repair_loop) refl
                                | inl through ↦
                                    rw (e, allowed, fresh, fetched, through, repair_loop)
                                      (next_round fuel s first gaps candles (repair_loop-Ends fuel)
                                        e (omega (arith, h)))
                              ]
                    ]
          ]
    ]
  ]

  finish_repair-ended :
      (retention_days : Option ℕ) (summary : RepairSummary) (s : Repair) (end : RepairEnd)
      → has_ended end ≡ true
      → is_some (finish_repair series retention_days before_write fetch_candles summary s end).1
        ≡ true
  unfolding finish_repair
  finish_repair-ended retention_days summary s no_gap_left h = refl
  finish_repair-ended retention_days summary s lease_lost h = refl
  finish_repair-ended retention_days summary s gap_exhausted h = refl
  finish_repair-ended retention_days summary s write_refused h = refl
  finish_repair-ended retention_days summary s (fetch_failed e) h = refl
  finish_repair-ended retention_days summary s out_of_fuel h = ground arith

  -- A repair that no one disturbs ends, whatever the exchange answers and whenever the guard
  -- refuses: two rounds more than there are missing instants are enough.
  pub repair_ohlcv_gaps-ends :
      (retention_days : Option ℕ) (fuel : ℕ) (store : Store)
      → slots_found (detect_ohlcv_gaps series store) + 2 ≤ fuel
      → is_some (repair_ohlcv_gaps series retention_days before_write fetch_candles fuel store).1
        ≡ true
  unfolding repair_ohlcv_gaps
  repair_ohlcv_gaps-ends retention_days fuel store h =
      let slots = gaps_of-slots (interval_ms series.interval) (timestamps series store) in
      let enough : total_missing (interval_ms series.interval) (timestamps series store) + 2
          ≤ fuel =
        rw (detect_ohlcv_gaps_lem series store, slots) at h in
      let ran = repair_loop series before_write fetch_candles fuel (start_repair store) in
      finish_repair-ended retention_days _ ran.0 ran.1
        (repair_loop-Ends fuel (start_repair store) enough)
