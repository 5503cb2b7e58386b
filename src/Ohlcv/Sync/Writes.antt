-- ===== src/Ohlcv/Sync/Writes.antt =====
-- What src/services/ohlcv-sync.ts writes, and under whose lease.
use opengecko.Prelude.{
  ℕ, zero, suc, ◌+◌, ◌≤◌, ◌<◌, ◌≡◌, ◌⊎◌, refl, ap, Bool, true, false, List, [], ◌∷◌, take, length,
  All, Bool-cases, if◌then◌else◌, inl, inr, arith,
}
use mathlib.Core.List.{filter}
use mathlib.Core.Logic.{dite}
use mathlib.Core.Bool.{false≢true}
use opengecko.Candles.{Store, Series, upsert_candle}
use opengecko.Candles.Store.{IsSound, upsert_candle-IsSound}
use opengecko.Candles.Repair.{FetchedCandle, fetched_is_valid, fetched_input}
use opengecko.Ohlcv.{Target}
use opengecko.Ohlcv.Table.{Table}
use opengecko.Ohlcv.Sync.{
  is_lease_active_for_write, accept_candles, write_accepted, persist_candles,
}

-- The candles written one after the other.
unfoldable pub upsert_all : Series → List FetchedCandle → Store → Store
upsert_all series [] store = store
upsert_all series (c ∷ cs) store =
    upsert_all series cs (upsert_candle (fetched_input series c) store)

answer_at : (f : ℕ → Bool) (a b : ℕ) (v : Bool) → f a ≡ v → a ≡ b → f b ≡ v
answer_at f a b v e same = rw⁻¹ same e

answers_before :
    (f : ℕ → Bool) (n m i : ℕ)
    → f n ≡ true
    → ((i : ℕ) → i < m → f (n + 1 + i) ≡ true)
    → i < suc m
    → f (n + i) ≡ true
answers_before f n m zero h rest k = answer_at f n (n + 0) true h (omega arith)
answers_before f n m (suc i) h rest k =
    answer_at f (n + 1 + i) (n + suc i) true (rest i (omega arith)) (omega arith)

write_accepted-prefix :
    (series : Series) (before_write : ℕ → Bool) (n : ℕ) (cs : List FetchedCandle) (store : Store)
    → (m : ℕ) × (m ≤ length cs)
      × ((i : ℕ) → i < m → before_write (n + i) ≡ true)
      × ((m ≡ length cs) ⊎ (before_write (n + m) ≡ false))
      × (write_accepted series before_write n cs store
          ≡ (upsert_all series (take m cs) store, take m cs))
unfolding write_accepted upsert_all
write_accepted-prefix series before_write n [] store =
    (0, omega arith, λ i h. ground arith, inl refl, refl)
write_accepted-prefix series before_write n (c ∷ cs) store = elim (Bool-cases (before_write n)) [
  | inr lost ↦ (
    0,
    omega arith,
    λ i h. ground arith,
    inr (answer_at before_write n (n + 0) false lost (omega arith)),
    rw lost refl,
  )
  | inl held ↦
      let (m, le, before, finish, e) =
        write_accepted-prefix series before_write (n + 1) cs
          (upsert_candle (fetched_input series c) store) in
      (
        suc m,
        omega (arith, le),
        λ i. answers_before before_write n m i held before,
        elim finish [
          | inl all ↦ inl (omega (arith, all))
          | inr lost ↦ inr (answer_at before_write (n + 1 + m) (n + suc m) false lost (omega arith))
        ],
        rw (held, e) refl,
      )
]

upsert_all-IsSound :
    (series : Series) (cs : List FetchedCandle) (store : Store)
    → IsSound store
    → IsSound (upsert_all series cs store)
unfolding upsert_all
upsert_all-IsSound series [] store h = h
upsert_all-IsSound series (c ∷ cs) store h =
    upsert_all-IsSound series cs (upsert_candle (fetched_input series c) store)
      (upsert_candle-IsSound (fetched_input series c) store h)

accept_candles-All :
    (cs : List FetchedCandle) → All (λ c. fetched_is_valid c ≡ true) (accept_candles cs)
unfolding accept_candles
accept_candles-All [] = tt
accept_candles-All (c ∷ cs) = ground (arith, accept_candles-All cs)

is_true : (b : Bool) → Dec (b ≡ true)
is_true true = yes refl
is_true false = no false≢true

-- Whether a fetched candle is valid, as a decision.
pub valid_candle : (c : FetchedCandle) → Dec (fetched_is_valid c ≡ true)
unfolding is_true
valid_candle c = is_true (fetched_is_valid c)

kept_if :
    (b : Bool) (c : FetchedCandle) (cs : List FetchedCandle)
    → (if b then c ∷ cs else cs) ≡ dite (is_true b) (λ h. c ∷ cs) (λ h. cs)
unfolding is_true
kept_if true c cs = refl
kept_if false c cs = refl

accept_candles-filter : (cs : List FetchedCandle) → accept_candles cs ≡ filter valid_candle cs
unfolding accept_candles valid_candle
accept_candles-filter [] = refl
accept_candles-filter (c ∷ cs) =
    rw (accept_candles-filter cs) (kept_if (fetched_is_valid c) c (filter valid_candle cs))

-- The accepted candles are the fetched ones that are valid, in their order. Of these, exactly those are written that come
-- before the first write at which the lease of the target is not active, by the clock and the
-- table of targets at that moment; from then on nothing is written, even where the lease is active
-- again. The table of candles stays sound.
pub persist_candles-IsFenced :
    (target : Target) (series : Series) (clock : ℕ → ℕ) (tables : ℕ → Table)
    (cs : List FetchedCandle) (store : Store)
    → IsSound store
    → let allowed : ℕ → Bool = λ n. is_lease_active_for_write target (clock n) (tables n) in
      let (after, result) = persist_candles series allowed cs store in
      IsSound after
      × All (λ c. fetched_is_valid c ≡ true) result.accepted_candles
      × (result.accepted_candles ≡ filter valid_candle cs)
      × ((m : ℕ) × (m ≤ length result.accepted_candles)
          × ((i : ℕ) → i < m → allowed i ≡ true)
          × ((m ≡ length result.accepted_candles) ⊎ (allowed m ≡ false))
          × (result.persisted_candles ≡ take m result.accepted_candles)
          × (after ≡ upsert_all series (take m result.accepted_candles) store))
unfolding persist_candles
persist_candles-IsFenced target series clock tables cs store sound =
    let allowed : ℕ → Bool = λ n. is_lease_active_for_write target (clock n) (tables n) in
    let (m, le, before, finish, e) =
      write_accepted-prefix series allowed 0 (accept_candles cs) store in
    (
      rw e (upsert_all-IsSound series (take m (accept_candles cs)) store sound),
      accept_candles-All cs,
      accept_candles-filter cs,
      (
        m,
        le,
        λ i h. answer_at allowed (0 + i) i true (before i h) (omega arith),
        elim finish [
          | inl all ↦ inl all
          | inr lost ↦ inr (answer_at allowed (0 + m) m false lost (omega arith))
        ],
        ap (λ r. r.1) e,
        ap (λ r. r.0) e,
      ),
    )
