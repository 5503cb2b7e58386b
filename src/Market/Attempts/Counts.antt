-- ===== src/Market/Attempts/Counts.antt =====
-- What the attempts of src/services/market-runtime-state.ts count and remember.
use opengecko.Prelude.{
  ℕ, zero, suc, ◌+◌, ◌≤◌, ◌≡◌, refl, ap, String, Option, some, List, [], ◌∷◌, length, take,
  length-take-le, str_eq, eq_iff, or_else, if◌then◌else◌, arith,
}
use opengecko.Market.Attempts.{
  Outcome, Family, AttemptRecord, AttemptsState, GivenDuration, no_attempts, count_key,
  provider_attempt_recent_limit, property_of, put_property, start_provider_attempt, finished_record,
  finish_provider_attempt, FaultControl, set_provider_fault_control, reset_provider_fault_controls,
}

-- What is called on the diagnostics.
pub data AttemptCall : Type 0 where
  started : String → Family → ℕ → AttemptCall
  finished : String → Family → Outcome → Option String → ℕ → Option GivenDuration → AttemptCall
  controlled : FaultControl → AttemptCall
  reset : AttemptCall

-- How many of the attempts are counted under a key.
unfoldable pub occurrences : String → List AttemptRecord → ℕ
occurrences key [] = 0
occurrences key (r ∷ rs) =
    let rest = occurrences key rs in
    if str_eq (count_key r.provider r.family r.outcome) key then rest + 1 else rest

module _ {A : Type 0} where
  pub property_of-put_property :
      (k key : String) (a : A) (xs : List (String × A))
      → property_of k (put_property key a xs) ≡ (if str_eq key k then some a else property_of k xs)
  unfolding property_of put_property
  property_of-put_property k key a [] = refl
  property_of-put_property k key a ((l, b) ∷ xs) =
      ground (arith, property_of-put_property k key a xs, eq_iff l key, eq_iff l k, eq_iff key k)

take-cons-take :
    {A : Type 0} (n : ℕ) (x : A) (xs : List A) → take n (x ∷ take n xs) ≡ take n (x ∷ xs)
take-cons-take zero x xs = refl
take-cons-take (suc zero) x xs = refl
take-cons-take (suc (suc n)) x [] = refl
take-cons-take (suc (suc n)) x (y ∷ ys) = ap (λ zs. x ∷ zs) (take-cons-take (suc n) y ys)

module _ (sanitize : Option String → Option String) where
  -- The state after a call, and the records of all attempts that ended, the last one first.
  abbrev pub record_call :
      AttemptCall → AttemptsState × List AttemptRecord → AttemptsState × List AttemptRecord
  record_call (started provider family at) (s, log) =
      (start_provider_attempt provider family at s, log)
  record_call (finished provider family outcome reason at given) (s, log) = (
    finish_provider_attempt sanitize provider family outcome reason at given s,
    finished_record sanitize provider family outcome reason at given s ∷ log,
  )
  record_call (controlled control) (s, log) = (set_provider_fault_control sanitize control s, log)
  record_call reset (s, log) = (reset_provider_fault_controls s, log)

  unfoldable pub record_calls :
      List AttemptCall → AttemptsState × List AttemptRecord → AttemptsState × List AttemptRecord
  record_calls [] now = now
  record_calls (c ∷ cs) now = record_calls cs (record_call c now)

  -- The recent outcomes are the last ones of the log, and the counts are those of the log.
  abbrev pub Counts : AttemptsState → List AttemptRecord → Type 0
  Counts s log =
      (s.recent_outcomes ≡ take provider_attempt_recent_limit log)
      × ((key : String) → or_else (property_of key s.outcome_counts) 0 ≡ occurrences key log)

  record_call-Counts :
      (c : AttemptCall) (s : AttemptsState) (log : List AttemptRecord)
      → Counts s log
      → let (t, later) = record_call c (s, log) in Counts t later
  unfolding start_provider_attempt finish_provider_attempt set_provider_fault_control
      reset_provider_fault_controls occurrences finished_record
  record_call-Counts (started p f t) s log h = h
  record_call-Counts (finished p f o reason t given) s log (recent, counts) = (
    rw recent (take-cons-take 50 (finished_record sanitize p f o reason t given s) log),
    λ key.
        rw
          (property_of-put_property key (count_key p f o)
            (or_else (property_of (count_key p f o) s.outcome_counts) 0 + 1) s.outcome_counts)
          (ground (arith, counts key, counts (count_key p f o), eq_iff (count_key p f o) key)),
  )
  record_call-Counts (controlled control) s log h = h
  record_call-Counts reset s log h = h

  record_calls-Counts :
      (cs : List AttemptCall) (s : AttemptsState) (log : List AttemptRecord)
      → Counts s log
      → let (t, later) = record_calls cs (s, log) in Counts t later
  unfolding record_calls
  record_calls-Counts [] s log h = h
  record_calls-Counts (c ∷ cs) s log h =
      let now = record_call c (s, log) in
      record_calls-Counts cs now.0 now.1 (record_call-Counts c s log h)

  -- After any calls on fresh diagnostics, the recent outcomes are the last fifty attempts that
  -- ended, the latest first, and each count is the number of all that ended so.
  pub record_calls-no_attempts :
      (cs : List AttemptCall)
      → let (t, log) = record_calls cs (no_attempts, []) in
        (length t.recent_outcomes ≤ 50) × Counts t log
  unfolding record_calls property_of occurrences
  record_calls-no_attempts cs =
      let counts = record_calls-Counts cs no_attempts [] (refl, λ key. refl) in
      (rw counts.0 (length-take-le 50 (record_calls cs (no_attempts, [])).1), counts)
