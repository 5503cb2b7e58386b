-- ===== src/Market/Attempts/Spans.antt =====
-- How an attempt of src/services/market-runtime-state.ts that was started ends.
use opengecko.Prelude.{
  ℕ, ◌≡◌, refl, ◌∙◌, String, Bool, false, Option, none, some, List, [], ◌∷◌, All, take, str_eq,
  eq_iff, if◌then◌else◌, arith,
}
use opengecko.Market.Attempts.{
  Outcome, Family, AttemptRecord, InFlightAttempt, AttemptsState, GivenDuration, duration_of,
  provider_attempt_key, provider_attempt_recent_limit, property_of, delete_property,
  start_provider_attempt, finished_record, finish_provider_attempt, set_provider_fault_control,
  reset_provider_fault_controls,
}
use opengecko.Market.Attempts.Counts.{
  AttemptCall, started, finished, controlled, reset, property_of-put_property, record_call,
  record_calls,
}

module _ {A : Type 0} where
  property_of-delete_property :
      (k key : String) (xs : List (String × A))
      → property_of k (delete_property key xs) ≡ (if str_eq key k then none else property_of k xs)
  unfolding property_of delete_property
  property_of-delete_property k key [] = ground arith
  property_of-delete_property k key ((l, b) ∷ xs) =
      ground (arith, property_of-delete_property k key xs, eq_iff l key, eq_iff l k, eq_iff key k)

-- Whether a call is about the attempt with a key.
unfoldable pub concerns : String → AttemptCall → Bool
concerns key (started provider family at) = str_eq (provider_attempt_key provider family) key
concerns key (finished provider family outcome reason at given) =
    str_eq (provider_attempt_key provider family) key
concerns key (controlled control) = false
concerns key reset = false

module _ (sanitize : Option String → Option String) where
  record_call-in_flight :
      (key : String) (c : AttemptCall) (now : AttemptsState × List AttemptRecord)
      → concerns key c ≡ false
      → property_of key (record_call sanitize c now).0.in_flight ≡ property_of key now.0.in_flight
  unfolding concerns start_provider_attempt finish_provider_attempt set_provider_fault_control
      reset_provider_fault_controls
  record_call-in_flight key (started p f t) now h = ground (
    arith,
    h,
    property_of-put_property key (provider_attempt_key p f)
        (record { provider = p; family = f; started_at = t }) now.0.in_flight,
  )
  record_call-in_flight key (finished p f o reason t given) now h =
      ground (arith, h, property_of-delete_property key (provider_attempt_key p f) now.0.in_flight)
  record_call-in_flight key (controlled control) now h = refl
  record_call-in_flight key reset now h = refl

  record_calls-in_flight :
      (key : String) (cs : List AttemptCall) (now : AttemptsState × List AttemptRecord)
      → All (λ c. concerns key c ≡ false) cs
      → property_of key (record_calls sanitize cs now).0.in_flight ≡ property_of key now.0.in_flight
  unfolding record_calls
  record_calls-in_flight key [] now h = refl
  record_calls-in_flight key (c ∷ cs) now (h, hs) =
      record_calls-in_flight key cs (record_call sanitize c now) hs
      ∙ record_call-in_flight key c now h

  -- An attempt that is started and, after any calls that are not about it, finished is recorded as
  -- the latest outcome with the instant at which it was started and, where no duration is given, the
  -- time since then; it is in flight until then and not after.
  pub start-finish_provider_attempt :
      (provider : String) (family : Family) (outcome : Outcome) (reason : Option String)
      (start end : ℕ) (given : Option GivenDuration) (cs : List AttemptCall) (s : AttemptsState)
      (log : List AttemptRecord)
      → All (λ c. concerns (provider_attempt_key provider family) c ≡ false) cs
      → let (before, logged) =
          record_calls sanitize cs (start_provider_attempt provider family start s, log) in
        let after =
          finish_provider_attempt sanitize provider family outcome reason end given before in
        (property_of (provider_attempt_key provider family) before.in_flight
          ≡ some (record { provider = provider; family = family; started_at = start }))
        × (property_of (provider_attempt_key provider family) after.in_flight ≡ none)
        × (after.recent_outcomes
            ≡ take provider_attempt_recent_limit (
                record {
                  provider = provider;
                  family = family;
                  outcome = outcome;
                  started_at = start;
                  finished_at = end;
                  duration_ms = duration_of given start end;
                  reason = sanitize reason;
                }
                ∷ before.recent_outcomes))
  unfolding finish_provider_attempt finished_record start_provider_attempt
  start-finish_provider_attempt provider family outcome reason start end given cs s log h =
      let key = provider_attempt_key provider family in
      let flight : InFlightAttempt = record {
        provider = provider;
        family = family;
        started_at = start;
      } in
      let before = record_calls sanitize cs (start_provider_attempt provider family start s, log) in
      let found : property_of key before.0.in_flight ≡ some flight =
        record_calls-in_flight key cs (start_provider_attempt provider family start s, log) h
        ∙ ground (arith, property_of-put_property key key flight s.in_flight, eq_iff key key) in
      (
        found,
        ground (arith, property_of-delete_property key key before.0.in_flight, eq_iff key key),
        rw found refl,
      )
