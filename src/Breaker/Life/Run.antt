-- ===== src/Breaker/Life/Run.antt =====
-- Sequences of calls of src/services/provider-breaker.ts.
use mathlib.Core.Path.{subst}
use opengecko.Prelude.{
  ℕ, ◌+◌, ◌≤◌, ◌<◌, String, ◌≡◌, ◌≢◌, ◌∙◌, refl, inl, inr, true, false, Option, some, List, [], ◌∷◌,
  All, str_eq, eq_iff, Option-cases, Bool-cases, arith,
}
use opengecko.Breaker.Delay.{PartialOptions}
use opengecko.Breaker.Delay.Bounds.{plain_ms, provider_backoff_bounds}
use opengecko.Breaker.Failures.{TextEngine}
use opengecko.Breaker.{
  closed, Entry, BreakerState, create_entry, find_entry, put_entry, put_all,
  create_provider_breaker_state, get_or_create_entry, attempt_entry, can_attempt_provider,
  succeed_entry, fail_entry,
}
use opengecko.Breaker.Life.{
  IsWellFormed, create_entry-IsWellFormed, find_entry-put_entry, BreakerCall, success, failure,
  provider_of, call, after-IsWellFormed, find_entry-call,
}

-- Every entry that a name finds is well formed.
abbrev pub IsSound : BreakerState → Type 0
IsSound s = (k : String) (e : Entry) → find_entry k s.providers ≡ some e → IsWellFormed e

get_or_create_entry-IsWellFormed :
    (s : BreakerState) (k : String) → IsSound s → IsWellFormed (get_or_create_entry s k)
unfolding get_or_create_entry
get_or_create_entry-IsWellFormed s k h = elim (Option-cases (find_entry k s.providers)) [
  | inl missing ↦ rw missing (create_entry-IsWellFormed k)
  | inr (e, found) ↦ rw found (h k e found)
]

put_all-IsSound :
    (ids : List String) (es : List Entry)
    → ((k : String) (e : Entry) → find_entry k es ≡ some e → IsWellFormed e)
    → (k : String) (e : Entry) → find_entry k (put_all ids es) ≡ some e
    → IsWellFormed e
unfolding put_all
put_all-IsSound [] es h = h
put_all-IsSound (id ∷ ids) es h = put_all-IsSound ids (put_entry (create_entry id) es) λ k e found.
    elim (Bool-cases (str_eq (create_entry id).id k)) [
      | inl same ↦
          subst IsWellFormed (ground (arith, find_entry-put_entry k (create_entry id) es))
            (create_entry-IsWellFormed id)
      | inr other ↦ h k e (ground (arith, find_entry-put_entry k (create_entry id) es))
    ]

create-IsSound :
    (ids : List String) (o : PartialOptions) → IsSound (create_provider_breaker_state ids o)
unfolding create_provider_breaker_state find_entry
create-IsSound ids o = put_all-IsSound ids [] (λ k e found. absurd (ground arith))

module _ (engine : TextEngine) where
  call-IsSound : (c : BreakerCall) (s : BreakerState) → IsSound s → IsSound (call engine c s)
  call-IsSound c s h k e found =
      let p = provider_of c in
      elim (Bool-cases (str_eq p k)) [
        | inl same ↦ subst IsWellFormed (ground (arith, find_entry-call engine c s k)) (
            after-IsWellFormed engine s.options c (get_or_create_entry s p)
              (get_or_create_entry-IsWellFormed s p h))
        | inr other ↦ h k e (ground (arith, find_entry-call engine c s k))
      ]

  pub calls : List BreakerCall → BreakerState → BreakerState
  calls [] s = s
  calls (c ∷ cs) s = calls cs (call engine c s)

  calls-IsSound : (cs : List BreakerCall) (s : BreakerState) → IsSound s → IsSound (calls cs s)
  unfolding calls
  calls-IsSound [] s h = h
  calls-IsSound (c ∷ cs) s h = calls-IsSound cs (call engine c s) (call-IsSound c s h)

  -- After any calls on a fresh state every entry is well formed: closed with no failure counted
  -- and no deadline, or tripped with at least one failure and a deadline.
  pub calls-create-IsSound :
      (cs : List BreakerCall) (ids : List String) (o : PartialOptions)
      → IsSound (calls cs (create_provider_breaker_state ids o))
  calls-create-IsSound cs ids o = calls-IsSound cs _ (create-IsSound ids o)

  -- Calls on other providers leave a provider's entry alone.
  pub calls_elsewhere :
      (cs : List BreakerCall) (s : BreakerState) (k : String)
      → All (λ c. provider_of c ≢ k) cs
      → find_entry k (calls cs s).providers ≡ find_entry k s.providers
  unfolding calls
  calls_elsewhere [] s k h = refl
  calls_elsewhere (c ∷ cs) s k h = ground (
    arith,
    calls_elsewhere cs (call engine c s) k h.1,
    find_entry-call engine c s k,
    eq_iff (provider_of c) k,
  )

  allowed_after :
      (s : BreakerState) (p : String) (now : ℕ) (e : Entry)
      → find_entry p s.providers ≡ some e
      → (can_attempt_provider s p now).1 ≡ (attempt_entry e now).1
  unfolding can_attempt_provider get_or_create_entry
  allowed_after s p now e found = rw found

  -- After a failure, and whatever is called on other providers since, attempts on the provider
  -- are refused until the exponential delay is over, and allowed once the maximal delay is.
  pub failure_window :
      (s : BreakerState) (p : String) (now : ℕ) (reason : Option String) (cs : List BreakerCall)
      (later : ℕ)
      → s.options.jitter_ratio ≤ 1000
      → All (λ c. provider_of c ≢ p) cs
      → let t = calls cs (call engine (failure p now reason) s) in
        let failures = (get_or_create_entry s p).failure_count + 1 in
        (later < now + plain_ms s.options failures → (can_attempt_provider t p later).1 ≡ false)
        × (now + s.options.max_backoff_ms ≤ later → (can_attempt_provider t p later).1 ≡ true)
  unfolding attempt_entry fail_entry
  failure_window s p now reason cs later r h =
      let e = get_or_create_entry s p in
      let u = call engine (failure p now reason) s in
      let f = fail_entry engine s.options e now reason in
      let found : find_entry p (calls cs u).providers ≡ some f =
        calls_elsewhere cs u p h
        ∙ ground (arith, find_entry-call engine (failure p now reason) s p, eq_iff p p) in
      let b = provider_backoff_bounds s.options e.id (e.failure_count + 1) r in
      let answer = allowed_after (calls cs u) p later f found in
      (λ early. ground (arith, answer, b), λ late. ground (arith, answer, b))

  -- After a success, and whatever is called on other providers since, the provider is allowed at
  -- once, its failures are forgotten, and the next failure counts as the first.
  pub success_resets :
      (s : BreakerState) (p : String) (now : ℕ) (cs : List BreakerCall) (later : ℕ)
      (reason : Option String)
      → All (λ c. provider_of c ≢ p) cs
      → let t = calls cs (call engine (success p now) s) in
        let next = call engine (failure p later reason) t in
        ((can_attempt_provider t p later).1 ≡ true)
        × ((get_or_create_entry t p).failure_count ≡ 0)
        × ((get_or_create_entry t p).status ≡ closed)
        × ((get_or_create_entry next p).failure_count ≡ 1)
  unfolding attempt_entry succeed_entry fail_entry get_or_create_entry
  success_resets s p now cs later reason h =
      let u = call engine (success p now) s in
      let f = succeed_entry (get_or_create_entry s p) now in
      let found : find_entry p (calls cs u).providers ≡ some f =
        calls_elsewhere cs u p h
        ∙ ground (arith, find_entry-call engine (success p now) s p, eq_iff p p) in
      let answer = allowed_after (calls cs u) p later f found in
      let next = find_entry-call engine (failure p later reason) (calls cs u) p in
      (
        ground (arith, answer),
        ground (arith, found),
        ground (arith, found),
        ground (arith, found, next, eq_iff p p),
      )
