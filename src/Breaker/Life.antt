-- ===== src/Breaker/Life.antt =====
-- The life of an entry of src/services/provider-breaker.ts, and of the record of all entries.
pub mod Run
use opengecko.Prelude.{
  ℕ, ◌+◌, ◌*◌, ◌≤◌, ◌<◌, String, ◌≡◌, ◌≢◌, ◌↔◌, ◌∙◌, refl, sym, inl, inr, Bool, true, false, Option,
  none, some, List, [], ◌∷◌, is_some, or_else, str_eq, eq_iff, Option-cases, if◌then◌else◌, arith,
}
use opengecko.Breaker.Delay.{Options, compute_backoff_ms}
use opengecko.Breaker.Delay.Bounds.{plain_ms, provider_backoff_bounds}
use opengecko.Breaker.Failures.{TextEngine}
use opengecko.Breaker.{
  BreakerStatus, closed, opened, half_open, Entry, BreakerState, create_entry, find_entry,
  put_entry, get_or_create_entry, attempt_entry, can_attempt_provider, succeed_entry,
  record_provider_success, fail_entry, record_provider_failure, summarize_entry,
}

-- A closed entry has no failure and no deadline; one that is open or half open has both.
pub record IsWellFormed (e : Entry) : Type 0 where
  pub closed_clean : e.status ≡ closed → (e.failure_count ≡ 0) × (e.opened_until ≡ none)
  pub opened_failed : e.status ≡ opened → (0 < e.failure_count) × (is_some e.opened_until ≡ true)
  pub probing_failed :
      e.status ≡ half_open → (0 < e.failure_count) × (is_some e.opened_until ≡ true)

pub create_entry-IsWellFormed : (id : String) → IsWellFormed (create_entry id)
unfolding create_entry
create_entry-IsWellFormed id = ground arith

pub attempt_entry-IsWellFormed :
    (e : Entry) (now : ℕ) → IsWellFormed e → IsWellFormed (attempt_entry e now).0
unfolding attempt_entry
attempt_entry-IsWellFormed e now h = ground arith

pub succeed_entry-IsWellFormed : (e : Entry) (now : ℕ) → IsWellFormed (succeed_entry e now)
unfolding succeed_entry
succeed_entry-IsWellFormed e now = ground arith

pub fail_entry-IsWellFormed :
    (engine : TextEngine) (o : Options) (e : Entry) (now : ℕ) (reason : Option String)
    → IsWellFormed (fail_entry engine o e now reason)
unfolding fail_entry
fail_entry-IsWellFormed engine o e now reason = ground arith

-- What the diagnostics say of a well-formed entry is what an attempt at the same instant would
-- find: its status is the one that the attempt leaves, and the retry delay is 0 exactly where the
-- attempt is allowed.
pub summarize_entry-attempt_entry :
    (e : Entry) (now : ℕ)
    → IsWellFormed e
    → ((summarize_entry now e).status ≡ (attempt_entry e now).0.status)
      × (((summarize_entry now e).retry_in_ms ≡ 0) ↔ ((attempt_entry e now).1 ≡ true))
unfolding summarize_entry attempt_entry
summarize_entry-attempt_entry e now h = ground arith

pub find_entry-put_entry :
    (k : String) (e : Entry) (es : List Entry)
    → find_entry k (put_entry e es) ≡ (if str_eq e.id k then some e else find_entry k es)
unfolding find_entry put_entry
find_entry-put_entry k e [] = refl
find_entry-put_entry k e (f ∷ es) =
    ground (arith, find_entry-put_entry k e es, eq_iff f.id e.id, eq_iff f.id k, eq_iff e.id k)

find_entry-id : (k : String) (es : List Entry) (e : Entry) → find_entry k es ≡ some e → e.id ≡ k
unfolding find_entry
find_entry-id k [] e h = cc
find_entry-id k (f ∷ es) e h = ground (arith, find_entry-id k es e, eq_iff f.id k)

pub get_or_create_entry-id : (s : BreakerState) (k : String) → (get_or_create_entry s k).id ≡ k
unfolding get_or_create_entry create_entry
get_or_create_entry-id s k = elim (Option-cases (find_entry k s.providers)) [
  | inl missing ↦ rw missing
  | inr (e, found) ↦ rw found (find_entry-id k s.providers e found)
]

put_entry_at :
    (p k : String) (e : Entry) (es : List Entry)
    → e.id ≡ p
    → find_entry k (put_entry e es) ≡ (if str_eq p k then some e else find_entry k es)
put_entry_at p k e es h = rw (← h) (find_entry-put_entry k e es)

-- A call of one of the operations, on the provider that is named.
pub data BreakerCall : Type 0 where
  attempt : String → ℕ → BreakerCall
  success : String → ℕ → BreakerCall
  failure : String → ℕ → Option String → BreakerCall

abbrev pub provider_of : BreakerCall → String
provider_of (attempt p now) = p
provider_of (success p now) = p
provider_of (failure p now reason) = p

module _ (engine : TextEngine) where
  abbrev pub call : BreakerCall → BreakerState → BreakerState
  call (attempt p now) s = (can_attempt_provider s p now).0
  call (success p now) s = record_provider_success s p now
  call (failure p now reason) s = record_provider_failure engine s p now reason

  -- What the call does to the entry of its provider.
  abbrev pub after : Options → BreakerCall → Entry → Entry
  after o (attempt p now) e = (attempt_entry e now).0
  after o (success p now) e = succeed_entry e now
  after o (failure p now reason) e = fail_entry engine o e now reason

  after-id : (o : Options) (c : BreakerCall) (e : Entry) → (after o c e).id ≡ e.id
  unfolding attempt_entry succeed_entry fail_entry
  after-id o (attempt p now) e = ground arith
  after-id o (success p now) e = refl
  after-id o (failure p now reason) e = refl

  pub after-IsWellFormed :
      (o : Options) (c : BreakerCall) (e : Entry) → IsWellFormed e → IsWellFormed (after o c e)
  after-IsWellFormed o (attempt p now) e h = attempt_entry-IsWellFormed e now h
  after-IsWellFormed o (success p now) e h = succeed_entry-IsWellFormed e now
  after-IsWellFormed o (failure p now reason) e h = fail_entry-IsWellFormed engine o e now reason

  pub call-options : (c : BreakerCall) (s : BreakerState) → (call c s).options ≡ s.options
  unfolding can_attempt_provider record_provider_success record_provider_failure
  call-options (attempt p now) s = refl
  call-options (success p now) s = refl
  call-options (failure p now reason) s = refl

  -- A call replaces the entry of its provider, which it creates where there was none, by what the
  -- operation makes of it, and leaves the entry of every other provider.
  pub find_entry-call :
      (c : BreakerCall) (s : BreakerState) (k : String)
      → find_entry k (call c s).providers ≡ (
          if str_eq (provider_of c) k
          then some (after s.options c (get_or_create_entry s (provider_of c)))
          else find_entry k s.providers)
  unfolding can_attempt_provider record_provider_success record_provider_failure
  find_entry-call (attempt p now) s k =
      let e = get_or_create_entry s p in
      put_entry_at p k (attempt_entry e now).0 s.providers
        (after-id s.options (attempt p now) e ∙ get_or_create_entry-id s p)
  find_entry-call (success p now) s k =
      let e = get_or_create_entry s p in
      put_entry_at p k (succeed_entry e now) s.providers
        (after-id s.options (success p now) e ∙ get_or_create_entry-id s p)
  find_entry-call (failure p now reason) s k =
      let e = get_or_create_entry s p in
      put_entry_at p k (fail_entry engine s.options e now reason) s.providers
        (after-id s.options (failure p now reason) e ∙ get_or_create_entry-id s p)
