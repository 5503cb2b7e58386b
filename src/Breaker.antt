-- ===== src/Breaker.antt =====
-- src/services/provider-breaker.ts: a circuit breaker for each provider. Instants and delays are
-- milliseconds.
pub mod Delay
pub mod Failures
pub mod Life
mod Tests
use Prim.Native.Nat.{bit_xor, Ordering}
use Prim.Native.Char.{code}
use opengecko.Prelude.{
  ℕ, zero, suc, ◌+◌, ◌-◌, ◌*◌, ◌/◌, ◌%◌, ◌^◌, min, max, String, Bool, true, false, ◌&&◌, Option,
  none, some, List, [], ◌∷◌, ◌++◌, map, ltb, leb, str_eq, or_else, if◌then◌else◌,
}
use opengecko.Prelude.Sorting.{sort}
use opengecko.Breaker.Delay.{Options, PartialOptions, normalize_options, compute_backoff_ms}
use opengecko.Breaker.Failures.{FailureKind, TextEngine, classify_provider_failure}

pub data BreakerStatus : Type 0 where
  closed opened half_open : BreakerStatus

pub record Entry : Type 0 where
  pub id : String
  pub status : BreakerStatus
  pub failure_count : ℕ
  pub opened_until : Option ℕ
  pub last_success_at : Option ℕ
  pub last_failure_at : Option ℕ
  pub last_failure_kind : Option FailureKind
  pub last_failure_reason : Option String

pub record BreakerState : Type 0 where
  pub providers : List Entry
  pub options : Options

pub create_entry : String → Entry
create_entry provider_id = record {
  id = provider_id;
  status = closed;
  failure_count = 0;
  opened_until = none;
  last_success_at = none;
  last_failure_at = none;
  last_failure_kind = none;
  last_failure_reason = none;
}

-- `state.providers[id]`; an entry is stored under its own `id`.
pub find_entry : String → List Entry → Option Entry
find_entry provider_id [] = none
find_entry provider_id (e ∷ es) =
    if str_eq e.id provider_id then some e else find_entry provider_id es

-- An entry replaces the one with its `id`, or is added behind the others.
pub put_entry : Entry → List Entry → List Entry
put_entry e [] = e ∷ []
put_entry e (f ∷ es) = if str_eq f.id e.id then e ∷ es else f ∷ put_entry e es

unfoldable pub put_all : List String → List Entry → List Entry
unfolding put_entry create_entry
put_all [] es = es
put_all (provider_id ∷ ids) es = put_all ids (put_entry (create_entry provider_id) es)

unfoldable pub create_provider_breaker_state : List String → PartialOptions → BreakerState
unfolding put_all normalize_options
create_provider_breaker_state ids options = record {
  providers = put_all ids [];
  options = normalize_options options;
}

pub get_or_create_entry : BreakerState → String → Entry
unfolding find_entry create_entry
get_or_create_entry state provider_id =
    or_else (find_entry provider_id state.providers) (create_entry provider_id)

-- The state of one entry after `canAttemptProvider`, and its answer.
pub attempt_entry : Entry → ℕ → Entry × Bool
attempt_entry entry now = elim entry.status [
  | opened ↦ elim entry.opened_until [
    | none ↦ (record entry { status = half_open }, true)
    | some t ↦ if ltb now t then (entry, false) else (record entry { status = half_open }, true)
  ]
  | closed ↦ (entry, true)
  | half_open ↦ (entry, true)
]

pub can_attempt_provider : BreakerState → String → ℕ → BreakerState × Bool
unfolding get_or_create_entry attempt_entry put_entry
can_attempt_provider state provider_id now =
    let (entry, allowed) = attempt_entry (get_or_create_entry state provider_id) now in
    (record state { providers = put_entry entry state.providers }, allowed)

pub succeed_entry : Entry → ℕ → Entry
succeed_entry entry now = record entry {
  status = closed;
  failure_count = 0;
  opened_until = none;
  last_success_at = some now;
  last_failure_kind = none;
  last_failure_reason = none;
}

pub record_provider_success : BreakerState → String → ℕ → BreakerState
unfolding get_or_create_entry succeed_entry put_entry
record_provider_success state provider_id now =
    let entry = succeed_entry (get_or_create_entry state provider_id) now in
    record state { providers = put_entry entry state.providers }

pub fail_entry : TextEngine → Options → Entry → ℕ → Option String → Entry
fail_entry engine o entry now reason =
    let count = entry.failure_count + 1 in
    let classification = classify_provider_failure engine (or_else reason "provider failed") in
    record entry {
      failure_count = count;
      status = opened;
      last_failure_at = some now;
      last_failure_kind = some classification.0;
      last_failure_reason = some classification.1;
      opened_until = some (now + compute_backoff_ms o entry.id count);
    }

pub record_provider_failure : TextEngine → BreakerState → String → ℕ → Option String → BreakerState
unfolding get_or_create_entry fail_entry put_entry
record_provider_failure engine state provider_id now reason =
    let entry =
      fail_entry engine state.options (get_or_create_entry state provider_id) now reason in
    record state { providers = put_entry entry state.providers }

pub record EntrySummary : Type 0 where
  pub id : String
  pub status : BreakerStatus
  pub failure_count : ℕ
  pub opened_until : Option ℕ
  pub last_success_at : Option ℕ
  pub last_failure_at : Option ℕ
  pub failure_kind : Option FailureKind
  pub last_failure_reason : Option String
  pub retry_in_ms : ℕ

summary_status : BreakerStatus → Option ℕ → ℕ → BreakerStatus
summary_status opened (some t) now = if leb t now then half_open else opened
summary_status opened none now = opened
summary_status closed t now = closed
summary_status half_open t now = half_open

retry_in : BreakerStatus → Option ℕ → ℕ → ℕ
retry_in opened (some t) now = t - now
retry_in opened none now = 0
retry_in closed t now = 0
retry_in half_open t now = 0

pub summarize_entry : ℕ → Entry → EntrySummary
unfolding summary_status retry_in
summarize_entry now e = record {
  id = e.id;
  status = summary_status e.status e.opened_until now;
  failure_count = e.failure_count;
  opened_until = e.opened_until;
  last_success_at = e.last_success_at;
  last_failure_at = e.last_failure_at;
  failure_kind = e.last_failure_kind;
  last_failure_reason = e.last_failure_reason;
  retry_in_ms = retry_in e.status e.opened_until now;
}

-- `localeCompare` is the platform's.
unfoldable pub summarize_provider_breaker_state :
    (String → String → Ordering) → BreakerState → ℕ → List EntrySummary
unfolding summarize_entry
summarize_provider_breaker_state locale_compare state now =
    map (summarize_entry now) (sort (λ l r. locale_compare l.id r.id) state.providers)
