-- ===== src/Fanout.antt =====
-- `runBudgetedProviderFanout` of src/services/provider-readiness-coordinator.ts: work on several
-- items, a few at a time, under a budget of time. A step is one callback: the end of an item's
-- work, the `finally` behind it, or the timer of the budget. The callbacks of the caller do not
-- throw.
pub mod Slots
pub mod Invariant
pub mod Runs
mod Tests
use opengecko.Prelude.{
  ℕ, zero, suc, ◌≡◌, ◌+◌, ◌-◌, max, min, Bool, true, false, not, ◌&&◌, Option, none, some, List, [],
  ◌∷◌, map, length, ltb, ◌==◌, is_some, if◌then◌else◌,
}

-- Why an item has no value of its own.
pub data Failure : Type 0 where
  budget_expired budget_skipped : Failure

-- `PromiseSettledResult`; a reason is the work's error, or one that the coordinator builds.
pub data Settled {ℓ} (V E : Type ℓ) : Type ℓ where
  fulfilled : V → Settled V E
  rejected : E → Settled V E
  unfinished : Failure → Settled V E

-- An item waits, works, has ended and is before its `finally`, or is done.
pub data Phase : Type 0 where
  waiting working ended done : Phase

pub record Slot {ℓ} (V E : Type ℓ) : Type ℓ where
  pub phase : Phase
  pub result : Option (Settled V E)
  pub reported_failure : Bool
  pub aborted : Bool

unfoldable pub normalize_readiness_concurrency : ℕ → ℕ → ℕ
normalize_readiness_concurrency concurrency item_count =
    if item_count == 0 then 0 else min (max 1 concurrency) item_count

-- The variables of the function; `outcome` is what its promise was resolved with.
pub record Fanout {ℓ} (V E : Type ℓ) : Type ℓ where
  pub next_index : ℕ
  pub active_workers : ℕ
  pub settled_workers : ℕ
  pub slots : List (Slot V E)
  pub outcome : Option (List (Settled V E))

pub record FanoutOptions : Type 0 where
  pub item_count : ℕ
  pub concurrency : ℕ
  pub budget_ms : ℕ
  pub report_budget_failure : Bool

abbrev pub is_waiting : Phase → Bool
is_waiting waiting = true
is_waiting working = false
is_waiting ended = false
is_waiting done = false

abbrev pub is_busy : Phase → Bool
is_busy waiting = false
is_busy working = true
is_busy ended = true
is_busy done = false

abbrev pub missing_failure : Phase → Failure
missing_failure phase = if is_waiting phase then budget_skipped else budget_expired

-- What an item's work comes to.
pub data Work {ℓ} (V E : Type ℓ) : Type ℓ where
  returned : V → Work V E
  threw : E → Work V E

module _ {ℓ} {V E : Type ℓ} where
  unfoldable pub get_at : ℕ → List (Slot V E) → Option (Slot V E)
  get_at i [] = none
  get_at zero (s ∷ ss) = some s
  get_at (suc i) (s ∷ ss) = get_at i ss

  unfoldable pub set_at : ℕ → Slot V E → List (Slot V E) → List (Slot V E)
  set_at i v [] = []
  set_at zero v (s ∷ ss) = v ∷ ss
  set_at (suc i) v (s ∷ ss) = s ∷ set_at i v ss

  abbrev pub resolved : Fanout V E → Bool
  resolved s = is_some s.outcome

  -- `settleMissingBudgetResults` at one item.
  abbrev settle_slot : FanoutOptions → Slot V E → Slot V E
  settle_slot options s =
      if is_some s.result then record s { aborted = is_busy s.phase } else record s {
        aborted = is_busy s.phase;
        result = some (unfinished (missing_failure s.phase));
        reported_failure = if options.report_budget_failure then true else s.reported_failure;
      }

  unfoldable pub settle_missing_budget_results : FanoutOptions → List (Slot V E) → List (Slot V E)
  settle_missing_budget_results options slots = map (settle_slot options) slots

  -- `results[index] ?? …`
  abbrev result_of : Slot V E → Settled V E
  result_of s = elim s.result [ some r ↦ r | none ↦ unfinished budget_expired ]

  unfoldable pub resolve_once : FanoutOptions → Fanout V E → Fanout V E
  unfolding settle_missing_budget_results
  resolve_once options s =
      let slots =
        if ltb 0 options.budget_ms
        then settle_missing_budget_results options s.slots
        else s.slots in
      if resolved s then s else record s { slots = slots; outcome = some (map result_of slots) }

  abbrev start_at : Fanout V E → Fanout V E
  start_at s = record s {
    next_index = s.next_index + 1;
    active_workers = s.active_workers + 1;
    slots =
        set_at s.next_index
          (record { phase = working; result = none; reported_failure = false; aborted = false })
          s.slots;
  }

  -- The `while` of `startNext`, on fuel for its rounds.
  unfoldable pub start_loop : FanoutOptions → ℕ → Fanout V E → Fanout V E
  unfolding set_at normalize_readiness_concurrency
  start_loop options zero s = s
  start_loop options (suc fuel) s =
      let started = start_loop options fuel (start_at s) in
      if ltb s.active_workers
          (normalize_readiness_concurrency options.concurrency options.item_count)
        && ltb s.next_index options.item_count
      then started
      else s

  unfoldable pub start_next : FanoutOptions → Fanout V E → Fanout V E
  unfolding start_loop
  start_next options s =
      let started = start_loop options options.item_count s in if resolved s then s else started

  unfoldable pub idle_slots : ℕ → List (Slot V E)
  idle_slots zero = []
  idle_slots (suc n) =
      record { phase = waiting; result = none; reported_failure = false; aborted = false }
      ∷ idle_slots n

  -- Before the first step.
  unfoldable pub start_fanout : FanoutOptions → Fanout V E
  unfolding idle_slots start_next
  start_fanout options = start_next options (record {
    next_index = 0;
    active_workers = 0;
    settled_workers = 0;
    slots = idle_slots options.item_count;
    outcome = if options.item_count == 0 then some [] else none;
  })

  abbrev record_work : Work V E → Slot V E → Slot V E
  record_work (returned v) s = record s { phase = ended; result = some (fulfilled v) }
  record_work (threw e) s = record s {
    phase = ended;
    result = some (rejected e);
    reported_failure = true;
  }

  -- `.then` and `.catch`: after the fan-out has resolved nothing is recorded.
  unfoldable pub end_work : ℕ → Work V E → Slot V E → Fanout V E → Fanout V E
  end_work i work slot s =
      if resolved s
      then record s { slots = set_at i (record slot { phase = ended }) s.slots }
      else record s { slots = set_at i (record_work work slot) s.slots }

  -- `.finally`
  unfoldable pub finish_work : FanoutOptions → ℕ → Slot V E → Fanout V E → Fanout V E
  unfolding resolve_once start_next
  finish_work options i slot s =
      let released = record s {
        slots = set_at i (record slot { phase = done }) s.slots;
        active_workers = s.active_workers - 1;
        settled_workers = s.settled_workers + 1;
      } in
      if released.settled_workers == options.item_count
      then resolve_once options released
      else start_next options released

  -- The callbacks that can come next.
  pub data Step (options : FanoutOptions) (s : Fanout V E) : Fanout V E → Type ℓ where
    work_ends :
        (i : ℕ) (work : Work V E) (slot : Slot V E)
        → get_at i s.slots ≡ some slot
        → slot.phase ≡ working
        → Step options s (end_work i work slot s)
    work_finishes :
        (i : ℕ) (slot : Slot V E)
        → get_at i s.slots ≡ some slot
        → slot.phase ≡ ended
        → Step options s (finish_work options i slot s)
    budget_expires :
        ltb 0 options.budget_ms ≡ true
        → resolved s ≡ false
        → Step options s (resolve_once options s)

  pub data Reached (options : FanoutOptions) : Fanout V E → Type ℓ where
    started : Reached options (start_fanout options)
    stepped : {s t : Fanout V E} → Reached options s → Step options s t → Reached options t
