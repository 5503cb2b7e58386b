-- ===== src/Fanout/Invariant.antt =====
-- What holds of the fan-out of src/services/provider-readiness-coordinator.ts after every step.
use opengecko.Prelude.{
  ℕ, zero, suc, ◌+◌, ◌-◌, ◌≤◌, ◌<◌, ◌≡◌, ◌⊎◌, refl, ◌∙◌, false, ◌&&◌, Option, none, some, List, [],
  map, length, length-map, ltb, ◌==◌, if◌then◌else◌, Option-cases, Bool-cases, inl, inr, arith,
}
use opengecko.Fanout.{
  Settled, working, ended, done, Slot, Fanout, FanoutOptions, Work, returned, threw,
  normalize_readiness_concurrency, get_at, set_at, resolved, settle_missing_budget_results,
  result_of, resolve_once, start_at, start_loop, start_next, idle_slots, start_fanout, end_work,
  finish_work, Step, work_ends, work_finishes, budget_expires, Reached, started, stepped,
}
use opengecko.Fanout.Slots.{
  busy_count, done_count, Layout, length-set_at, busy_count-set_at, done_count-set_at,
  Layout-set_at, Layout-start, Layout-counts, settle-counts, Layout-le, Layout-at, idle-counts,
}

abbrev pub capacity : FanoutOptions → ℕ
capacity options = normalize_readiness_concurrency options.concurrency options.item_count

module _ {ℓ} {V E : Type ℓ} where
  -- The counters count the items: those that were started come first, the busy ones are at most as
  -- many as may be, and the others are done.
  abbrev pub IsLaid : FanoutOptions → Fanout V E → Type 0
  IsLaid options s =
      (length s.slots ≡ options.item_count)
      × Layout s.next_index s.slots
      × (s.active_workers ≡ busy_count s.slots)
      × (s.settled_workers ≡ done_count s.slots)
      × (s.active_workers ≤ capacity options)

  -- As many items are busy as may be, or all were started.
  abbrev pub IsFull : FanoutOptions → Fanout V E → Type 0
  IsFull options s = (s.active_workers ≡ capacity options) ⊎ (s.next_index ≡ options.item_count)

  -- Before the outcome, not every item is done, and nothing waits that may work; the outcome has a
  -- result for each item.
  abbrev pub IsDecided :
      FanoutOptions → (settled active next : ℕ) → Option (List (Settled V E)) → Type 0
  IsDecided options settled active next none =
      (settled < options.item_count) × ((active ≡ capacity options) ⊎ (next ≡ options.item_count))
  IsDecided options settled active next (some results) = length results ≡ options.item_count

  abbrev pub IsSound : FanoutOptions → Fanout V E → Type 0
  IsSound options s =
      IsLaid options s × IsDecided options s.settled_workers s.active_workers s.next_index s.outcome

  pub start_at-IsLaid :
      (options : FanoutOptions) (s : Fanout V E)
      → IsLaid options s
      → s.active_workers < capacity options
      → s.next_index < options.item_count
      → IsLaid options (start_at s)
  start_at-IsLaid options s (len, layout, busy, settled, cap) room more =
      let v : Slot V E = record {
        phase = working;
        result = none;
        reported_failure = false;
        aborted = false;
      } in
      let ((old, e, w), layout') =
        Layout-start s.next_index v s.slots layout (omega (arith, len, more)) refl in
      (
        omega (arith, length-set_at s.next_index v s.slots, len),
        Layout-at (suc s.next_index) (s.next_index + 1) (set_at s.next_index v s.slots)
            (omega arith) layout',
        ground (arith, busy_count-set_at s.next_index v old s.slots e, busy),
        ground (arith, done_count-set_at s.next_index v old s.slots e, settled),
        omega (arith, room),
      )

  start_loop-IsLaid :
      (options : FanoutOptions) (fuel : ℕ) (s : Fanout V E)
      → IsLaid options s
      → s.next_index ≤ options.item_count
      → options.item_count ≤ s.next_index + fuel
      → IsLaid options (start_loop options fuel s)
        × IsFull options (start_loop options fuel s)
        × ((start_loop options fuel s).settled_workers ≡ s.settled_workers)
        × ((start_loop options fuel s).outcome ≡ s.outcome)
        × ((start_loop options fuel s).next_index ≤ options.item_count)
  unfolding start_loop
  start_loop-IsLaid options zero s laid le enough =
      (laid, inr (omega (arith, le, enough)), refl, refl, le)
  start_loop-IsLaid options (suc fuel) s laid le enough =
      elim (Bool-cases
        (ltb s.active_workers (capacity options) && ltb s.next_index options.item_count)) [
          | inl go ↦ rw go (
              start_loop-IsLaid options fuel (start_at s)
                (start_at-IsLaid options s laid (ground arith) (ground arith)) (ground arith)
                (omega (arith, enough)))
          | inr stop ↦ rw stop (laid, ground (arith, laid), refl, refl, le)
        ]

  abbrev Answers : FanoutOptions → Fanout V E → Type ℓ
  Answers options s =
      (results : List (Settled V E))
      → s.outcome ≡ some results
      → length results ≡ options.item_count

  abbrev pub final_slots : FanoutOptions → List (Slot V E) → List (Slot V E)
  final_slots options slots =
      if ltb 0 options.budget_ms then settle_missing_budget_results options slots else slots

  length-settle :
      (options : FanoutOptions) (ss : List (Slot V E))
      → length (settle_missing_budget_results options ss) ≡ length ss
  unfolding settle_missing_budget_results
  length-settle options ss = length-map _ ss

  final_slots-counts :
      (options : FanoutOptions) (k : ℕ) (ss : List (Slot V E))
      → Layout k ss
      → Layout k (final_slots options ss)
        × (busy_count (final_slots options ss) ≡ busy_count ss)
        × (done_count (final_slots options ss) ≡ done_count ss)
        × (length (final_slots options ss) ≡ length ss)
  final_slots-counts options k ss layout = elim (Bool-cases (ltb 0 options.budget_ms)) [
    | inl limited ↦
        let (l, b, d) = settle-counts options k ss layout in
        rw limited (l, b, d, length-settle options ss)
    | inr unlimited ↦ rw unlimited (layout, refl, refl, refl)
  ]

  pub resolve_once-open :
      (options : FanoutOptions) (s : Fanout V E)
      → s.outcome ≡ none
      → resolve_once options s ≡ record s {
        slots = final_slots options s.slots;
        outcome = some (map result_of (final_slots options s.slots));
      }
  unfolding resolve_once
  resolve_once-open options s e = rw e refl

  pub resolve_once-closed :
      (options : FanoutOptions) (s : Fanout V E) (results : List (Settled V E))
      → s.outcome ≡ some results
      → resolve_once options s ≡ s
  unfolding resolve_once
  resolve_once-closed options s results e = rw e refl

  resolve_once-IsSound :
      (options : FanoutOptions) (s : Fanout V E)
      → IsLaid options s
      → Answers options s
      → IsSound options (resolve_once options s)
  resolve_once-IsSound options s (len, layout, busy, settled, cap) answers =
      elim (Option-cases s.outcome) [
        | inr (results, e) ↦
            rw (resolve_once-closed options s results e)
              ((len, layout, busy, settled, cap), rw e (answers results e))
        | inl unresolved ↦
            let (layout', busy', settled', len') =
              final_slots-counts options s.next_index s.slots layout in
            rw (resolve_once-open options s unresolved) (
              (
                omega (arith, len, len'),
                layout',
                omega (arith, busy, busy'),
                omega (arith, settled, settled'),
                cap,
              ),
              omega (arith, len, len', length-map result_of (final_slots options s.slots)),
            )
      ]

  abbrev put : ℕ → Slot V E → Fanout V E → Fanout V E
  put i v s = record s { slots = set_at i v s.slots }

  put-IsSound :
      (options : FanoutOptions) (i : ℕ) (v old : Slot V E) (s : Fanout V E)
      → IsSound options s
      → get_at i s.slots ≡ some old
      → old.phase ≡ working
      → v.phase ≡ ended
      → IsSound options (put i v s)
  put-IsSound options i v old s ((len, layout, busy, settled, cap), decided) e before after = (
    (
      omega (arith, len, length-set_at i v s.slots),
      Layout-set_at s.next_index i v old s.slots layout e (rw before refl) (rw after refl),
      ground (arith, busy, busy_count-set_at i v old s.slots e),
      ground (arith, settled, done_count-set_at i v old s.slots e),
      cap,
    ),
    decided,
  )

  end_work-IsSound :
      (options : FanoutOptions) (i : ℕ) (work : Work V E) (slot : Slot V E) (s : Fanout V E)
      → IsSound options s
      → get_at i s.slots ≡ some slot
      → slot.phase ≡ working
      → IsSound options (end_work i work slot s)
  unfolding end_work
  end_work-IsSound options i (returned v) slot s sound e phase = elim (Bool-cases (resolved s)) [
    | inl closed ↦ rw closed (put-IsSound options i _ slot s sound e phase refl)
    | inr unresolved ↦ rw unresolved (put-IsSound options i _ slot s sound e phase refl)
  ]
  end_work-IsSound options i (threw v) slot s sound e phase = elim (Bool-cases (resolved s)) [
    | inl closed ↦ rw closed (put-IsSound options i _ slot s sound e phase refl)
    | inr unresolved ↦ rw unresolved (put-IsSound options i _ slot s sound e phase refl)
  ]

  -- The state in which `finally` decides what comes next.
  abbrev pub release : ℕ → Slot V E → Fanout V E → Fanout V E
  release i slot s = record s {
    slots = set_at i (record slot { phase = done }) s.slots;
    active_workers = s.active_workers - 1;
    settled_workers = s.settled_workers + 1;
  }

  pub release-IsLaid :
      (options : FanoutOptions) (i : ℕ) (slot : Slot V E) (s : Fanout V E)
      → IsLaid options s
      → get_at i s.slots ≡ some slot
      → slot.phase ≡ ended
      → IsLaid options (release i slot s)
  release-IsLaid options i slot s (len, layout, busy, settled, cap) e phase =
      let v = record slot { phase = done } in
      (
        omega (arith, len, length-set_at i v s.slots),
        Layout-set_at s.next_index i v slot s.slots layout e (rw phase refl) refl,
        ground (arith, busy, busy_count-set_at i v slot s.slots e),
        ground (arith, settled, done_count-set_at i v slot s.slots e),
        omega (arith, cap),
      )

  pub start_next-open :
      (options : FanoutOptions) (s : Fanout V E)
      → s.outcome ≡ none
      → start_next options s ≡ start_loop options options.item_count s
  unfolding start_next
  start_next-open options s e = rw e refl

  pub start_next-closed :
      (options : FanoutOptions) (s : Fanout V E) (results : List (Settled V E))
      → s.outcome ≡ some results
      → start_next options s ≡ s
  unfolding start_next
  start_next-closed options s results e = rw e refl

  start_next-IsSound :
      (options : FanoutOptions) (s : Fanout V E)
      → IsLaid options s
      → Answers options s
      → s.settled_workers < options.item_count
      → IsSound options (start_next options s)
  start_next-IsSound options s laid answers less = elim (Option-cases s.outcome) [
    | inr (results, e) ↦ rw (start_next-closed options s results e) (laid, rw e (answers results e))
    | inl unresolved ↦
        let (laid', full, settled, outcome, le) =
          start_loop-IsLaid options options.item_count s laid
            (omega (arith, laid.0, Layout-le s.next_index s.slots laid.1)) (omega arith) in
        rw (start_next-open options s unresolved)
          (laid', rw (outcome ∙ unresolved, settled) (less, full))
  ]

  settled_le :
      (options : FanoutOptions) (s : Fanout V E)
      → IsLaid options s
      → s.settled_workers ≤ options.item_count
  settled_le options s (len, layout, busy, settled, cap) = omega (
    arith,
    len,
    settled,
    Layout-le s.next_index s.slots layout,
    Layout-counts s.next_index s.slots layout,
  )

  IsSound-Answers :
      (options : FanoutOptions) (s : Fanout V E) → IsSound options s → Answers options s
  IsSound-Answers options s (laid, decided) results e = rw e at decided

  finish_work-IsSound :
      (options : FanoutOptions) (i : ℕ) (slot : Slot V E) (s : Fanout V E)
      → IsSound options s
      → get_at i s.slots ≡ some slot
      → slot.phase ≡ ended
      → IsSound options (finish_work options i slot s)
  unfolding finish_work
  finish_work-IsSound options i slot s sound e phase =
      let laid = release-IsLaid options i slot s sound.0 e phase in
      let answers = IsSound-Answers options s sound in
      elim (Bool-cases (s.settled_workers + 1 == options.item_count)) [
        | inl last ↦ rw last (resolve_once-IsSound options (release i slot s) laid answers)
        | inr more ↦ rw more (
            start_next-IsSound options (release i slot s) laid answers
              (ground (arith, settled_le options (release i slot s) laid)))
      ]

  Step-IsSound :
      (options : FanoutOptions) (s t : Fanout V E)
      → Step options s t
      → IsSound options s
      → IsSound options t
  Step-IsSound options s t (work_ends i work slot e phase) sound =
      end_work-IsSound options i work slot s sound e phase
  Step-IsSound options s t (work_finishes i slot e phase) sound =
      finish_work-IsSound options i slot s sound e phase
  Step-IsSound options s t (budget_expires limited unresolved) sound =
      resolve_once-IsSound options s sound.0 (IsSound-Answers options s sound)

abbrev pub initial {ℓ} : (V E : Type ℓ) → FanoutOptions → Option (List (Settled V E)) → Fanout V E
initial V E options outcome = record {
  next_index = 0;
  active_workers = 0;
  settled_workers = 0;
  slots = idle_slots options.item_count;
  outcome = outcome;
}

pub initial-IsLaid {ℓ} :
    (V E : Type ℓ) (options : FanoutOptions) (outcome : Option (List (Settled V E)))
    → IsLaid options (initial V E options outcome)
initial-IsLaid V E options outcome =
    let (layout, busy, settled, len) = idle-counts V E options.item_count in
    (len, layout, omega (arith, busy), omega (arith, settled), omega arith)

initial-IsSound {ℓ} :
    (V E : Type ℓ) (options : FanoutOptions) (outcome : Option (List (Settled V E)))
    → ((outcome ≡ some []) × (options.item_count ≡ 0))
      ⊎ ((outcome ≡ none) × (0 < options.item_count))
    → IsSound options (start_next options (initial V E options outcome))
initial-IsSound V E options outcome (inl (e, empty)) =
    rw (start_next-closed options (initial V E options outcome) [] e)
      (initial-IsLaid V E options outcome, rw e (omega (arith, empty)))
initial-IsSound V E options outcome (inr (e, more)) =
    start_next-IsSound options (initial V E options outcome) (initial-IsLaid V E options outcome)
      (λ results f. cc) more

start_fanout-IsSound {ℓ} :
    (V E : Type ℓ) (options : FanoutOptions)
    → IsSound options (start_fanout {V = V} {E = E} options)
unfolding start_fanout
start_fanout-IsSound V E options =
    initial-IsSound V E options _ (elim (Bool-cases (options.item_count == 0)) [
      | inl empty ↦ inl (rw empty refl, ground arith)
      | inr more ↦ inr (rw more refl, ground arith)
    ])

-- Whatever ends first and whenever the budget expires: each counter is the number of items that it
-- counts, no more items are busy than may be, before the outcome as many are busy as may be or all
-- were started, and the outcome has one result for each item.
pub Reached-IsSound {ℓ} :
    {V E : Type ℓ} (options : FanoutOptions) (s : Fanout V E)
    → Reached options s
    → IsSound options s
Reached-IsSound {V = V} {E = E} options s started = start_fanout-IsSound V E options
Reached-IsSound options s (stepped {s = t} r step) =
    Step-IsSound options t s step (Reached-IsSound options t r)
