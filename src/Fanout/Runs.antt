-- ===== src/Fanout/Runs.antt =====
-- How the fan-out of src/services/provider-readiness-coordinator.ts goes on and ends.
use opengecko.Prelude.{
  ℕ, zero, suc, ◌+◌, ◌*◌, ◌≤◌, ◌<◌, ◌≡◌, ◌⊎◌, refl, ◌∙◌, Bool, true, false, ◌&&◌, Option, none,
  some, List, [], ◌∷◌, ltb, ◌==◌, if◌then◌else◌, Option-cases, Bool-cases, inl, inr, arith,
}
use opengecko.Fanout.{
  Settled, Phase, waiting, working, ended, done, Slot, Fanout, FanoutOptions, Work, returned, threw,
  is_busy, normalize_readiness_concurrency, get_at, set_at, resolved, record_work, resolve_once,
  start_at, start_loop, settle_missing_budget_results, start_next, end_work, finish_work, Step,
  work_ends, work_finishes, budget_expires, Reached, started, stepped, idle_slots, start_fanout,
}
use opengecko.Fanout.Slots.{Layout-counts, Layout-start, busy_some}
use opengecko.Fanout.Invariant.{
  initial, initial-IsLaid, IsSound, Reached-IsSound, IsLaid, capacity, final_slots, start_at-IsLaid,
  release-IsLaid, start_next-open, resolve_once-open, release, resolve_once-closed,
  start_next-closed,
}

abbrev weight : Phase → ℕ
weight waiting = 2
weight working = 2
weight ended = 1
weight done = 0

positive :
    (options : FanoutOptions) (active settled next busy settled_count : ℕ)
    → active ≡ busy
    → settled ≡ settled_count
    → settled < options.item_count
    → (active ≡ capacity options) ⊎ (next ≡ options.item_count)
    → busy + settled_count ≡ next
    → 1 ≤ busy
unfolding normalize_readiness_concurrency
positive options active settled next busy settled_count a b less full counts = ground arith

ended_weight : (p q : Phase) → p ≡ working → q ≡ ended → weight p ≡ suc (weight q)
ended_weight p q e f = ground arith

module _ {ℓ} {V E : Type ℓ} where
  -- Once the promise is resolved, no later step changes what it was resolved with.
  outcome_kept :
      (options : FanoutOptions) (s t : Fanout V E) (results : List (Settled V E))
      → s.outcome ≡ some results
      → Step options s t
      → t.outcome ≡ some results
  unfolding end_work finish_work
  outcome_kept options s t results e (work_ends i work slot f phase) =
      elim (Bool-cases (resolved s)) [ inl closed ↦ rw closed e | inr unresolved ↦ rw unresolved e ]
  outcome_kept options s t results e (work_finishes i slot f phase) =
      elim (Bool-cases (s.settled_workers + 1 == options.item_count)) [
        | inl last ↦ rw last (rw (resolve_once-closed options (release i slot s) results e) e)
        | inr more ↦ rw more (rw (start_next-closed options (release i slot s) results e) e)
      ]
  outcome_kept options s t results e (budget_expires limited unresolved) = cc (rw e at unresolved)

  -- The steps that are left: two for an item that was not started or works, and one before its `finally`.
  unfoldable pub steps_left : List (Slot V E) → ℕ
  steps_left [] = 0
  steps_left (s ∷ ss) = weight s.phase + steps_left ss

  steps_left-set_at :
      (i : ℕ) (v old : Slot V E) (ss : List (Slot V E))
      → get_at i ss ≡ some old
      → steps_left (set_at i v ss) + weight old.phase ≡ steps_left ss + weight v.phase
  unfolding set_at get_at steps_left
  steps_left-set_at i v old [] e = cc
  steps_left-set_at zero v old (s ∷ ss) e = ground arith
  steps_left-set_at (suc i) v old (s ∷ ss) e = ground (arith, steps_left-set_at i v old ss e)

  steps_left-final_slots :
      (options : FanoutOptions) (ss : List (Slot V E))
      → steps_left (final_slots options ss) ≡ steps_left ss
  unfolding steps_left settle_missing_budget_results
  steps_left-final_slots options [] = ground arith
  steps_left-final_slots options (s ∷ ss) = ground (arith, steps_left-final_slots options ss)

  steps_left-start_at :
      (options : FanoutOptions) (s : Fanout V E)
      → IsLaid options s
      → s.next_index < options.item_count
      → steps_left (start_at s).slots ≡ steps_left s.slots
  steps_left-start_at options s laid more =
      let v : Slot V E = record {
        phase = working;
        result = none;
        reported_failure = false;
        aborted = false;
      } in
      let ((old, e, w), layout) =
        Layout-start s.next_index v s.slots laid.1 (omega (arith, laid.0, more)) refl in
      ground (arith, steps_left-set_at s.next_index v old s.slots e)

  steps_left-start_loop :
      (options : FanoutOptions) (fuel : ℕ) (s : Fanout V E)
      → IsLaid options s
      → steps_left (start_loop options fuel s).slots ≡ steps_left s.slots
  unfolding start_loop
  steps_left-start_loop options zero s laid = refl
  steps_left-start_loop options (suc fuel) s laid =
      elim (Bool-cases
        (ltb s.active_workers (capacity options) && ltb s.next_index options.item_count)) [
          | inl go ↦ rw go (
              steps_left-start_loop options fuel (start_at s)
                (start_at-IsLaid options s laid (ground arith) (ground arith))
              ∙ steps_left-start_at options s laid (ground arith))
          | inr stop ↦ rw stop refl
        ]

  -- What is left to happen.
  abbrev pub steps_before_end : Fanout V E → ℕ
  steps_before_end s = steps_left s.slots + (if resolved s then 0 else 1)

  set_at-shorter :
      (i : ℕ) (v old : Slot V E) (s : Fanout V E)
      → get_at i s.slots ≡ some old
      → weight old.phase ≡ suc (weight v.phase)
      → steps_before_end (record s { slots = set_at i v s.slots }) < steps_before_end s
  set_at-shorter i v old s e h = omega (arith, steps_left-set_at i v old s.slots e, h)

  end_work-slot :
      (i : ℕ) (work : Work V E) (slot : Slot V E) (s : Fanout V E)
      → (v : Slot V E) × (v.phase ≡ ended)
        × (end_work i work slot s ≡ record s { slots = set_at i v s.slots })
  unfolding end_work
  end_work-slot i (returned v) slot s = elim (Bool-cases (resolved s)) [
    | inl closed ↦ (record slot { phase = ended }, refl, rw (closed, end_work) refl)
    | inr unresolved ↦ (record_work (returned v) slot, refl, rw (unresolved, end_work) refl)
  ]
  end_work-slot i (threw e) slot s = elim (Bool-cases (resolved s)) [
    | inl closed ↦ (record slot { phase = ended }, refl, rw (closed, end_work) refl)
    | inr unresolved ↦ (record_work (threw e) slot, refl, rw (unresolved, end_work) refl)
  ]

  release-shorter :
      (i : ℕ) (slot : Slot V E) (s : Fanout V E)
      → get_at i s.slots ≡ some slot
      → slot.phase ≡ ended
      → steps_before_end (release i slot s) < steps_before_end s
  release-shorter i slot s e phase =
      ground (arith, steps_left-set_at i (record slot { phase = done }) slot s.slots e)

  resolve_once-no_longer :
      (options : FanoutOptions) (s : Fanout V E)
      → steps_before_end (resolve_once options s) ≤ steps_before_end s
  resolve_once-no_longer options s = elim (Option-cases s.outcome) [
    | inr (results, e) ↦ rw (resolve_once-closed options s results e) (omega arith)
    | inl unresolved ↦
        rw (resolve_once-open options s unresolved)
          (omega (arith, steps_left-final_slots options s.slots))
  ]

  start_loop-outcome :
      (options : FanoutOptions) (fuel : ℕ) (s : Fanout V E)
      → (start_loop options fuel s).outcome ≡ s.outcome
  unfolding start_loop
  start_loop-outcome options zero s = refl
  start_loop-outcome options (suc fuel) s =
      elim (Bool-cases
        (ltb s.active_workers (capacity options) && ltb s.next_index options.item_count)) [
          | inl go ↦ rw go (start_loop-outcome options fuel (start_at s))
          | inr stop ↦ rw stop refl
        ]

  start_next-no_longer :
      (options : FanoutOptions) (s : Fanout V E)
      → IsLaid options s
      → steps_before_end (start_next options s) ≤ steps_before_end s
  start_next-no_longer options s laid = elim (Option-cases s.outcome) [
    | inr (results, e) ↦ rw (start_next-closed options s results e) (omega arith)
    | inl unresolved ↦ rw (start_next-open options s unresolved) (
        rw (start_loop-outcome options options.item_count s)
          (omega (arith, steps_left-start_loop options options.item_count s laid)))
  ]

  Step-decreases :
      (options : FanoutOptions) (s t : Fanout V E)
      → IsSound options s
      → Step options s t
      → steps_before_end t < steps_before_end s
  unfolding finish_work
  Step-decreases options s t sound (work_ends i work slot f phase) =
      let (v, after, e) = end_work-slot i work slot s in
      rw e (set_at-shorter i v slot s f (ended_weight slot.phase v.phase phase after))
  Step-decreases options s t sound (work_finishes i slot f phase) =
      elim (Bool-cases (s.settled_workers + 1 == options.item_count)) [
        | inl last ↦ rw last (
            omega (
              arith,
              release-shorter i slot s f phase,
              resolve_once-no_longer options (release i slot s),
            ))
        | inr more ↦ rw more (
            omega (
              arith,
              release-shorter i slot s f phase,
              start_next-no_longer options (release i slot s)
                  (release-IsLaid options i slot s sound.0 f phase),
            ))
      ]
  Step-decreases options s t sound (budget_expires limited unresolved) =
      elim (Option-cases s.outcome) [
        | inr (results, e) ↦ cc (rw e at unresolved)
        | inl waits ↦
            rw (resolve_once-open options s waits)
              (rw waits (omega (arith, steps_left-final_slots options s.slots)))
      ]

  -- While the promise is not resolved, some item is at work or before its `finally`.
  busy_before_outcome :
      (options : FanoutOptions) (s : Fanout V E)
      → IsSound options s
      → s.outcome ≡ none
      → (i : ℕ) × (slot : Slot V E) × (get_at i s.slots ≡ some slot) × (is_busy slot.phase ≡ true)
  busy_before_outcome options s ((len, layout, busy, settled, cap), decided) e =
      let (less, full) = rw e at decided in
      busy_some s.slots (
        positive options s.active_workers s.settled_workers s.next_index _ _ busy settled less full
          (Layout-counts s.next_index s.slots layout))

steps_left-idle {ℓ} : (V E : Type ℓ) (n : ℕ) → steps_left (idle_slots {V = V} {E = E} n) ≡ 2 * n
unfolding steps_left idle_slots
steps_left-idle V E zero = refl
steps_left-idle V E (suc n) = omega (arith, steps_left-idle V E n)

resolved_or_not : (b : Bool) → (if b then 0 else 1) ≤ 1
resolved_or_not b = ground arith

steps-start {ℓ} :
    (V E : Type ℓ) (options : FanoutOptions)
    → steps_before_end (start_fanout {V = V} {E = E} options) ≤ 2 * options.item_count + 1
unfolding start_fanout
steps-start V E options =
    let outcome : Option (List (Settled V E)) = if options.item_count == 0 then some [] else none in
    omega (
      arith,
      start_next-no_longer options (initial V E options outcome)
          (initial-IsLaid V E options outcome),
      steps_left-idle V E options.item_count,
      resolved_or_not (resolved (initial V E options outcome)),
    )

steps-Reached {ℓ} :
    {V E : Type ℓ} (options : FanoutOptions) (s : Fanout V E)
    → Reached options s
    → steps_before_end s ≤ 2 * options.item_count + 1
steps-Reached {V = V} {E = E} options s started = steps-start V E options
steps-Reached options s (stepped {s = t} r step) = omega (
  arith,
  steps-Reached options t r,
  Step-decreases options t s (Reached-IsSound options t r) step,
)

-- A run of the fan-out has at most twice as many steps as items, and one for the budget. While its
-- promise is not resolved some item is at work or before its `finally`; once it is resolved, no
-- later step changes what it was resolved with.
pub Reached-IsEnding {ℓ} :
    {V E : Type ℓ} (options : FanoutOptions) (s : Fanout V E)
    → Reached options s
    → (steps_before_end s ≤ 2 * options.item_count + 1)
      × ((t : Fanout V E) → Step options s t → steps_before_end t < steps_before_end s)
      × ((t : Fanout V E) (results : List (Settled V E))
          → s.outcome ≡ some results
          → Step options s t
          → t.outcome ≡ some results)
      × (s.outcome ≡ none
          → (i : ℕ) × (slot : Slot V E) × (get_at i s.slots ≡ some slot)
            × (is_busy slot.phase ≡ true))
Reached-IsEnding options s r =
    let sound = Reached-IsSound options s r in
    (
      steps-Reached options s r,
      λ t step. Step-decreases options s t sound step,
      outcome_kept options s,
      busy_before_outcome options s sound,
    )
