-- ===== src/Concurrency/Termination.antt =====
-- The number of settlements of a call of `mapWithConcurrency` of src/lib/async.ts.
use opengecko.Prelude.{ℕ, zero, suc, ◌+◌, ◌-◌, ◌≤◌, ◌≡◌, ◌∙◌, refl, false, [], length, arith}
use opengecko.Concurrency.{
  Workers, empty_slots, take_index, spawn, worker_count, start_workers, fulfil, reject,
}
use opengecko.Concurrency.Slots.{length-forget}
use opengecko.Concurrency.Order.{
  WorkersStep, fulfils, rejects, WorkersReach, here, next, WorkersReach-IsSound,
}

module _ {B : Type 0} (f : ℕ → B) (items concurrency : ℕ) where
  abbrev pub remaining : Workers B → ℕ
  remaining s = length s.awaited + (items - s.next_index)

  -- The number of settlements.
  pub steps : {s t : Workers B} → WorkersReach f items concurrency s t → ℕ
  steps here = 0
  steps (next r st) = steps r + 1

  WorkersStep-remaining :
      {s t : Workers B}
      → WorkersStep f items concurrency s t
      → s.next_index ≤ items
      → remaining t + 1 ≡ remaining s
  unfolding fulfil take_index reject
  WorkersStep-remaining (fulfils s i h) within = ground (arith, length-forget i s.awaited h)
  WorkersStep-remaining (rejects s i h) within = ground (arith, length-forget i s.awaited h)

  spawn-remaining :
      (workers : ℕ) (s : Workers B)
      → s.next_index ≤ items
      → remaining (spawn workers items s) ≡ remaining s
  unfolding spawn take_index
  spawn-remaining zero s h = refl
  spawn-remaining (suc workers) s h = ground (arith, spawn-remaining workers (take_index items s))

  start_workers-remaining : remaining (start_workers items concurrency) ≡ items
  unfolding start_workers
  start_workers-remaining =
      spawn-remaining (worker_count items concurrency)
        (record { next_index = 0; awaited = []; results = empty_slots items; rejected = false })
        (omega arith)
      ∙ omega arith

  -- The settlements and the items that are awaited or not yet begun are together as many as the
  -- items: the calls end after at most one settlement for each item, in whatever order.
  pub WorkersReach-steps :
      (t : Workers B) (r : WorkersReach f items concurrency (start_workers items concurrency) t)
      → steps r + remaining t ≡ items
  unfolding steps
  WorkersReach-steps t here = omega (arith, start_workers-remaining)
  WorkersReach-steps t (next {t = u} r st) = omega (
    arith,
    WorkersReach-steps u r,
    WorkersStep-remaining st (WorkersReach-IsSound f items concurrency r).within,
  )
