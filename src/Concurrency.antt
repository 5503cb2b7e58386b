-- ===== src/Concurrency.antt =====
-- `mapWithConcurrency` of src/lib/async.ts: workers that share an index, and fill the slots of one
-- array. A worker awaits one item at a time; the events are the settlements of what is awaited,
-- in any order.
pub mod Order
pub mod Slots
pub mod Termination
mod Tests
use opengecko.Prelude.{
  ℕ, zero, suc, ◌+◌, min, max, Bool, true, false, not, ◌&&◌, Option, none, some, List, [], ◌∷◌,
  ◌++◌, length, ltb, ◌==◌, if◌then◌else◌,
}

module _ (B : Type 0) where
  -- `awaited` has the index of each worker that is not done; `rejected` tells that one has thrown,
  -- which rejects the promise of the whole.
  pub record Workers : Type 0 where
    pub next_index : ℕ
    pub awaited : List ℕ
    pub results : List (Option B)
    pub rejected : Bool

abbrev pub worker_count : ℕ → ℕ → ℕ
worker_count items concurrency = min (max 1 concurrency) items

-- An index that is awaited no more.
pub forget : ℕ → List ℕ → List ℕ
forget i [] = []
forget i (j ∷ js) = if j == i then js else j ∷ forget i js

module _ {B : Type 0} where
  pub empty_slots : ℕ → List (Option B)
  empty_slots zero = []
  empty_slots (suc n) = none ∷ empty_slots n

  -- `results[index] = value`
  pub put_slot : ℕ → B → List (Option B) → List (Option B)
  put_slot i v [] = []
  put_slot zero v (x ∷ xs) = some v ∷ xs
  put_slot (suc i) v (x ∷ xs) = x ∷ put_slot i v xs

  pub slot_at : ℕ → List (Option B) → Option B
  slot_at i [] = none
  slot_at zero (x ∷ xs) = x
  slot_at (suc i) (x ∷ xs) = slot_at i xs

  -- The test of the loop of a worker, and its next call.
  pub take_index : ℕ → Workers B → Workers B
  take_index items s =
      if ltb s.next_index items
      then record s { next_index = s.next_index + 1; awaited = s.next_index ∷ s.awaited }
      else s

  spawn : ℕ → ℕ → Workers B → Workers B
  unfolding take_index
  spawn zero items s = s
  spawn (suc workers) items s = spawn workers items (take_index items s)

  pub start_workers : ℕ → ℕ → Workers B
  unfolding spawn empty_slots
  start_workers items concurrency =
      spawn (worker_count items concurrency) items
        (record { next_index = 0; awaited = []; results = empty_slots items; rejected = false })

  -- What a worker awaits is fulfilled: it fills its slot and goes on.
  pub fulfil : ℕ → ℕ → B → Workers B → Workers B
  unfolding take_index put_slot forget
  fulfil items i v s =
      take_index items (record s { awaited = forget i s.awaited; results = put_slot i v s.results })

  -- It is rejected: the worker ends, and the others go on.
  pub reject : ℕ → Workers B → Workers B
  unfolding forget
  reject i s = record s { awaited = forget i s.awaited; rejected = true }
