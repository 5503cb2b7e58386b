-- ===== src/Concurrency/Tests.antt =====
-- The theorems on src/lib/async.ts at three items and two workers.
use opengecko.Prelude.{ℕ, ◌+◌, ◌≤◌, ◌<◌, ◌*◌, max, ◌≡◌, refl, true, false, some, [], length}
use opengecko.Concurrency.{Workers, start_workers, spawn, take_index, fulfil, empty_slots, slot_at}
use opengecko.Concurrency.Slots.{is_awaited}
use opengecko.Concurrency.Order.{WorkersReach, fulfils, here, next, WorkersReach-ordered}
use opengecko.Concurrency.Termination.{remaining, steps, WorkersReach-steps}

abbrev square : ℕ → ℕ
square i = i * i

abbrev started : Workers ℕ
started = start_workers 3 2

-- The second item is settled first.
abbrev first : Workers ℕ
first = fulfil 3 1 (square 1) started

awaits_one : is_awaited 1 started.awaited ≡ true
unfolding start_workers spawn take_index empty_slots
awaits_one = refl

WorkersReach-ordered_example :
    (length first.awaited ≤ max 1 2)
    × (first.awaited ≡ []
        → first.rejected ≡ false
        → (length first.results ≡ 3)
          × ((j : ℕ) → j < 3 → slot_at j first.results ≡ some (square j)))
WorkersReach-ordered_example =
    WorkersReach-ordered square 3 2 first (next here (fulfils started 1 awaits_one))

abbrev first_reach : WorkersReach square 3 2 started first
first_reach = next here (fulfils started 1 awaits_one)

WorkersReach-steps_example : steps square 3 2 first_reach + remaining square 3 2 first ≡ 3
WorkersReach-steps_example = WorkersReach-steps square 3 2 first first_reach
