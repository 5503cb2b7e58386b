-- ===== src/Fanout/Tests.antt =====
-- The theorems on src/services/provider-readiness-coordinator.ts at a concrete run.
use opengecko.Prelude.{ℕ, ◌+◌, ◌*◌, ◌≤◌, ◌<◌, ◌≡◌, refl, String, true, none, some, List}
use opengecko.Fanout.{
  Settled, Slot, Fanout, FanoutOptions, is_busy, get_at, resolve_once, start_fanout, Step,
  budget_expires, Reached, started, stepped,
}
use opengecko.Fanout.Invariant.{IsSound, Reached-IsSound}
use opengecko.Fanout.Runs.{steps_before_end, Reached-IsEnding}

abbrev options : FanoutOptions
options = record { item_count = 3; concurrency = 2; budget_ms = 100; report_budget_failure = true }

abbrev expired : Fanout String String
expired = resolve_once options (start_fanout options)

run : Reached options expired
unfolding start_fanout
run = stepped started (budget_expires refl refl)

Reached-IsSound_example : IsSound options expired
Reached-IsSound_example = Reached-IsSound options expired run

Reached-IsEnding_example :
    (steps_before_end expired ≤ 2 * 3 + 1)
    × ((t : Fanout String String)
        → Step options expired t
        → steps_before_end t < steps_before_end expired)
    × ((t : Fanout String String) (results : List (Settled String String))
        → expired.outcome ≡ some results
        → Step options expired t
        → t.outcome ≡ some results)
    × (expired.outcome ≡ none
        → (i : ℕ) × (slot : Slot String String) × (get_at i expired.slots ≡ some slot)
          × (is_busy slot.phase ≡ true))
Reached-IsEnding_example = Reached-IsEnding options expired run
