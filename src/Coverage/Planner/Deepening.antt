-- ===== src/Coverage/Planner/Deepening.antt =====
-- The repeated deepening of a history by src/services/history-backfill-planner.ts.
use opengecko.Prelude.{ℕ, zero, suc, ◌+◌, ◌-◌, ◌*◌, ◌≤◌, ◌≡◌, List, [], ◌∷◌, min, arith}
use opengecko.Coverage.{CoverageTarget}
use opengecko.Coverage.Planner.{
  day_ms, history_backfill_chunk_days, Task, days_before, build_task, shallow_tasks,
}

-- The oldest row once the first task of the list has been carried out in full.
abbrev reached : List Task → ℕ → ℕ
reached [] oldest = oldest
reached (t ∷ ts) oldest = t.from

-- The oldest row after rounds that each plan at the same instant and carry out the task.
pub deepened : ℕ → CoverageTarget → ℕ → ℕ → ℕ
deepened zero target oldest now = oldest
deepened (suc rounds) target oldest now =
    deepened rounds target (reached (shallow_tasks target oldest now) oldest) now

-- Rounds of 180 days that span the missing history are enough to plan no more of them, and the
-- history never gets deeper than the target asks, or than it was.
pub deepened_enough :
    (rounds : ℕ) (target : CoverageTarget) (oldest now : ℕ)
    → oldest
      ≤ now - target.target_history_days * day_ms + rounds * (history_backfill_chunk_days * day_ms)
    → (shallow_tasks target (deepened rounds target oldest now) now ≡ [])
      × (min oldest (now - target.target_history_days * day_ms) ≤ deepened rounds target oldest now)
unfolding shallow_tasks deepened days_before build_task
deepened_enough zero target oldest now h = ground arith
deepened_enough (suc rounds) target oldest now h =
    ground
      (arith, deepened_enough rounds target (reached (shallow_tasks target oldest now) oldest) now)
