-- ===== src/Ohlcv/Summary/Balance.antt =====
-- The numbers that src/services/ohlcv-runtime.ts reports add up.
use opengecko.Prelude.{
  ℕ, suc, ◌+◌, ◌≤◌, ◌≡◌, refl, Bool, true, false, not, [], ◌∷◌, length, ltb, ◌==◌, Bool-cases, inl,
  inr, arith,
}
use opengecko.Ohlcv.{TargetStatus, idle, running, failed, Target}
use opengecko.Ohlcv.Policy.{remaining_depth_days}
use opengecko.Ohlcv.Table.{Table}
use opengecko.Ohlcv.Summary.{
  classify_depth_status, DepthCounts, RetryCounts, QueueCounts, StatusCounts, Counts, Summary,
  empty_summary, when, count_status, count_depth, count_retry, count_queue, count_history,
  count_target, count_row, summarize_from, summarize_ohlcv_sync_status,
}

-- The counts of `n` targets, of which `m` have failed.
abbrev pub IsCounted : (n m : ℕ) → Counts → Type 0
IsCounted n m c =
    (c.history.total ≡ n)
    × (c.depth.complete_count + c.depth.catching_up_count + c.depth.blocked_count ≡ n)
    × (c.queue.complete_depth ≡ c.depth.complete_count)
    × (c.queue.incomplete_depth ≡ c.depth.catching_up_count + c.depth.blocked_count)
    × (c.retry.due + c.retry.backoff ≡ m)
    × (c.queue.retry_due_failed ≡ c.retry.due)
    × (c.queue.retry_backoff_failed ≡ c.retry.backoff)
    × (c.queue.starved_retry_due ≡ c.retry.starved)
    × (c.retry.starved ≤ c.retry.due)

abbrev failures : TargetStatus → ℕ
failures idle = 0
failures running = 0
failures failed = 1

pub depth-step :
    (d : ℕ) (status : TargetStatus) (c : DepthCounts)
    → let c' = count_depth (classify_depth_status d status) c in
      (c'.complete_count ≡ c.complete_count + when (not (ltb 0 d)))
      × (c'.catching_up_count + c'.blocked_count
          ≡ c.catching_up_count + c.blocked_count + when (ltb 0 d))
unfolding count_depth classify_depth_status
depth-step d idle c = elim (Bool-cases (d == 0)) [
  | inl e ↦ rw e (ground arith)
  | inr e ↦ rw e (ground arith)
]
depth-step d running c = elim (Bool-cases (d == 0)) [
  | inl e ↦ rw e (ground arith)
  | inr e ↦ rw e (ground arith)
]
depth-step d failed c = elim (Bool-cases (d == 0)) [
  | inl e ↦ rw e (ground arith)
  | inr e ↦ rw e (ground arith)
]

retry-step :
    (now : ℕ) (row : Target) (c : RetryCounts) (q : QueueCounts)
    → let c' = count_retry now row c in
      let q' = count_queue now row q in
      (q.retry_due_failed ≡ c.due → q'.retry_due_failed ≡ c'.due)
      × (q.retry_backoff_failed ≡ c.backoff → q'.retry_backoff_failed ≡ c'.backoff)
      × (q.starved_retry_due ≡ c.starved → q'.starved_retry_due ≡ c'.starved)
      × (c'.due + c'.backoff ≡ c.due + c.backoff + failures row.status)
      × (c.starved ≤ c.due → c'.starved ≤ c'.due)
unfolding count_retry count_queue
retry-step now row c q = ground arith

queue-step :
    (now : ℕ) (row : Target) (q : QueueCounts)
    → let q' = count_queue now row q in
      (q'.complete_depth ≡ q.complete_depth + when (not (ltb 0 (remaining_depth_days row now))))
      × (q'.incomplete_depth ≡ q.incomplete_depth + when (ltb 0 (remaining_depth_days row now)))
unfolding count_queue
queue-step now row q = (refl, refl)

history-step :
    (now : ℕ) (row : Target) (c : Counts)
    → (count_target now row c).history.total ≡ c.history.total + 1
unfolding count_target count_history
history-step now row c = refl

when-split : (b : Bool) → when b + when (not b) ≡ 1
when-split true = refl
when-split false = refl

count_target-IsCounted :
    (now : ℕ) (row : Target) (c : Counts) (n m : ℕ)
    → IsCounted n m c
    → IsCounted (n + 1) (m + failures row.status) (count_target now row c)
unfolding count_target
count_target-IsCounted now row c n m (a, b, d, e, f, g, h, i, j) =
    let (complete_step, rest_step) = depth-step (remaining_depth_days row now) row.status c.depth in
    let (due, backoff, starved, both, le) = retry-step now row c.retry c.queue in
    let (deep, shallow) = queue-step now row c.queue in
    let split = when-split (ltb 0 (remaining_depth_days row now)) in
    (
      omega (arith, a, history-step now row c),
      omega (arith, b, complete_step, rest_step, split),
      omega (arith, d, complete_step, deep),
      omega (arith, e, rest_step, shallow),
      omega (arith, f, both),
      due g,
      backoff h,
      starved i,
      le j,
    )

-- The report on `n` targets.
abbrev pub IsBalanced : ℕ → Summary → Type 0
IsBalanced n s =
    (s.statuses.waiting + s.statuses.running_count + s.statuses.failed_count ≡ n)
    × (s.healthy + s.behind ≡ n)
    × (s.statuses.stale ≤ s.statuses.running_count)
    × (s.statuses.active ≡ s.statuses.running_count)
    × (s.statuses.recoverable ≡ s.statuses.stale)
    × (s.statuses.missing_deadline ≤ s.statuses.active)
    × (s.top100_ready ≤ s.of_top100.history.total)
    × (s.of_top100.history.total + s.of_requested.history.total + s.of_long_tail.history.total ≡ n)
    × IsCounted n s.statuses.failed_count s.totals

status-step :
    (now : ℕ) (row : Target) (s : StatusCounts)
    → let s' = count_status now row s in
      (s'.waiting + s'.running_count + s'.failed_count
        ≡ s.waiting + s.running_count + s.failed_count + 1)
      × (s'.failed_count ≡ s.failed_count + failures row.status)
      × (s.stale ≤ s.running_count → s'.stale ≤ s'.running_count)
      × (s.active ≡ s.running_count → s'.active ≡ s'.running_count)
      × (s.recoverable ≡ s.stale → s'.recoverable ≡ s'.stale)
      × (s.missing_deadline ≤ s.active → s'.missing_deadline ≤ s'.active)
unfolding count_status
status-step now row s = ground arith

tier-step :
    (now : ℕ) (row : Target) (s : Summary)
    → let s' = count_row now row s in
      (s.top100_ready ≤ s.of_top100.history.total → s'.top100_ready ≤ s'.of_top100.history.total)
      × (s'.of_top100.history.total + s'.of_requested.history.total + s'.of_long_tail.history.total
          ≡ s.of_top100.history.total + s.of_requested.history.total + s.of_long_tail.history.total
            + 1)
unfolding count_row count_target count_history
tier-step now row s = ground arith

row-parts :
    (now : ℕ) (row : Target) (s : Summary)
    → let s' = count_row now row s in
      (s'.statuses ≡ count_status now row s.statuses)
      × (s'.totals ≡ count_target now row s.totals)
      × (s'.healthy + s'.behind ≡ s.healthy + s.behind + 1)
unfolding count_row
row-parts now row s = (refl, refl, ground arith)

count_row-IsBalanced :
    (now : ℕ) (row : Target) (s : Summary) (n : ℕ)
    → IsBalanced n s
    → IsBalanced (n + 1) (count_row now row s)
count_row-IsBalanced now row s n (a, b, d, e, f, m, g, h, counted) =
    let (statuses, totals, health) = row-parts now row s in
    let (sum, failed_step, stale, active, recoverable, missing) = status-step now row s.statuses in
    let (ready, tiers) = tier-step now row s in
    let counted' = count_target-IsCounted now row s.totals n s.statuses.failed_count counted in
    (
      rw statuses (omega (arith, a, sum)),
      omega (arith, b, health),
      rw statuses (stale d),
      rw statuses (active e),
      rw statuses (recoverable f),
      rw statuses (missing m),
      ready g,
      omega (arith, h, tiers),
      rw (statuses, totals, failed_step) counted',
    )

at_count : (m n : ℕ) (s : Summary) → m ≡ n → IsBalanced m s → IsBalanced n s
at_count m n s e h = rw⁻¹ e h

summarize_from-IsBalanced :
    (now : ℕ) (rows : Table) (s : Summary) (n : ℕ)
    → IsBalanced n s
    → IsBalanced (length rows + n) (summarize_from now rows s)
unfolding summarize_from
summarize_from-IsBalanced now [] s n h = at_count n (0 + n) s (omega arith) h
summarize_from-IsBalanced now (row ∷ rows) s n h =
    at_count (length rows + (n + 1)) (suc (length rows) + n)
      (summarize_from now rows (count_row now row s)) (omega arith)
      (summarize_from-IsBalanced now rows (count_row now row s) (n + 1)
        (count_row-IsBalanced now row s n h))

-- The numbers of a report add up: every target is waiting, running or failed; healthy or behind;
-- complete, catching up or blocked, in exactly one tier; every failed one is due or in backoff;
-- the queue counts agree with the depth and retry counts; every running one is an active lease,
-- and the stale leases, which are the recoverable ones, and those without a deadline are among them.
pub summarize_ohlcv_sync_status-IsBalanced :
    (rows : Table) (now : ℕ) → IsBalanced (length rows) (summarize_ohlcv_sync_status rows now)
unfolding summarize_ohlcv_sync_status
summarize_ohlcv_sync_status-IsBalanced rows now =
    at_count (length rows + 0) (length rows) (summarize_from now rows empty_summary) (omega arith)
      (summarize_from-IsBalanced now rows empty_summary 0 (ground arith))
