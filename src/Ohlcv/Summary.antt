-- ===== src/Ohlcv/Summary.antt =====
-- `summarizeOhlcvSyncStatus` of src/services/ohlcv-runtime.ts: what is reported of the targets. The
-- ratio of a tier is given by the two numbers that are divided; the samples of rows are left out.
pub mod Balance
pub mod Tiers
mod Tests
use opengecko.Prelude.{
  ℕ, ◌+◌, ◌-◌, ◌*◌, ◌/◌, max, min, Bool, true, false, not, ◌&&◌, ◌||◌, Option, none, some, List, [],
  ◌∷◌, ltb, leb, ◌==◌, is_some, if◌then◌else◌,
}
use opengecko.Ohlcv.{
  PriorityTier, top100, requested, long_tail, TargetStatus, idle, running, failed, Target,
}
use opengecko.Ohlcv.Policy.{
  day_ms, default_lease_ttl_ms, historical_gap_ms, remaining_depth_days,
  is_recent_coverage_current_enough, is_lease_expired, is_target_lease_eligible,
}
use opengecko.Ohlcv.Table.{Table}

pub data DepthStatus : Type 0 where
  complete catching_up blocked : DepthStatus

unfoldable pub classify_depth_status : ℕ → TargetStatus → DepthStatus
classify_depth_status remaining failed = if remaining == 0 then complete else blocked
classify_depth_status remaining idle = if remaining == 0 then complete else catching_up
classify_depth_status remaining running = if remaining == 0 then complete else catching_up

pub record DepthCounts : Type 0 where
  pub complete_count : ℕ
  pub catching_up_count : ℕ
  pub blocked_count : ℕ

unfoldable pub classify_tier_slo_status : DepthCounts → DepthStatus
classify_tier_slo_status counts =
    if ltb 0 counts.blocked_count
    then blocked
    else if ltb 0 counts.catching_up_count
    then catching_up
    else complete

pub record RetryCounts : Type 0 where
  pub due : ℕ
  pub backoff : ℕ
  pub starved : ℕ

pub record QueueCounts : Type 0 where
  pub eligible_for_lease : ℕ
  pub retry_due_failed : ℕ
  pub retry_backoff_failed : ℕ
  pub incomplete_depth : ℕ
  pub complete_depth : ℕ
  pub running_count : ℕ
  pub starved_retry_due : ℕ

pub record StatusCounts : Type 0 where
  pub waiting : ℕ
  pub running_count : ℕ
  pub failed_count : ℕ
  pub active : ℕ
  pub recoverable : ℕ
  pub stale : ℕ
  pub missing_deadline : ℕ
  pub recovered_stale_total : ℕ

pub record HistoryCounts : Type 0 where
  pub total : ℕ
  pub max_target_history_days : ℕ
  pub with_any_history : ℕ
  pub at_target_depth : ℕ
  pub oldest_covered : Option ℕ
  pub newest_covered : Option ℕ
  pub remaining_days : ℕ
  pub estimated_remaining_chunks : ℕ
  pub max_remaining_days : ℕ
  pub covered_depth_days : ℕ
  pub wanted_depth_days : ℕ

-- What is counted for all targets, and again for each tier.
pub record Counts : Type 0 where
  pub history : HistoryCounts
  pub depth : DepthCounts
  pub retry : RetryCounts
  pub queue : QueueCounts

pub record Summary : Type 0 where
  pub statuses : StatusCounts
  pub healthy : ℕ
  pub behind : ℕ
  pub retry_scheduled : ℕ
  pub top100_ready : ℕ
  pub oldest_recent_sync_ms : ℕ
  pub oldest_historical_gap_ms : ℕ
  pub totals : Counts
  pub of_top100 : Counts
  pub of_requested : Counts
  pub of_long_tail : Counts

abbrev pub no_counts : Counts
no_counts = record {
  history = record {
    total = 0;
    max_target_history_days = 0;
    with_any_history = 0;
    at_target_depth = 0;
    oldest_covered = none;
    newest_covered = none;
    remaining_days = 0;
    estimated_remaining_chunks = 0;
    max_remaining_days = 0;
    covered_depth_days = 0;
    wanted_depth_days = 0;
  };
  depth = record { complete_count = 0; catching_up_count = 0; blocked_count = 0 };
  retry = record { due = 0; backoff = 0; starved = 0 };
  queue = record {
    eligible_for_lease = 0;
    retry_due_failed = 0;
    retry_backoff_failed = 0;
    incomplete_depth = 0;
    complete_depth = 0;
    running_count = 0;
    starved_retry_due = 0;
  };
}

abbrev pub empty_summary : Summary
empty_summary = record {
  statuses = record {
    waiting = 0;
    running_count = 0;
    failed_count = 0;
    active = 0;
    recoverable = 0;
    stale = 0;
    missing_deadline = 0;
    recovered_stale_total = 0;
  };
  healthy = 0;
  behind = 0;
  retry_scheduled = 0;
  top100_ready = 0;
  oldest_recent_sync_ms = 0;
  oldest_historical_gap_ms = 0;
  totals = no_counts;
  of_top100 = no_counts;
  of_requested = no_counts;
  of_long_tail = no_counts;
}

abbrev pub when : Bool → ℕ
when test = if test then 1 else 0

unfoldable pub count_status : ℕ → Target → StatusCounts → StatusCounts
count_status now row s =
    let recovered = record s {
      recovered_stale_total = s.recovered_stale_total + row.lease_recovery_count;
    } in
    elim row.status [
      | idle ↦ record recovered { waiting = s.waiting + 1 }
      | failed ↦ record recovered { failed_count = s.failed_count + 1 }
      | running ↦
          let expired = is_lease_expired row now default_lease_ttl_ms in
          record recovered {
            running_count = s.running_count + 1;
            stale = s.stale + when expired;
            active = s.active + 1;
            recoverable = s.recoverable + when expired;
            missing_deadline = s.missing_deadline + when (not (is_some row.lease_expires_at));
          }
    ]

unfoldable pub count_depth : DepthStatus → DepthCounts → DepthCounts
count_depth complete c = record c { complete_count = c.complete_count + 1 }
count_depth catching_up c = record c { catching_up_count = c.catching_up_count + 1 }
count_depth blocked c = record c { blocked_count = c.blocked_count + 1 }

abbrev is_failed : TargetStatus → Bool
is_failed failed = true
is_failed idle = false
is_failed running = false

abbrev is_running : TargetStatus → Bool
is_running running = true
is_running idle = false
is_running failed = false

abbrev pub retry_after : Option ℕ → ℕ → Bool
retry_after none now = false
retry_after (some retry) now = ltb now retry

-- Due for at least 120 seconds; a target that was never attempted has been due for ever.
abbrev is_overdue : Target → ℕ → Bool
is_overdue row now = elim row.next_retry_at [
  | some retry ↦ leb (retry + 120000) now
  | none ↦ elim row.last_attempt_at [ some attempt ↦ leb (attempt + 120000) now | none ↦ true ]
]

unfoldable pub count_retry : ℕ → Target → RetryCounts → RetryCounts
count_retry now row c =
    let waits = retry_after row.next_retry_at now in
    if not (is_failed row.status)
    then c
    else if waits
    then record c { backoff = c.backoff + 1 }
    else record c { due = c.due + 1; starved = c.starved + when (is_overdue row now) }

unfoldable pub count_queue : ℕ → Target → QueueCounts → QueueCounts
count_queue now row c =
    let incomplete = ltb 0 (remaining_depth_days row now) in
    let waits = retry_after row.next_retry_at now in
    let has_failed = is_failed row.status in
    record c {
      incomplete_depth = c.incomplete_depth + when incomplete;
      complete_depth = c.complete_depth + when (not incomplete);
      running_count = c.running_count + when (is_running row.status);
      eligible_for_lease =
          c.eligible_for_lease + when (is_target_lease_eligible row now default_lease_ttl_ms);
      retry_due_failed = c.retry_due_failed + when (has_failed && not waits);
      retry_backoff_failed = c.retry_backoff_failed + when (has_failed && waits);
      starved_retry_due =
          c.starved_retry_due + when (has_failed && not waits && is_overdue row now);
    }

abbrev least : Option ℕ → ℕ → ℕ
least none t = t
least (some s) t = min s t

abbrev greatest : Option ℕ → ℕ → ℕ
greatest none t = t
greatest (some s) t = max s t

unfoldable pub remaining_chunks : ℕ → ℕ
remaining_chunks days = (days + 179) / 180

abbrev oldest_within : Option ℕ → ℕ → ℕ → Bool
oldest_within none days now = false
oldest_within (some oldest) days now = leb (oldest + days * day_ms) now

unfoldable pub count_history : ℕ → Target → HistoryCounts → HistoryCounts
unfolding remaining_chunks
count_history now row c =
    let days = remaining_depth_days row now in
    let wanted = row.target_history_days in
    record c {
      total = c.total + 1;
      max_target_history_days = max c.max_target_history_days wanted;
      wanted_depth_days = c.wanted_depth_days + wanted;
      covered_depth_days = c.covered_depth_days + (wanted - days);
      remaining_days = c.remaining_days + days;
      estimated_remaining_chunks = c.estimated_remaining_chunks + remaining_chunks days;
      max_remaining_days = max c.max_remaining_days days;
      with_any_history = c.with_any_history + when (is_some row.oldest_synced_at);
      at_target_depth = c.at_target_depth + when (oldest_within row.oldest_synced_at wanted now);
      oldest_covered = elim row.oldest_synced_at [
        | none ↦ c.oldest_covered
        | some t ↦ some (least c.oldest_covered t)
      ];
      newest_covered = elim row.latest_synced_at [
        | none ↦ c.newest_covered
        | some t ↦ some (greatest c.newest_covered t)
      ];
    }

unfoldable pub count_target : ℕ → Target → Counts → Counts
unfolding count_history count_depth classify_depth_status count_retry count_queue
count_target now row c = record {
  history = count_history now row c.history;
  depth = count_depth (classify_depth_status (remaining_depth_days row now) row.status) c.depth;
  retry = count_retry now row c.retry;
  queue = count_queue now row c.queue;
}

abbrev is_behind : ℕ → Target → Bool
is_behind now row =
    ltb 0 (historical_gap_ms row now)
    || not (is_recent_coverage_current_enough row.latest_synced_at now)

abbrev count_tier : PriorityTier → ℕ → Target → Summary → Summary
count_tier top100 now row s = record s {
  of_top100 = count_target now row s.of_top100;
  top100_ready = s.top100_ready + when (is_recent_coverage_current_enough row.latest_synced_at now);
}
count_tier requested now row s = record s { of_requested = count_target now row s.of_requested }
count_tier long_tail now row s = record s { of_long_tail = count_target now row s.of_long_tail }

-- The body of the loop over the rows.
unfoldable pub count_row : ℕ → Target → Summary → Summary
unfolding count_status count_target
count_row now row s = record (count_tier row.priority_tier now row s) {
  statuses = count_status now row s.statuses;
  totals = count_target now row s.totals;
  healthy = s.healthy + when (not (is_behind now row));
  behind = s.behind + when (is_behind now row);
  retry_scheduled = s.retry_scheduled + when (retry_after row.next_retry_at now);
  oldest_recent_sync_ms = elim row.latest_synced_at [
    | none ↦ s.oldest_recent_sync_ms
    | some latest ↦ max s.oldest_recent_sync_ms (now - latest)
  ];
  oldest_historical_gap_ms = max s.oldest_historical_gap_ms (historical_gap_ms row now);
}

unfoldable pub summarize_from : ℕ → Table → Summary → Summary
unfolding count_row
summarize_from now [] s = s
summarize_from now (row ∷ rows) s = summarize_from now rows (count_row now row s)

unfoldable pub summarize_ohlcv_sync_status : Table → ℕ → Summary
unfolding summarize_from
summarize_ohlcv_sync_status rows now = summarize_from now rows empty_summary
