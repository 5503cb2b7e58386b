-- ===== src/Lib.antt =====
-- OpenGecko: the scheduling, caching and lease logic of the server in src/.
--
-- Prelude: the names that every module shares. Prelude/Tests has Boolean tests, options and
-- results that may be errors, Prelude/Lists lists measured by native numbers, Prelude/Sorting the
-- stable sort of `Array.prototype.sort` with its laws.
--
-- Scheduler models src/services/job-scheduler.ts. Scheduler.antt has the state of one job
-- (`SchedulerJobState`) and `runJob`: its early returns (`skip_reason`), the part of the body
-- that runs before control returns (`launch`), and the continuation when the job's promise
-- settles (`complete`). Scheduler/Backoff has `computeBackoffMs`, Scheduler/Diagnostics the
-- functions behind `diagnostics`, Scheduler/Registry the map of jobs with `register`, `start`,
-- `runNow` and `stop`, whose two halves around the wait are `begin_stop` and `end_stop`.
-- Registry/Steps and Registry/Reach have the events of a job and of a scheduler as step relations,
-- the latter with the number of calls of `stop` that wait, and Registry/Timers the armed intervals.
--
-- Breaker models src/services/provider-breaker.ts: Breaker/Delay the options and the delay,
-- Breaker/Failures `classifyProviderFailure`, Breaker.antt the record of entries. The mutation of
-- an entry is the replacement of the entry with its `id`.
--
-- ResponseCache models src/services/response-cache.ts. The `Map` is a list in its order.
-- `getOrSet` is split at its awaits: `get_or_set` up to the first, `produced` where the value
-- arrives, `release` for the `finally` block.
--
-- Ohlcv has the rows of `ohlcvSyncTargets` of src/db/schema.ts. Ohlcv/Policy models
-- src/services/ohlcv-scheduling-policy.ts; Ohlcv/Table, Ohlcv/Seeds and Ohlcv/Leases model
-- src/services/ohlcv-worker-state.ts, where each SQL statement is one step on a list of rows with
-- one row for each primary key. Leases uses the order of Policy by its functions.
--
-- Candles models src/services/candle-store.ts on the table `ohlcvCandles`: Candles/Doubles the
-- numbers that prices are, Candles.antt and Candles/Store the upserts, Candles/Gaps the reads and
-- `detectOhlcvGaps`, Candles/Repair `repairOhlcvGaps` and `enforceOhlcvRetention`.
--
-- Ohlcv/Tiers models src/services/ohlcv-priority.ts, Ohlcv/Sync src/services/ohlcv-sync.ts, a
-- client of Candles and of the leases, and Ohlcv/Runtime and Ohlcv/Summary `tick` and
-- `summarizeOhlcvSyncStatus` of src/services/ohlcv-runtime.ts. A tick composes Seeds, Tiers,
-- Leases and two synchronisations, whose effects on the database, with those of other workers
-- meanwhile, are parameters.
--
-- Fanout models `runBudgetedProviderFanout` of src/services/provider-readiness-coordinator.ts: its
-- callbacks and the timer of its budget as steps, in any order.
--
-- Coverage models src/services/coverage-targets.ts, and Coverage/Planner the planner of
-- src/services/history-backfill-planner.ts, a client of its targets.
--
-- Market models the state of src/services/market-runtime-state.ts with its phase, Market/Events
-- what may be called on it as sequences, Market/Attempts its part `providerAttempts`, and
-- Market/Freshness src/modules/market-freshness.ts. The state holds that of Breaker; the policy of
-- Freshness is read from it.
--
-- Concurrency models `mapWithConcurrency` of src/lib/async.ts: the workers and the array that they
-- share, with the settlements of what they await as steps, in any order.
--
-- Instants are natural numbers of milliseconds. Where the source subtracts a span from an instant
-- and compares, the model adds the span on the other side. `Math.random()` is its numerator over
-- 2^53 and ratios are fractions, and `Math.round` is exact on them; the rounding of binary
-- fractions is not modelled. A comparison of instants that are `null` is written out. A sort
-- takes the sign of its comparison only.
--
-- Parameters, since their code is the platform's or another module's: `localeCompare`, the engine
-- of regular expressions, `trim` and `toLowerCase`, the sanitizer of diagnostic texts, the clock,
-- the random numbers, and what a job's `run` answers. A theorem that needs `localeCompare` to be
-- a linear preorder says so by `IsComparison`.
--
-- The loop of `leaseNextOhlcvTarget` runs on fuel, one round for each candidate: each round that
-- leases nothing drops at least the candidate it selected. The inner loop of `detectOhlcvGaps` has
-- as many rounds as there are milliseconds between two rows, since a step is one at least, the loop
-- of `repairOhlcvGaps` two more than there are missing instants, and `startNext` one for each item.
-- All other loops are structural.
--
-- Not modelled: log lines (but for the warning at shutdown), the rendering of dates, timers as
-- such (of a timer, whether its handle is stored and how many intervals are armed; its ticks are
-- attempts at any time), database access beyond the tables of targets and candles, the samples of
-- rows in the report on the targets, the report on the prewarm in the market state, the override of
-- snapshots for validation, providers, routes and startup.
pub mod Prelude
pub mod Scheduler
pub mod Breaker
pub mod ResponseCache
pub mod Ohlcv
pub mod Coverage
pub mod Concurrency
pub mod Candles
pub mod Fanout
pub mod Market
