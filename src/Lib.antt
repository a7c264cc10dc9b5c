-- ===== src/Lib.antt =====
-- Verification library of the backend of BuyNotBuy.com: market candles are checked, indicators vote, a
-- consensus becomes a signal with a lifecycle, and its outcome is measured; around this stand a circuit
-- breaker for the providers with their failover and health, a bounded write buffer and a spool on disk, a
-- coalescer of concurrent reads, a rate limiter, a lease that elects the one writer, a poller, and an
-- arithmetic of exact fractions.
--
-- The parts and their files:
--
--   Breaker        src/backend/market/providers/circuit-breaker.ts, class CircuitBreaker. Its private
--                  fields are the record CircuitBreaker and each method is a function of the same name;
--                  `Call`, `step` and `run` are sequences of calls, as concurrent requests make them.
--   WriteBuffer    src/backend/observability/bounded-write-buffer.ts, createBoundedWriteBuffer (create,
--                  push, drain, size, clear, by_market), mergeBacklogStates and createFlushGuard.
--   Lifecycle      src/backend/signals/lifecycle.ts, decideNext and cooldownBlocks, with the types of
--                  src/backend/config/lifecycle.config.ts; Lifecycle/Publish is publishSignal of
--                  src/backend/signals/publish.ts on the row and the transitions of one series, which
--                  getLive and write of src/backend/signals/lifecycle.repository.ts read and write.
--   Consensus      src/backend/signals/consensus.ts, calculateConsensus and what it calls.
--   CandleSeries   src/backend/market/candle-validation.ts, findCandleSeriesIssues and the two asserts.
--   Outcome        src/backend/outcomes/outcome.ts, measureOutcome and readExcursions.
--   WalkForward    src/backend/backtest/walk-forward.plan.ts, buildWalkForwardPlan,
--                  auditWalkForwardPlan and judgeFold (WalkForward/Judge), with requiredCandleCount of
--                  src/backend/config/indicator.config.ts.
--   CandleClock    src/backend/history/candle-clock.ts, all of it.
--   RateLimit      src/backend/api/middleware/rate-limit.ts, PostgresRateLimiter and rateLimitError.
--   SingleFlight   src/backend/observability/single-flight.ts. A call of `run` is a progress of its own, and
--                  what the event loop does is a sequence of events: calls arrive, their work settles,
--                  and callers that await it go on, in any order.
--   Stage3         src/backend/risk/stage3/arithmetic.ts: rational, normalize, calculate and compare on exact
--                  fractions; Stage3/Euclid is about the loop inside normalize. Stage3/Binary64 is
--                  fromBinary64 and publish, on the bits of the numbers. Stage3/Margin is the profit, the
--                  equity and the margins of src/backend/risk/stage3/pnl-equity.ts and
--                  margin-requirements.ts beside it, Margin/Verdict those of maintenance-verdict.ts and
--                  ratios-leverage.ts, and Margin/Boundary liquidation-boundary.ts.
--   Freshness      src/backend/market/market-freshness.ts: classifyFreshness and isUsableForSignal.
--   Extrema        src/backend/indicators/local-extrema.ts: findLocalBottoms and findLocalTops, with the
--                  rounds of findExtrema as fuel, for which Extrema/Rounds is.
--   WriteSpool     src/backend/observability/write-spool.ts, createWriteSpool. A file is its bytes, and what
--                  the disk does to a write is an argument; an entry becomes a line by a Codec.
--   Failover       src/backend/market/failover.provider.ts, class FailoverProvider: runAttributed with the
--                  loop over the venues, recordSuccess, aggregateKind and aggregateStatus. Failover/Overlap
--                  has requests that overlap, as steps between two awaits.
--   ProviderHealth src/backend/market/providers/provider-health.ts, all of it.
--   Lease          src/backend/db/lease.ts, createLease, for any number of processes on one database. The
--                  advisory locks are a LockServer, and Lease/Locks states what is relied on of them.
--   Poller         src/backend/services/poller.ts, startPoller.
--   DataQuality    src/backend/history/data-quality.ts, assessDataQuality with its five factors.
--   Transport      src/backend/market/providers/provider-http.ts; Transport/Request is sendProviderRequest, a round
--                  of its loop at a time, Transport/Overlap is about requests that overlap, and
--                  Transport/Registry holds the breakers of all markets and the reports over them.
--   MarketService  src/backend/market/market.service.ts: getMarketData, fetchAndCache, fetchMarketData and the
--                  rest of it. Calls and the settling of calls upstream are events.
--   Promotion      src/backend/strategies/candidate.repository.ts, the ladder of a rule; Promotion/Evidence is
--                  evaluateShadow of src/backend/lifecycle/promotion.config.ts, the tally of
--                  src/backend/lifecycle/evidence.repository.ts and the gate of
--                  src/backend/services/promotion-gate.ts that joins them.
--   Reconcile      src/backend/outcomes/reconcile.ts, and the table of outcomes of one series in
--                  src/backend/outcomes/outcome.repository.ts; Reconcile/Passes is about passes that come
--                  again as candles arrive.
--   Capability     src/backend/market/capability.ts: serves and route.
--   Number         the operations of floating point that the code uses, as a record that the models
--                  take; IsOrdered states what a theorem relies on of its comparisons, and
--                  Number/Integers is an instance in which both hold.
--   Common         shared names, Boolean tests, lists, dictionaries and integers.
--
-- How they interact: an accepted candle series feeds the indicators, whose analyses calculateConsensus
-- turns into a verdict; publishSignal makes the verdict a candidate, decides with decideNext and writes
-- the row and a transition in one step; measureOutcome reads the candles after the signal's bar, and the
-- walk-forward plan says which bars a backtest may fit on. The poller runs such a cycle if its gate, the
-- lease, is open; a snapshot comes from the cache of the market service or from the venues in the order of
-- the failover, each asked through the transport with its breaker and its health, and what cannot be stored
-- waits in a spool or a write buffer.
--
-- How the models stand to the code:
--
--   - A time is a whole number of milliseconds. Each reading of the clock by a method is an argument,
--     and where the code reads it twice there are two arguments.
--   - A price, weight or confidence is a value of the Number record. No law of it is assumed but where a
--     theorem names IsOrdered.
--   - A statement of SQL, or a transaction, is one atomic step on the rows. The store of the lifecycle
--     is one series; resolving an instrument's name is left out, since the key of a series is fixed.
--   - `Math.floor(len * ratio)` of the walk-forward plan is the function `share` of ValidationRatio, and
--     IsProper says that it holds back less than the whole. Fold lengths are positive.
--   - An object with string keys is an association list, and the markets come in the order of `sort`,
--     which keeps the keys.
--   - What runs concurrently is a sequence of events, each the code between two awaits; theorems hold for
--     every sequence. An event that does not fit the state changes nothing.
--   - What the disk, the network and the database do is an argument of the operation or an event. JSON is
--     a Codec whose lines have no newline and read back; the failure of one write leaves no bytes behind,
--     or a part of the line.
--   - An error that is thrown is a value: `none`, or a constructor of its own.
--   - Loops are structural recursion over a list or over the rounds that a loop counts. Four have fuel.
--     A request of the transport has one round more than its retries, which is proved to be enough. The length of a number in bits has 4096, which every stored numerator and denominator fits.
--     The Euclidean loop has the limit of 20,000 steps that the code itself sets, which is enough for all
--     stored fractions; findExtrema has one round for each value, and more rounds find the same points.
--
-- Not modelled: the web application, HTTP routes and SQL plumbing, the adapters of the venues, the other indicators, the
-- backtest engine beyond its plan, the performance statistics, the report and the validation of the
-- margin assessment, and the research tools. Of the files above: the text of a leakage finding, the
-- repository's queries for transitions, closed signals and retention, the checks of
-- attribution behind the failover, and all log lines.
pub mod Common
pub mod Breaker
pub mod WriteBuffer
pub mod Number
pub mod Lifecycle
pub mod Consensus
pub mod CandleSeries
pub mod Outcome
pub mod WalkForward
pub mod CandleClock
pub mod RateLimit
pub mod Stage3
pub mod Freshness
pub mod SingleFlight
pub mod Extrema
pub mod WriteSpool
pub mod Transport
pub mod Promotion
pub mod Capability
pub mod Reconcile
pub mod MarketService
pub mod Failover
pub mod ProviderHealth
pub mod Lease
pub mod Poller
pub mod DataQuality
