-- ===== src/Lib.antt =====
-- A model of the TypeScript services of the repository that decide on interventions for the visitors
-- of a shop, deliver them, and record the events in ClickHouse, with theorems about it.
--
-- The parts and how they interact. The decision consumer reads enriched events from Kafka in batches
-- and hands the ones that may trigger to the orchestrator. Its phase 1 scores an event and writes a
-- recommendation, which the approval mode of the store executes at once or leaves to an
-- administrator. Its phase 2 executes a recommendation under a lock of the user in Redis: it
-- reserves the daily budget, makes a discount code, records the intervention, sends it to the gateway
-- or the notification service and marks what was done. Events below the threshold wait in an
-- evaluation queue. The analytics consumer reads the same events into buffers and flushes them to
-- ClickHouse.
--
-- Files and sources, under apps/decision-engine/src unless the path says otherwise:
--   Types             packages/types/src/types/types.ts and the Policy of services/policy.service.ts
--   Rules             services/rules.service.ts: evaluate, evaluateFallback
--   Lock              services/lock.service.ts: the Lua scripts and the methods
--   Lock.Fencing      the scripts run by any workers in any order
--   Cooldown          services/cooldown.service.ts
--   Budget            services/budget.service.ts: the Lua script, checkAvailable, checkAndReserve
--   Budget.Daily      the reservations of one store over one day
--   Experiment        services/experiment.service.ts: getVariant
--   Scheduler         services/scheduler.service.ts
--   Recommendation    services/recommendation.service.ts
--   Expiry            services/stale-scanner.service.ts: expireRecommendations
--   StaleScan         the same file: scan
--   SessionFeatures   services/session-features.service.ts
--   Outbound          services/outbound.service.ts, services/discount.service.ts and
--                     intervention/intervention.writer.ts
--   Gateway           apps/intervention-gateway/src: server.ts, push-handler.ts, poll-handler.ts on a
--                     pod, an event for each part of a handler and for each write of another pod
--   Entries           scheduler/scheduler.worker.ts, trigger/trigger.handler.ts and handleRecalculate of
--                     internal/internal-handler.ts
--   Admin             apps/admin-api/src: the approval and rejection in routes/intervention.ts with the
--                     services and the client that they call, the retried request of
--                     packages/http-client/src/lib/http-client.ts, and handleExecute of
--                     internal/internal-handler.ts in the decision engine
--   Orchestrator      services/intervention.service.ts: executeRecommendation
--   Orchestrator.Decide and Orchestrator.Manual
--                     the same file: decide and manualDecide
--   Consumer          kafka/decision.consumer.ts: eachBatch, withRetry; what the callbacks of KafkaJS
--                     answer is a parameter
--   Retry             packages/utils/src/lib/executeWithRetry.ts: executeWithRetry
--   ConnectionPool    packages/clickhouse_client/src/lib/ConnectionPoolManager.ts; its Runs lets the
--                     parts of the handlers follow one another in any order
--   Cache             packages/cache/src/cache.service.ts: get, set, invalidate, getOrCompute over an
--                     interface of levels
--   Cache.Tracker     packages/cache/src/utils/MemoryTracker.ts
--   Cache.Memory      packages/cache/src/strategies/MemoryCache.ts, which fills that interface
--   CacheLock         packages/cache/src/utils/CacheOperationLockManager.ts, in any order of its calls
--                     and timers
--   Clickhouse        packages/clickhouse_client/src/lib/clickhouseClient.ts: batchInsert
--   Notification      apps/notification-service/src/notification: the service and its retries
--   Batcher           apps/analytics-consumer/src/batcher.ts
--   Analytics         apps/analytics-consumer/src/consumer.ts with types.ts and
--                     intervention-events.ts: flushBatch, flushInterventionBatch, the dead letters
--   Analytics.Loop    the same file: eachBatch; a run carries whether an error left it
-- World is the state that a handler of the decision engine sees, World.Monad its effects: a handler
-- reads and changes the world and returns or throws. Redis is an interface, the operations that the
-- services use and their laws; Redis.Memory fills it. Fixture and the modules named Tests hold runs
-- on concrete data. Function names are those of the source in lower case with underscores.
--
-- Choices. Money is a number of cents, a score or probability a number of millionths, a time a number
-- of milliseconds, an identifier of a recommendation or token a number that `randomUUID` draws. The
-- n-th command to Redis, statement to the database or message to Kafka succeeds or fails by a
-- parameter of the world; one that fails did not reach the server. A handler runs at one reading of
-- the clock and without another handler between its awaits, except in Lock.Fencing, which takes the
-- scripts of the lock in any interleaving, and in Gateway, ConnectionPool and CacheLock, whose
-- handlers are cut at their awaits and whose parts come in any order; in Admin, time passes between
-- the requests of an approval. Metrics and logs are left out.
--
-- Bounds and fuel. The loops are recursions on the list of messages, on the list of delays or on the
-- number of attempts. The chunks of a batch insert use fuel, the number of rows, which is enough where
-- the batch size is above zero; and the digits of an integer 16, as many as a safe integer of
-- JavaScript has.
--
-- Not modelled: the scores of the risk model and of the prediction, the loading of policies and
-- experiments and their caches, which are parameters of the orchestrator; the policies of cockatiel,
-- of which that of the approval is a parameter; the other HTTP handlers, the rest of the admin API,
-- of the HTTP client and of the cache package; the clients of Redis, Kafka and PostgreSQL; the
-- frontend; and the Rust services for ingestion and enrichment.
pub mod Prelude
pub mod Types
pub mod Rules
pub mod Redis
pub mod World
pub mod Lock
pub mod Cooldown
pub mod Budget
pub mod Scheduler
pub mod Recommendation
pub mod Outbound
pub mod StringMap
pub mod Gateway
pub mod Admin
pub mod Entries
pub mod SessionFeatures
pub mod Orchestrator
pub mod Consumer
pub mod Retry
pub mod Batcher
pub mod Clickhouse
pub mod Analytics
pub mod Fixture
pub mod Notification
pub mod Experiment
pub mod Expiry
pub mod StaleScan
pub mod ConnectionPool
pub mod Cache
pub mod CacheLock
