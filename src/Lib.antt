-- ===== src/Lib.antt =====
-- librouter is a gateway for chat completions. A client names a tier; the router spreads its
-- requests over the candidates of the tier, pairs of a provider and a model, and fails over from
-- one to the next.
--
-- The parts, and the files that model them:
-- - Models, Models/Request, Models/Valid: gateway/models.py, the records of the configuration, of a
--   request and of an attempt, and the checks of a request (`is_accepted`) and of a configuration.
-- - Errors: gateway/errors.py, the error classes of a vendor call and `caller_error_for`, and the
--   table of statuses in gateway/router.py. Errors/Visible is about what a caller sees.
-- - Ratelimit: gateway/redis_state.py (the scripts RATELIMIT_LUA and CLAMP_LUA) and
--   gateway/ratelimit.py (the facade). A bucket is the hash of one key, the store an association
--   list. Bounds and Burst are about the scripts, Scripts runs them, Store is about the keys,
--   Metrics and Reported about `remaining`.
-- - Weights: gateway/routing/weights.py. `signals_weight` is the weight of a candidate from its
--   signals, `weighted` and `choose` are the two loops of `pick`. Range and Effective are about the
--   weight, Pick and Interval are about the choice.
-- - Breaker: gateway/breaker.py. The samples are a function of a candidate and a second. Machine
--   says what the samples do to one breaker, Timing what the clock does, Refresh composes the two.
--   Keys parses the keys of the scan, Scan says which candidates the scan finds.
-- - Router: gateway/router.py. Router has the types and the interface `Env`; Router/Route the loop,
--   one function for each part of its body. Advance is the loop's step relation, Termination its
--   runs, Invariant and Report what holds of them, Timeout the time that a vendor gets.
-- - Accounting: gateway/accounting.py. The requests, the drain task and the writer take turns,
--   which a list of events says. Counts is the invariant of every such list, Stop the end with
--   nothing queued meanwhile. Task is the drain task with `start` and `stop`; Turns counts what its
--   end still needs, Settled is its invariant, Ended says how `stop` returns.
-- - Auth: gateway/auth.py. Cache has the operations on the OrderedDict, Resolve a lookup by the
--   hash of a key, Bearer a whole call of `resolve_bearer`.
-- - Observe: gateway/routing/observe.py, the counters by second and the aggregate of a window.
-- - Refresh: gateway/routing/refresh.py. `Sources` is what `build_signals` reads, Signals says
--   which candidates get signals, Available what holds of them whatever Redis answers. Task is the
--   loop around the ticks, Outage says what failing ticks do to it.
-- - Pricing: gateway/pricing.py. Index says where the entries come from, Cost what a call costs.
-- - Secrets: gateway/secrets.py, the two managers.
-- - Providers: gateway/providers. Sdk has what the adapters share, Openai, Anthropic and Google are
--   the adapters, Mock the scripted vendors, Registry `build_vendors`. Status compares the adapters
--   on HTTP statuses, Conversation on the messages that they send.
-- - Db: gateway/db.py, the tables and the statements on them. Db/Usage is about the tokens of a
--   day, Db/Pool has the pool of connections and the migrations.
-- - ConfigStore: gateway/config_store.py. Tables, Rows and Written are about the two loops over the
--   rows, RoundTrip about a configuration that is written and read, Valid about the checks of what
--   is read, SingleFlight about calls at once, which a list of events says. Turns counts the turns
--   that these calls still need, Progress says that they come to an end.
-- - App: gateway/app.py, the handlers of a request. App/Boot is what the start of the process makes
--   of its configuration, App/Lifespan the whole start and the end, App/Startup is about both.
--   App/Gauges has the gauges of `/metrics`. Billing and Named are the lemmas of Chat, what a chat
--   request gets, and of Charge, what it costs; Vendors composes the start of the process, the
--   refresh task and the pick.
-- - Metrics: gateway/metrics.py, the collectors, and the calls in gateway/app.py of those with
--   labels. Labels compares the two.
-- - ConfigHolder: gateway/config/__init__.py, the reload on a signal.
-- - Logging: gateway/logging.py, the redaction, the level and the pipeline. Logging/Redact is about
--   what the redaction hides.
-- - Scripts: scripts/seed_callers.py (SeedCallers, CallersRun), scripts/seed_config.py (SeedConfig,
--   Seeded) and scripts/apply_migrations.py (ApplyMigrations, Migrated). Login composes the seeded
--   callers with the resolver of the gateway.
-- - Prelude: helpers. Prelude/Order is about sublists, Prelude/Dict the dictionaries, Prelude/Float
--   the floats.
--
-- The end of the process stops the refresh task and then the queue, before it closes the pool.
--
-- The chat handler composes the resolver of callers, the tables, the router and the queue of
-- attempts; its theorems rest on theirs. The start of the process builds the vendors from the
-- secrets, and their names are the providers that the refresh task counts as available.
--
-- Errors of the stores are answers: `Postgres` in App says which queries of a request are answered,
-- `WriteEnd` in ConfigStore how a write ends, the observer of `Env` may raise, and a refresh of the
-- breakers has the reads that Redis answers. The reads and writes of the cached payload in Redis,
-- and the wake-up of a task, are taken to succeed.
--
-- The router calls the weight engine, the bucket, the vendors, the observer, the clock and the
-- generator of random numbers; in Router they are the operations of `Env` over one state, which
-- other tasks may change between two calls. The refresh task reads the breakers, the bucket and the
-- observer, and replaces the cache of the weight engine.
--
-- Floats: `Float` is the interface of the operations that the program uses, `IsOrdered` the laws of
-- order; theorems that need laws take them as an argument. Doubles keep them, those on whole
-- numbers up to 2 ^ 53, above which a double rounds: the caps and the counts must lie below. Whole
-- thousandths (`Milli`) are a model of both and serve in the tests.
--
-- Fuel: the failover loop of `route` runs on fuel. Each round that goes on excludes one more
-- candidate of the tier, so the number of candidates plus one is enough (`enough_fuel`).
--
-- The handler runs the router with the same fuel.
--
-- Not modelled: the wiring of FastAPI, the clients of Postgres, Redis and the vendors, which are
-- input and output and stand as parameters; the SQL of the migrations; the text format of the
-- metrics; structlog, which renders an event; the expiry of buckets and samples.
pub mod Prelude
pub mod Models
pub mod Errors
pub mod Ratelimit
pub mod Weights
pub mod Breaker
pub mod Router
pub mod Accounting
pub mod App
pub mod Auth
pub mod ConfigHolder
pub mod ConfigStore
pub mod Db
pub mod Logging
pub mod Metrics
pub mod Observe
pub mod Pricing
pub mod Providers
pub mod Refresh
pub mod Scripts
pub mod Secrets
