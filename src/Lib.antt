-- ===== src/Lib.antt =====
-- The verification library of geo-device, a service that takes positions of devices over HTTP,
-- queues them on a redis stream, stores them in PostGIS, and tells websocket clients which devices
-- entered which zones.
--
-- How the parts interact: the HTTP side queues pings with `publish` (app/pipeline/stream.py); an
-- ingest worker (app/pipeline/worker/worker.py) reads or claims entries, stores their pings in one
-- transaction, matches them with zones, asks a script inside redis which zones are new for a
-- device (app/pipeline/presence.py), publishes alerts and positions (app/realtime/events.py) and
-- acknowledges the entries. The registry (app/realtime/registry.py) hands messages to the queues
-- of the websockets; the subscriber (app/realtime/subscriber.py) feeds it from the channels of redis,
-- and the handler of a websocket (app/realtime/router.py) attaches and detaches its connection. The
-- start-up (app/lifespan.py) makes the clients and hands the tasks to a supervisor.
--
-- The files:
--   Pings, Pings/Codec     the data and the payloads of app/pipeline/utils.py: `to_json`,
--                          `from_json`, `encode_pings`, `decode_pings`, `parse_stream_chunk`
--   Pacing                 `Backoff` and `Ticker` of app/pipeline/utils.py
--   Constants, Settings    app/pipeline/constants.py, `IngestSettings` of app/pipeline/config.py
--   Errors, Exec           the exceptions, and code that changes a state and may raise; Exec/Triple
--                          has the rules to reason about it
--   Services               redis, the database session and the clock: records of calls, open
--   Trace                  the world with a record of the calls made, for the order of events
--   Stream, Batched        app/pipeline/stream.py, operation by operation under its own names;
--                          Stream/Counter is what its commands do on the server, Stream/Ledger the
--                          step relation of the processes that use it
--   Presence               app/pipeline/presence.py; Presence/Script is the script in
--                          app/pipeline/constants.py; Presence/Digits, Hits, Server and Filtering lead
--                          from the hits and the server's runs of the script to `filter_new_entries`
--   Realtime               app/realtime/events.py
--   Worker                 `IngestWorker`: `_flush` is `flush` and so on; Worker/Loops has `_step`,
--                          `run` and `_drain`, as `step`, `run` and `drain`;
--                          `write_pings` and `match_zones` are app/pipeline/writer.py and matcher.py
--   Connection, Registry   `Connection` and `ConnectionRegistry` of app/realtime/registry.py;
--                          Registry/Sessions is the registry up to order, as a quotient
--   Subscriber             `Subscriber` of app/realtime/subscriber.py; Subscriber/Life is the step
--                          relation of its life with the connections
--   Routes                 app/dependencies.py, app/realtime/dependencies.py and
--                          app/realtime/router.py
--   Supervisor             `TaskSpec` and `Supervisor` of app/pipeline/worker/lifecycle.py;
--                          Supervisor/Status is its `status`, Supervisor/Flapping its restarts
--   DeviceService          `save_points` of app/domains/devices/service.py; DeviceService/Requests
--                          is schemas.py and router.py beside it, DeviceService/Queued what it
--                          queues
--   Retention              `purge_expired_pings` and `retention_worker` of
--                          app/pipeline/retention.py
--   Geozones               app/domains/geozones/service.py and schemas.py; Geozones/Requests is
--                          router.py and dependencies.py beside them, Geozones/Http a request from
--                          its header to its status, Geozones/Rows the laws of SQL,
--                          Geozones/Stored those of keys and names
--   Lifespan               app/lifespan.py, app/core/redis_client.py and the instance of
--                          app/realtime/subscriber.py
--   Migrations             migrations/versions, as lists of operations; Migrations/Online is
--                          migrations/env.py
--   Tables                 app/domains/geozones/models.py, app/domains/devices/models.py
--   Config                 app/core/config.py, app/realtime/config.py and `RedisSettings` of
--                          app/pipeline/config.py
--   Application, Logger    app/main.py and app/core/logger.py
--   Generator              generator.py; Generator/Ticks is its loop
--   Prelude, Dict          shared names, and dictionaries in the order of insertion
--   */Tests, */*Tests       runs at concrete inputs; Pings/Sample and Presence/Keyspace are a
--                          concrete codec and a concrete keyspace for them
--
-- What is outside: redis, PostgreSQL, orjson, `datetime` and the clock are parameters. Where a
-- theorem relies on them, their documented behaviour is a hypothesis: `IsFaithful` (formats read
-- back what they wrote), `IsSets` (the commands of redis on sets), `RunsScripts` (a pipeline runs its
-- scripts in order, each at once, and in between others leave the sets of its devices alone),
-- `IsPubSub` and `IsReader` (its subscriptions, and what reading and waiting do to them), `Deletes`
-- (what a `DELETE` with a cutoff and a limit removes and leaves), `HasDeadline` (entering
-- `asyncio.timeout` sets a deadline, and reads take time until it), `IsTable` (what SQL does with a
-- statement whatever its `where`, and transactions), `IsKeyed` (an insertion under the constraints of
-- the table), `IsServer` (the stream, its group and the counter), `Answers` (no call of a flush
-- fails), `IsDatabase` and `IsTransactional` (the operations of alembic on the objects that the
-- revisions name, and their transaction). A call of them returns or raises anything,
-- `CancelledError` included, so a worker may be cancelled at any call.
--
-- Bounds and fuel: the loops `while True` of `run` and `while chunks := …` of `_drain` run for at
-- most `n` rounds, and the theorems hold for every `n`, so for every point in the life of a worker;
-- the handler of a websocket is cancelled at a receive that is any. For `_drain`, fuel above the
-- reads that its timeout has room for is enough, since each read takes time.
-- The digits of a number `n` have fuel `n + 1`, more than it has digits. All other loops are
-- structural. Numbers are unbounded as Python's are. Durations and clock readings are whole
-- milliseconds, which all constants of the program are; coordinates are carried as bit patterns.
--
-- Not modelled: log messages; how settings are read from the environment; the engine of the
-- database; the text of SQL statements, of the function that computes bounds, and of the JSON
-- messages to clients; how pydantic and FastAPI parse a request; the page.
pub mod Application
pub mod Batched
pub mod Config
pub mod Connection
pub mod Constants
pub mod DeviceService
pub mod Dict
pub mod Errors
pub mod Exec
pub mod Generator
pub mod Geozones
pub mod Lifespan
pub mod Logger
pub mod Migrations
pub mod Pacing
pub mod Pings
pub mod Prelude
pub mod Presence
pub mod Realtime
pub mod Registry
pub mod Retention
pub mod Routes
pub mod Services
pub mod Settings
pub mod Stream
pub mod Subscriber
pub mod Supervisor
pub mod Tables
pub mod Trace
pub mod Worker
