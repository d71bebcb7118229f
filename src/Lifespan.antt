-- ===== src/Lifespan.antt =====
-- app/lifespan.py, with the instances that app/core/redis_client.py and app/realtime/subscriber.py
-- keep for the process.
pub mod Started
mod Tests
use Prim.Native.String.{◌++◌ as append}
use geo_device.Prelude.{ℕ, zero, suc, ◌+◌, Bool, true, false, Option, none, some, [], String}
use geo_device.Errors.{Exn, runtime_error, redis_errors}
use geo_device.Exec.{Exec, Result, ok, raised, pure, modify, try_except, ◌>>=◌, ◌>>◌}
use geo_device.Pacing.{Backoff, new_backoff}
use geo_device.Registry.{Objects, Connections}
use geo_device.Services.{Redis}
use geo_device.Settings.{IngestSettings}
use geo_device.Stream
use geo_device.Stream.{ensure_group}
use geo_device.Subscriber
use geo_device.Subscriber.{PubSub, Hub}
use geo_device.Supervisor
use geo_device.Supervisor.{Supervisor}
use geo_device.Trace.{Run}

-- A subscriber with the redis client that it was made with, without the world.
pub record Instance (C : Type 0) : Type 0 where
  pub client : C
  pub connections : Connections
  pub objects : Objects
  pub backoff : Backoff
  pub reading : Bool

-- The process: `_client`, `_subscriber`, the supervisor, and the world.
pub record App (W C : Type 0) : Type 0 where
  pub client : Option C
  pub subscriber : Option (Instance C)
  pub supervisor : Supervisor
  pub world : Run W

-- The redis library with the url and the options of the configuration, the engine of the database,
-- and `str`.
pub record Library (W C : Type 0) : Type 0 where
  pub from_url : C
  pub ping : C → Exec (Run W) (Unit {0})
  pub aclose : C → Exec (Run W) (Unit {0})
  -- `async with asyncio.timeout(…)` around a call
  pub timeout : Exec (Run W) (Unit {0}) → Exec (Run W) (Unit {0})
  pub redis : C → Redis W
  pub pubsub : C → PubSub (Run W)
  pub dispose_engine : Exec (Run W) (Unit {0})
  pub str : ℕ → String

module _ {W C : Type 0} where
  unfoldable pub on_world : {A : Type 0} → Exec (Run W) A → Exec (App W C) A
  on_world m s = let (r, w) = m s.world in (r, record s { world = w })

  -- A method of the subscriber.
  unfoldable pub on_instance : {A : Type 0} → Instance C → Exec (Hub (Run W)) A → Exec (App W C) A
  on_instance i m s =
      let (r, hub) = m (record {
        connections = i.connections;
        objects = i.objects;
        backoff = i.backoff;
        reading = i.reading;
        world = s.world;
      }) in
      (
        r,
        record s {
          subscriber = some (record {
            client = i.client;
            connections = hub.connections;
            objects = hub.objects;
            backoff = hub.backoff;
            reading = hub.reading;
          });
          world = hub.world;
        },
      )

  unfoldable pub get_redis : App W C → Result C
  get_redis s = elim s.client [ none ↦ raised runtime_error | some c ↦ ok c ]

  unfoldable pub get_subscriber : App W C → Result (Instance C)
  get_subscriber s = elim s.subscriber [ none ↦ raised runtime_error | some i ↦ ok i ]

module _ {W C : Type 0} (library : Library W C) where
  open library use {from_url, ping, aclose, timeout, redis, pubsub, dispose_engine, str}

  unfoldable pub init_redis : Exec (App W C) C
  unfolding on_world pure modify ◌>>=◌
  init_redis = do
    modify (λ s. record s { client = some from_url })
    on_world (ping from_url)
    pure from_url

  unfoldable pub check_redis : Exec (App W C) Bool
  unfolding on_world pure try_except ◌>>=◌
  check_redis s = elim s.client [
    | none ↦ (ok false, s)
    | some c ↦
        try_except (on_world (timeout (ping c)) >> pure true) redis_errors (λ e. pure false) s
  ]

  unfoldable pub close_redis : Exec (App W C) (Unit {0})
  unfolding on_world modify ◌>>=◌
  close_redis s = elim s.client [
    | none ↦ (ok tt, s)
    | some c ↦ (on_world (aclose c) >> modify (λ s. record s { client = none })) s
  ]

  -- `Subscriber(redis)`; `RESUBSCRIBE_BACKOFF_S` is 0.5 and `RESUBSCRIBE_BACKOFF_MAX_S` is 15
  unfoldable pub new_subscriber : Objects → C → Instance C
  new_subscriber objects client = record {
    client = client;
    connections = [];
    objects = objects;
    backoff = new_backoff 500 15_000;
    reading = false;
  }

  unfoldable pub init_subscriber : Objects → C → Exec (App W C) (Unit {0})
  unfolding new_subscriber on_instance Subscriber.start modify ◌>>=◌
  init_subscriber objects client =
      modify (λ s. record s { subscriber = some (new_subscriber objects client) })
      >> on_instance (new_subscriber objects client) (Subscriber.start (pubsub client))

  unfoldable pub close_subscriber : Exec (App W C) (Unit {0})
  unfolding on_instance Subscriber.stop modify ◌>>=◌
  close_subscriber s = elim s.subscriber [
    | none ↦ (ok tt, s)
    | some i ↦
        (on_instance i (Subscriber.stop (pubsub i.client))
            >> modify (λ s. record s { subscriber = none }))
          s
  ]

  unfoldable pub worker_name : ℕ → String
  worker_name worker_id = append "ingest-worker-" (str worker_id)

  -- The loop that adds the workers, from `worker_id` on.
  unfoldable pub add_workers : ℕ → ℕ → Supervisor → Supervisor
  unfolding worker_name Supervisor.add
  add_workers worker_id zero s = s
  add_workers worker_id (suc count) s =
      add_workers (worker_id + 1) count (Supervisor.add (worker_name worker_id) true s)

  -- What runs before the `yield`; `objects` is the store of the connection objects to come.
  unfoldable pub startup : IngestSettings → Objects → Exec (App W C) (Unit {0})
  unfolding init_redis ensure_group init_subscriber add_workers Supervisor.add Supervisor.start
      on_world modify ◌>>=◌
  startup settings objects = do
    client ← init_redis
    on_world (ensure_group (redis client))
    init_subscriber objects client
    modify (λ s. record s {
      supervisor = Supervisor.start (
          Supervisor.add "retention-worker" false
            (add_workers 0 settings.workers Supervisor.new_supervisor));
    })

  -- The `finally` clause: an exception leaves the rest out.
  unfoldable pub shutdown : Exec (App W C) (Unit {0})
  unfolding close_subscriber close_redis Supervisor.stop on_world modify ◌>>=◌
  shutdown = do
    modify (λ s. record s { supervisor = Supervisor.stop s.supervisor })
    close_subscriber
    close_redis
    on_world dispose_engine
