-- ===== src/Lifespan/Started.antt =====
-- What a start-up leaves running.
use geo_device.Prelude.{
  ℕ, zero, suc, ◌+◌, ◌≡◌, ◌≢◌, false, refl, sym, subst, arith, true, Option, some, List, [], ◌∷◌,
  ◌++◌, append-nil, append_assoc, String, string_key, All,
}
use geo_device.Dict
use geo_device.Dict.Laws.{get-put}
use geo_device.Errors.{Exn}
use geo_device.Exec.{Exec, Result, ok, raised, modify, ◌>>◌}
use geo_device.Exec.Triple.{Triple, Outcome, Triple-bind, Triple-pure, Triple-modify}
use geo_device.Realtime.{position_channel}
use geo_device.Registry.{Objects}
use geo_device.Settings.{IngestSettings}
use geo_device.Stream.{ensure_group}
use geo_device.Subscriber
use geo_device.Subscriber.{PubSub, Hub}
use geo_device.Supervisor
use geo_device.Supervisor.{Supervisor, TaskSpec, Tasks, running, done, is_running, spawn, spawn_all}
use geo_device.Supervisor.Health.{names}
use geo_device.Trace.{Run}
use geo_device.Lifespan.{
  App, Instance, Library, on_world, on_instance, get_redis, get_subscriber, init_redis,
  init_subscriber, new_subscriber, worker_name, add_workers, startup,
}

spawned_old :
    (specs : List TaskSpec) (tasks : Tasks) (name : String)
    → Dict.get tasks name ≡ some running
    → Dict.get (spawn_all tasks specs) name ≡ some running
unfolding spawn_all spawn
spawned_old [] tasks name e = e
spawned_old (spec ∷ specs) tasks name e =
    spawned_old specs (spawn tasks spec) name (ground (arith, get-put tasks spec.name name running))

-- All tasks of the list run once they are spawned.
spawned :
    (specs : List TaskSpec) (tasks : Tasks)
    → All (λ spec. is_running (spawn_all tasks specs) spec ≡ true) specs
unfolding spawn_all spawn is_running done
spawned [] tasks = tt
spawned (spec ∷ specs) tasks = (
  ground (
    arith,
    spawned_old specs (spawn tasks spec) spec.name
        (ground (arith, get-put tasks spec.name spec.name running)),
  ),
  spawned specs (spawn tasks spec),
)

start-reading :
    {V : Type 0} (channels : PubSub V) (hub : Hub V) (r : Result (Unit {0}))
    → (channels.subscribe (position_channel ∷ []) hub.world).0 ≡ r
    → (Subscriber.start channels hub).0 ≡ ok tt
    → (Subscriber.start channels hub).1.reading ≡ true
unfolding Subscriber.start Subscriber.on_world
start-reading channels hub (ok t) e h = rw (e, Subscriber.start) refl
start-reading channels hub (raised x) e h = absurd (ne (rw (e, Subscriber.start) at h))
  where
    ne : raised x ≢ ok tt
    ne p = cc

module _ {W C : Type 0} (library : Library W C) where
  open library use {from_url, ping, redis, pubsub}

  abbrev pub worker_names : ℕ → ℕ → List String
  worker_names worker_id zero = []
  worker_names worker_id (suc count) =
      worker_name library worker_id ∷ worker_names (worker_id + 1) count

  names-append : (xs ys : List TaskSpec) → names (xs ++ ys) ≡ names xs ++ names ys
  names-append [] ys = refl
  names-append (x ∷ xs) ys = ground (arith, names-append xs ys)

  names-add_workers :
      (count worker_id : ℕ) (s : Supervisor)
      → names (add_workers library worker_id count s).specs
        ≡ names s.specs ++ worker_names worker_id count
  unfolding add_workers Supervisor.add
  names-add_workers zero worker_id s = rw append-nil refl
  names-add_workers (suc count) worker_id s =
      let next = Supervisor.add (worker_name library worker_id) true s in
      let rest = worker_names (worker_id + 1) count in
      ground (
        arith,
        names-add_workers count (worker_id + 1) next,
        names-append s.specs (
            record { name = worker_name library worker_id; has_heartbeat = true; restarts = [] }
            ∷ []),
        append_assoc (names s.specs) (worker_name library worker_id ∷ []) rest,
      )

  -- Code on the world or on the subscriber keeps what the rest of the process satisfies.
  abbrev Any : Exn → App W C → Type 0
  Any e s = Unit {0}

  on_world-keeps :
      {A : Type 0} (P : Option C → Option (Instance C) → Type 0) (m : Exec (Run W) A)
      → Triple
          (λ s. P s.client s.subscriber)
          (on_world {C = C} m)
          (λ a s. P s.client s.subscriber)
          Any
  unfolding on_world
  on_world-keeps P m = record { at = λ s p. ended s p (m s.world).0 }
    where
      ended :
          {A : Type 0} (s : App W C) (p : P s.client s.subscriber) (r : Result A)
          → Outcome {S = App W C}
              (λ a s. P s.client s.subscriber)
              Any
              r
              (record s { world = (m s.world).1 })
      ended s p (ok a) = p
      ended s p (raised e) = tt

  -- The client is that of the library.
  abbrev IsConnected : Option C → Option (Instance C) → Type 0
  IsConnected client subscriber = client ≡ some from_url

  -- A subscriber is there, and its task was started.
  abbrev IsReading : Option C → Option (Instance C) → Type 0
  IsReading client subscriber =
      (client ≡ some from_url) × ((i : Instance C) × (subscriber ≡ some i) × (i.reading ≡ true))

  init_redis-IsConnected :
      Triple
        (λ s. Unit {0})
        (init_redis library)
        (λ c s. (c ≡ from_url) × IsConnected s.client s.subscriber)
        Any
  unfolding init_redis
  init_redis-IsConnected =
      Triple-bind (λ t s. IsConnected s.client s.subscriber) _ _ (Triple-modify _ (λ s p. refl))
        (λ t.
          Triple-bind (λ t s. IsConnected s.client s.subscriber) _ _
            (on_world-keeps IsConnected (ping from_url))
            (λ t. Triple-pure from_url (λ s p. (refl, p))))

  abbrev hub_of : Instance C → Run W → Hub (Run W)
  hub_of i w = record {
    connections = i.connections;
    objects = i.objects;
    backoff = i.backoff;
    reading = i.reading;
    world = w;
  }

  instance-IsReading :
      (i : Instance C)
      → Triple
          (λ s. IsConnected s.client s.subscriber)
          (on_instance i (Subscriber.start (pubsub from_url)))
          (λ t s. IsReading s.client s.subscriber)
          Any
  unfolding on_instance
  instance-IsReading i = record {
    at = λ s p.
        let hub = Subscriber.start (pubsub from_url) (hub_of i s.world) in
        started s p hub.0 hub.1 (start-reading (pubsub from_url) (hub_of i s.world) _ refl);
  }
    where
      started :
          (s : App W C) (p : s.client ≡ some from_url) (r : Result (Unit {0})) (hub : Hub (Run W))
          → (r ≡ ok tt → hub.reading ≡ true)
          → Outcome
              (λ t (x : App W C). IsReading x.client x.subscriber)
              Any
              r
              (record s {
                subscriber = some (record {
                  client = i.client;
                  connections = hub.connections;
                  objects = hub.objects;
                  backoff = hub.backoff;
                  reading = hub.reading;
                });
                world = hub.world;
              })
      started s p (ok t) hub reads = (p, (_, refl, reads refl))
      started s p (raised e) hub reads = tt

  init_subscriber-IsReading :
      (objects : Objects)
      → Triple
          (λ s. IsConnected s.client s.subscriber)
          (init_subscriber library objects from_url)
          (λ t s. IsReading s.client s.subscriber)
          Any
  unfolding init_subscriber
  init_subscriber-IsReading objects =
      Triple-bind (λ t s. IsConnected s.client s.subscriber) _ _
        (Triple-modify
          (λ s. record s { subscriber = some (new_subscriber library objects from_url) })
          (λ s p. p))
        (λ t. instance-IsReading (new_subscriber library objects from_url))

  -- The subscriber reads, and exactly the workers and the retention worker were added, and run.
  pub record IsStarted (settings : IngestSettings) (s : App W C) : Type 0 where
    pub redis_ready : get_redis s ≡ ok from_url
    pub subscriber_ready : (i : Instance C) × (get_subscriber s ≡ ok i) × (i.reading ≡ true)
    pub added :
        names s.supervisor.specs ≡ worker_names 0 settings.workers ++ "retention-worker" ∷ []
    pub running_all : All (λ spec. is_running s.supervisor.tasks spec ≡ true) s.supervisor.specs

  module _ (settings : IngestSettings) (objects : Objects) where
    abbrev workers : Supervisor
    workers = add_workers library 0 settings.workers Supervisor.new_supervisor

    abbrev all_tasks : Supervisor
    all_tasks = Supervisor.start (Supervisor.add "retention-worker" false workers)

    abbrev supervised : App W C → App W C
    supervised s = record s { supervisor = all_tasks }

    supervised-IsStarted :
        (s : App W C) → IsReading s.client s.subscriber → IsStarted settings (supervised s)
    unfolding get_redis get_subscriber Supervisor.start Supervisor.add
    supervised-IsStarted s (connected, (i, e, reads)) = record {
      redis_ready = rw (connected, get_redis) refl;
      subscriber_ready = (i, rw (e, get_subscriber) refl, reads);
      added = ground (
        arith,
        names-append workers.specs
            (record { name = "retention-worker"; has_heartbeat = false; restarts = [] } ∷ []),
        names-add_workers settings.workers 0 Supervisor.new_supervisor,
      );
      running_all = spawned _ _;
    }

    abbrev behind_redis : C → Exec (App W C) (Unit {0})
    behind_redis c =
        on_world (ensure_group (redis c))
        >> (init_subscriber library objects c >> modify supervised)

    behind_redis-IsStarted :
        Triple
          (λ s. IsConnected s.client s.subscriber)
          (behind_redis from_url)
          (λ t. IsStarted settings)
          Any
    behind_redis-IsStarted =
        Triple-bind (λ t s. IsConnected s.client s.subscriber) _ _
          (on_world-keeps IsConnected (ensure_group (redis from_url)))
          (λ t.
            Triple-bind (λ t s. IsReading s.client s.subscriber) _ _
              (init_subscriber-IsReading objects)
              (λ t. Triple-modify supervised supervised-IsStarted))

    startup-ends :
        Triple (λ s. Unit {0}) (startup library settings objects) (λ t. IsStarted settings) Any
    unfolding startup
    startup-ends =
        Triple-bind (λ c s. (c ≡ from_url) × IsConnected s.client s.subscriber) _ _
          init_redis-IsConnected
          (λ c. record {
            at = λ s p.
                (subst
                    (λ x.
                      Triple (λ s. IsConnected s.client s.subscriber) (behind_redis x)
                        (λ t. IsStarted settings) Any)
                    (sym p.0) behind_redis-IsStarted).at
                  s p.1;
          })

    -- A start-up that returns leaves the redis client and the subscriber ready, the subscriber's
    -- task started, and exactly the configured number of ingest workers and the retention worker
    -- added to the supervisor, each of them running.
    pub startup-IsStarted :
        (s : App W C)
        → (startup library settings objects s).0 ≡ ok tt
        → IsStarted settings (startup library settings objects s).1
    startup-IsStarted s done =
        let end = (startup library settings objects s).1 in
        subst (λ r. Outcome (λ t. IsStarted settings) Any r end) done (startup-ends.at s tt)
