-- ===== src/Worker/FlushedTests.antt =====
-- A flush of one chunk, with a database that answers and a redis that runs pipelines but no scripts.
use geo_device.Prelude.{ℕ, ◌≡◌, refl, false, arith, none, [], ◌∷◌, List, String}
use geo_device.Errors.{redis_error}
use geo_device.Exec.{ok, raised}
use geo_device.Pings.{StreamChunk, ZoneHit}
use geo_device.Pings.Sample.{formats, pings}
use geo_device.Services.{Redis, Session, Clock}
use geo_device.Settings.{defaults}
use geo_device.Trace.{Run}
use geo_device.Worker.{Env, Machine, alert, new_worker}
use geo_device.Worker.Flushed.{Answers, Flushed, flush-Flushed}

abbrev redis : Redis ℕ
redis = record {
  xreadgroup = λ consumer entry_id count block n. (ok [], n);
  xautoclaim = λ consumer min_idle_time count n. (ok [], n);
  xinfo_groups = λ stream n. (ok [], n);
  xgroup_create = λ stream group id n. (ok tt, n);
  get = λ key n. (ok none, n);
  set = λ key value n. (ok tt, n);
  execute = λ commands n. (ok tt, n);
  run_scripts = λ calls n. (raised redis_error, n);
  publish_now = λ channel payload n. (ok tt, n);
}

abbrev session : Session ℕ
session = record {
  insert_pings = λ ps n. (ok tt, n);
  select_hits = λ ps n. (ok [], n);
  commit = λ n. (ok tt, n);
  close = λ n. (ok tt, n);
}

abbrev clock : Clock ℕ
clock = record {
  monotonic = λ n. n;
  uniform = λ limit n. (0, n);
  sleep = λ d n. (ok tt, n);
  timeout = λ ms w. w;
  timed_out = λ n. false;
}

abbrev env : Env ℕ
env = record {
  redis = redis;
  session = session;
  clock = clock;
  formats = formats;
  settings = defaults;
}

alert-caught :
    (hits : List ZoneHit) (ids : List String) (r : Run ℕ)
    → (n : ℕ) × ((alert env hits ids r).0 ≡ ok n)
unfolding alert
alert-caught hits [] r = (0, refl)
alert-caught hits (id ∷ ids) r = (0, refl)

env-Answers : Answers env
env-Answers = record {
  inserts = λ ps w. refl;
  selects = λ ps w. ([], refl);
  commits = λ w. refl;
  closes = λ w. refl;
  executes = λ commands w. refl;
  alerts = alert-caught;
}

abbrev chunk : StreamChunk
chunk = record { entry_id = b'1' ∷ []; pings = pings }

abbrev started : Machine ℕ
started = record { worker = new_worker defaults "w0" 0 0 0; run = record { world = 0; trace = [] } }

flush-Flushed_example : Flushed env (chunk ∷ []) started
flush-Flushed_example = flush-Flushed env env-Answers (chunk ∷ []) started (omega arith)
