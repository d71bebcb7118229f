-- ===== src/Lifespan/Tests.antt =====
-- A start-up that redis answers.
use geo_device.Prelude.{ℕ, refl, none, [], String, if◌then◌else◌, ◌==◌}
use geo_device.Connection.{no_sender}
use geo_device.Exec.{ok}
use geo_device.Lifespan.{App, Library, startup}
use geo_device.Lifespan.Started.{IsStarted, startup-IsStarted}
use geo_device.Registry.{Objects}
use geo_device.Services.{Redis}
use geo_device.Settings.{defaults}
use geo_device.Supervisor.{new_supervisor}

abbrev redis : Redis ℕ
redis = record {
  xreadgroup = λ consumer entry_id count block w. (ok [], w);
  xautoclaim = λ consumer min_idle_time count w. (ok [], w);
  xinfo_groups = λ stream w. (ok [], w);
  xgroup_create = λ stream group id w. (ok tt, w);
  get = λ key w. (ok none, w);
  set = λ key value w. (ok tt, w);
  execute = λ commands w. (ok tt, w);
  run_scripts = λ calls w. (ok [], w);
  publish_now = λ channel payload w. (ok tt, w);
}

abbrev digit : ℕ → String
digit n = if n == 0 then "0" else if n == 1 then "1" else if n == 2 then "2" else "3"

-- The only client is the number 7.
abbrev library : Library ℕ ℕ
library = record {
  from_url = 7;
  ping = λ c w. (ok tt, w);
  aclose = λ c w. (ok tt, w);
  timeout = λ m. m;
  redis = λ c. redis;
  pubsub = λ c. record {
    subscribe = λ channels w. (ok tt, w);
    unsubscribe = λ channel w. (ok tt, w);
    get_message = λ w. (ok none, w);
    sleep = λ delay w. (ok tt, w);
    aclose = λ w. (ok tt, w);
  };
  dispose_engine = λ w. (ok tt, w);
  str = digit;
}

abbrev objects : Objects
objects i = record {
  user_id = "ann";
  message_queue = record { maxsize = 2; items = [] };
  sender = no_sender;
  dropped_messages = 0;
}

abbrev app : App ℕ ℕ
app = record {
  client = none;
  subscriber = none;
  supervisor = new_supervisor;
  world = record { world = 0; trace = [] };
}

startup-IsStarted_example : IsStarted library defaults (startup library defaults objects app).1
unfolding startup
startup-IsStarted_example = startup-IsStarted library defaults objects app refl
