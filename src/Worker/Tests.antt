-- ===== src/Worker/Tests.antt =====
-- The life of a worker that reads one entry, fails to insert its pings, claims it again and stores
-- it, and is then cancelled.
use geo_device.Prelude.{
  ℕ, suc, ◌*◌, ◌-◌, max, ◌<◌, ◌≡◌, ◌≢◌, arith, Bool-cases, inl, inr, none, [], ◌∷◌, map, false,
  if◌then◌else◌, ◌==◌, ltb,
}
use geo_device.Constants.{payload_field}
use geo_device.Errors.{Exn, sqlalchemy_error, cancelled_error}
use geo_device.Exec.{Exec, ok, raised}
use geo_device.Pings.{Entry}
use geo_device.Pings.Codec.{encode_pings}
use geo_device.Pings.Sample.{formats, pings}
use geo_device.Services.{Redis, Session, Clock}
use geo_device.Settings.{defaults}
use geo_device.Worker.Deadline.{HasDeadline}
use geo_device.Worker.Drained.{drain-enough}
use geo_device.Worker.{Env, Machine, new_worker}
use geo_device.Worker.Loops.{run, drain}
use geo_device.Worker.Acknowledged.{IsSafe}
use geo_device.Worker.Life.{run-IsSafe}

abbrev entry : Entry
entry = (b'1' ∷ b'-' ∷ b'0' ∷ [], (payload_field, encode_pings formats pings) ∷ [])

-- The world counts the calls; one of them fails, and from some point on every call is cancelled.
abbrev World : Type 0
World = ℕ

abbrev answer : {A : Type 0} → A → Exec World A
answer a n = (
  if n == 2 then raised sqlalchemy_error else if ltb n 12 then ok a else raised cancelled_error,
  suc n,
)

abbrev redis : Redis World
redis = record {
  xreadgroup = λ consumer entry_id count block. answer (("pings", entry ∷ []) ∷ []);
  xautoclaim = λ consumer min_idle_time count. answer (entry ∷ []);
  xinfo_groups = λ stream. answer [];
  xgroup_create = λ stream group id. answer tt;
  get = λ key. answer none;
  set = λ key value. answer tt;
  execute = λ commands. answer tt;
  run_scripts = λ calls. answer (map (λ c. c.zones) calls);
  publish_now = λ channel payload. answer tt;
}

abbrev session : Session World
session = record {
  insert_pings = λ ps. answer tt;
  select_hits = λ ps. answer [];
  commit = answer tt;
  close = answer tt;
}

abbrev clock : Clock World
clock = record {
  monotonic = λ n. 20_000 * n;
  uniform = λ limit n. (0, n);
  sleep = λ d. answer tt;
  timeout = λ ms n. max n (12 - ms);
  timed_out = λ n. false;
}

abbrev env : Env World
env = record {
  redis = redis;
  session = session;
  clock = clock;
  formats = formats;
  settings = defaults;
}

abbrev started : Machine World
started = record { worker = new_worker defaults "w0" 0 0 0; run = record { world = 0; trace = [] } }

run-IsSafe_example : IsSafe formats (run env 5 started).1.run.trace
run-IsSafe_example = run-IsSafe env 5 started tt

-- The calls that are left before all are cancelled.
abbrev left : World → ℕ
left n = 12 - n

ok_ne : {A : Type 0} (e : Exn) (a : A) → raised e ≢ ok a
ok_ne e a p = cc

returned : {A : Type 0} (a b : A) (n : ℕ) → (answer a n).0 ≡ ok b → left (suc n) < left n
returned a b n h = elim (Bool-cases (n == 2)) [
  | inl e ↦ ground arith
  | inr e ↦ elim (Bool-cases (ltb n 12)) [
    | inl f ↦ ground arith
    | inr f ↦ absurd (ok_ne cancelled_error b (rw (e, f) at h))
  ]
]

-- A drain may take the time of five calls.
abbrev hurried : Env World
hurried = record env { settings = record defaults { drain_timeout = 5 } }

hurried-HasDeadline : HasDeadline hurried left 1
hurried-HasDeadline = record {
  enters = λ ms n. omega arith;
  reads = λ consumer entry_id count block n. omega arith;
  takes = λ consumer entry_id count block n response h. returned _ response n h;
  executes = λ commands n. omega arith;
  runs = λ calls n. omega arith;
  inserts = λ ps n. omega arith;
  selects = λ ps n. omega arith;
  commits = λ n. omega arith;
  closes = λ n. omega arith;
}

drain-enough_example : drain hurried 6 started ≡ drain hurried 20 started
drain-enough_example =
    drain-enough hurried left hurried-HasDeadline 6 20 started (omega arith) (omega arith)
