-- ===== src/Supervisor.antt =====
-- `TaskSpec` and `Supervisor` of app/pipeline/worker/lifecycle.py. The clock, the heartbeats and
-- what becomes of the tasks, also while a restart waits, are arguments; the code of a task is not part
-- of the model.
pub mod Flapping
pub mod Health
pub mod Status
mod Tests
use geo_device.Prelude.{
  ℕ, ◌+◌, ◌-◌, Bool, true, false, not, ◌&&◌, Option, none, some, List, [], ◌∷◌, ◌++◌, map, String,
  length, ltb, leb, if◌then◌else◌, string_key, String_discrete,
}
use geo_device.Constants.{flapping_window, flapping_restarts, task_stall_timeout}
use geo_device.Dict
use geo_device.Dict.{Dict}
use geo_device.Errors.{Exn}

-- An `asyncio.Task`: it is not done (`running`, from its creation on), or is done by a return, an exception or a cancellation.
pub data Task : Type 0 where
  running returned cancelled : Task
  failed : Exn → Task

unfoldable pub done : Task → Bool
done running = false
done _ = true

pub record TaskSpec : Type 0 where
  pub name : String
  -- whether it was added with a heartbeat
  pub has_heartbeat : Bool
  -- the clock readings of its restarts
  pub restarts : List ℕ

-- `_recent`, at a clock reading
unfoldable pub recent : ℕ → List ℕ → List ℕ
recent now [] = []
recent now (at ∷ restarts) =
    let rest = recent now restarts in if ltb (now - at) flapping_window then at ∷ rest else rest

-- `note_restart` reads the clock in `_recent` and once more.
unfoldable pub note_restart : ℕ → ℕ → TaskSpec → TaskSpec
unfolding recent
note_restart now at spec = record spec { restarts = recent now spec.restarts ++ at ∷ [] }

unfoldable pub flapping : ℕ → TaskSpec → Bool
unfolding recent
flapping now spec = leb flapping_restarts (length (recent now spec.restarts))

abbrev pub Tasks : Type 0
Tasks = Dict String Task

abbrev runs : Option Task → Bool
runs none = false
runs (some task) = not (done task)

unfoldable pub is_running : Tasks → TaskSpec → Bool
unfolding done Dict.get
is_running tasks spec = runs (Dict.get tasks spec.name)

-- `asyncio.create_task(spec.factory(), …)`
unfoldable pub spawn : Tasks → TaskSpec → Tasks
unfolding Dict.put
spawn tasks spec = Dict.put tasks spec.name running

pub record Supervisor : Type 0 where
  pub specs : List TaskSpec
  pub tasks : Tasks
  pub monitor : Option Task

abbrev pub new_supervisor : Supervisor
new_supervisor = record { specs = []; tasks = []; monitor = none }

unfoldable pub add : String → Bool → Supervisor → Supervisor
add name has_heartbeat s =
    let spec : TaskSpec = record { name = name; has_heartbeat = has_heartbeat; restarts = [] } in
    record s { specs = s.specs ++ spec ∷ [] }

unfoldable pub all_healthy : ℕ → Tasks → List TaskSpec → Bool
unfolding is_running flapping
all_healthy now tasks [] = true
all_healthy now tasks (spec ∷ specs) =
    (is_running tasks spec && not (flapping now spec)) && all_healthy now tasks specs

-- `healthy`, with one clock reading for all specs
unfoldable pub healthy : ℕ → Supervisor → Bool
unfolding all_healthy
healthy now s = all_healthy now s.tasks s.specs

unfoldable pub spawn_all : Tasks → List TaskSpec → Tasks
unfolding spawn
spawn_all tasks [] = tasks
spawn_all tasks (spec ∷ specs) = spawn_all (spawn tasks spec) specs

unfoldable pub start : Supervisor → Supervisor
unfolding spawn_all
start s = record s { tasks = spawn_all s.tasks s.specs; monitor = some running }

-- `stop` cancels and awaits the monitor and the tasks.
unfoldable pub stop : Supervisor → Supervisor
stop s = record s { tasks = []; monitor = none }

-- What becomes of the tasks while the monitor waits, by their names.
abbrev pub Meanwhile : Type 0
Meanwhile = String → Task → Task

unfoldable pub pass : Meanwhile → Tasks → Tasks
pass meanwhile [] = []
pass meanwhile ((name, task) ∷ tasks) = (name, meanwhile name task) ∷ pass meanwhile tasks

-- What the clock shows in one `_check`: the reading and the heartbeat of the stall test, and the
-- two readings of `note_restart`; and what becomes of the tasks in the two waits of `_restart`.
pub record Readings : Type 0 where
  pub now : ℕ
  pub beat : ℕ
  pub recent_now : ℕ
  pub restarted_at : ℕ
  pub in_gather : Meanwhile
  pub in_sleep : Meanwhile

-- `asyncio.gather` of a task that was cancelled, behind `if task and not task.done()`
unfoldable pub gather : Meanwhile → Option Task → Tasks → Tasks
unfolding done pass
gather meanwhile none tasks = tasks
gather meanwhile (some task) tasks = if done task then tasks else pass meanwhile tasks

-- `_restart`: the task is taken out, cancelled and awaited if it still runs, and spawned again after
-- the delay.
unfoldable pub restart : Readings → TaskSpec → Tasks → TaskSpec × Tasks
unfolding spawn note_restart gather pass Dict.get Dict.remove
restart r spec tasks =
    let stopped = gather r.in_gather (Dict.get tasks spec.name) (Dict.remove tasks spec.name) in
    (note_restart r.recent_now r.restarted_at spec, spawn (pass r.in_sleep stopped) spec)

unfoldable pub stalled : Readings → TaskSpec → Bool
stalled r spec = spec.has_heartbeat && ltb task_stall_timeout (r.now - r.beat)

unfoldable pub check : Readings → TaskSpec → Tasks → TaskSpec × Tasks
unfolding done restart stalled Dict.get
check r spec tasks = elim (Dict.get tasks spec.name) [
  | none ↦ restart r spec tasks
  | some task ↦
      if done task
      then restart r spec tasks
      else if stalled r spec
      then restart r spec tasks
      else (spec, tasks)
]

-- One round of `_monitor_loop`.
unfoldable pub check_all : (String → Readings) → List TaskSpec → Tasks → List TaskSpec × Tasks
unfolding check
check_all readings [] tasks = ([], tasks)
check_all readings (spec ∷ specs) tasks =
    let (spec', tasks') = check (readings spec.name) spec tasks in
    let (specs', tasks'') = check_all readings specs tasks' in (spec' ∷ specs', tasks'')

unfoldable pub monitor_round : (String → Readings) → Supervisor → Supervisor
unfolding check_all
monitor_round readings s =
    let (specs, tasks) = check_all readings s.specs s.tasks in
    record s { specs = specs; tasks = tasks }
