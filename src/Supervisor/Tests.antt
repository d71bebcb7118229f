-- ===== src/Supervisor/Tests.antt =====
-- A supervisor of two tasks, one of which has ended and one of which is stalled.
use geo_device.Prelude.{◌≡◌, ◌↔◌, ◌⊎◌, Bool, refl, In, true, false, some, [], ◌∷◌, String, All}
use geo_device.Errors.{value_error}
use geo_device.Supervisor.{
  TaskSpec, Supervisor, Readings, running, failed, flapping, monitor_round, healthy,
}
use geo_device.Supervisor.Health.{names, Kept, monitor_round-running, monitor_round-healthy}
use geo_device.Supervisor.Status.{
  Rounds, IsNoted, WentDownIn, after_rounds, status, status_restarted,
}

abbrev retention : TaskSpec
retention = record { name = "retention"; has_heartbeat = false; restarts = [] }

abbrev worker : TaskSpec
worker = record { name = "worker-0"; has_heartbeat = true; restarts = 1_000 ∷ 70_000 ∷ [] }

abbrev supervisor : Supervisor
supervisor = record {
  specs = retention ∷ worker ∷ [];
  tasks = ("retention", failed value_error) ∷ ("worker-0", running) ∷ [];
  monitor = some running;
}

abbrev readings : String → Readings
readings name = record {
  now = 100_000;
  beat = 30_000;
  recent_now = 100_000;
  restarted_at = 100_001;
  in_gather = λ n t. t;
  in_sleep = λ n t. t;
}

monitor_round-running_example :
    (names (monitor_round readings supervisor).specs ≡ "retention" ∷ "worker-0" ∷ [])
    × All
        (λ spec. Kept readings (monitor_round readings supervisor).tasks spec.name)
        (monitor_round readings supervisor).specs
monitor_round-running_example = monitor_round-running readings supervisor

monitor_round-healthy_example :
    (healthy 100_002 (monitor_round readings supervisor) ≡ true)
    ↔ All (λ spec. flapping 100_002 spec ≡ false) (monitor_round readings supervisor).specs
monitor_round-healthy_example =
    monitor_round-healthy readings supervisor 100_002 (λ name n. (refl, refl))

-- Two rounds: the retention worker fails before the first, and then nothing ends.
abbrev two_rounds : Rounds
two_rounds = ((λ n t. t), readings) ∷ ((λ n t. t), readings) ∷ []

abbrev le : String → String → Bool
le s t = true

status_restarted_example :
    In "retention" (status le (after_rounds two_rounds supervisor)).restarted
    ↔ (IsNoted supervisor.specs "retention" ⊎ WentDownIn two_rounds supervisor "retention")
status_restarted_example = status_restarted le two_rounds supervisor "retention"
