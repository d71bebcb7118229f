-- ===== src/Supervisor/Health.antt =====
-- What a round of the monitor and a series of restarts do to the health of a supervisor.
use geo_device.Prelude.{
  ℕ, ◌≡◌, refl, ◌≢◌, ◌↔◌, ◌⊎◌, ◌∙◌, inl, inr, true, false, Option, none, some, List, [], ◌∷◌, map,
  String, ◌≟◌, string_key, arith, All, All-mono, Option-cases, Bool-cases, if_pos, if_neg,
}
use geo_device.Dict
use geo_device.Dict.Laws.{get-put}
use geo_device.Supervisor.{
  Task, running, returned, cancelled, failed, TaskSpec, Tasks, Supervisor, Meanwhile, Readings,
  pass, gather, done, note_restart, flapping, is_running, spawn, restart, stalled, check, check_all,
  monitor_round, all_healthy, healthy,
}

abbrev pub names : List TaskSpec → List String
names specs = map (λ s. s.name) specs

-- The name keeps a task that runs.
abbrev pub Up : Tasks → String → Type 0
Up tasks name = (t : Task) × (Dict.get tasks name ≡ some t) × (done t ≡ false)

restart-name :
    (r : Readings) (spec : TaskSpec) (tasks : Tasks) → (restart r spec tasks).0.name ≡ spec.name
unfolding restart note_restart
restart-name r spec tasks = refl

-- The check finds the task missing, done or stalled.
abbrev pub IsDown : Readings → TaskSpec → Tasks → Type 0
IsDown r spec tasks =
    (Dict.get tasks spec.name ≡ none)
    ⊎ ((t : Task) × (Dict.get tasks spec.name ≡ some t)
        × ((done t ≡ true) ⊎ (stalled r spec ≡ true)))

-- It finds a task that runs and is not stalled.
abbrev pub IsFine : Readings → TaskSpec → Tasks → Type 0
IsFine r spec tasks = Up tasks spec.name × (stalled r spec ≡ false)

pub check_cases {ℓ} :
    (P : TaskSpec × Tasks → Type ℓ) (r : Readings) (spec : TaskSpec) (tasks : Tasks)
    → (IsDown r spec tasks → P (restart r spec tasks))
    → (IsFine r spec tasks → P (spec, tasks))
    → P (check r spec tasks)
unfolding check
check_cases P r spec tasks again fine = elim (Option-cases (Dict.get tasks spec.name)) [
  | inl e ↦ rw (e, check) (again (inl e))
  | inr (t, e) ↦ elim (Bool-cases (done t)) [
    | inl d ↦ rw (e, check, d) (again (inr (t, e, inl d)))
    | inr d ↦ elim (Bool-cases (stalled r spec)) [
      | inl s ↦ rw (e, check, d, s) (again (inr (t, e, inr s)))
      | inr s ↦ rw (e, check, d, s) (fine ((t, e, d), s))
    ]
  ]
]

get-remove_other : (d : Tasks) (k j : String) → k ≢ j → Dict.get (Dict.remove d k) j ≡ Dict.get d j
unfolding Dict.get Dict.remove
get-remove_other [] k j n = refl
get-remove_other ((i, t) ∷ d) k j n = ground (arith, get-remove_other d k j n)

-- A task of the name does not end by itself while the restart of any task waits.
abbrev pub Survives : (String → Readings) → String → Type 0
Survives readings name =
    (n : String)
    → ((readings n).in_gather name running ≡ running)
      × ((readings n).in_sleep name running ≡ running)

-- The name keeps a task, which runs if it survives the waits.
abbrev pub Kept : (String → Readings) → Tasks → String → Type 0
Kept readings tasks name =
    (t : Task) × (Dict.get tasks name ≡ some t) × (Survives readings name → t ≡ running)

get-pass :
    (m : Meanwhile) (tasks : Tasks) (j : String) (t : Task)
    → Dict.get tasks j ≡ some t
    → Dict.get (pass m tasks) j ≡ some (m j t)
unfolding Dict.get pass
get-pass m [] j t e = absurd (cc)
get-pass m ((i, u) ∷ tasks) j t e = elim (i ≟ j) [
  | yes p ↦
      let same : u ≡ t = some_inj (rw (if_pos (i ≟ j) p) at e) in
      rw (if_pos (i ≟ j) p, same, p) refl
  | no n ↦ rw (if_neg (i ≟ j) n) (get-pass m tasks j t (rw (if_neg (i ≟ j) n) at e))
]
  where
    some_inj : {a b : Task} → some a ≡ some b → a ≡ b
    some_inj q = cc

pass-Kept :
    (readings : String → Readings) (m : Meanwhile) (tasks : Tasks) (j : String)
    → (Survives readings j → m j running ≡ running)
    → Kept readings tasks j
    → Kept readings (pass m tasks) j
pass-Kept readings m tasks j h (t, e, up) = (m j t, get-pass m tasks j t e, λ s. rw (up s) (h s))

gather-Kept :
    (readings : String → Readings) (n : String) (o : Option Task) (tasks : Tasks) (j : String)
    → Kept readings tasks j
    → Kept readings (gather (readings n).in_gather o tasks) j
unfolding gather
gather-Kept readings n none tasks j k = k
gather-Kept readings n (some t) tasks j k = elim (Bool-cases (done t)) [
  | inl d ↦ rw d k
  | inr d ↦ rw d (pass-Kept readings (readings n).in_gather tasks j (λ s. (s n).0) k)
]

restart-get :
    (r : Readings) (spec : TaskSpec) (tasks : Tasks)
    → Dict.get (restart r spec tasks).1 spec.name ≡ some running
unfolding restart spawn
restart-get r spec tasks =
    let stopped = gather r.in_gather (Dict.get tasks spec.name) (Dict.remove tasks spec.name) in
    ground (arith, get-put (pass r.in_sleep stopped) spec.name spec.name running)

restart_other :
    (readings : String → Readings) (spec : TaskSpec) (tasks : Tasks) (j : String)
    → spec.name ≢ j
    → Kept readings tasks j
    → Kept readings (restart (readings spec.name) spec tasks).1 j
unfolding restart spawn
restart_other readings spec tasks j n (t, e, up) =
    let r = readings spec.name in
    let stopped = gather r.in_gather (Dict.get tasks spec.name) (Dict.remove tasks spec.name) in
    let (t', e', up') =
      pass-Kept readings r.in_sleep stopped j (λ s. (s spec.name).1)
        (gather-Kept readings spec.name (Dict.get tasks spec.name) (Dict.remove tasks spec.name) j
          (t, get-remove_other tasks spec.name j n ∙ e, up)) in
    (t', ground (arith, get-put (pass r.in_sleep stopped) spec.name j running, e', n), up')

running_of : (t : Task) → done t ≡ false → t ≡ running
unfolding done
running_of running d = refl
running_of returned d = absurd (cc)
running_of cancelled d = absurd (cc)
running_of (failed x) d = absurd (cc)

check-Kept :
    (readings : String → Readings) (spec : TaskSpec) (tasks : Tasks)
    → Kept readings (check (readings spec.name) spec tasks).1 spec.name
check-Kept readings spec tasks =
    check_cases (λ p. Kept readings p.1 spec.name) (readings spec.name) spec tasks
      (λ down. (running, restart-get (readings spec.name) spec tasks, λ s. refl))
      (λ ((t, e, d), s). (t, e, λ s. running_of t d))

-- A check keeps what the other names have.
check_other :
    (readings : String → Readings) (spec : TaskSpec) (tasks : Tasks) (j : String)
    → spec.name ≢ j
    → Kept readings tasks j
    → Kept readings (check (readings spec.name) spec tasks).1 j
check_other readings spec tasks j n k =
    check_cases (λ p. Kept readings p.1 j) (readings spec.name) spec tasks
      (λ down. restart_other readings spec tasks j n k) (λ fine. k)

check-name :
    (r : Readings) (spec : TaskSpec) (tasks : Tasks) → (check r spec tasks).0.name ≡ spec.name
check-name r spec tasks =
    check_cases (λ p. p.0.name ≡ spec.name) r spec tasks (λ down. restart-name r spec tasks)
      (λ fine. refl)

-- Checks keep a task under its name.
check_all-Kept :
    (readings : String → Readings) (specs : List TaskSpec) (tasks : Tasks) (j : String)
    → Kept readings tasks j
    → Kept readings (check_all readings specs tasks).1 j
unfolding check_all
check_all-Kept readings [] tasks j k = k
check_all-Kept readings (spec ∷ specs) tasks j k =
    check_all-Kept readings specs (check (readings spec.name) spec tasks).1 j
      (elim (spec.name ≟ j) [
        | yes p ↦ rw (← p) (check-Kept readings spec tasks)
        | no n ↦ check_other readings spec tasks j n k
      ])

names-check_all :
    (readings : String → Readings) (specs : List TaskSpec) (tasks : Tasks)
    → names (check_all readings specs tasks).0 ≡ names specs
unfolding check_all
names-check_all readings [] tasks = refl
names-check_all readings (spec ∷ specs) tasks =
    rw
      (
        check-name (readings spec.name) spec tasks,
        names-check_all readings specs (check (readings spec.name) spec tasks).1,
      )
      refl

check_all-All :
    (readings : String → Readings) (specs : List TaskSpec) (tasks : Tasks)
    → All
        (λ s. Kept readings (check_all readings specs tasks).1 s.name)
        (check_all readings specs tasks).0
unfolding check_all
check_all-All readings [] tasks = tt
check_all-All readings (spec ∷ specs) tasks =
    let tasks' = (check (readings spec.name) spec tasks).1 in
    (
      rw (check-name (readings spec.name) spec tasks)
          (check_all-Kept readings specs tasks' spec.name (check-Kept readings spec tasks)),
      check_all-All readings specs tasks',
    )

-- A round of the monitor keeps the names of the tasks and leaves a task under each of them, whatever
-- became of the tasks before and while restarts waited, and whatever the clock shows; the task runs,
-- unless a task of its name ended by itself while a restart of the round waited.
pub monitor_round-running :
    (readings : String → Readings) (s : Supervisor)
    → (names (monitor_round readings s).specs ≡ names s.specs)
      × All
          (λ spec. Kept readings (monitor_round readings s).tasks spec.name)
          (monitor_round readings s).specs
unfolding monitor_round
monitor_round-running readings s =
    (names-check_all readings s.specs s.tasks, check_all-All readings s.specs s.tasks)

is_running_of-Kept :
    (readings : String → Readings) (tasks : Tasks) (spec : TaskSpec)
    → Survives readings spec.name
    → Kept readings tasks spec.name
    → is_running tasks spec ≡ true
unfolding is_running done
is_running_of-Kept readings tasks spec h (t, e, up) = rw (e, up h) refl

all_healthy_iff :
    (now : ℕ) (tasks : Tasks) (specs : List TaskSpec)
    → All (λ s. is_running tasks s ≡ true) specs
    → (all_healthy now tasks specs ≡ true) ↔ All (λ s. flapping now s ≡ false) specs
unfolding all_healthy
all_healthy_iff now tasks [] a = ground arith
all_healthy_iff now tasks (s ∷ specs) a = ground (arith, all_healthy_iff now tasks specs a.1)

-- Right after a round of the monitor in which no task ended by itself while a restart waited, the
-- supervisor is healthy exactly when none of its tasks is flapping.
pub monitor_round-healthy :
    (readings : String → Readings) (s : Supervisor) (now : ℕ)
    → ((name : String) → Survives readings name)
    → (healthy now (monitor_round readings s) ≡ true)
      ↔ All (λ spec. flapping now spec ≡ false) (monitor_round readings s).specs
unfolding healthy
monitor_round-healthy readings s now h =
    all_healthy_iff now (monitor_round readings s).tasks (monitor_round readings s).specs (
      All-mono _ _ (monitor_round readings s).specs
        (λ spec k.
          is_running_of-Kept readings (monitor_round readings s).tasks spec (h spec.name) k)
        (monitor_round-running readings s).1)
