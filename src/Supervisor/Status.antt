-- ===== src/Supervisor/Status.antt =====
-- `Supervisor.status`, and what it names after rounds of the monitor.
use geo_device.Prelude.{
  ℕ, suc, ◌≡◌, refl, sym, ◌∙◌, Bool, List, [], ◌∷◌, ◌++◌, String, length, some, if◌then◌else◌, In,
  arith, ◌↔◌, ◌⊎◌, inl, inr, ◌≢◌,
}
use geo_device.Supervisor.{
  Task, TaskSpec, Tasks, Supervisor, Meanwhile, Readings, is_running, recent, note_restart, pass,
  restart, check, check_all, monitor_round,
}
use geo_device.Supervisor.Health.{IsDown, IsFine, check_cases}

pub record Status : Type 0 where
  pub running : ℕ
  pub tasks : ℕ
  pub restarted : List String

-- `sum(1 for spec in self._specs if self._is_running(spec))`
unfoldable pub count_running : Tasks → List TaskSpec → ℕ
unfolding is_running
count_running tasks [] = 0
count_running tasks (spec ∷ specs) =
    let rest = count_running tasks specs in if is_running tasks spec then suc rest else rest

-- The names of the specs that have a restart.
unfoldable pub restarted_names : List TaskSpec → List String
restarted_names [] = []
restarted_names (spec ∷ specs) =
    let rest = restarted_names specs in
    elim spec.restarts [ [] ↦ rest | at ∷ more ↦ spec.name ∷ rest ]

-- `sorted`, `le` being the order of texts
unfoldable pub insert : (String → String → Bool) → String → List String → List String
insert le s [] = s ∷ []
insert le s (t ∷ ts) = let rest = insert le s ts in if le s t then s ∷ t ∷ ts else t ∷ rest

unfoldable pub sorted : (String → String → Bool) → List String → List String
unfolding insert
sorted le [] = []
sorted le (s ∷ ss) = insert le s (sorted le ss)

unfoldable pub status : (String → String → Bool) → Supervisor → Status
unfolding count_running restarted_names sorted
status le s = record {
  running = count_running s.tasks s.specs;
  tasks = length s.specs;
  restarted = sorted le (restarted_names s.specs);
}

In-insert :
    (le : String → String → Bool) (s : String) (ss : List String) (t : String)
    → In t (insert le s ss) ↔ ((s ≡ t) ⊎ In t ss)
unfolding insert
In-insert le s [] t = ground arith
In-insert le s (x ∷ ss) t = ground (arith, In-insert le s ss t)

In-sorted :
    (le : String → String → Bool) (ss : List String) (t : String) → In t (sorted le ss) ↔ In t ss
unfolding sorted
In-sorted le [] t = ground arith
In-sorted le (s ∷ ss) t = ground (arith, In-sorted le ss t, In-insert le s (sorted le ss) t)

-- A spec of the name has a restart on its list.
abbrev pub IsNoted : List TaskSpec → String → Type 0
IsNoted [] t = ⊥
IsNoted (spec ∷ specs) t = ((spec.name ≡ t) × (spec.restarts ≢ [])) ⊎ IsNoted specs t

was : (xs : List ℕ) → (xs ≡ []) ⊎ ((x : ℕ) × (ys : List ℕ) × (xs ≡ x ∷ ys))
was [] = inl refl
was (x ∷ xs) = inr (x, xs, refl)

not_empty : (x : ℕ) (xs : List ℕ) → x ∷ xs ≢ []
not_empty x xs e = cc

restarted-IsNoted :
    (specs : List TaskSpec) (t : String) → In t (restarted_names specs) ↔ IsNoted specs t
unfolding restarted_names
restarted-IsNoted [] t = ground arith
restarted-IsNoted (spec ∷ specs) t =
    let ih = restarted-IsNoted specs t in
    elim (was spec.restarts) [
      | inl e ↦
          rw (e, restarted_names)
            ((λ m. inr (ih.0 m)), (λ m. elim m [ inl q ↦ absurd (q.1 refl) | inr n ↦ ih.1 n ]))
      | inr (x, xs, e) ↦
          rw (e, restarted_names)
            (
              (λ m. elim m [ inl q ↦ inl (q, not_empty x xs) | inr n ↦ inr (ih.0 n) ]),
              (λ m. elim m [ inl q ↦ inl q.0 | inr n ↦ inr (ih.1 n) ]),
            )
    ]

-- In a round over the specs, the check of a spec of the name finds its task missing, done or
-- stalled.
abbrev pub WentDown : (String → Readings) → List TaskSpec → Tasks → String → Type 0
WentDown readings [] tasks t = ⊥
WentDown readings (spec ∷ specs) tasks t =
    ((spec.name ≡ t) × IsDown (readings spec.name) spec tasks)
    ⊎ WentDown readings specs (check (readings spec.name) spec tasks).1 t

-- Rounds of the monitor, each with what becomes of the tasks in the interval before it.
abbrev pub Rounds : Type 0
Rounds = List (Meanwhile × (String → Readings))

unfoldable pub next_round : Meanwhile → (String → Readings) → Supervisor → Supervisor
unfolding monitor_round pass
next_round meanwhile readings s =
    monitor_round readings (record s { tasks = pass meanwhile s.tasks })

unfoldable pub after_rounds : Rounds → Supervisor → Supervisor
unfolding next_round
after_rounds [] s = s
after_rounds ((meanwhile, readings) ∷ rounds) s =
    after_rounds rounds (next_round meanwhile readings s)

-- A check of one of the rounds finds the task of the name missing, done or stalled.
abbrev pub WentDownIn : Rounds → Supervisor → String → Type 0
WentDownIn [] s t = ⊥
WentDownIn ((meanwhile, readings) ∷ rounds) s t =
    WentDown readings s.specs (pass meanwhile s.tasks) t
    ⊎ WentDownIn rounds (next_round meanwhile readings s) t

noted : (xs : List ℕ) (at : ℕ) → xs ++ at ∷ [] ≢ []
noted [] at e = cc
noted (x ∷ xs) at e = cc

restart-noted :
    (r : Readings) (spec : TaskSpec) (tasks : Tasks)
    → ((restart r spec tasks).0.name ≡ spec.name) × ((restart r spec tasks).0.restarts ≢ [])
unfolding restart note_restart
restart-noted r spec tasks = (refl, noted (recent r.recent_now spec.restarts) r.restarted_at)

some_same : {a b : Task} → some a ≡ some b → a ≡ b
some_same e = cc

IsFine-not_IsDown :
    (r : Readings) (spec : TaskSpec) (tasks : Tasks) → IsFine r spec tasks → ¬ IsDown r spec tasks
IsFine-not_IsDown r spec tasks ((t, e, d), s) (inl n) = absurd (cc)
IsFine-not_IsDown r spec tasks ((t, e, d), s) (inr (u, e', inr s')) = absurd (cc)
IsFine-not_IsDown r spec tasks ((t, e, d), s) (inr (u, e', inl d')) =
    let same : t ≡ u = some_same (sym e ∙ e') in absurd (cc)

-- A check notes a restart exactly if it finds the task down.
check-noted :
    (r : Readings) (spec : TaskSpec) (tasks : Tasks) (t : String)
    → (((check r spec tasks).0.name ≡ t) × ((check r spec tasks).0.restarts ≢ []))
      ↔ (((spec.name ≡ t) × (spec.restarts ≢ [])) ⊎ ((spec.name ≡ t) × IsDown r spec tasks))
check-noted r spec tasks t =
    check_cases
      (λ p.
        ((p.0.name ≡ t) × (p.0.restarts ≢ []))
        ↔ (((spec.name ≡ t) × (spec.restarts ≢ [])) ⊎ ((spec.name ≡ t) × IsDown r spec tasks)))
      r spec tasks
      (λ down.
        let (named, some_restart) = restart-noted r spec tasks in
        (
          (λ h. inr (sym named ∙ h.0, down)),
          (λ h. (named ∙ elim h [ inl q ↦ q.0 | inr q ↦ q.0 ], some_restart)),
        ))
      (λ fine. (
        (λ h. inl h),
        (λ h. elim h [ inl q ↦ q | inr q ↦ absurd (IsFine-not_IsDown r spec tasks fine q.1) ]),
      ))

check_all-IsNoted :
    (readings : String → Readings) (specs : List TaskSpec) (tasks : Tasks) (t : String)
    → IsNoted (check_all readings specs tasks).0 t
      ↔ (IsNoted specs t ⊎ WentDown readings specs tasks t)
unfolding check_all
check_all-IsNoted readings [] tasks t = ground arith
check_all-IsNoted readings (spec ∷ specs) tasks t =
    let tasks' = (check (readings spec.name) spec tasks).1 in
    ground (
      arith,
      check-noted (readings spec.name) spec tasks t,
      check_all-IsNoted readings specs tasks' t,
    )

after_rounds-IsNoted :
    (rounds : Rounds) (s : Supervisor) (t : String)
    → IsNoted (after_rounds rounds s).specs t ↔ (IsNoted s.specs t ⊎ WentDownIn rounds s t)
unfolding after_rounds next_round monitor_round
after_rounds-IsNoted [] s t = ground arith
after_rounds-IsNoted ((meanwhile, readings) ∷ rounds) s t = ground (
  arith,
  after_rounds-IsNoted rounds (next_round meanwhile readings s) t,
  check_all-IsNoted readings s.specs (pass meanwhile s.tasks) t,
)

-- After any rounds of the monitor, whatever becomes of the tasks before and in them, `restarted` names
-- exactly the tasks that a check of one of the rounds found missing, done or stalled, and those that
-- had a restart before the rounds; the order of texts is any.
pub status_restarted :
    (le : String → String → Bool) (rounds : Rounds) (s : Supervisor) (t : String)
    → In t (status le (after_rounds rounds s)).restarted
      ↔ (IsNoted s.specs t ⊎ WentDownIn rounds s t)
unfolding status
status_restarted le rounds s t =
    let specs = (after_rounds rounds s).specs in
    ground (
      arith,
      In-sorted le (restarted_names specs) t,
      restarted-IsNoted specs t,
      after_rounds-IsNoted rounds s t,
    )
