-- ===== src/Supervisor/Flapping.antt =====
-- When a series of restarts makes a task flapping, and when it is over.
use geo_device.Prelude.{
  ℕ, ◌-◌, ◌≤◌, ◌<◌, ◌≡◌, refl, ◌∙◌, true, false, List, [], ◌∷◌, ◌++◌, length-append, arith, All,
}
use geo_device.Constants.{flapping_window}
use geo_device.Supervisor.{TaskSpec, recent, note_restart, flapping}

recent-snoc :
    (now at : ℕ) (restarts : List ℕ)
    → now - at < flapping_window
    → recent now (restarts ++ at ∷ []) ≡ recent now restarts ++ at ∷ []
unfolding recent
recent-snoc now at [] h = ground arith
recent-snoc now at (t ∷ restarts) h = ground (arith, recent-snoc now at restarts h)

-- What was recent stays so as long as the window allows it.
recent-recent :
    (now later : ℕ) (restarts : List ℕ)
    → now ≤ later
    → recent later (recent now restarts) ≡ recent later restarts
unfolding recent
recent-recent now later [] h = refl
recent-recent now later (t ∷ restarts) h = ground (arith, recent-recent now later restarts h)

-- Noting a restart keeps the restarts that are recent later, and adds itself.
recent-note_restart :
    (now at later : ℕ) (spec : TaskSpec)
    → now ≤ later
    → later - at < flapping_window
    → recent later (note_restart now at spec).restarts ≡ recent later spec.restarts ++ at ∷ []
unfolding note_restart
recent-note_restart now at later spec h k =
    recent-snoc later at (recent now spec.restarts) k
    ∙ rw (recent-recent now later spec.restarts h) refl

-- A task that was restarted three times within the flapping window, with clock readings in order,
-- is flapping at the end of it, whatever its earlier restarts.
pub note_restart-flapping :
    (spec : TaskSpec) (a a' b b' c c' now : ℕ)
    → a ≤ a'
    → a' ≤ b
    → b ≤ b'
    → b' ≤ c
    → c ≤ c'
    → c' ≤ now
    → now - a' < flapping_window
    → flapping now (note_restart c c' (note_restart b b' (note_restart a a' spec))) ≡ true
unfolding flapping
note_restart-flapping spec a a' b b' c c' now h1 h2 h3 h4 h5 h6 h =
    rw
      (
        recent-note_restart c c' now (note_restart b b' (note_restart a a' spec)) (omega arith)
            (omega arith),
        recent-note_restart b b' now (note_restart a a' spec) (omega arith) (omega arith),
        recent-note_restart a a' now spec (omega arith) (omega arith),
      )
      (ground (
        arith,
        length-append (recent now spec.restarts) (a' ∷ []),
        length-append (recent now spec.restarts ++ a' ∷ []) (b' ∷ []),
        length-append ((recent now spec.restarts ++ a' ∷ []) ++ b' ∷ []) (c' ∷ []),
      ))

recent_old :
    (now : ℕ) (restarts : List ℕ)
    → All (λ at. flapping_window ≤ now - at) restarts
    → recent now restarts ≡ []
unfolding recent
recent_old now [] a = refl
recent_old now (t ∷ restarts) a = ground (arith, recent_old now restarts a.1)

-- A task whose restarts are all older than the flapping window is not flapping.
pub flapping_old :
    (spec : TaskSpec) (now : ℕ)
    → All (λ at. flapping_window ≤ now - at) spec.restarts
    → flapping now spec ≡ false
unfolding flapping
flapping_old spec now h = rw (recent_old now spec.restarts h) refl
