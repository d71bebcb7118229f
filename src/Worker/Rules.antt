-- ===== src/Worker/Rules.antt =====
-- Rules for the methods of a worker, for predicates on the record of calls.
use geo_device.Prelude.{arith}
use geo_device.Exec.{Exec, Result, ok, raised}
use geo_device.Exec.Triple.{Triple, Outcome, Triple-modify, Triple-gets}
use geo_device.Trace.{Run, Trace}
use geo_device.Trace.Rules.{Runs}
use geo_device.Pacing.{Ticker}
use geo_device.Worker.{Env, Machine, Worker, on_run, set_worker, get_worker, due}
use geo_device.Worker.Loops.{beat}

module _ {W A : Type 0} where
  abbrev pub Works :
      (Trace → Type 0) → Exec (Machine W) A → (A → Trace → Type 0) → (Trace → Type 0) → Type 0
  Works F m G H = Triple (λ s. F s.run.trace) m (λ a s. G a s.run.trace) (λ e s. H s.run.trace)

  -- The code keeps the predicate, whether it returns or raises.
  abbrev pub Keeps : (Trace → Type 0) → Exec (Machine W) A → Type 0
  Keeps F m = Works F m (λ a. F) F

  pub on_run_rule :
      (F : Trace → Type 0) (G : A → Trace → Type 0) (H : Trace → Type 0) (m : Exec (Run W) A)
      → Runs F m G H
      → Works F (on_run m) G H
  unfolding on_run
  on_run_rule F G H m t = record { at = λ s f. go s (m s.run).0 (m s.run).1 (t.at s.run f) }
    where
      go :
          (s : Machine W) (r : Result A) (run : Run W)
          → Outcome {S = Run W} (λ a r. G a r.trace) (λ e r. H r.trace) r run
          → Outcome {S = Machine W}
              (λ a s. G a s.run.trace)
              (λ e s. H s.run.trace)
              r
              (record s { run = run })
      go s (ok a) run o = o
      go s (raised e) run o = o

module _ {W : Type 0} (F : Trace → Type 0) where
  pub set_worker_rule : (f : Worker → Worker) → Keeps F (set_worker {W = W} f)
  unfolding set_worker
  set_worker_rule f = Triple-modify _ (λ s h. h)

  pub get_worker_rule : Keeps F (get_worker {W = W})
  unfolding get_worker
  get_worker_rule = Triple-gets _ (λ s h. h)

  module _ (env : Env W) where
    pub beat_rule : Keeps F (beat env)
    unfolding beat
    beat_rule = Triple-modify _ (λ s h. h)

    pub due_rule :
        (get : Worker → Ticker) (put : Ticker → Worker → Worker) → Keeps F (due env get put)
    unfolding due
    due_rule get put = record { at = λ s h. ground (arith) }
