-- ===== src/Worker/Life.antt =====
-- The life of a worker makes only justified acknowledgements.
use geo_device.Prelude.{ℕ}
use geo_device.Errors.{pipeline_errors, cancelled_error}
use geo_device.Constants.{new_messages, pending_messages}
use geo_device.Exec.{Exec, Result, ok, raised, pure, raise, ◌>>◌}
use geo_device.Exec.Triple.{Outcome, Triple-bind, Triple-pure, Triple-raise, Triple-try, Triple-if}
use geo_device.Worker.{Env, Machine}
use geo_device.Worker.Loops.{set_deadline, with_timeout, drain, run, is_cancelled}
use geo_device.Worker.Rules.{Keeps, beat_rule}
use geo_device.Worker.Acknowledged.{IsSafe}
use geo_device.Worker.Rounds.{rounds_rule, drain_from_rule}
use geo_device.Worker.Safety.{Safe}

module _ {W : Type 0} (env : Env W) where
  timeout_rule :
      {A : Type 0} (ms : ℕ) (m : Exec (Machine W) A)
      → Keeps (Safe env) m
      → Keeps (Safe env) (with_timeout env ms m)
  unfolding with_timeout set_deadline
  timeout_rule {A} ms m t = record {
    at = λ s h. let s' = set_deadline env ms s in go (m s').0 (m s').1 (t.at s' h);
  }
    where
      go :
          (r : Result A) (s : Machine W)
          → Outcome {S = Machine W} (λ a s. Safe env s.run.trace) (λ e s. Safe env s.run.trace) r s
          → Outcome {S = Machine W}
              (λ a s. Safe env s.run.trace)
              (λ e s. Safe env s.run.trace)
              (with_timeout env ms (λ _. (r, s)) s).0
              (with_timeout env ms (λ _. (r, s)) s).1
      go (ok a) s o = o
      go (raised cancelled_error) s o = o
      go (raised e) s o = o

  drain_rule : (n : ℕ) → Keeps (Safe env) (drain env n)
  unfolding drain
  drain_rule n =
      Triple-try (λ e s. Safe env s.run.trace) _ pipeline_errors (λ e. pure tt)
        (timeout_rule env.settings.drain_timeout _ (
          Triple-bind _ _ _ (drain_from_rule env n pending_messages) (λ go_on.
            Triple-if go_on _ _
              (λ e.
                Triple-bind _ _ _ (drain_from_rule env n new_messages)
                  (λ b. Triple-pure tt (λ s h. h)))
              (λ e. Triple-pure tt (λ s h. h)))))
        (λ e c s h. h) (λ e c. Triple-pure tt (λ s h. h))

  run_rule : (n : ℕ) → Keeps (Safe env) (run env n)
  unfolding run
  run_rule n = Triple-bind _ _ _ (beat_rule (Safe env) env) (λ u.
      Triple-try (λ e s. Safe env s.run.trace) _ (is_cancelled env) (λ e. drain env n >> raise e)
        (rounds_rule env n) (λ e c s h. h)
        (λ e c. Triple-bind _ _ _ (drain_rule n) (λ u. Triple-raise e (λ s h. h))))

  trace_rule :
      {A : Type 0} (r : Result A) (s : Machine W)
      → Outcome {S = Machine W} (λ a s. Safe env s.run.trace) (λ e s. Safe env s.run.trace) r s
      → Safe env s.run.trace
  trace_rule (ok a) s o = o
  trace_rule (raised e) s o = o

  -- Whatever the database, redis and the clock answer or raise, and at whatever point the worker is
  -- cancelled: in a life of the worker, with any bound on the rounds of its loops, drain at
  -- shutdown included, every acknowledgement names chunks that were read from the stream before and
  -- whose pings were all inserted and committed before.
  pub run-IsSafe :
      (n : ℕ) (s : Machine W)
      → IsSafe env.formats s.run.trace
      → IsSafe env.formats (run env n s).1.run.trace
  run-IsSafe n s h = trace_rule (run env n s).0 (run env n s).1 ((run_rule n).at s h)
