-- ===== src/Worker/Rounds.antt =====
-- The loops of a worker make only justified acknowledgements.
use geo_device.Prelude.{ℕ, zero, suc, Bool, true, false, List, [], ◌∷◌, String, ◌&&◌}
use geo_device.Dict
use geo_device.Dict.{Dict}
use geo_device.Errors.{redis_errors, pipeline_errors}
use geo_device.Constants.{new_messages}
use geo_device.Exec.{Exec, pure}
use geo_device.Exec.Triple.{Triple-bind, Triple-pure, Triple-try, Triple-if}
use geo_device.Pacing
use geo_device.Pings.{Ping, StreamChunk}
use geo_device.Realtime.{publish_positions}
use geo_device.Stream
use geo_device.Trace.{slept}
use geo_device.Trace.Rules.{perform_rule}
use geo_device.Worker.{
  Env, Machine, claim_stale, claim_if_due, broadcast, broadcast_positions, send_positions,
  process_once,
}
use geo_device.Worker.Loops.{
  step, rounds, back_off, drain_next, drain_chunks, drain_from, set_backoff,
}
use geo_device.Worker.Rules.{
  Works, Keeps, on_run_rule, set_worker_rule, get_worker_rule, beat_rule, due_rule,
}
use geo_device.Worker.Acknowledged.{Ready}
use geo_device.Worker.Flushing.{flush_rule}
use geo_device.Worker.Safety.{
  Safe, read_rule, claim_rule, reconcile_rule, positions_rule, flush_read_rule,
}

module _ {W : Type 0} (env : Env W) where
  open env use {redis, session, clock, formats, settings}

  send_rule : (positions : List Ping) → Keeps (Safe env) (send_positions env positions)
  unfolding send_positions
  send_rule positions = Triple-bind _ _ _ (set_worker_rule (Safe env) _) (λ u.
      Triple-try (λ e s. Safe env s.run.trace) _ redis_errors (λ e. pure tt)
        (Triple-bind _ _ _
          (on_run_rule (Safe env) (λ n. Safe env) (Safe env)
            (publish_positions redis formats positions) (positions_rule env positions))
          (λ n. Triple-pure tt (λ s h. h)))
        (λ e c s h. h) (λ e c. Triple-pure tt (λ s h. h)))

  broadcast_rule : (positions : Dict String Ping) → Keeps (Safe env) (broadcast env positions)
  unfolding broadcast
  broadcast_rule [] = Triple-pure tt (λ s h. h)
  broadcast_rule (p ∷ positions) =
      Triple-bind _ _ _
        (due_rule (Safe env) env (λ w. w.position_ticker) (λ t w. record w { position_ticker = t }))
        (λ fired.
          Triple-if fired _ _ (λ e. send_rule (Dict.values (p ∷ positions)))
            (λ e. Triple-pure tt (λ s h. h)))

  broadcast_positions_rule : Keeps (Safe env) (broadcast_positions env)
  unfolding broadcast_positions
  broadcast_positions_rule =
      Triple-bind _ _ _ (get_worker_rule (Safe env)) (λ w. broadcast_rule w.positions)

  claim_stale_rule : Keeps (Safe env) (claim_stale env)
  unfolding claim_stale
  claim_stale_rule = Triple-bind _ _ _ (get_worker_rule (Safe env)) (λ w.
      Triple-bind _ _ _
        (on_run_rule (Safe env) (λ cs. Ready formats cs) (Safe env)
          (Stream.claim_stale redis formats settings w.consumer) (claim_rule env w.consumer))
        (flush_read_rule env))

  claim_if_due_rule : Keeps (Safe env) (claim_if_due env)
  unfolding claim_if_due
  claim_if_due_rule =
      Triple-bind _ _ _
        (due_rule (Safe env) env (λ w. w.claim_ticker) (λ t w. record w { claim_ticker = t }))
        (λ fired.
          Triple-if fired _ _
            (λ e. Triple-bind _ _ _ claim_stale_rule (λ claimed.
              Triple-bind _ _ _
                (on_run_rule (Safe env) (λ u. Safe env) (Safe env) (Stream.reconcile_backlog redis)
                  (reconcile_rule env))
                (λ u. Triple-pure claimed (λ s h. h))))
            (λ e. Triple-pure true (λ s h. h)))

  process_rule : Keeps (Safe env) (process_once env)
  unfolding process_once
  process_rule = Triple-bind _ _ _ claim_if_due_rule (λ claimed.
      Triple-bind _ _ _ (get_worker_rule (Safe env)) (λ w.
        Triple-bind _ _ _
          (on_run_rule (Safe env) (λ cs. Ready formats cs) (Safe env)
            (Stream.read_new redis formats settings w.consumer new_messages)
            (read_rule env w.consumer new_messages))
          (λ chunks. Triple-bind _ _ _ (flush_read_rule env chunks) (λ flushed.
            Triple-bind _ _ _ broadcast_positions_rule
              (λ u. Triple-pure (claimed && flushed) (λ s h. h))))))

  back_off_rule : Keeps (Safe env) (back_off env)
  unfolding back_off
  back_off_rule = Triple-bind _ _ _ (get_worker_rule (Safe env)) (λ w.
      Triple-bind _ _ _ (set_worker_rule (Safe env) (set_backoff env (Pacing.sleep w.backoff).0))
        (λ u.
          on_run_rule (Safe env) (λ u. Safe env) (Safe env) _
            (perform_rule (Safe env) (λ u. Safe env) (Safe env)
              (λ r. slept (Pacing.sleep w.backoff).1) (clock.sleep (Pacing.sleep w.backoff).1)
              (λ t u h. h) (λ t e h. h))))

  step_rule : Keeps (Safe env) (step env)
  unfolding step
  step_rule =
      Triple-bind (λ b s. Safe env s.run.trace) _ _
        (Triple-try (λ e s. Safe env s.run.trace) _ pipeline_errors (λ e. pure false) process_rule
          (λ e c s h. h) (λ e c. Triple-pure false (λ s h. h)))
        (λ succeeded.
          Triple-if succeeded _ _ (λ e. set_worker_rule (Safe env) _) (λ e. back_off_rule))

  pub rounds_rule : (n : ℕ) → Keeps (Safe env) (rounds env n)
  unfolding rounds
  rounds_rule zero = Triple-pure tt (λ s h. h)
  rounds_rule (suc n) =
      Triple-bind _ _ _ (Triple-bind _ _ _ step_rule (λ u. beat_rule (Safe env) env))
        (λ u. rounds_rule n)

  drain_next_rule :
      (rest : Exec (Machine W) Bool) (flushed : Bool)
      → Keeps (Safe env) rest
      → Keeps (Safe env) (drain_next env rest flushed)
  unfolding drain_next
  drain_next_rule rest true t = t
  drain_next_rule rest false t = Triple-pure false (λ s h. h)

  drain_chunks_rule :
      (rest : Exec (Machine W) Bool) (chunks : List StreamChunk)
      → Keeps (Safe env) rest
      → Works (Ready formats chunks) (drain_chunks env rest chunks) (λ b. Safe env) (Safe env)
  unfolding drain_chunks
  drain_chunks_rule rest [] t = Triple-pure true (λ s h. h.0)
  drain_chunks_rule rest (c ∷ more) t =
      Triple-bind _ _ _ (flush_rule env (c ∷ more)) (λ flushed. drain_next_rule rest flushed t)

  pub drain_from_rule : (n : ℕ) (start_id : String) → Keeps (Safe env) (drain_from env n start_id)
  unfolding drain_from
  drain_from_rule zero start_id = Triple-pure true (λ s h. h)
  drain_from_rule (suc n) start_id = Triple-bind _ _ _ (get_worker_rule (Safe env)) (λ w.
      Triple-bind _ _ _
        (on_run_rule (Safe env) (λ cs. Ready formats cs) (Safe env)
          (Stream.read_new redis formats settings w.consumer start_id)
          (read_rule env w.consumer start_id))
        (λ chunks.
          drain_chunks_rule (drain_from env n start_id) chunks (drain_from_rule n start_id)))
