-- ===== src/Worker/Loops.antt =====
-- The loops of `IngestWorker` in app/pipeline/worker/worker.py: `_step`, `run` and `_drain`.
use geo_device.Prelude.{
  ℕ, zero, suc, Bool, true, false, List, [], ◌∷◌, String, if◌then◌else◌, string_key,
}
use geo_device.Constants.{new_messages, pending_messages}
use geo_device.Errors.{Exn, cancelled_error, timeout_error, pipeline_errors}
use geo_device.Exec.{Exec, ok, raised, pure, raise, modify, try_except, ◌>>=◌, ◌>>◌}
use geo_device.Pacing
use geo_device.Pacing.{Backoff, Ticker, new_backoff, new_ticker}
use geo_device.Pings.{StreamChunk}
use geo_device.Stream
use geo_device.Stream.{pings_of}
use geo_device.Trace.{slept, perform}
use geo_device.Worker.{Worker, Machine, Env, on_run, set_worker, get_worker, flush, process_once}

module _ {W : Type 0} (env : Env W) where
  open env use {redis, session, clock, formats, settings}

  abbrev pub set_backoff : Backoff → Worker → Worker
  set_backoff b w = record w { backoff = b }

  -- `await self._backoff.sleep()`: the delay is set before the wait
  unfoldable pub back_off : Exec (Machine W) (Unit {0})
  unfolding get_worker set_worker on_run perform Pacing.sleep ◌>>=◌
  back_off = do
    w ← get_worker
    set_worker (set_backoff (Pacing.sleep w.backoff).0)
    on_run
        (perform (λ _. slept (Pacing.sleep w.backoff).1) (clock.sleep (Pacing.sleep w.backoff).1))

  unfoldable pub step : Exec (Machine W) (Unit {0})
  unfolding process_once try_except set_worker Pacing.reset back_off pure ◌>>=◌
  step = do
    succeeded ← try_except (process_once env) pipeline_errors (λ e. pure false)
    if succeeded then set_worker (λ w. set_backoff (Pacing.reset w.backoff) w) else back_off

  unfoldable pub beat : Exec (Machine W) (Unit {0})
  unfolding modify
  beat =
      modify λ s. record s { worker = record s.worker { heartbeat = clock.monotonic s.run.world } }

  -- The first `n` rounds of `while True`.
  unfoldable pub rounds : ℕ → Exec (Machine W) (Unit {0})
  unfolding step beat pure ◌>>=◌
  rounds zero = pure tt
  rounds (suc n) = (step >> beat) >> rounds n

  -- What `while chunks := …` does with the chunks; `rest` is the rest of the loop, and `false` is
  -- the `return` behind a flush that failed.
  unfoldable pub drain_next : Exec (Machine W) Bool → Bool → Exec (Machine W) Bool
  unfolding pure
  drain_next rest true = rest
  drain_next rest false = pure false

  unfoldable pub drain_chunks : Exec (Machine W) Bool → List StreamChunk → Exec (Machine W) Bool
  unfolding flush drain_next pure ◌>>=◌
  drain_chunks rest [] = pure true
  drain_chunks rest (c ∷ more) = flush env (c ∷ more) >>= drain_next rest

  -- `while chunks := await stream.read_new(…, start_id)`, for at most `n` rounds
  unfoldable pub drain_from : ℕ → String → Exec (Machine W) Bool
  unfolding get_worker on_run Stream.read_new drain_chunks pure ◌>>=◌
  drain_from zero start_id = pure true
  drain_from (suc n) start_id = get_worker >>= λ w.
      on_run (Stream.read_new redis formats settings w.consumer start_id)
      >>= drain_chunks (drain_from n start_id)

  -- Entering `asyncio.timeout(ms / 1000)` sets the deadline.
  unfoldable pub set_deadline : ℕ → Machine W → Machine W
  set_deadline ms s = record s { run = record s.run { world = clock.timeout ms s.run.world } }

  -- `async with asyncio.timeout(…)`: at the deadline the body is cancelled, and the cancellation
  -- leaves the block as a `TimeoutError`.
  unfoldable pub with_timeout : {A : Type 0} → ℕ → Exec (Machine W) A → Exec (Machine W) A
  unfolding set_deadline
  with_timeout ms m s =
      let (r, s') = m (set_deadline ms s) in
      elim r [
        | ok a ↦ (ok a, s')
        | raised cancelled_error ↦
            (raised (if clock.timed_out s'.run.world then timeout_error else cancelled_error), s')
        | raised e ↦ (raised e, s')
      ]

  unfoldable pub drain : ℕ → Exec (Machine W) (Unit {0})
  unfolding drain_from with_timeout try_except pure ◌>>=◌
  drain n =
      try_except
        (with_timeout settings.drain_timeout (
          drain_from n pending_messages >>= λ go_on.
          if go_on then drain_from n new_messages >> pure tt else pure tt))
        pipeline_errors (λ e. pure tt)

  abbrev pub is_cancelled : Exn → Bool
  is_cancelled cancelled_error = true
  is_cancelled _ = false

  -- `run`, for at most `n` rounds of each loop
  unfoldable pub run : ℕ → Exec (Machine W) (Unit {0})
  unfolding rounds drain try_except raise ◌>>=◌
  run n = beat >> try_except (rounds n) is_cancelled (λ e. drain n >> raise e)
