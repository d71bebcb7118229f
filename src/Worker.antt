-- ===== src/Worker.antt =====
-- `IngestWorker` of app/pipeline/worker/worker.py. A worker is a state of its own beside the world;
-- its methods are code over both.
pub mod Loops
pub mod Rules
pub mod Acknowledged
pub mod Flushed
pub mod Flushing
pub mod Safety
pub mod Rounds
pub mod Life
pub mod Deadline
pub mod Drained
mod FlushedTests
mod Tests
use Prim.Native.String.{◌++◌ as append}
use geo_device.Prelude.{
  ℕ, zero, suc, Option, none, some, Bool, true, false, not, ◌&&◌, ◌||◌, List, [], ◌∷◌, ◌++◌, map,
  String, ite, length, ltb, ◌==◌, if◌then◌else◌, string_key, String_discrete,
}
use geo_device.Constants.{
  new_messages, pending_messages, claim_interval, claim_jitter, position_flush_jitter,
  retry_backoff, retry_backoff_max,
}
use geo_device.Errors.{Exn, cancelled_error, timeout_error, pipeline_errors, redis_errors}
use geo_device.Exec.{
  Exec, Result, ok, raised, pure, raise, gets, modify, try_except, with_exit, ◌>>=◌, ◌>>◌,
}
use geo_device.Dict
use geo_device.Dict.{Dict}
use geo_device.Pacing
use geo_device.Pacing.{Backoff, Ticker, new_backoff, new_ticker}
use geo_device.Pings.{Ping, StreamChunk, ZoneHit, Formats}
use geo_device.Presence.{filter_new_entries}
use geo_device.Realtime.{publish_alerts, publish_positions}
use geo_device.Services.{Redis, Session, Clock}
use geo_device.Settings.{IngestSettings}
use geo_device.Stream
use geo_device.Stream.{pings_of}
use geo_device.Trace.{
  Run, Event, inserted, matched, committed, session_closed, slept, perform, silent,
}

pub record Worker : Type 0 where
  pub heartbeat : ℕ
  pub consumer : String
  pub backoff : Backoff
  pub claim_ticker : Ticker
  pub position_ticker : Ticker
  pub positions : Dict String Ping

-- A worker and the world that it runs in.
pub record Machine (W : Type 0) : Type 0 where
  pub worker : Worker
  pub run : Run W

-- Code on the world alone.
unfoldable pub on_run : {W A : Type 0} → Exec (Run W) A → Exec (Machine W) A
on_run m s = let (r, run) = m s.run in (r, record s { run = run })

module _ {W : Type 0} where
  unfoldable pub set_worker : (Worker → Worker) → Exec (Machine W) (Unit {0})
  unfolding modify
  set_worker f = modify (λ s. record s { worker = f s.worker })

  unfoldable pub get_worker : Exec (Machine W) Worker
  unfolding gets
  get_worker = gets (λ s. s.worker)

-- Everything around a worker.
pub record Env (W : Type 0) : Type 0 where
  pub redis : Redis W
  pub session : Session W
  pub clock : Clock W
  pub formats : Formats
  pub settings : IngestSettings

module _ {W : Type 0} (env : Env W) where
  open env use {redis, session, clock, formats, settings}

  -- `write_pings(session, pings)`: no statement for no pings
  unfoldable pub write_pings : List Ping → Exec (Run W) ℕ
  unfolding pure perform ◌>>=◌
  write_pings [] = pure 0
  write_pings (p ∷ pings) = do
    perform (λ _. inserted (p ∷ pings)) (session.insert_pings (p ∷ pings))
    pure (length (p ∷ pings))

  -- `match_zones(session, pings)`
  unfoldable pub match_zones : List Ping → Exec (Run W) (List ZoneHit)
  unfolding pure perform
  match_zones [] = pure []
  match_zones (p ∷ pings) = perform (λ _. matched (p ∷ pings)) (session.select_hits (p ∷ pings))

  unfoldable pub close_session : Exec (Run W) (Unit {0})
  unfolding perform
  close_session = perform (λ _. session_closed) session.close

  -- `async with async_session() as session: …` in `_flush`
  unfoldable pub store : List Ping → Exec (Run W) (List ZoneHit)
  unfolding write_pings match_zones close_session with_exit perform ◌>>=◌
  store pings =
      with_exit
        (do
          write_pings pings
          hits ← match_zones pings
          perform (λ _. committed) session.commit
          pure hits)
        close_session

  unfoldable pub alert : List ZoneHit → List String → Exec (Run W) ℕ
  unfolding try_except pure filter_new_entries publish_alerts ◌>>=◌
  alert hits device_ids =
      try_except
        (do
          entries ← filter_new_entries redis settings hits device_ids
          publish_alerts redis formats entries)
        redis_errors (λ e. pure 0)

  -- `self._positions.update({ping.device_id: ping for ping in pings})`
  unfoldable pub note_positions : List Ping → Worker → Worker
  unfolding Dict.update
  note_positions pings w =
      let latest = Dict.update [] (map (λ ping. (ping.device_id, ping)) pings) in
      record w { positions = Dict.update w.positions latest }

  -- The part of `_flush` behind the commit.
  unfoldable pub finish : List StreamChunk → List Ping → List ZoneHit → Exec (Machine W) Bool
  unfolding set_worker note_positions on_run alert Stream.ack pure ◌>>=◌
  finish chunks pings hits = do
    set_worker (note_positions pings)
    on_run (alert hits (map (λ ping. ping.device_id) pings))
    on_run (Stream.ack redis chunks)
    pure true

  -- `none` stands for the `return False` of the handler.
  unfoldable pub finish_if :
      List StreamChunk → List Ping → Option (List ZoneHit) → Exec (Machine W) Bool
  unfolding finish pure
  finish_if chunks pings none = pure false
  finish_if chunks pings (some hits) = finish chunks pings hits

  -- `_flush` for chunks that have these pings.
  unfoldable pub flush_pings : List StreamChunk → List Ping → Exec (Machine W) Bool
  unfolding on_run store finish_if try_except pure ◌>>=◌
  flush_pings chunks [] = pure true
  flush_pings chunks (p ∷ pings) = do
    stored ←
        try_except (do hits ← on_run (store (p ∷ pings)); pure (some hits)) pipeline_errors
          (λ e. pure none)
    finish_if chunks (p ∷ pings) stored

  unfoldable pub flush : List StreamChunk → Exec (Machine W) Bool
  unfolding flush_pings
  flush chunks = flush_pings chunks (pings_of chunks)

  -- `await self._flush(chunks) if chunks else True`
  unfoldable pub flush_read : List StreamChunk → Exec (Machine W) Bool
  unfolding flush pure
  flush_read [] = pure true
  flush_read (c ∷ chunks) = flush (c ∷ chunks)

  -- `Ticker.due` of one of the worker's tickers: it draws a jitter only when it fires.
  unfoldable pub due : (Worker → Ticker) → (Ticker → Worker → Worker) → Exec (Machine W) Bool
  unfolding Pacing.due
  due get put s =
      let w = s.run.world in
      let now = clock.monotonic w in
      let (random, w') = clock.uniform (get s.worker).jitter w in
      let (t, fired) = Pacing.due (get s.worker) now random in
      if fired
      then (ok true, record s { worker = put t s.worker; run = record s.run { world = w' } })
      else (ok false, s)

  -- The part of `_broadcast_positions` behind the guard.
  unfoldable pub send_positions : List Ping → Exec (Machine W) (Unit {0})
  unfolding set_worker on_run publish_positions try_except pure ◌>>=◌
  send_positions positions = do
    set_worker (λ w. record w { positions = [] })
    try_except (on_run (publish_positions redis formats positions) >> pure tt) redis_errors
        (λ e. pure tt)

  -- The ticker is asked only if there are positions.
  unfoldable pub broadcast : Dict String Ping → Exec (Machine W) (Unit {0})
  unfolding due send_positions Dict.values pure ◌>>=◌
  broadcast [] = pure tt
  broadcast (entry ∷ positions) = do
    fired ← due (λ w. w.position_ticker) (λ t w. record w { position_ticker = t })
    if fired then send_positions (Dict.values (entry ∷ positions)) else pure tt

  unfoldable pub broadcast_positions : Exec (Machine W) (Unit {0})
  unfolding get_worker broadcast ◌>>=◌
  broadcast_positions = do w ← get_worker; broadcast w.positions

  unfoldable pub claim_stale : Exec (Machine W) Bool
  unfolding get_worker on_run Stream.claim_stale flush_read pure ◌>>=◌
  claim_stale = do
    w ← get_worker
    stale ← on_run (Stream.claim_stale redis formats settings w.consumer)
    flush_read stale

  unfoldable pub claim_if_due : Exec (Machine W) Bool
  unfolding due claim_stale on_run Stream.reconcile_backlog pure ◌>>=◌
  claim_if_due = do
    fired ← due (λ w. w.claim_ticker) (λ t w. record w { claim_ticker = t })
    if fired
        then claim_stale >>= (λ claimed. on_run (Stream.reconcile_backlog redis) >> pure claimed)
        else pure true

  unfoldable pub process_once : Exec (Machine W) Bool
  unfolding claim_if_due get_worker on_run Stream.read_new flush_read broadcast_positions pure ◌>>=◌
  process_once = do
    claimed ← claim_if_due
    w ← get_worker
    chunks ← on_run (Stream.read_new redis formats settings w.consumer new_messages)
    flushed ← flush_read chunks
    broadcast_positions
    pure (claimed && flushed)

-- `IngestWorker(redis, worker_id)`, with the name of its consumer, the clock and two jitters.
unfoldable pub new_worker : IngestSettings → String → ℕ → ℕ → ℕ → Worker
unfolding new_ticker
new_worker settings consumer now random random' = record {
  heartbeat = now;
  consumer = consumer;
  backoff = new_backoff retry_backoff retry_backoff_max;
  claim_ticker = new_ticker claim_interval claim_jitter now random;
  position_ticker = new_ticker settings.position_flush_interval position_flush_jitter now random';
  positions = [];
}
