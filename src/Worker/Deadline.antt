-- ===== src/Worker/Deadline.antt =====
-- No call of a worker gains time before the deadline of `asyncio.timeout`.
use geo_device.Prelude.{
  ℕ, zero, suc, ◌*◌, ◌≤◌, ◌<◌, ◌≡◌, arith, Bool, true, false, Option, none, some, List, [], ◌∷◌,
  map, String,
}
use geo_device.Constants.{read_count, block_ms}
use geo_device.Errors.{pipeline_errors, redis_errors}
use geo_device.Exec.{Exec, Result, ok, raised, pure}
use geo_device.Exec.Triple.{
  Triple, Outcome, Triple-bind, Triple-pure, Triple-try, Triple-lift, Triple-exit, Triple-modify,
  Triple-gets,
}
use geo_device.Pings.Codec.{parse_stream_chunk}
use geo_device.Pings.{Entry, Ping, StreamChunk, ZoneHit}
use geo_device.Presence
use geo_device.Presence.{filter_new_entries}
use geo_device.Realtime.{publish_alerts, alert_commands, by_user}
use geo_device.Services.{Command, ScriptCall}
use geo_device.Stream
use geo_device.Stream.{pings_of, ack_commands, entries_of, response_entries}
use geo_device.Trace.{
  Run, Event, inserted, matched, committed, session_closed, pipelined, entries_read, perform,
  silent,
}
use geo_device.Worker.{
  Env, Machine, Worker, on_run, set_worker, get_worker, write_pings, match_zones, close_session,
  store, alert, finish, finish_if, flush_pings, flush, note_positions,
}
use geo_device.Worker.Loops.{drain_from, drain_chunks, drain_next}

-- The call does not gain time.
abbrev pub Passes : {W A : Type 0} → (W → ℕ) → Exec W A → Type 0
Passes left m = (w : _) → left (m w).1 ≤ left w

module _ {W : Type 0} (env : Env W) (left : W → ℕ) where
  open env use {redis, session, clock, formats, settings}

  -- The time that is left until the deadline of `asyncio.timeout`, in units of which each read that
  -- returns takes one at least, and of which a millisecond has `per_ms`: at the deadline a read
  -- raises. Entering the block sets the deadline, and no call gains time.
  pub record HasDeadline (per_ms : ℕ) : Type 0 where
    pub enters : (ms : ℕ) (w : W) → left (clock.timeout ms w) ≤ ms * per_ms
    pub reads :
        (consumer entry_id : String) (count block : ℕ) (w : W)
        → left (redis.xreadgroup consumer entry_id count block w).1 ≤ left w
    pub takes :
        (consumer entry_id : String) (count block : ℕ) (w : W)
        (response : List (String × List Entry))
        → (redis.xreadgroup consumer entry_id count block w).0 ≡ ok response
        → left (redis.xreadgroup consumer entry_id count block w).1 < left w
    pub executes : (commands : List Command) → Passes left (redis.execute commands)
    pub runs : (calls : List ScriptCall) → Passes left (redis.run_scripts calls)
    pub inserts : (pings : List Ping) → Passes left (session.insert_pings pings)
    pub selects : (pings : List Ping) → Passes left (session.select_hits pings)
    pub commits : Passes left session.commit
    pub closes : Passes left session.close

  module _ {per_ms : ℕ} (laws : HasDeadline per_ms) (k : ℕ) where
    abbrev pub Early : Run W → Type 0
    Early r = left r.world ≤ k

    -- The code does not gain time, whether it returns or raises.
    abbrev Ticks : {A : Type 0} → Exec (Run W) A → Type 0
    Ticks m = Triple Early m (λ a. Early) (λ e. Early)

    abbrev pub Spends : {A : Type 0} → Exec (Machine W) A → Type 0
    Spends m = Triple (λ s. Early s.run) m (λ a s. Early s.run) (λ e s. Early s.run)

    always :
        {S A : Type 0} (P : S → Type 0) (m : Exec S A)
        → ((s : S) → P s → P (m s).1)
        → Triple P m (λ a. P) (λ e. P)
    always {A = A} P m h = record { at = λ s p. outcome (m s).0 (h s p) }
      where
        outcome : {s : _} (r : Result A) → P s → Outcome (λ a. P) (λ e. P) r s
        outcome (ok a) p = p
        outcome (raised e) p = p

    performed :
        {A : Type 0} (event : Result A → Event) (call : Exec W A)
        → Passes left call
        → Ticks (perform event call)
    unfolding perform
    performed event call h = always Early _ (λ r p. let q = h r.world in omega (arith))

    silenced : {A : Type 0} (call : Exec W A) → Passes left call → Ticks (silent call)
    unfolding silent
    silenced call h = always Early _ (λ r p. let q = h r.world in omega (arith))

    ran : {A : Type 0} (m : Exec (Run W) A) → Ticks m → Spends (on_run m)
    unfolding on_run
    ran m t = always (λ s. Early s.run) _ (λ s p. kept (m s.run).1 (m s.run).0 (t.at s.run p))
      where
        kept :
            {A : Type 0} (r : Run W) (a : Result A)
            → Outcome (λ a. Early) (λ e. Early) a r
            → Early r
        kept r (ok a) p = p
        kept r (raised e) p = p

    write_pings-Ticks : (pings : List Ping) → Ticks (write_pings env pings)
    unfolding write_pings
    write_pings-Ticks [] = Triple-pure 0 (λ r h. h)
    write_pings-Ticks (p ∷ pings) =
        Triple-bind (λ u. Early) _ _
          (performed (λ r. inserted (p ∷ pings)) _ (laws.inserts (p ∷ pings)))
          (λ u. Triple-pure _ (λ r h. h))

    match_zones-Ticks : (pings : List Ping) → Ticks (match_zones env pings)
    unfolding match_zones
    match_zones-Ticks [] = Triple-pure [] (λ r h. h)
    match_zones-Ticks (p ∷ pings) =
        performed (λ r. matched (p ∷ pings)) _ (laws.selects (p ∷ pings))

    store-Ticks : (pings : List Ping) → Ticks (store env pings)
    unfolding store close_session
    store-Ticks pings =
        Triple-exit (λ hits. Early) (λ e. Early) _ (close_session env)
          (Triple-bind (λ n. Early) _ _ (write_pings-Ticks pings)
            (λ n.
              Triple-bind (λ hits. Early) _ _ (match_zones-Ticks pings)
                (λ hits.
                  Triple-bind (λ u. Early) _ _
                    (performed (λ r. committed) session.commit laws.commits)
                    (λ u. Triple-pure hits (λ r h. h)))))
          (λ hits. performed (λ r. session_closed) session.close laws.closes)
          (λ e. performed (λ r. session_closed) session.close laws.closes)

    filter-Ticks :
        (hits : List ZoneHit) (device_ids : List String)
        → Ticks (filter_new_entries redis settings hits device_ids)
    unfolding filter_new_entries
    filter-Ticks hits [] = Triple-pure [] (λ r h. h)
    filter-Ticks hits (id ∷ ids) =
        let by_device = Presence.hits_by_device [] hits in
        let devices = Presence.from_keys [] (id ∷ ids) in
        let calls = map (Presence.script_call settings.zone_entry_ttl_s by_device) devices in
        Triple-bind (λ results. Early) _ _ (silenced (redis.run_scripts calls) (laws.runs calls))
          (λ results. Triple-lift (Presence.collect by_device devices results))

    publish-Ticks : (hits : List ZoneHit) → Ticks (publish_alerts redis formats hits)
    unfolding publish_alerts
    publish-Ticks [] = Triple-pure 0 (λ r h. h)
    publish-Ticks (hit ∷ hits) =
        Triple-bind (λ u. Early) _ _
          (performed (λ r. pipelined (alert_commands formats (by_user [] (hit ∷ hits)))) _
            (laws.executes _))
          (λ u. Triple-pure _ (λ r h. h))

    alert-Ticks :
        (hits : List ZoneHit) (device_ids : List String) → Ticks (alert env hits device_ids)
    unfolding alert
    alert-Ticks hits device_ids =
        Triple-try (λ e. Early) _ redis_errors (λ e. pure 0)
          (Triple-bind (λ entries. Early) _ _ (filter-Ticks hits device_ids)
            (λ entries. publish-Ticks entries))
          (λ e c r h. h) (λ e c. Triple-pure 0 (λ r h. h))

    ack-Ticks : (chunks : List StreamChunk) → Ticks (Stream.ack redis chunks)
    unfolding Stream.ack
    ack-Ticks [] = Triple-pure tt (λ r h. h)
    ack-Ticks (c ∷ chunks) =
        performed (λ r. pipelined (ack_commands (c ∷ chunks))) _ (laws.executes _)

    noted : (f : Worker → Worker) → Spends (set_worker f)
    unfolding set_worker
    noted f = Triple-modify _ (λ s h. h)

    finish-Spends :
        (chunks : List StreamChunk) (pings : List Ping) (stored : Option (List ZoneHit))
        → Spends (finish_if env chunks pings stored)
    unfolding finish_if finish
    finish-Spends chunks pings none = Triple-pure false (λ s h. h)
    finish-Spends chunks pings (some hits) =
        let ids = map (λ ping. ping.device_id) pings in
        Triple-bind (λ u s. Early s.run) (set_worker (note_positions env pings)) _
          (noted (note_positions env pings))
          (λ u.
            Triple-bind (λ n s. Early s.run) _ _ (ran (alert env hits ids) (alert-Ticks hits ids))
              (λ n.
                Triple-bind (λ u s. Early s.run) _ _
                  (ran (Stream.ack redis chunks) (ack-Ticks chunks))
                  (λ u. Triple-pure true (λ s h. h))))

    pub flush-Spends :
        (chunks : List StreamChunk) (pings : List Ping) → Spends (flush_pings env chunks pings)
    unfolding flush_pings
    flush-Spends chunks [] = Triple-pure true (λ s h. h)
    flush-Spends chunks (p ∷ pings) =
        Triple-bind (λ stored s. Early s.run) _ _
          (Triple-try (λ e s. Early s.run) _ pipeline_errors (λ e. pure none)
            (Triple-bind (λ hits s. Early s.run) _ _ (ran _ (store-Ticks (p ∷ pings)))
              (λ hits. Triple-pure (some hits) (λ s h. h)))
            (λ e c s h. h) (λ e c. Triple-pure none (λ s h. h)))
          (λ stored. finish-Spends chunks (p ∷ pings) stored)

    read_new-Ticks :
        (consumer start_id : String)
        → Ticks (Stream.read_new redis formats settings consumer start_id)
    unfolding Stream.read_new
    read_new-Ticks consumer start_id =
        Triple-bind (λ response. Early) _ _
          (performed (λ r. entries_read (entries_of r))
            (redis.xreadgroup consumer start_id read_count block_ms)
            (laws.reads consumer start_id read_count block_ms))
          (λ response. Triple-lift (parse_stream_chunk formats (response_entries response)))

    drain_chunks-Spends :
        (rest : Exec (Machine W) Bool) (chunks : List StreamChunk)
        → Spends rest
        → Spends (drain_chunks env rest chunks)
    unfolding drain_chunks flush
    drain_chunks-Spends rest [] t = Triple-pure true (λ s h. h)
    drain_chunks-Spends rest (c ∷ more) t =
        Triple-bind (λ b s. Early s.run) _ _ (flush-Spends (c ∷ more) (pings_of (c ∷ more))) next
      where
        next : (b : Bool) → Spends (drain_next env rest b)
        next true = t
        next false = Triple-pure false (λ s h. h)

    pub drain_from-Spends : (n : ℕ) (start_id : String) → Spends (drain_from env n start_id)
    unfolding drain_from get_worker
    drain_from-Spends zero start_id = Triple-pure true (λ s h. h)
    drain_from-Spends (suc n) start_id =
        Triple-bind {A = Worker} (λ w s. Early s.run) _ _ (Triple-gets (λ s. s.worker) (λ s h. h))
          (λ w.
            Triple-bind (λ chunks s. Early s.run) _ _
              (ran (Stream.read_new redis formats settings w.consumer start_id)
                (read_new-Ticks w.consumer start_id))
              (λ chunks. drain_chunks-Spends _ chunks (drain_from-Spends n start_id)))
