-- ===== src/Worker/Flushed.antt =====
-- A flush to its end: what it leaves when the database and redis answer.
use geo_device.Prelude.{
  ℕ, ◌<◌, ◌≡◌, refl, length, true, List, [], ◌∷◌, map, String, string_key, arith,
}
use geo_device.Dict
use geo_device.Dict.Updates.{last_of, get-update-update}
use geo_device.Exec.{ok, pure, ◌>>=◌, ◌>>◌}
use geo_device.Pings.{Ping, StreamChunk, ZoneHit}
use geo_device.Services.{Command}
use geo_device.Stream
use geo_device.Stream.{pings_of, ack_commands}
use geo_device.Trace.{Run, Trace, pipelined}
use geo_device.Worker.{
  Env, Machine, Worker, on_run, alert, flush, flush_pings, note_positions, store,
}

abbrev pub by_device : List Ping → List (String × Ping)
by_device pings = map (λ ping. (ping.device_id, ping)) pings

module _ {W : Type 0} (env : Env W) where
  open env use {redis, session, clock, formats, settings}

  -- The database answers, redis runs the pipelines, and no exception gets out of the alerts.
  pub record Answers : Type 0 where
    pub inserts : (pings : List Ping) (w : W) → (session.insert_pings pings w).0 ≡ ok tt
    pub selects :
        (pings : List Ping) (w : W)
        → (hits : List ZoneHit) × ((session.select_hits pings w).0 ≡ ok hits)
    pub commits : (w : W) → (session.commit w).0 ≡ ok tt
    pub closes : (w : W) → (session.close w).0 ≡ ok tt
    pub executes : (commands : List Command) (w : W) → (redis.execute commands w).0 ≡ ok tt
    pub alerts :
        (hits : List ZoneHit) (device_ids : List String) (r : Run W)
        → (n : ℕ) × ((alert env hits device_ids r).0 ≡ ok n)

  -- Every device of the chunks is at its last ping there, every other where it was.
  abbrev pub Noted : List Ping → Worker → Worker → Type 0
  Noted pings before after =
      (device : String)
      → Dict.get after.positions device
        ≡ last_of device (by_device pings) (Dict.get before.positions device)

  abbrev pub Flushed : List StreamChunk → Machine W → Type 0
  Flushed chunks s =
      let (result, t) = flush env chunks s in
      (result ≡ ok true)
      × Noted (pings_of chunks) s.worker t.worker
      × ((earlier : Trace) × (t.run.trace ≡ (pipelined (ack_commands chunks), true) ∷ earlier))

  note_positions-Noted :
      (pings : List Ping) (w : Worker) → Noted pings w (note_positions env pings w)
  unfolding note_positions
  note_positions-Noted pings w device = get-update-update w.positions (by_device pings) device

  -- The acknowledgement, which the flush ends with.
  abbrev Acked : List StreamChunk → Machine W → Type 0
  Acked chunks s =
      let (result, t) = (on_run (Stream.ack redis chunks) >> pure true) s in
      (result ≡ ok true)
      × (t.worker ≡ s.worker)
      × ((earlier : Trace) × (t.run.trace ≡ (pipelined (ack_commands chunks), true) ∷ earlier))

  acked :
      Answers
      → (chunks : List StreamChunk) (s : Machine W) → 0 < length (pings_of chunks)
      → Acked chunks s
  unfolding on_run Stream.ack pure ◌>>=◌
  acked answers [] s h = absurd (omega arith)
  acked answers (c ∷ chunks) s h =
      rw (answers.executes (ack_commands (c ∷ chunks)) s.run.world, on_run, Stream.ack)
        (refl, refl, (s.run.trace, refl))

  module _ (answers : Answers) (chunks : List StreamChunk) where
    store-answers :
        (p : Ping) (pings : List Ping) (r : Run W)
        → (hits : List ZoneHit) × ((store env (p ∷ pings) r).0 ≡ ok hits)
    unfolding store
    store-answers p pings r =
        let i = answers.inserts (p ∷ pings) r.world in
        let w = (session.insert_pings (p ∷ pings) r.world).1 in
        let (hits, e) = answers.selects (p ∷ pings) w in
        let c = answers.commits (session.select_hits (p ∷ pings) w).1 in
        let q = answers.closes (session.commit (session.select_hits (p ∷ pings) w).1).1 in
        (hits, rw (i, store, e, c, q) refl)

    flush-Flushed_at :
        (p : Ping) (pings : List Ping) (s : Machine W)
        → pings_of chunks ≡ p ∷ pings
        → Flushed chunks s
    unfolding flush flush_pings
    flush-Flushed_at p pings s same =
        let (hits, e) = store-answers p pings s.run in
        let r = (store env (p ∷ pings) s.run).1 in
        let (n, a) = answers.alerts hits (map (λ ping. ping.device_id) (p ∷ pings)) r in
        let (ended, kept, called) =
          acked answers chunks
            (record {
              worker = note_positions env (p ∷ pings) s.worker;
              run = (alert env hits (map (λ ping. ping.device_id) (p ∷ pings)) r).1;
            })
            (rw same (omega arith)) in
        rw (same, flush, e, flush_pings, a)
          (ended, (λ device. rw kept (note_positions-Noted (p ∷ pings) s.worker device)), called)

    -- Where the database answers, redis runs the pipelines and no exception gets out of the alerts:
    -- the flush of chunks that have a ping returns `True`, its last call acknowledges the chunks,
    -- and the positions to broadcast are then the last ping of each device in the chunks and, for
    -- any other device, what they were.
    pub flush-Flushed : (s : Machine W) → 0 < length (pings_of chunks) → Flushed chunks s
    flush-Flushed s h = go (pings_of chunks) h refl
      where
        go : (pings : List Ping) → 0 < length pings → pings_of chunks ≡ pings → Flushed chunks s
        go [] h e = absurd (omega arith)
        go (p ∷ pings) h e = flush-Flushed_at p pings s e
