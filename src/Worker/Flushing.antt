-- ===== src/Worker/Flushing.antt =====
-- A flush acknowledges only what it has stored.
use geo_device.Prelude.{
  ◌≡◌, refl, Bool, true, false, Option, none, some, List, [], ◌∷◌, map, String,
}
use geo_device.Dict.{Dict}
use geo_device.Errors.{redis_errors, pipeline_errors}
use geo_device.Exec.{pure}
use geo_device.Exec.Triple.{Triple-bind, Triple-pure, Triple-try, Triple-lift, Triple-post}
use geo_device.Pings.{Ping, StreamChunk, ZoneHit, Formats}
use geo_device.Presence
use geo_device.Presence.{filter_new_entries}
use geo_device.Realtime.{publish_alerts, alert_commands, by_user}
use geo_device.Stream
use geo_device.Stream.{pings_of, ack_commands}
use geo_device.Trace.{Trace, pipelined}
use geo_device.Trace.Rules.{Runs, perform_rule, silent_rule}
use geo_device.Worker.{Env, alert, finish, finish_if, flush_pings, flush, note_positions, store}
use geo_device.Worker.Rules.{Works, on_run_rule, set_worker_rule}
use geo_device.Worker.Acknowledged.{Justified, IsSafe, Ready, Stored, store-Stored}

alerts-Justified :
    (formats : Formats) (d : Dict String (List ZoneHit)) (t : Trace)
    → Justified formats (alert_commands formats d) t
unfolding alert_commands
alerts-Justified formats [] t = tt
alerts-Justified formats ((user_id, hits) ∷ d) t = alerts-Justified formats d t

module _ {W : Type 0} (env : Env W) where
  open env use {redis, session, clock, formats, settings}

  filter_rule :
      (F : Trace → Type 0) (hits : List ZoneHit) (device_ids : List String)
      → Runs F (filter_new_entries redis settings hits device_ids) (λ entries. F) F
  unfolding filter_new_entries
  filter_rule F hits [] = Triple-pure [] (λ r h. h)
  filter_rule F hits (id ∷ ids) =
      let by_device = Presence.hits_by_device [] hits in
      let devices = Presence.from_keys [] (id ∷ ids) in
      Triple-bind _ _ _
        (silent_rule F (
          redis.run_scripts
            (map (Presence.script_call settings.zone_entry_ttl_s by_device) devices)))
        (λ results. Triple-lift (Presence.collect by_device devices results))

  -- A predicate that alerts in the record do not change.
  abbrev Unmoved : (Trace → Type 0) → Type 0
  Unmoved F =
      (t : Trace) (b : Bool) (d : Dict String (List ZoneHit))
      → F t
      → F ((pipelined (alert_commands formats d), b) ∷ t)

  publish_rule :
      (F : Trace → Type 0)
      → Unmoved F
      → (hits : List ZoneHit) → Runs F (publish_alerts redis formats hits) (λ n. F) F
  unfolding publish_alerts
  publish_rule F still [] = Triple-pure 0 (λ r h. h)
  publish_rule F still (hit ∷ hits) =
      Triple-bind _ _ _
        (perform_rule F (λ u. F) F
          (λ r. pipelined (alert_commands formats (by_user [] (hit ∷ hits)))) _
          (λ t u h. still t true _ h) (λ t e h. still t false _ h))
        (λ u. Triple-pure _ (λ r h. h))

  alert_rule :
      (F : Trace → Type 0)
      → Unmoved F
      → (hits : List ZoneHit) (device_ids : List String)
      → Runs F (alert env hits device_ids) (λ n. F) F
  unfolding alert
  alert_rule F still hits device_ids =
      Triple-try (λ e r. F r.trace) _ redis_errors (λ e. pure 0)
        (Triple-bind _ _ _ (filter_rule F hits device_ids)
          (λ entries. publish_rule F still entries))
        (λ e c r h. h) (λ e c. Triple-pure 0 (λ r h. h))

  ack_rule :
      (chunks : List StreamChunk)
      → Runs
          (Stored formats chunks (pings_of chunks))
          (Stream.ack redis chunks)
          (λ u. IsSafe formats)
          (IsSafe formats)
  unfolding Stream.ack ack_commands
  ack_rule [] = Triple-pure tt (λ r h. h.0.0)
  ack_rule (c ∷ chunks) =
      perform_rule (Stored formats (c ∷ chunks) (pings_of (c ∷ chunks))) (λ u. IsSafe formats)
        (IsSafe formats) (λ r. pipelined (ack_commands (c ∷ chunks))) _
        (λ t u h. (((c ∷ chunks, refl, h.0.1, h.1), tt), h.0.0))
        (λ t e h. (((c ∷ chunks, refl, h.0.1, h.1), tt), h.0.0))

  module _ (chunks : List StreamChunk) where
    Stored-Unmoved : Unmoved (Stored formats chunks (pings_of chunks))
    Stored-Unmoved t b d h = (((alerts-Justified formats d t, h.0.0), h.0.1), h.1)

    -- An exception of the alerts that is not caught leaves the record safe.
    alert-Stored :
        (hits : List ZoneHit) (device_ids : List String)
        → Runs
            (Stored formats chunks (pings_of chunks))
            (alert env hits device_ids)
            (λ n. Stored formats chunks (pings_of chunks))
            (IsSafe formats)
    alert-Stored hits device_ids =
        Triple-post _ _ (λ e r. Stored formats chunks (pings_of chunks) r.trace) _ _ (λ n r h. h)
          (λ e r h. h.0.0) (alert_rule _ Stored-Unmoved hits device_ids)

    finish_rule :
        (hits : List ZoneHit)
        → Works
            (Stored formats chunks (pings_of chunks))
            (finish env chunks (pings_of chunks) hits)
            (λ b. IsSafe formats)
            (IsSafe formats)
    unfolding finish
    finish_rule hits =
        Triple-bind (λ u s. Stored formats chunks (pings_of chunks) s.run.trace) _ _
          (Triple-post _ _ (λ e s. Stored formats chunks (pings_of chunks) s.run.trace) _ _
            (λ u s h. h) (λ e s h. h.0.0)
            (set_worker_rule _ (note_positions env (pings_of chunks))))
          (λ u.
            Triple-bind _ _ _
              (on_run_rule _ _ _ _
                (alert-Stored hits (map (λ ping. ping.device_id) (pings_of chunks))))
              (λ n.
                Triple-bind _ _ _ (on_run_rule _ _ _ _ (ack_rule chunks))
                  (λ u. Triple-pure true (λ s h. h))))

    finish_at :
        (hits : List ZoneHit) (pings : List Ping)
        → pings_of chunks ≡ pings
        → Works
            (Stored formats chunks pings)
            (finish env chunks pings hits)
            (λ b. IsSafe formats)
            (IsSafe formats)
    finish_at hits pings e = rw (← e) (finish_rule hits)

    -- After the `try` of the flush: safe in any case, and stored if it did not fail.
    abbrev Tried : List Ping → Option (List ZoneHit) → Trace → Type 0
    Tried pings none t = IsSafe formats t
    Tried pings (some hits) t = Stored formats chunks pings t

    tried :
        (pings : List Ping) (r : Option (List ZoneHit))
        → pings_of chunks ≡ pings
        → Works
            (Tried pings r)
            (finish_if env chunks pings r)
            (λ b. IsSafe formats)
            (IsSafe formats)
    unfolding finish_if
    tried pings none e = Triple-pure false (λ s h. h)
    tried pings (some hits) e = finish_at hits pings e

    flushed :
        (pings : List Ping)
        → pings_of chunks ≡ pings
        → Works
            (Ready formats chunks)
            (flush_pings env chunks pings)
            (λ b. IsSafe formats)
            (IsSafe formats)
    unfolding flush_pings
    flushed [] e = Triple-pure true (λ s h. h.0)
    flushed (p ∷ ps) e =
        Triple-bind (λ r s. Tried (p ∷ ps) r s.run.trace) _ _
          (Triple-try (λ e s. IsSafe formats s.run.trace) _ pipeline_errors (λ e. pure none)
            (Triple-bind _ _ _
              (on_run_rule _ (λ hits. Stored formats chunks (p ∷ ps)) (IsSafe formats)
                (store env (p ∷ ps))
                (Triple-post (λ hits r. Stored formats chunks (p ∷ ps) r.trace) _
                  (λ e r. Ready formats chunks r.trace) _ _ (λ hits r h. h) (λ e r h. h.0)
                  (store-Stored env chunks (p ∷ ps))))
              (λ hits. Triple-pure (some hits) (λ s h. h)))
            (λ e c s h. h) (λ e c. Triple-pure none (λ s h. h)))
          (λ r. tried (p ∷ ps) r e)

    -- Whatever the world does, a flush of chunks that were read makes only justified
    -- acknowledgements.
    pub flush_rule :
        Works (Ready formats chunks) (flush env chunks) (λ b. IsSafe formats) (IsSafe formats)
    unfolding flush
    flush_rule = flushed (pings_of chunks) refl
