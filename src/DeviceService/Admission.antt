-- ===== src/DeviceService/Admission.antt =====
-- When `save_points` admits a batch, and what it does to the stream.
use geo_device.Prelude.{
  ◌≤◌, ◌<◌, ◌≡◌, refl, ◌⊎◌, inl, inr, true, false, Option, List, ◌∷◌, map, length, ltb, ◌==◌,
  Bool-cases, arith,
}
use geo_device.Errors.{redis_errors}
use geo_device.Exec.{Result, ok, raised}
use geo_device.Pings.{Formats}
use geo_device.Services.{Redis, Command}
use geo_device.Prelude.Int.{ℤ}
use geo_device.Settings.{IngestSettings}
use geo_device.Constants.{pending_pings_key}
use geo_device.Stream.{publish_commands, backlog_of}
use geo_device.Trace.{Run, Trace, pipelined}
use geo_device.DeviceService.{LocationRequest, LocationAcceptedResponse, to_ping, save_points}

module _ {W : Type 0} (redis : Redis W) (formats : Formats) (settings : IngestSettings) where
  abbrev pub commands : LocationRequest → List LocationRequest → List Command
  commands p points = publish_commands formats settings (map to_ping (p ∷ points))

  -- How a call of `save_points` may end.
  abbrev pub Ends :
      LocationRequest
      → List LocationRequest
      → Trace
      → Result LocationAcceptedResponse
      → Trace
      → Type 0
  Ends p points before (ok response) after =
      (response.accepted ≡ length (p ∷ points))
      × (response.backlog ≤ settings.backlog_limit)
      × (after ≡ (pipelined (commands p points), true) ∷ before)
  Ends p points before (raised e) after =
      (redis_errors e ≡ false)
      × ((after ≡ before) ⊎ (after ≡ (pipelined (commands p points), false) ∷ before))

  module _ (p : LocationRequest) (points : List LocationRequest) (r : Run W)
      (h : 0 < settings.chunk_size) where
    abbrev Saved : Type 0
    Saved =
        let (result, r') = save_points redis formats settings (p ∷ points) r in
        Ends p points r.trace result r'.trace

    -- The end by the result of the pipeline.
    after_execute :
        (v : Option ℤ) (w w' : W) (result : Result (Unit {0}))
        → redis.get pending_pings_key r.world ≡ (ok v, w)
        → ltb settings.backlog_limit (backlog_of v) ≡ false
        → redis.execute (commands p points) w ≡ (result, w')
        → Saved
    unfolding save_points
    after_execute v w w' (ok u) e c x =
        let z : (settings.chunk_size == 0) ≡ false = ground arith in
        rw (e, save_points, c, z, x) (refl, ground arith, refl)
    after_execute v w w' (raised exn) e c x =
        let z : (settings.chunk_size == 0) ≡ false = ground arith in
        elim (Bool-cases (redis_errors exn)) [
          | inl b ↦ rw (e, save_points, c, z, x, b) (refl, inr refl)
          | inr b ↦ rw (e, save_points, c, z, x, b) (b, inr refl)
        ]

    -- The end by the result of the read of the counter.
    after_get :
        (result : Result (Option ℤ)) (w : W)
        → redis.get pending_pings_key r.world ≡ (result, w)
        → Saved
    unfolding save_points
    after_get (raised exn) w e = elim (Bool-cases (redis_errors exn)) [
      | inl c ↦ rw (e, save_points, c) (refl, inl refl)
      | inr c ↦ rw (e, save_points, c) (c, inl refl)
    ]
    after_get (ok v) w e = elim (Bool-cases (ltb settings.backlog_limit (backlog_of v))) [
      | inl c ↦ rw (e, save_points, c) (refl, inl refl)
      | inr c ↦
          let (result, w') = redis.execute (commands p points) w in
          after_execute v w w' result e c refl
    ]

  -- With a positive chunk size, and whatever redis answers: if `save_points` returns, the backlog
  -- was at most the limit, the number accepted is that of the points, and one pipeline ran, with
  -- the commands that publish them. If it raises, no error of redis gets out as such, and nothing
  -- was queued but in a pipeline that failed.
  pub save_points-Ends :
      (p : LocationRequest) (points : List LocationRequest) (r : Run W)
      → 0 < settings.chunk_size
      → Ends p points r.trace
          (save_points redis formats settings (p ∷ points) r).0
          (save_points redis formats settings (p ∷ points) r).1.trace
  save_points-Ends p points r h =
      after_get p points r h (redis.get pending_pings_key r.world).0
        (redis.get pending_pings_key r.world).1 refl
