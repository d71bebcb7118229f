-- ===== src/DeviceService/Answered.antt =====
-- What the route answers to a body, and what it queues.
use Prim.Native.String.{len}
use geo_device.Prelude.{
  ℕ, ◌+◌, ◌<◌, ◌≤◌, ◌≡◌, ◌≢◌, ◌⊎◌, inl, inr, refl, subst, ◌∙◌, Bool, true, false, ◌&&◌, Option,
  none, some, List, [], ◌∷◌, length, leb, Bool-cases, Option-cases, arith,
}
use geo_device.Errors.{Exn, JsonResponse, app_error, redis_errors}
use geo_device.Exec.{Result, ok, raised}
use geo_device.Pings.{Float, Datetime, Formats}
use geo_device.Routes.{max_id_length}
use geo_device.Services.{Redis, Command}
use geo_device.Settings.{IngestSettings}
use geo_device.Trace.{Run, Trace, pipelined}
use geo_device.DeviceService.{LocationRequest, LocationAcceptedResponse, save_points}
use geo_device.DeviceService.Queued.{Carries, publishes, publishes-Carries}
use geo_device.DeviceService.Admission.{Ends, save_points-Ends}
use geo_device.DeviceService.Requests.{
  PointBody, Response, accepted, refused, unprocessable, cons_if, ensure_tz, recorded_or_now,
  is_device_id, is_latitude, is_longitude, validate_point, validate_points, validate_batch,
  answer_error, ingest_valid, ingest_batch, latitude_min, latitude_max, longitude_min,
  longitude_max,
}

-- The time of a point: aware, and at the reading that the body gave, if it gave one.
abbrev pub IsTime : Option Datetime → Datetime → Type 0
IsTime none t = t.tzinfo ≢ none
IsTime (some given) t = (t.tzinfo ≢ none) × (t.wall ≡ given.wall)

both : (a b : Bool) → (a && b) ≡ true → (a ≡ true) × (b ≡ true)
both true true e = (refl, refl)
both true false e = absurd (cc)
both false b e = absurd (cc)

some_inj : {A : Type 0} (a b : A) → some a ≡ some b → a ≡ b
some_inj a b e = cc

none_ne : {A : Type 0} (a : A) → none ≢ some a
none_ne a e = cc

le_of : (m n : ℕ) → leb m n ≡ true → m ≤ n
le_of m n e = ground arith

module _ (le : Float → Float → Bool) where
  -- The point has the fields of the body, and these are within their bounds.
  pub record IsPoint (body : PointBody) (point : LocationRequest) : Type 0 where
    pub same_device : point.device_id ≡ body.device_id
    pub same_lat : point.lat ≡ body.lat
    pub same_lon : point.lon ≡ body.lon
    pub id_length : (1 ≤ len point.device_id) × (len point.device_id ≤ max_id_length)
    pub lat_range : (le latitude_min point.lat ≡ true) × (le point.lat latitude_max ≡ true)
    pub lon_range : (le longitude_min point.lon ≡ true) × (le point.lon longitude_max ≡ true)
    pub time : IsTime body.recorded_at point.recorded_at

  abbrev pub ArePoints : List PointBody → List LocationRequest → Type 0
  ArePoints [] [] = Unit
  ArePoints (body ∷ bodies) (point ∷ points) = IsPoint body point × ArePoints bodies points
  ArePoints _ _ = ⊥

  recorded_or_now-IsTime : (now : ℕ) (o : Option Datetime) → IsTime o (recorded_or_now now o)
  unfolding recorded_or_now ensure_tz
  recorded_or_now-IsTime now none = λ e. cc
  recorded_or_now-IsTime now (some t) = ground (arith, Option-cases t.tzinfo)

  validate_point-IsPoint :
      (now : ℕ) (body : PointBody) (point : LocationRequest)
      → validate_point le now body ≡ some point
      → IsPoint body point
  unfolding validate_point is_device_id is_latitude is_longitude
  validate_point-IsPoint now body point e =
      elim (Bool-cases
        ((is_device_id body.device_id && is_latitude le body.lat) && is_longitude le body.lon)) [
          | inl c ↦
              let (ab, lon) = both _ _ c in
              let (id, lat) = both _ _ ab in
              let (short, long) = both _ _ id in
              let made : LocationRequest = record {
                device_id = body.device_id;
                lat = body.lat;
                lon = body.lon;
                recorded_at = recorded_or_now now body.recorded_at;
              } in
              subst (IsPoint body) (some_inj made point (rw (c, validate_point) at e)) (record {
                same_device = refl;
                same_lat = refl;
                same_lon = refl;
                id_length = (le_of _ _ short, le_of _ _ long);
                lat_range = both _ _ lat;
                lon_range = both _ _ lon;
                time = recorded_or_now-IsTime now body.recorded_at;
              })
          | inr c ↦ absurd (none_ne point (rw (c, validate_point) at e))
        ]

  validate_points-ArePoints :
      (now : ℕ → ℕ) (i : ℕ) (bodies : List PointBody) (points : List LocationRequest)
      → validate_points le now i bodies ≡ some points
      → ArePoints bodies points
  unfolding validate_points
  validate_points-ArePoints now i [] [] e = tt
  validate_points-ArePoints now i [] (point ∷ points) e = absurd (some_ne e)
    where
      some_ne : {p : LocationRequest} {ps : List LocationRequest} → some [] ≢ some (p ∷ ps)
      some_ne q = cc
  validate_points-ArePoints now i (body ∷ bodies) points e =
      go (validate_point le (now i) body) (validate_points le now (i + 1) bodies) points refl refl e
        (validate_points-ArePoints now (i + 1) bodies)
    where
      go :
          (first : Option LocationRequest) (rest : Option (List LocationRequest))
          (points : List LocationRequest)
          → validate_point le (now i) body ≡ first
          → validate_points le now (i + 1) bodies ≡ rest
          → cons_if le first rest ≡ some points
          → ((more : List LocationRequest)
              → validate_points le now (i + 1) bodies ≡ some more
              → ArePoints bodies more)
          → ArePoints (body ∷ bodies) points
      go none rest points p q e ih = absurd (none_ne points e)
      go (some point) none points p q e ih = absurd (none_ne points e)
      go (some point) (some more) points p q e ih =
          subst (ArePoints (body ∷ bodies)) (some_inj (point ∷ more) points e)
            (validate_point-IsPoint (now i) body point p, ih more q)

  length-ArePoints :
      (bodies : List PointBody) (points : List LocationRequest)
      → ArePoints bodies points
      → length points ≡ length bodies
  length-ArePoints [] [] h = refl
  length-ArePoints (body ∷ bodies) (point ∷ points) h =
      omega (arith, length-ArePoints bodies points h.1)
  length-ArePoints [] (point ∷ points) h = absurd h
  length-ArePoints (body ∷ bodies) [] h = absurd h

  -- A batch that passes: its size is within the bounds, and its points are those of the body.
  abbrev pub IsBatch : IngestSettings → List PointBody → List LocationRequest → Type 0
  IsBatch settings bodies points =
      (1 ≤ length bodies) × (length bodies ≤ settings.max_http_batch_size) × ArePoints bodies points

  validate_batch-IsBatch :
      (settings : IngestSettings) (now : ℕ → ℕ) (bodies : List PointBody)
      (points : List LocationRequest)
      → validate_batch le settings now bodies ≡ some points
      → IsBatch settings bodies points
  unfolding validate_batch
  validate_batch-IsBatch settings now bodies points e =
      elim (Bool-cases
        (leb 1 (length bodies) && leb (length bodies) settings.max_http_batch_size)) [
          | inl c ↦
              let (some_points, few) = both _ _ c in
              (
                le_of _ _ some_points,
                le_of _ _ few,
                validate_points-ArePoints now 0 bodies points (rw (c, validate_batch) at e),
              )
          | inr c ↦ absurd (none_ne points (rw (c, validate_batch) at e))
        ]

module _ {W : Type 0} (redis : Redis W) (formats : Formats) (settings : IngestSettings)
    (le : Float → Float → Bool) where
  -- One pipeline ran behind `before`, with commands that add the points, and returned or failed.
  abbrev pub IsQueued : List LocationRequest → Bool → Trace → Trace → Type 0
  IsQueued points returned before after =
      (commands : List Command) × Carries formats settings points commands
      × (after ≡ (pipelined commands, returned) ∷ before)

  -- Nothing was queued, or in a pipeline that failed only.
  abbrev pub NotQueued : List LocationRequest → Trace → Trace → Type 0
  NotQueued points before after = (after ≡ before) ⊎ IsQueued points false before after

  -- What the end of a request tells.
  abbrev pub Answered : List PointBody → Trace → Result Response → Trace → Type 0
  Answered bodies before (ok (accepted response)) after =
      (points : List LocationRequest) × IsBatch le settings bodies points
      × (response.accepted ≡ length bodies)
      × (response.backlog ≤ settings.backlog_limit)
      × IsQueued points true before after
  Answered bodies before (ok (refused response)) after =
      (points : List LocationRequest) × IsBatch le settings bodies points
      × NotQueued points before after
  Answered bodies before (ok unprocessable) after = after ≡ before
  Answered bodies before (raised e) after =
      (redis_errors e ≡ false)
      × ((points : List LocationRequest) × IsBatch le settings bodies points
          × NotQueued points before after)

  queued_of :
      (points : List LocationRequest) (before after : Trace)
      → 0 < settings.chunk_size
      → (after ≡ before) ⊎ (after ≡ (pipelined (publishes formats settings points), false) ∷ before)
      → NotQueued points before after
  queued_of points before after h (inl e) = inl e
  queued_of points before after h (inr e) =
      inr (publishes formats settings points, publishes-Carries formats settings points h, e)

  answer_error_cases :
      (x : Exn) (t : Run W)
      → ((response : JsonResponse) × (answer_error x t ≡ (ok (refused response), t)))
        ⊎ (answer_error x t ≡ (raised x, t))
  unfolding answer_error
  answer_error_cases (app_error x) t = inl (_, refl)
  answer_error_cases x t = inr refl

  module _ (bodies : List PointBody) where
    saved :
        (points : List LocationRequest) (r : Run W)
        → 0 < settings.chunk_size
        → IsBatch le settings bodies points
        → Answered bodies r.trace
            (ingest_valid redis formats settings le (some points) r).0
            (ingest_valid redis formats settings le (some points) r).1.trace
    unfolding ingest_valid
    saved [] r h batch = absurd (omega (arith, length-ArePoints le bodies [] batch.2))
    saved (p ∷ points) r h batch =
        go (save_points redis formats settings (p ∷ points) r).0
          (save_points redis formats settings (p ∷ points) r).1 refl
          (save_points-Ends redis formats settings p points r h)
      where
        go :
            (result : Result LocationAcceptedResponse) (t : Run W)
            → save_points redis formats settings (p ∷ points) r ≡ (result, t)
            → Ends redis formats settings p points r.trace result t.trace
            → Answered bodies r.trace
                (ingest_valid redis formats settings le (some (p ∷ points)) r).0
                (ingest_valid redis formats settings le (some (p ∷ points)) r).1.trace
        go (ok response) t e ends =
            rw (e, ingest_valid)
              (
                p ∷ points,
                batch,
                ends.0 ∙ length-ArePoints le bodies (p ∷ points) batch.2,
                ends.1,
                (
                  publishes formats settings (p ∷ points),
                  publishes-Carries formats settings (p ∷ points) h,
                  ends.2,
                ),
              )
        go (raised x) t e ends =
            let kept = queued_of (p ∷ points) r.trace t.trace h ends.1 in
            elim (answer_error_cases x t) [
              | inl (response, q) ↦ rw (e, ingest_valid, q) (p ∷ points, batch, kept)
              | inr q ↦ rw (e, ingest_valid, q) (ends.0, (p ∷ points, batch, kept))
            ]

    -- With a positive chunk size, whatever redis answers: a request that is accepted has at least
    -- one point and at most the number that the settings allow, each with an id of 1 to 64
    -- characters, coordinates in range and an aware time; one pipeline added exactly these points to
    -- the stream, with their fields and in order, in batches of the chunk size, and their number to
    -- the counter; the number accepted is theirs, and the backlog was at most the limit. A body that
    -- does not pass reaches no service, and any other end leaves nothing queued but in a pipeline
    -- that failed.
    pub ingest_batch-Answered :
        (now : ℕ → ℕ) (r : Run W)
        → 0 < settings.chunk_size
        → Answered bodies r.trace
            (ingest_batch redis formats settings le now bodies r).0
            (ingest_batch redis formats settings le now bodies r).1.trace
    unfolding ingest_batch ingest_valid
    ingest_batch-Answered now r h =
        go (validate_batch le settings now bodies) (validate_batch-IsBatch le settings now bodies)
      where
        go :
            (o : Option (List LocationRequest))
            → ((points : List LocationRequest)
                → o ≡ some points
                → IsBatch le settings bodies points)
            → Answered bodies r.trace
                (ingest_valid redis formats settings le o r).0
                (ingest_valid redis formats settings le o r).1.trace
        go none batch = refl
        go (some points) batch = saved points r h (batch points refl)
