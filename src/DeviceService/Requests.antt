-- ===== src/DeviceService/Requests.antt =====
-- The route app/domains/devices/router.py with the schemas of app/domains/devices/schemas.py: the
-- checks of a body, and the answer. The order of floats is a parameter.
use Prim.Native.String.{len}
use geo_device.Prelude.{
  ℕ, ◌+◌, Bool, true, ◌&&◌, Option, none, some, List, [], ◌∷◌, String, length, leb, if◌then◌else◌,
}
use geo_device.Errors.{Exn, JsonResponse, app_error, app_exception_handler}
use geo_device.Exec.{Exec, pure, raise, try_except, ◌>>=◌}
use geo_device.Pings.{Float, Offset, Datetime, Formats}
use geo_device.Routes.{max_id_length}
use geo_device.Services.{Redis}
use geo_device.Settings.{IngestSettings}
use geo_device.Trace.{Run}
use geo_device.DeviceService.{LocationRequest, LocationAcceptedResponse, save_points}

-- A point as it comes, with the types of its fields already checked.
pub record PointBody : Type 0 where
  pub device_id : String
  pub lat : Float
  pub lon : Float
  pub recorded_at : Option Datetime

-- 90.0 and 180.0, and -90.0 and -180.0
abbrev pub latitude_min : Float
latitude_min = record { bits = 13_859_405_640_767_635_456 }

abbrev pub latitude_max : Float
latitude_max = record { bits = 4_636_033_603_912_859_648 }

abbrev pub longitude_min : Float
longitude_min = record { bits = 13_863_909_240_395_005_952 }

abbrev pub longitude_max : Float
longitude_max = record { bits = 4_640_537_203_540_230_144 }

abbrev pub utc : Offset
utc = record { seconds_east = 0; seconds_west = 0 }

-- `value if value.tzinfo else value.replace(tzinfo=UTC)`
unfoldable pub ensure_tz : Datetime → Datetime
ensure_tz value = elim value.tzinfo [
  | none ↦ record value { tzinfo = some utc }
  | some offset ↦ value
]

-- A point without a time gets the reading `now` of the clock, in UTC.
unfoldable pub recorded_or_now : ℕ → Option Datetime → Datetime
unfolding ensure_tz
recorded_or_now now none = record { wall = now; tzinfo = some utc }
recorded_or_now now (some value) = ensure_tz value

-- `min_length` and `max_length` of `DeviceId`
unfoldable pub is_device_id : String → Bool
is_device_id device_id = leb 1 (len device_id) && leb (len device_id) max_id_length

module _ (le : Float → Float → Bool) where
  unfoldable pub is_latitude : Float → Bool
  is_latitude lat = le latitude_min lat && le lat latitude_max

  unfoldable pub is_longitude : Float → Bool
  is_longitude lon = le longitude_min lon && le lon longitude_max

  unfoldable pub validate_point : ℕ → PointBody → Option LocationRequest
  unfolding is_device_id is_latitude is_longitude recorded_or_now
  validate_point now body =
      if (is_device_id body.device_id && is_latitude body.lat) && is_longitude body.lon
      then some (record {
        device_id = body.device_id;
        lat = body.lat;
        lon = body.lon;
        recorded_at = recorded_or_now now body.recorded_at;
      })
      else none

  abbrev pub cons_if :
      Option LocationRequest → Option (List LocationRequest) → Option (List LocationRequest)
  cons_if none points = none
  cons_if (some point) none = none
  cons_if (some point) (some points) = some (point ∷ points)

  -- The clock is read for each point, `i` being its place in the body.
  unfoldable pub validate_points : (ℕ → ℕ) → ℕ → List PointBody → Option (List LocationRequest)
  unfolding validate_point
  validate_points now i [] = some []
  validate_points now i (body ∷ bodies) =
      cons_if (validate_point (now i) body) (validate_points now (i + 1) bodies)

  -- `LocationBatchRequest`
  unfoldable pub validate_batch :
      IngestSettings → (ℕ → ℕ) → List PointBody → Option (List LocationRequest)
  unfolding validate_points
  validate_batch settings now bodies =
      if leb 1 (length bodies) && leb (length bodies) settings.max_http_batch_size
      then validate_points now 0 bodies
      else none

-- The answer: 202, that of an `AppError`, or 422.
pub data Response : Type 0 where
  accepted : LocationAcceptedResponse → Response
  refused : JsonResponse → Response
  unprocessable : Response

module _ {W : Type 0} where
  -- The handler that `register_exception_handler` registers.
  unfoldable pub answer_error : Exn → Exec (Run W) Response
  unfolding pure raise app_exception_handler
  answer_error (app_error exc) = pure (refused (app_exception_handler exc))
  answer_error e = raise e

  module _ (redis : Redis W) (formats : Formats) (settings : IngestSettings)
      (le : Float → Float → Bool) where
    unfoldable pub ingest_valid : Option (List LocationRequest) → Exec (Run W) Response
    unfolding pure try_except save_points answer_error ◌>>=◌
    ingest_valid none = pure unprocessable
    ingest_valid (some points) =
        try_except (do r ← save_points redis formats settings points; pure (accepted r)) (λ e. true)
          answer_error

    unfoldable pub ingest_batch : (ℕ → ℕ) → List PointBody → Exec (Run W) Response
    unfolding ingest_valid validate_batch
    ingest_batch now bodies = ingest_valid (validate_batch le settings now bodies)
