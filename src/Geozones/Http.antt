-- ===== src/Geozones/Http.antt =====
-- A request of a user from its header to the status of its answer: the bounds of the single fields
-- in app/domains/geozones/schemas.py and of the parameters in app/domains/geozones/router.py and
-- dependencies.py, around `respond`. A number that is negative is none of ℕ and is refused.
use Prim.Native.String.{len}
use geo_device.Prelude.{ℕ, Bool, true, false, ◌&&◌, Option, List, String, leb, if◌then◌else◌}
use geo_device.DeviceService.Requests.{is_latitude, is_longitude}
use geo_device.Errors.{Exn, app_error, http_exception}
use geo_device.Exec.{Exec, Result, ok, raised, pure, raise, lift, try_except, ◌>>=◌, ◌>>◌}
use geo_device.Geozones.{
  GeozoneCreateRequest, GeozoneUpdateRequest, GeozoneResponse, Field, given, Table, check_fields,
}
use geo_device.Geozones.Requests.{Request, creates, lists, retrieves, deletes, updates, respond}
use geo_device.Pings.{Float}
use geo_device.Routes.{get_current_user}
use geo_device.Tables.{max_name_length}

-- 100_000.0 and 0.0
abbrev pub max_radius : Float
max_radius = record { bits = 4_681_608_360_884_174_848 }

abbrev pub no_radius : Float
no_radius = record { bits = 0 }

-- `min_length` and `max_length` of `Name`
unfoldable pub is_name : String → Bool
is_name name = leb 1 (len name) && leb (len name) max_name_length

-- A field that is left out or null has no bounds.
unfoldable pub given_is : {A : Type 0} → (A → Bool) → Field A → Bool
given_is test (given a) = test a
given_is test _ = true

abbrev pub passes : {A : Type 0} → Result A → Bool
passes (ok a) = true
passes (raised e) = false

-- The orders `<=` and `<` of floats.
module _ (le lt : Float → Float → Bool) where
  unfoldable pub is_radius : Float → Bool
  is_radius radius_m = lt no_radius radius_m && le radius_m max_radius

  unfoldable pub validate_create : GeozoneCreateRequest → Bool
  unfolding is_name is_radius is_latitude is_longitude
  validate_create r =
      ((is_name r.name && is_latitude le r.lat) && is_longitude le r.lon) && is_radius r.radius_m

  -- The fields, and then `check_fields`.
  unfoldable pub validate_update : GeozoneUpdateRequest → Bool
  unfolding is_name is_radius is_latitude is_longitude given_is check_fields
  validate_update r =
      (((given_is is_name r.name && given_is (is_latitude le) r.lat)
          && given_is (is_longitude le) r.lon)
        && given_is is_radius r.radius_m)
      && passes (check_fields r)

  unfoldable pub validate : Request → Bool
  unfolding validate_create validate_update
  validate (creates payload) = validate_create payload
  validate (lists limit offset) = leb 1 limit && leb limit 500
  validate (retrieves id) = leb 1 id
  validate (deletes id) = leb 1 id
  validate (updates id payload) = leb 1 id && validate_update payload

-- `status_code` of the routes
unfoldable pub success_status : Request → ℕ
success_status (creates payload) = 201
success_status (deletes id) = 204
success_status _ = 200

pub data Answer : Type 0 where
  shows : (status : ℕ) → List GeozoneResponse → Answer
  fails : (status : ℕ) → Answer

module _ {W : Type 0} where
  -- The answers to an `AppError` and to an `HTTPException`; others are for the server.
  unfoldable pub answer_error : Exn → Exec W Answer
  unfolding pure raise
  answer_error (app_error exc) = pure (fails exc.status_code)
  answer_error (http_exception status detail) = pure (fails status)
  answer_error e = raise e

  module _ (table : Table W) (strip : String → String) (le lt : Float → Float → Bool) where
    -- A request that does not pass is answered with 422. The geozone of an update is looked up
    -- before the body is checked, as a dependency of the route.
    unfoldable pub refuse : String → Request → Exec W Answer
    unfolding respond pure ◌>>=◌
    refuse user_id (updates id payload) =
        if leb 1 id
        then respond table user_id (retrieves id) >> pure (fails 422)
        else pure (fails 422)
    refuse user_id request = pure (fails 422)

    unfoldable pub handle_user : String → Request → Exec W Answer
    unfolding validate success_status respond refuse pure ◌>>=◌
    handle_user user_id request =
        if validate le lt request
        then (do page ← respond table user_id request; pure (shows (success_status request) page))
        else refuse user_id request

    unfoldable pub handle : Option String → Request → Exec W Answer
    unfolding get_current_user handle_user answer_error lift try_except ◌>>=◌
    handle header request =
        try_except (lift (get_current_user strip header) >>= λ user_id. handle_user user_id request)
          (λ e. true) answer_error
