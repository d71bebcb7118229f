-- ===== src/Geozones.antt =====
-- Geozones: the requests of app/domains/geozones/schemas.py, and `GeozoneService` of
-- app/domains/geozones/service.py over the statements that it executes.
pub mod Update
pub mod Requests
pub mod Rows
pub mod Statements
pub mod Http
pub mod Handled
pub mod Isolation
pub mod Stored
mod HttpTests
mod StoredTests
mod Tests
use Prim.Native.String.{◌++◌ as append}
use geo_device.Prelude.{
  ℕ, Bool, true, false, not, ◌&&◌, ◌||◌, Option, none, some, List, [], ◌∷◌, String, if◌then◌else◌,
}
use geo_device.Errors.{
  Exn, integrity_error, key_error, value_error, not_found_error, conflict_error,
}
use geo_device.Exec.{Exec, Result, ok, raised, pure, raise, lift, try_except, ◌>>=◌, ◌>>◌}
use geo_device.Pings.{Float, Datetime}

pub record GeozoneCreateRequest : Type 0 where
  pub name : String
  pub lat : Float
  pub lon : Float
  pub radius_m : Float

-- A field of an update: left out, given as null, or given with a value.
pub data Field (A : Type 0) : Type 0 where
  unset null : Field A
  given : A → Field A

pub record GeozoneUpdateRequest : Type 0 where
  pub name : Field String
  pub lat : Field Float
  pub lon : Field Float
  pub radius_m : Field Float

pub record GeozoneResponse : Type 0 where
  pub id : ℕ
  pub user_id : String
  pub name : String
  pub lat : Float
  pub lon : Float
  pub radius_m : Float
  pub created_at : Datetime
  pub updated_at : Datetime

abbrev pub is_null : {A : Type 0} → Field A → Bool
is_null null = true
is_null _ = false

-- What the attribute of a field reads.
abbrev pub attribute : {A : Type 0} → Field A → Option A
attribute (given a) = some a
attribute _ = none

abbrev pub is_none : {A : Type 0} → Option A → Bool
is_none none = true
is_none (some a) = false

-- Exclusive or.
abbrev pub differ : Bool → Bool → Bool
differ true b = not b
differ false b = b

-- `check_fields`, behind the checks of the single fields
unfoldable pub check_fields : GeozoneUpdateRequest → Result GeozoneUpdateRequest
check_fields r =
    if is_null r.name || is_null r.lat || is_null r.lon || is_null r.radius_m
    then raised value_error
    else (if differ (is_none (attribute r.lat)) (is_none (attribute r.lon))
        then raised value_error
        else ok r)

-- The columns that an update sets; the center is a point of `lat` and `lon`, either of which may be
-- null.
pub record Values : Type 0 where
  pub name : Field String
  pub radius_m : Field Float
  pub center : Option (Option Float × Option Float)

-- The center by `"lat" in fields`, `fields["lat"]` and `fields["lon"]`.
unfoldable pub center_of : Field Float → Field Float → Result (Option (Option Float × Option Float))
center_of unset lon = ok none
center_of lat unset = raised key_error
center_of lat lon = ok (some (attribute lat, attribute lon))

-- The values that `update` makes of a request.
unfoldable pub values_of : GeozoneUpdateRequest → Result Values
unfolding center_of
values_of r = elim (center_of r.lat r.lon) [
  | ok center ↦ ok (record { name = r.name; radius_m = r.radius_m; center = center })
  | raised e ↦ raised e
]

-- A comparison of a `where`: with a value of the column `id` or `user_id`.
pub data Condition : Type 0 where
  id_is : ℕ → Condition
  user_is : String → Condition

-- `Geozone.id == id, Geozone.user_id == user_id`
unfoldable pub by_id_and_user : ℕ → String → List Condition
by_id_and_user id user_id = id_is id ∷ user_is user_id ∷ []

-- A point as `ST_MakePoint(x, y)` makes it; `_READ_COLUMNS` reads `ST_Y` as `lat` and `ST_X` as `lon`.
pub record Point : Type 0 where
  pub x : Float
  pub y : Float

unfoldable pub make_point : (lat lon : Float) → Point
make_point lat lon = record { x = lon; y = lat }

-- The values of an insertion.
pub record NewGeozone : Type 0 where
  pub user_id : String
  pub name : String
  pub center : Point
  pub radius_m : Float

unfoldable pub new_geozone : String → GeozoneCreateRequest → NewGeozone
unfolding make_point
new_geozone user_id payload = record {
  user_id = user_id;
  name = payload.name;
  center = make_point payload.lat payload.lon;
  radius_m = payload.radius_m;
}

-- What the database does with the statements of the service, each with the row that it returns; and
-- the texts of Python.
pub record Table (W : Type 0) : Type 0 where
  pub insert : NewGeozone → Exec W GeozoneResponse
  -- in the order of creation, the last one first
  pub select_page : List Condition → (limit offset : ℕ) → Exec W (List GeozoneResponse)
  pub select_one : List Condition → Exec W (Option GeozoneResponse)
  pub update_one : List Condition → Values → Exec W (Option GeozoneResponse)
  pub delete_one : List Condition → Exec W (Option ℕ)
  pub commit : Exec W (Unit {0})
  pub rollback : Exec W (Unit {0})
  pub repr : String → String
  pub str : ℕ → String

abbrev pub is_integrity_error : Exn → Bool
is_integrity_error integrity_error = true
is_integrity_error _ = false

module _ {W : Type 0} (table : Table W) where
  open table use {
    insert, select_page, select_one, update_one, delete_one, commit, rollback, repr, str,
  }

  abbrev pub missing : ℕ → Exn
  missing id = not_found_error (append "Geozone " (append (str id) " not found"))

  abbrev pub name_exists : String → Exn
  name_exists name = conflict_error (append "Geozone named " (append (repr name) " already exists"))

  -- `await self._session.rollback()`, and then the error
  unfoldable pub give_up : {A : Type 0} → Exn → Exec W A
  unfolding raise ◌>>=◌
  give_up e = rollback >> raise e

  unfoldable pub create : String → GeozoneCreateRequest → Exec W GeozoneResponse
  unfolding pure try_except new_geozone give_up ◌>>=◌
  create user_id payload =
      try_except (do row ← insert (new_geozone user_id payload); commit; pure row)
        is_integrity_error (λ e. give_up (name_exists payload.name))

  unfoldable pub list : String → ℕ → ℕ → Exec W (List GeozoneResponse)
  list user_id limit offset = select_page (user_is user_id ∷ []) limit offset

  unfoldable pub found : {A : Type 0} → ℕ → Option A → Exec W A
  unfolding pure raise
  found id none = raise (missing id)
  found id (some row) = pure row

  unfoldable pub retrieve : ℕ → String → Exec W GeozoneResponse
  unfolding found by_id_and_user ◌>>=◌
  retrieve id user_id = select_one (by_id_and_user id user_id) >>= found id

  -- The end of `update` and `delete`: a statement that met no row is rolled back.
  unfoldable pub conclude : {A : Type 0} → ℕ → Option A → Exec W A
  unfolding pure give_up ◌>>=◌
  conclude id none = give_up (missing id)
  conclude id (some row) = commit >> pure row

  unfoldable pub update : GeozoneResponse → GeozoneUpdateRequest → Exec W GeozoneResponse
  unfolding lift values_of try_except by_id_and_user give_up conclude ◌>>=◌
  update geozone payload = do
    values ← lift (values_of payload)
    row ←
        try_except (update_one (by_id_and_user geozone.id geozone.user_id) values)
          is_integrity_error (λ e. give_up (conflict_error "Geozone name is already taken"))
    conclude geozone.id row

  unfoldable pub delete : GeozoneResponse → Exec W (Unit {0})
  unfolding pure by_id_and_user conclude ◌>>=◌
  delete geozone =
      (delete_one (by_id_and_user geozone.id geozone.user_id) >>= conclude geozone.id) >> pure tt
