-- ===== src/Migrations.antt =====
-- The revisions of migrations/versions, as lists of the operations of alembic, and the tables of
-- app/domains/geozones/models.py and app/domains/devices/models.py.
pub mod Online
pub mod Undone
mod OnlineTests
mod Tests
use geo_device.Prelude.{ℕ, Bool, true, false, Option, none, some, List, [], ◌∷◌, ◌++◌, String}
use geo_device.Exec.{Exec, pure, for_each, ◌>>=◌, ◌>>◌}

pub data ColumnType : Type 0 where
  integer big_integer float timestamp_with_time_zone : ColumnType
  string : (length : ℕ) → ColumnType
  -- with no spatial index of its own
  geography geometry : (geometry_type : String) (srid : ℕ) → ColumnType

pub record Column : Type 0 where
  pub name : String
  pub column_type : ColumnType
  pub server_default : Option String

-- No column of the program may be null.
abbrev column : String → ColumnType → Column
column name column_type = record { name = name; column_type = column_type; server_default = none }

pub data Constraint : Type 0 where
  check : (name condition : String) → Constraint
  primary_key unique : (name : String) (columns : List String) → Constraint

-- The operations; the statements that `op.execute` is given are named by what they make.
pub data Op : Type 0 where
  create_extension drop_extension : String → Op
  create_function drop_function : String → Op
  create_trigger : (name table function : String) → Op
  create_table : (name : String) → List Column → List Constraint → Op
  drop_table : String → Op
  create_index : (name table : String) (columns : List String) (method : Option String) → Op
  drop_index : String → Op

pub record Revision : Type 0 where
  pub revision : String
  pub down_revision : Option String
  pub upgrade : List Op
  pub downgrade : List Op

abbrev pub enable_postgis : Revision
enable_postgis = record {
  revision = "0001";
  down_revision = none;
  upgrade = create_extension "postgis" ∷ [];
  downgrade = drop_extension "postgis" ∷ [];
}

abbrev point : ColumnType
point = geography "POINT" 4326

abbrev now_default : String → Column
now_default name = record {
  name = name;
  column_type = timestamp_with_time_zone;
  server_default = some "now()";
}

abbrev pub geozones_columns : List Column
geozones_columns =
    column "id" integer
    ∷ column "user_id" (string 64)
    ∷ column "name" (string 128)
    ∷ column "center" point
    ∷ column "radius_m" float
    ∷ column "bounds" (geometry "POLYGON" 4326)
    ∷ now_default "created_at"
    ∷ now_default "updated_at"
    ∷ []

abbrev pub geozones_constraints : List Constraint
geozones_constraints =
    check "ck_geozones_radius_range" "radius_m > 0 AND radius_m <= 100000.0"
    ∷ primary_key "pk_geozones" ("id" ∷ [])
    ∷ unique "uq_geozones_user_name" ("user_id" ∷ "name" ∷ [])
    ∷ []

abbrev pub add_geozones : Revision
add_geozones = record {
  revision = "0002";
  down_revision = some "0001";
  upgrade =
      create_function "geozones_set_bounds"
      ∷ create_table "geozones" geozones_columns geozones_constraints
      ∷ create_trigger "trg_geozones_set_bounds" "geozones" "geozones_set_bounds"
      ∷ create_index "ix_geozones_center_gist" "geozones" ("center" ∷ []) (some "gist")
      ∷ create_index "ix_geozones_bounds_gist" "geozones" ("bounds" ∷ []) (some "gist")
      ∷ [];
  downgrade =
      drop_index "ix_geozones_bounds_gist"
      ∷ drop_index "ix_geozones_center_gist"
      ∷ drop_table "geozones"
      ∷ drop_function "geozones_set_bounds"
      ∷ [];
}

abbrev pub location_pings_columns : List Column
location_pings_columns =
    column "id" big_integer
    ∷ column "device_id" (string 64)
    ∷ column "point" point
    ∷ column "recorded_at" timestamp_with_time_zone
    ∷ []

abbrev pub add_location_pings : Revision
add_location_pings = record {
  revision = "0003";
  down_revision = some "0002";
  upgrade =
      create_table "location_pings" location_pings_columns
        (primary_key "pk_location_pings" ("id" ∷ []) ∷ [])
      ∷ create_index "ix_pings_device_recorded" "location_pings" ("device_id" ∷ "recorded_at" ∷ [])
          none
      ∷ [];
  downgrade = drop_index "ix_pings_device_recorded" ∷ drop_table "location_pings" ∷ [];
}

-- The operations of alembic on the database.
module _ {W : Type 0} (run : Op → Exec W (Unit {0})) where
  unfoldable pub upgrade : Revision → Exec W (Unit {0})
  unfolding for_each
  upgrade revision = for_each revision.upgrade run

  unfoldable pub downgrade : Revision → Exec W (Unit {0})
  unfolding for_each
  downgrade revision = for_each revision.downgrade run

  -- `alembic upgrade head` and `alembic downgrade base`, along `down_revision`
  unfoldable pub upgrade_head : Exec W (Unit {0})
  unfolding upgrade ◌>>=◌
  upgrade_head = (upgrade enable_postgis >> upgrade add_geozones) >> upgrade add_location_pings

  unfoldable pub downgrade_base : Exec W (Unit {0})
  unfolding downgrade ◌>>=◌
  downgrade_base =
      (downgrade add_location_pings >> downgrade add_geozones) >> downgrade enable_postgis
