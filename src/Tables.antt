-- ===== src/Tables.antt =====
-- The tables of app/domains/geozones/models.py and app/domains/devices/models.py, in the terms of
-- the migrations. A column of a type that is not optional is not null.
use geo_device.Prelude.{ℕ, ◌≡◌, refl, none, some, List, [], ◌∷◌, String}
use geo_device.Migrations.{
  Op, create_index, Column, ColumnType, Constraint, check, unique, integer, big_integer, float,
  timestamp_with_time_zone, string, geography, geometry, geozones_columns, location_pings_columns,
}

abbrev pub max_name_length : ℕ
max_name_length = 128

abbrev pub srid : ℕ
srid = 4326

abbrev pub geography_point : ColumnType
geography_point = geography "POINT" srid

-- A declared table: the columns of its primary key among its columns, and the values that
-- SQLAlchemy sets on an update.
pub record Model : Type 0 where
  pub table_name : String
  pub columns : List Column
  pub primary_key : List String
  pub on_update : List (String × String)
  pub constraints : List Constraint
  pub indexes : List Op

abbrev mapped : String → ColumnType → Column
mapped name column_type = record { name = name; column_type = column_type; server_default = none }

abbrev stamped : String → Column
stamped name = record {
  name = name;
  column_type = timestamp_with_time_zone;
  server_default = some "now()";
}

abbrev pub geozone_model : Model
geozone_model = record {
  table_name = "geozones";
  columns =
      mapped "id" integer
      ∷ mapped "user_id" (string 64)
      ∷ mapped "name" (string max_name_length)
      ∷ mapped "center" geography_point
      ∷ mapped "radius_m" float
      ∷ mapped "bounds" (geometry "POLYGON" srid)
      ∷ stamped "created_at"
      ∷ stamped "updated_at"
      ∷ [];
  primary_key = "id" ∷ [];
  on_update = ("updated_at", "now()") ∷ [];
  constraints =
      check "ck_geozones_radius_range" "radius_m > 0 AND radius_m <= 100000.0"
      ∷ unique "uq_geozones_user_name" ("user_id" ∷ "name" ∷ [])
      ∷ [];
  indexes =
      create_index "ix_geozones_center_gist" "geozones" ("center" ∷ []) (some "gist")
      ∷ create_index "ix_geozones_bounds_gist" "geozones" ("bounds" ∷ []) (some "gist")
      ∷ [];
}

abbrev pub location_ping_model : Model
location_ping_model = record {
  table_name = "location_pings";
  columns =
      mapped "id" big_integer
      ∷ mapped "device_id" (string 64)
      ∷ mapped "point" geography_point
      ∷ mapped "recorded_at" timestamp_with_time_zone
      ∷ [];
  primary_key = "id" ∷ [];
  on_update = [];
  constraints = [];
  indexes =
      create_index "ix_pings_device_recorded" "location_pings" ("device_id" ∷ "recorded_at" ∷ [])
        none
      ∷ [];
}

-- The columns that the models declare are those that the migrations make.
geozone_columns-agree : geozone_model.columns ≡ geozones_columns
geozone_columns-agree = refl

location_ping_columns-agree : location_ping_model.columns ≡ location_pings_columns
location_ping_columns-agree = refl
