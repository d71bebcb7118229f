-- ===== src/Config.antt =====
-- The settings that app/core/config.py and app/pipeline/config.py make urls and levels of. A
-- duration is in milliseconds.
use Prim.Native.String.{◌++◌ as append, len}
use geo_device.Prelude.{
  ℕ, Bool, true, false, Option, none, some, List, [], ◌∷◌, String, ◌==◌, if◌then◌else◌,
}
use geo_device.Settings.{IngestSettings, defaults}

pub record DatabaseSettings : Type 0 where
  pub database : String
  pub user : String
  pub password : String
  pub host : String
  pub port : ℕ
  pub pool_size : ℕ
  pub max_overflow : ℕ
  pub pool_timeout : ℕ
  pub connect_timeout : ℕ
  pub command_timeout : ℕ
  pub healthcheck_timeout : ℕ
  pub test_database : String
  pub test_host : String

abbrev pub database_defaults : DatabaseSettings
database_defaults = record {
  database = "";
  user = "";
  password = "";
  host = "";
  port = 0;
  pool_size = 5;
  max_overflow = 10;
  pool_timeout = 10_000;
  connect_timeout = 5_000;
  command_timeout = 15_000;
  healthcheck_timeout = 3_000;
  test_database = "";
  test_host = "localhost";
}

pub record RedisSettings : Type 0 where
  pub host : String
  pub port : ℕ
  pub db : ℕ
  pub socket_timeout : ℕ
  pub connect_timeout : ℕ
  pub healthcheck_timeout : ℕ
  pub test_host : String
  pub test_db : ℕ

abbrev pub redis_defaults : RedisSettings
redis_defaults = record {
  host = "localhost";
  port = 6_379;
  db = 0;
  socket_timeout = 5_000;
  connect_timeout = 5_000;
  healthcheck_timeout = 3_000;
  test_host = "localhost";
  test_db = 15;
}

-- `f"+{driver}" if driver else ""`
abbrev pub driver_part : Option String → String
driver_part none = ""
driver_part (some driver) = if len driver == 0 then "" else append "+" driver

-- `str` writes a number.
module _ (str : ℕ → String) where
  module _ (settings : DatabaseSettings) where
    unfoldable pub build_url : (host database : String) → Option String → String
    build_url host database driver = append "postgresql" (
        append (driver_part driver) (
          append "://" (
            append settings.user (
              append ":" (
                append settings.password (
                  append "@" (
                    append host
                      (append ":" (append (str settings.port) (append "/" database))))))))))

    unfoldable pub get_url : Option String → String
    unfolding build_url
    get_url driver = build_url settings.host settings.database driver

    unfoldable pub get_test_url : Option String → String
    unfolding build_url
    get_test_url driver = build_url settings.test_host settings.test_database driver

  -- The two urls of redis, which differ in the host and the database.
  unfoldable pub redis_url : RedisSettings → String
  redis_url settings = append "redis://" (
      append settings.host (append ":" (append (str settings.port) (append "/" (str settings.db)))))

  unfoldable pub redis_test_url : RedisSettings → String
  unfolding redis_url
  redis_test_url settings =
      redis_url (record settings { host = settings.test_host; db = settings.test_db })

pub record LoggerSettings : Type 0 where
  pub level : ℕ
  pub level_name : String

-- The level of a name that `logging` does not know is that of `INFO`, 20; `levels` is
-- `logging.getLevelNamesMapping().get` and `upper` is `str.upper`.
unfoldable pub set_level :
    (levels : String → Option ℕ) (upper : String → String) → LoggerSettings → LoggerSettings
set_level levels upper settings = record settings {
  level = elim (levels (upper settings.level_name)) [ none ↦ 20 | some level ↦ level ];
}

-- `APISettings`
pub record ApiSettings : Type 0 where
  pub name : String
  pub version : String
  pub port : ℕ
  pub workers : ℕ
  pub allowed_hosts : List String
  pub allow_credentials : Bool
  pub allowed_methods : List String
  pub allowed_headers : List String

abbrev pub api_defaults : ApiSettings
api_defaults = record {
  name = "GEO Device";
  version = "1.0.0";
  port = 8_000;
  workers = 1;
  allowed_hosts = "http://localhost:3000" ∷ [];
  allow_credentials = true;
  allowed_methods = "*" ∷ [];
  allowed_headers = "*" ∷ [];
}

pub record RealtimeSettings : Type 0 where
  pub queue_size : ℕ

abbrev pub realtime_defaults : RealtimeSettings
realtime_defaults = record { queue_size = 64 }

-- `ENV`
pub data Environment : Type 0 where
  dev prod : Environment

abbrev pub is_dev : Environment → Bool
is_dev dev = true
is_dev prod = false

pub record Settings : Type 0 where
  pub env : Environment
  pub api : ApiSettings
  pub logging : LoggerSettings
  pub database : DatabaseSettings
  pub ingest : IngestSettings
  pub redis : RedisSettings
  pub realtime : RealtimeSettings

-- With nothing in the environment: `set_level` runs on the settings of the log.
unfoldable pub default_settings : (String → Option ℕ) → (String → String) → Settings
unfolding set_level
default_settings levels upper = record {
  env = prod;
  api = api_defaults;
  logging = set_level levels upper (record { level = 0; level_name = "INFO" });
  database = database_defaults;
  ingest = defaults;
  redis = redis_defaults;
  realtime = realtime_defaults;
}
