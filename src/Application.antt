-- ===== src/Application.antt =====
-- app/main.py: the application that is made of the routers and the configuration.
use geo_device.Prelude.{Bool, true, Option, none, some, List, [], ◌∷◌, ◌++◌, String, if◌then◌else◌}
use geo_device.Config.{Settings, is_dev}

pub data Method : Type 0 where
  get post patch delete websocket : Method

-- A route by its method and its whole path, below the root path.
pub record Route : Type 0 where
  pub method : Method
  pub path : String

-- `CORSMiddleware`
pub record Cors : Type 0 where
  pub allow_origins : List String
  pub allow_credentials : Bool
  pub allow_methods : List String
  pub allow_headers : List String

pub record Application : Type 0 where
  pub title : String
  pub version : String
  pub root_path : String
  pub openapi_url : Option String
  pub cors : Cors
  pub routes : List Route
  -- the page, under `/ui`
  pub has_page : Bool
  -- the handler of `AppError`
  pub has_handler : Bool

abbrev route : Method → String → Route
route method path = record { method = method; path = path }

abbrev pub device_router : List Route
device_router = route post "/ingest/batch" ∷ []

abbrev pub geozone_router : List Route
geozone_router =
    route post "/geozones"
    ∷ route get "/geozones"
    ∷ route get "/geozones/{id}"
    ∷ route patch "/geozones/{id}"
    ∷ route delete "/geozones/{id}"
    ∷ []

abbrev pub realtime_router : List Route
realtime_router = route websocket "/ws" ∷ []

-- With whether the directory of the page is there.
unfoldable pub app : Settings → Bool → Application
app settings page_is_dir = record {
  title = settings.api.name;
  version = settings.api.version;
  root_path = "/api/v1";
  openapi_url = if is_dev settings.env then some "/openapi.json" else none;
  cors = record {
    allow_origins = settings.api.allowed_hosts;
    allow_credentials = settings.api.allow_credentials;
    allow_methods = settings.api.allowed_methods;
    allow_headers = settings.api.allowed_headers;
  };
  routes = device_router ++ geozone_router ++ realtime_router ++ route get "/health" ∷ [];
  has_page = page_is_dir;
  has_handler = true;
}
