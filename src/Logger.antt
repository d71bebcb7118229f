-- ===== src/Logger.antt =====
-- `configure_logging` of app/core/logger.py, on the loggers of `logging` and the configuration of
-- structlog. The processors are named; what they do with an event is structlog's.
pub mod Configured
mod Tests
use geo_device.Prelude.{
  ℕ, Bool, true, false, Option, none, some, List, [], ◌∷◌, ◌++◌, String, ite, ◌≟◌, string_key,
  String_discrete,
}

-- The processors and renderers that the program hands to structlog.
pub data Processor : Type 0 where
  merge_contextvars add_logger_name add_log_level positional_arguments : Processor
  stack_info set_exc_info wrap_for_formatter remove_processors_meta : Processor
  time_stamper : (fmt : String) → Processor
  console_renderer json_renderer : Processor

pub record Formatter : Type 0 where
  pub foreign_pre_chain : List Processor
  pub processors : List Processor

-- A handler; the program adds one, on standard output.
pub data Handler : Type 0 where
  stdout_handler : Formatter → Handler
  other_handler : ℕ → Handler

pub record Log : Type 0 where
  pub level : ℕ
  pub handlers : List Handler
  pub propagate : Bool

-- `structlog.configure`: its processors, and the level of its bound logger.
pub record Structlog : Type 0 where
  pub processors : List Processor
  pub level : ℕ

pub record Logging : Type 0 where
  pub root : Log
  pub named : String → Log
  pub structlog : Option Structlog

abbrev pub shared_processors : List Processor
shared_processors =
    merge_contextvars
    ∷ add_logger_name
    ∷ add_log_level
    ∷ positional_arguments
    ∷ stack_info
    ∷ set_exc_info
    ∷ time_stamper "iso"
    ∷ []

-- `structlog.dev.ConsoleRenderer() if config.ENV == "DEV" else …`
unfoldable pub renderer : (is_dev : Bool) → Processor
renderer true = console_renderer
renderer false = json_renderer

abbrev pub formatter : Bool → Formatter
formatter is_dev = record {
  foreign_pre_chain = shared_processors;
  processors = remove_processors_meta ∷ renderer is_dev ∷ [];
}

unfoldable pub configure_root : ℕ → Bool → Log → Log
configure_root level is_dev log = record log {
  level = level;
  handlers = stdout_handler (formatter is_dev) ∷ [];
}

unfoldable pub hand_over : String → (String → Log) → String → Log
hand_over name named other =
    ite (name ≟ other) (record (named other) { handlers = []; propagate = true }) (named other)

-- `for name in (…)`
unfoldable pub hand_over_all : List String → (String → Log) → String → Log
unfolding hand_over
hand_over_all [] named = named
hand_over_all (name ∷ names) named = hand_over_all names (hand_over name named)

abbrev pub server_loggers : List String
server_loggers = "uvicorn" ∷ "uvicorn.access" ∷ "uvicorn.error" ∷ []

unfoldable pub configure_logging : (level : ℕ) (is_dev : Bool) → Logging → Logging
unfolding configure_root hand_over_all renderer
configure_logging level is_dev s = record {
  root = configure_root level is_dev s.root;
  named = hand_over_all server_loggers s.named;
  structlog =
      some (record { processors = shared_processors ++ wrap_for_formatter ∷ []; level = level });
}
