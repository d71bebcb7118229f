-- ===== src/Logger/Tests.antt =====
-- Loggers that were configured before.
use geo_device.Prelude.{◌≡◌, true, false, none, [], ◌∷◌, All, In, String}
use geo_device.Logger.{Logging, other_handler, server_loggers, configure_logging}
use geo_device.Logger.Configured.{quiet, configure_logging-last}

abbrev before : Logging
before = record {
  root = record { level = 30; handlers = other_handler 1 ∷ other_handler 2 ∷ []; propagate = true };
  named = λ name. record { level = 0; handlers = other_handler 3 ∷ []; propagate = false };
  structlog = none;
}

configure_logging-last_example :
    (configure_logging 20 false (configure_logging 10 true before)
      ≡ configure_logging 20 false before)
    × All
        (λ name. (configure_logging 20 false before).named name ≡ quiet (before.named name))
        server_loggers
    × ((name : String)
        → (¬ In name server_loggers)
        → (configure_logging 20 false before).named name ≡ before.named name)
configure_logging-last_example = configure_logging-last 20 10 false true before
