-- ===== src/DeviceService.antt =====
-- `DeviceService.save_points` of app/domains/devices/service.py.
pub mod Requests
pub mod Queued
pub mod Answered
pub mod Admission
mod Tests
use geo_device.Prelude.{
  ℕ, Bool, true, false, Option, some, List, String, map, length, ltb, if◌then◌else◌,
}
use geo_device.Constants.{retry_after_s}
use geo_device.Errors.{Exn, redis_errors, service_unavailable_error}
use geo_device.Exec.{Exec, pure, raise, try_except, ◌>>=◌, ◌>>◌}
use geo_device.Pings.{Float, Datetime, Ping, Formats}
use geo_device.Services.{Redis}
use geo_device.Settings.{IngestSettings}
use geo_device.Stream
use geo_device.Trace.{Run}

-- `LocationRequest`, once it is validated
pub record LocationRequest : Type 0 where
  pub device_id : String
  pub lat : Float
  pub lon : Float
  pub recorded_at : Datetime

pub record LocationAcceptedResponse : Type 0 where
  pub accepted : ℕ
  pub backlog : ℕ

unfoldable pub to_ping : LocationRequest → Ping
to_ping point = record {
  device_id = point.device_id;
  lat = point.lat;
  lon = point.lon;
  recorded_at = point.recorded_at;
}

abbrev pub backlog_full : Exn
backlog_full = service_unavailable_error "Ingest backlog is full, retry later" (some retry_after_s)

abbrev pub queue_unavailable : Exn
queue_unavailable =
    service_unavailable_error "Ingest queue is unavailable, retry later" (some retry_after_s)

module _ {W : Type 0} (redis : Redis W) (formats : Formats) (settings : IngestSettings) where
  -- The `try` block behind the read of the backlog.
  unfoldable pub admit : List LocationRequest → ℕ → Exec (Run W) ℕ
  unfolding to_ping pure raise Stream.publish ◌>>=◌
  admit points backlog =
      if ltb settings.backlog_limit backlog
      then raise backlog_full
      else Stream.publish redis formats settings (map to_ping points) >> pure backlog

  unfoldable pub save_points : List LocationRequest → Exec (Run W) LocationAcceptedResponse
  unfolding pure raise try_except admit Stream.get_backlog ◌>>=◌
  save_points points = do
    backlog ←
        try_except (Stream.get_backlog redis >>= admit points) redis_errors
          (λ e. raise queue_unavailable)
    pure (record { accepted = length points; backlog = backlog })
