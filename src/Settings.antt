-- ===== src/Settings.antt =====
-- `IngestSettings` of app/pipeline/config.py: durations in seconds, or in milliseconds where the
-- source has a float.
use geo_device.Prelude.{ℕ}

pub record IngestSettings : Type 0 where
  pub workers : ℕ
  pub chunk_size : ℕ
  pub max_http_batch_size : ℕ
  pub backlog_limit : ℕ
  pub stream_max_len : ℕ
  pub drain_timeout : ℕ
  pub zone_entry_ttl_s : ℕ
  pub position_flush_interval : ℕ
  pub max_ping_age_s : ℕ
  pub max_ping_skew_s : ℕ
  pub retention_days : ℕ
  pub retention_interval : ℕ
  pub retention_batch_size : ℕ

abbrev pub defaults : IngestSettings
defaults = record {
  workers = 4;
  chunk_size = 500;
  max_http_batch_size = 1_000;
  backlog_limit = 200_000;
  stream_max_len = 4_000;
  drain_timeout = 10_000;
  zone_entry_ttl_s = 60;
  position_flush_interval = 1_000;
  max_ping_age_s = 86_400;
  max_ping_skew_s = 300;
  retention_days = 7;
  retention_interval = 3_600_000;
  retention_batch_size = 50_000;
}
