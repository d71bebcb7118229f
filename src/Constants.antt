-- ===== src/Constants.antt =====
-- app/pipeline/constants.py and the constants of app/core/utils.py that the model uses. Durations
-- are in milliseconds.
use geo_device.Prelude.{ℕ, List, [], ◌∷◌, String}

-- Bytes as numbers.
abbrev pub Bytes : Type 0
Bytes = List ℕ

abbrev pub stream : String
stream = "pings"

abbrev pub group : String
group = "writers"

-- `b"p"`
abbrev pub payload_field : Bytes
payload_field = b'p' ∷ []

abbrev pub new_messages : String
new_messages = ">"

abbrev pub pending_messages : String
pending_messages = "0"

abbrev pub group_exists_prefix : String
group_exists_prefix = "BUSYGROUP"

abbrev pub read_count : ℕ
read_count = 4

abbrev pub block_ms : ℕ
block_ms = 200

abbrev pub position_flush_jitter : ℕ
position_flush_jitter = 250

abbrev pub claim_idle_ms : ℕ
claim_idle_ms = 30_000

abbrev pub claim_interval : ℕ
claim_interval = 10_000

abbrev pub claim_jitter : ℕ
claim_jitter = 2_000

abbrev pub pending_pings_key : String
pending_pings_key = "pings:pending"

abbrev pub retention_max_passes : ℕ
retention_max_passes = 100

abbrev pub supervisor_check_interval : ℕ
supervisor_check_interval = 5_000

abbrev pub supervisor_restart_delay : ℕ
supervisor_restart_delay = 1_000

abbrev pub task_stall_timeout : ℕ
task_stall_timeout = 60_000

abbrev pub flapping_window : ℕ
flapping_window = 120_000

abbrev pub flapping_restarts : ℕ
flapping_restarts = 3

abbrev pub retry_after_s : ℕ
retry_after_s = 1

abbrev pub retry_backoff : ℕ
retry_backoff = 500

abbrev pub retry_backoff_max : ℕ
retry_backoff_max = 15_000
