-- ===== src/Generator/Tests.antt =====
-- Two ticks of three devices: one that the service takes, and one that it refuses.
use geo_device.Prelude.{ℕ, ◌+◌, ◌≡◌, All, ◌*◌, ◌==◌, length}
use geo_device.Generator.{Chance, Client, response}
use geo_device.Generator.Ticks.{Timer, Args, default_args, IsCounted, generate, generate-IsCounted}

-- The world is the number of the requests so far.
abbrev chance : Chance ℕ
chance = record {
  moved = λ delta coordinate w. (record { bits = coordinate.bits + delta.bits }, w);
  device_name = λ n. "dev-00001";
}

abbrev client : Client ℕ
client = record {
  post = λ url points w. (response (w == 0) 503, w + 1);
  now = λ w. "2026-01-01T00:00:00+00:00";
}

abbrev timer : Timer ℕ
timer = record { monotonic = λ w. 100 * w; sleep = λ duration w. w }

abbrev args : Args
args = record default_args { devices = 3; url = "http://localhost" }

generate-IsCounted_example :
    All (IsCounted chance client timer args) (generate chance client timer args 2 0).0
    × (length (generate chance client timer args 2 0).0 ≡ 2)
generate-IsCounted_example = generate-IsCounted chance client timer args 2 0
