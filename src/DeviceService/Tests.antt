-- ===== src/DeviceService/Tests.antt =====
-- Two points, with a counter that stands below the limit.
use geo_device.Prelude.{
  ℕ, ◌+◌, ◌-◌, ◌≡◌, ◌≢◌, refl, Bool, true, ltb, leb, ◌==◌, if◌then◌else◌, arith, none, some, [],
  ◌∷◌,
}
use geo_device.Prelude.Int.{pos}
use geo_device.Exec.{ok}
use geo_device.Pings.{Float}
use geo_device.Pings.Sample.{formats}
use geo_device.Services.{Redis}
use geo_device.Settings.{defaults}
use geo_device.Trace.{Run}
use geo_device.DeviceService.Answered.{Answered, ingest_batch-Answered}
use geo_device.DeviceService.Requests.{
  PointBody, ingest_batch, ingest_valid, unprocessable, validate_batch, validate_points,
  validate_point, is_device_id, is_latitude, is_longitude,
}

-- The world is the counter.
abbrev redis : Redis ℕ
redis = record {
  xreadgroup = λ consumer entry_id count block n. (ok [], n);
  xautoclaim = λ consumer min_idle_time count n. (ok [], n);
  xinfo_groups = λ stream n. (ok [], n);
  xgroup_create = λ stream group id n. (ok tt, n);
  get = λ key n. (ok (some (pos n)), n);
  set = λ key value n. (ok tt, value);
  execute = λ commands n. (ok tt, n);
  run_scripts = λ calls n. (ok [], n);
  publish_now = λ channel payload n. (ok tt, n);
}

abbrev started : Run ℕ
started = record { world = 7; trace = [] }

-- The point 48.0, 11.5.
abbrev body : PointBody
body = record {
  device_id = "a";
  lat = record { bits = 4_631_952_216_750_555_136 };
  lon = record { bits = 4_622_663_542_519_103_488 };
  recorded_at = none;
}

abbrev sign_bit : ℕ
sign_bit = 9_223_372_036_854_775_808

-- The order of binary64 by its bits, but for a NaN: positive numbers in the order of their patterns,
-- negative ones in the opposite order and below them; both zeros are equal.
abbrev le : Float → Float → Bool
le x y =
    if ltb x.bits sign_bit
    then (if ltb y.bits sign_bit then leb x.bits y.bits else x.bits + (y.bits - sign_bit) == 0)
    else (if ltb y.bits sign_bit then true else leb y.bits x.bits)

-- A latitude of 115, and one of -48.
abbrev too_far_north : PointBody
too_far_north = record body { lat = record { bits = 4_637_792_822_517_301_248 } }

abbrev south : PointBody
south = record body { lat = record { bits = 13_855_324_253_605_330_944 } }

rejects_north :
    (ingest_batch redis formats defaults le (λ i. 5 + i) (body ∷ too_far_north ∷ []) started).0
    ≡ ok unprocessable
unfolding ingest_batch validate_batch validate_points validate_point is_device_id is_latitude
    is_longitude ingest_valid
rejects_north = refl

accepts_south : validate_batch le defaults (λ i. 5 + i) (south ∷ []) ≢ none
unfolding validate_batch validate_points validate_point is_device_id is_latitude is_longitude
accepts_south e = cc

ingest_batch-Answered_example :
    Answered redis formats defaults le
      (body ∷ body ∷ [])
      []
      (ingest_batch redis formats defaults le (λ i. 5 + i) (body ∷ body ∷ []) started).0
      (ingest_batch redis formats defaults le (λ i. 5 + i) (body ∷ body ∷ []) started).1.trace
ingest_batch-Answered_example =
    ingest_batch-Answered redis formats defaults le (body ∷ body ∷ []) (λ i. 5 + i) started
      (omega arith)
