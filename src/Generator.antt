-- ===== src/Generator.antt =====
-- generator.py: simulated devices that report their locations in batches.
pub mod Counting
pub mod Ticks
mod Tests
use geo_device.Prelude.{
  ℕ, zero, suc, ◌+◌, Bool, List, [], ◌∷◌, map, String, length, if◌then◌else◌, ◌==◌,
}
use geo_device.Batched.{batched}
use geo_device.Pings.{Float}

pub record Device : Type 0 where
  pub device_id : String
  pub lat : Float
  pub lon : Float

-- What `to_payload` makes of a device.
pub record Point : Type 0 where
  pub device_id : String
  pub lat : Float
  pub lon : Float
  pub recorded_at : String

pub record TickStats : Type 0 where
  pub accepted : ℕ
  pub rejected : ℕ
  pub failed : ℕ

abbrev pub no_stats : TickStats
no_stats = record { accepted = 0; rejected = 0; failed = 0 }

unfoldable pub merge : TickStats → TickStats → TickStats
merge stats other = record {
  accepted = stats.accepted + other.accepted;
  rejected = stats.rejected + other.rejected;
  failed = stats.failed + other.failed;
}

abbrev pub batch_size : ℕ
batch_size = 500

-- `httpx.codes.SERVICE_UNAVAILABLE`
abbrev pub service_unavailable : ℕ
service_unavailable = 503

-- The answer to a request: an `httpx.HTTPError`, or a response.
pub data Answer : Type 0 where
  http_error : Answer
  response : (is_success : Bool) (status_code : ℕ) → Answer

-- Random numbers and the arithmetic of floats: `random.uniform(-delta, delta)` added to a
-- coordinate, and `f"dev-{index:05d}"`.
pub record Chance (W : Type 0) : Type 0 where
  pub moved : (delta coordinate : Float) → W → Float × W
  pub device_name : ℕ → String

-- The HTTP client, and the clock.
pub record Client (W : Type 0) : Type 0 where
  pub post : (url : String) → List Point → W → Answer × W
  pub now : W → String

module _ {W : Type 0} (chance : Chance W) where
  unfoldable pub drift : Float → Device → W → Device × W
  drift delta device w =
      let (lat, w1) = chance.moved delta device.lat w in
      let (lon, w2) = chance.moved delta device.lon w1 in
      (record device { lat = lat; lon = lon }, w2)

  unfoldable pub drift_all : Float → List Device → W → List Device × W
  unfolding drift
  drift_all delta [] w = ([], w)
  drift_all delta (device ∷ devices) w =
      let (moved, w1) = drift delta device w in
      let (rest, w2) = drift_all delta devices w1 in (moved ∷ rest, w2)

  -- The devices from `index` on, around a center.
  unfoldable pub build_from : (lat lon spread : Float) → ℕ → ℕ → W → List Device × W
  build_from lat lon spread index zero w = ([], w)
  build_from lat lon spread index (suc count) w =
      let (device_lat, w1) = chance.moved spread lat w in
      let (device_lon, w2) = chance.moved spread lon w1 in
      let (rest, w3) = build_from lat lon spread (index + 1) count w2 in
      (
        record { device_id = chance.device_name index; lat = device_lat; lon = device_lon } ∷ rest,
        w3,
      )

  unfoldable pub build_devices : (lat lon spread : Float) → ℕ → W → List Device × W
  unfolding build_from
  build_devices lat lon spread count w = build_from lat lon spread 0 count w

unfoldable pub to_payload : String → Device → Point
to_payload recorded_at device = record {
  device_id = device.device_id;
  lat = device.lat;
  lon = device.lon;
  recorded_at = recorded_at;
}

-- What `send_batch` returns for an answer to a batch of `n` devices.
unfoldable pub stats_of : Answer → ℕ → TickStats
stats_of http_error n = record no_stats { failed = n }
stats_of (response is_success status_code) n =
    if is_success
    then record no_stats { accepted = n }
    else (if status_code == service_unavailable
        then record no_stats { rejected = n }
        else record no_stats { failed = n })

module _ {W : Type 0} (client : Client W) (url : String) where
  unfoldable pub send_batch : List Device → W → TickStats × W
  unfolding to_payload stats_of
  send_batch devices w =
      let (answer, w1) = client.post url (map (to_payload (client.now w)) devices) w in
      (stats_of answer (length devices), w1)

  -- `gather` runs the requests in some order; the answers come back in the order of the batches.
  unfoldable pub send_batches : List (List Device) → W → List TickStats × W
  unfolding send_batch
  send_batches [] w = ([], w)
  send_batches (batch ∷ batches) w =
      let (stats, w1) = send_batch batch w in
      let (rest, w2) = send_batches batches w1 in (stats ∷ rest, w2)

-- The loop over the results.
unfoldable pub merge_all : TickStats → List TickStats → TickStats
unfolding merge
merge_all total [] = total
merge_all total (stats ∷ results) = merge_all (merge total stats) results

module _ {W : Type 0} (chance : Chance W) (client : Client W) (url : String) where
  -- The devices change in place: they come back beside the total.
  unfoldable pub run_tick : Float → List Device → W → TickStats × List Device × W
  unfolding drift_all batched send_batches merge_all
  run_tick delta devices w =
      let (moved, w1) = drift_all chance delta devices w in
      let (results, w2) = send_batches client url (batched batch_size moved) w1 in
      (merge_all no_stats results, moved, w2)
