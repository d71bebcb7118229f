-- ===== src/DeviceService/Queued.antt =====
-- The commands of `publish` for the points of a request, as a description of their own.
use geo_device.Prelude.{◌<◌, ◌≡◌, refl, List, [], ◌∷◌, ◌++◌, flat, map, length, arith}
use geo_device.Batched.{IsBatching, batched, flat-batched, batched-IsBatching}
use geo_device.Constants.{stream, payload_field, pending_pings_key}
use geo_device.Pings.{Ping, Formats}
use geo_device.Pings.Codec.{encode_pings}
use geo_device.Services.{Command, xadd, incrby}
use geo_device.Settings.{IngestSettings}
use geo_device.Stream.{publish_commands}
use geo_device.DeviceService.{LocationRequest, to_ping}

-- The pings have the fields of the points.
abbrev pub ArePings : List LocationRequest → List Ping → Type 0
ArePings [] [] = Unit
ArePings (point ∷ points) (ping ∷ pings) =
    ((ping.device_id ≡ point.device_id)
      × (ping.lat ≡ point.lat)
      × (ping.lon ≡ point.lon)
      × (ping.recorded_at ≡ point.recorded_at))
    × ArePings points pings
ArePings _ _ = ⊥

to_ping-ArePings : (points : List LocationRequest) → ArePings points (map to_ping points)
unfolding to_ping
to_ping-ArePings [] = tt
to_ping-ArePings (p ∷ points) = ((refl, refl, refl, refl), to_ping-ArePings points)

length-to_ping : (points : List LocationRequest) → length (map to_ping points) ≡ length points
length-to_ping [] = refl
length-to_ping (p ∷ points) = omega (arith, length-to_ping points)

module _ (formats : Formats) (settings : IngestSettings) where
  abbrev pub publishes : List LocationRequest → List Command
  publishes points = publish_commands formats settings (map to_ping points)

  -- The commands add exactly the points: in order, in batches of the chunk size, each of which is
  -- one entry of the stream, and the counter goes up by their number.
  abbrev pub Carries : List LocationRequest → List Command → Type 0
  Carries points commands =
      (pings : List Ping) × (batches : List (List Ping)) × ArePings points pings
      × (flat batches ≡ pings)
      × IsBatching settings.chunk_size batches
      × (commands
          ≡ map (λ b. xadd stream payload_field (encode_pings formats b) settings.stream_max_len)
              batches
            ++ incrby pending_pings_key (length points) ∷ [])

  pub publishes-Carries :
      (points : List LocationRequest) → 0 < settings.chunk_size → Carries points (publishes points)
  unfolding publish_commands
  publishes-Carries points h = (
    map to_ping points,
    batched settings.chunk_size (map to_ping points),
    to_ping-ArePings points,
    flat-batched settings.chunk_size (map to_ping points),
    batched-IsBatching settings.chunk_size (map to_ping points) h,
    rw (length-to_ping points) refl,
  )
