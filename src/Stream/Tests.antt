-- ===== src/Stream/Tests.antt =====
-- Two pings on the stream, in chunks of one.
use geo_device.Prelude.{◌≡◌, refl, arith, List, [], ◌∷◌, length, map}
use geo_device.Batched.{batched, batched_from, IsBatching}
use geo_device.Constants.{Bytes, stream, group, pending_pings_key}
use geo_device.Exec.{ok}
use geo_device.Pings.{StreamChunk}
use geo_device.Pings.Codec.{parse_stream_chunk}
use geo_device.Pings.Sample.{formats, pings, formats-IsFaithful}
use geo_device.Services.{xack, decrby}
use geo_device.Settings.{IngestSettings, defaults}
use geo_device.Stream.{publish_commands, ack_commands, pings_of}
use geo_device.Stream.Payloads.{entries_added, added, publish-ack}

abbrev settings : IngestSettings
settings = record defaults { chunk_size = 1 }

abbrev ids : List Bytes
ids = (b'1' ∷ b'-' ∷ b'0' ∷ []) ∷ (b'1' ∷ b'-' ∷ b'1' ∷ []) ∷ []

publish-ack_example :
    (chunks : List StreamChunk) × (parse_stream_chunk formats
        (entries_added ids (publish_commands formats settings pings))
      ≡ ok chunks)
    × (pings_of chunks ≡ pings)
    × IsBatching 1 (map (λ c. c.pings) chunks)
    × (ack_commands chunks ≡ xack stream group ids ∷ decrby pending_pings_key (length pings) ∷ [])
    × (added (publish_commands formats settings pings) ≡ length pings)
unfolding batched batched_from
publish-ack_example = publish-ack formats settings pings ids formats-IsFaithful (omega arith) refl
