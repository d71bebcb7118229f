-- ===== src/Stream/Payloads.antt =====
-- What `publish` puts on the stream, and what `ack` takes off the counter for it.
use geo_device.Prelude.{
  ℕ, ◌+◌, ◌<◌, ◌≡◌, refl, ap, ◌∙◌, List, [], ◌∷◌, ◌++◌, map, length, length-append, flat, arith,
}
use geo_device.Constants.{Bytes, stream, group, payload_field, pending_pings_key}
use geo_device.Exec.{ok}
use geo_device.Pings.{Ping, StreamChunk, Entry, Formats, bytes_key}
use geo_device.Pings.Codec.{encode_pings, parse_stream_chunk, IsFaithful, parse-encode}
use geo_device.Batched.{batched, flat-batched, batched-IsBatching, IsBatching}
use geo_device.Services.{Command, xadd, incrby, decrby, xack}
use geo_device.Settings.{IngestSettings}
use geo_device.Stream.{publish_commands, ack_commands, pings_count, pings_of}

-- The entries that the stream holds after the commands, `ids` being the ids that redis gives out.
abbrev pub entries_added : List Bytes → List Command → List Entry
entries_added ids [] = []
entries_added (id ∷ ids) (xadd s field value maxlen ∷ commands) =
    (id, (field, value) ∷ []) ∷ entries_added ids commands
entries_added ids (_ ∷ commands) = entries_added ids commands

-- How far the commands move the counter up, and down.
abbrev pub added : List Command → ℕ
added [] = 0
added (incrby key n ∷ commands) = n + added commands
added (_ ∷ commands) = added commands

abbrev pub taken : List Command → ℕ
taken [] = 0
taken (decrby key n ∷ commands) = n + taken commands
taken (_ ∷ commands) = taken commands

pub pings_count-length : (chunks : List StreamChunk) → pings_count chunks ≡ length (pings_of chunks)
unfolding pings_count
pings_count-length [] = refl
pings_count-length (c ∷ chunks) =
    omega (arith, pings_count-length chunks, length-append c.pings (pings_of chunks))

-- The chunks that a consumer makes of the batches.
zip_chunks : List Bytes → List (List Ping) → List StreamChunk
zip_chunks [] bs = []
zip_chunks (id ∷ ids) [] = []
zip_chunks (id ∷ ids) (b ∷ bs) = record { entry_id = id; pings = b } ∷ zip_chunks ids bs

pings_of-zip_chunks :
    (ids : List Bytes) (bs : List (List Ping))
    → length ids ≡ length bs
    → (pings_of (zip_chunks ids bs) ≡ flat bs) × (map (λ c. c.entry_id) (zip_chunks ids bs) ≡ ids)
unfolding zip_chunks
pings_of-zip_chunks [] [] e = (refl, refl)
pings_of-zip_chunks [] (b ∷ bs) e = absurd (omega arith)
pings_of-zip_chunks (id ∷ ids) [] e = absurd (omega arith)
pings_of-zip_chunks (id ∷ ids) (b ∷ bs) e =
    let (p, q) = pings_of-zip_chunks ids bs (omega arith) in (rw p, rw q)

batches-zip_chunks :
    (ids : List Bytes) (bs : List (List Ping))
    → length ids ≡ length bs
    → map (λ c. c.pings) (zip_chunks ids bs) ≡ bs
unfolding zip_chunks
batches-zip_chunks [] [] e = refl
batches-zip_chunks [] (b ∷ bs) e = absurd (omega arith)
batches-zip_chunks (id ∷ ids) [] e = absurd (omega arith)
batches-zip_chunks (id ∷ ids) (b ∷ bs) e = ap (◌∷◌ b) (batches-zip_chunks ids bs (omega arith))

module _ (formats : Formats) (faithful : IsFaithful formats) (maxlen n : ℕ) where
  abbrev add_chunk : List Ping → Command
  add_chunk chunk = xadd stream payload_field (encode_pings formats chunk) maxlen

  abbrev commands : List (List Ping) → List Command
  commands bs = map add_chunk bs ++ incrby pending_pings_key n ∷ []

  parse-added :
      (ids : List Bytes) (bs : List (List Ping))
      → length ids ≡ length bs
      → parse_stream_chunk formats (entries_added ids (commands bs)) ≡ ok (zip_chunks ids bs)
  unfolding parse_stream_chunk zip_chunks
  parse-added [] [] e = refl
  parse-added [] (b ∷ bs) e = absurd (omega arith)
  parse-added (id ∷ ids) [] e = absurd (omega arith)
  parse-added (id ∷ ids) (b ∷ bs) e =
      rw (parse-encode formats faithful id b, parse-added ids bs (omega arith))

  added-commands : (bs : List (List Ping)) → added (commands bs) ≡ n
  added-commands [] = omega arith
  added-commands (b ∷ bs) = added-commands bs

module _ (formats : Formats) (settings : IngestSettings) where
  -- With formats that read back what they wrote and a positive chunk size: the entries that
  -- `publish` adds, whatever ids they get, parse to chunks with exactly the pings published, in
  -- order, cut into batches of the chunk size, and `ack` of these chunks names their ids and takes
  -- off the counter what `publish` put on it.
  pub publish-ack :
      (pings : List Ping) (ids : List Bytes)
      → IsFaithful formats
      → 0 < settings.chunk_size
      → length ids ≡ length (batched settings.chunk_size pings)
      → (chunks : List StreamChunk) × (parse_stream_chunk formats
            (entries_added ids (publish_commands formats settings pings))
          ≡ ok chunks)
        × (pings_of chunks ≡ pings)
        × IsBatching settings.chunk_size (map (λ c. c.pings) chunks)
        × (ack_commands chunks
            ≡ xack stream group ids ∷ decrby pending_pings_key (length pings) ∷ [])
        × (added (publish_commands formats settings pings) ≡ length pings)
  unfolding publish_commands ack_commands
  publish-ack pings ids f h e =
      let bs = batched settings.chunk_size pings in
      let (same, named) = pings_of-zip_chunks ids bs e in
      let all_pings : pings_of (zip_chunks ids bs) ≡ pings =
        same ∙ flat-batched settings.chunk_size pings in
      (
        zip_chunks ids bs,
        parse-added formats f settings.stream_max_len (length pings) ids bs e,
        all_pings,
        rw (batches-zip_chunks ids bs e) (batched-IsBatching settings.chunk_size pings h),
        rw (named, pings_count-length, all_pings),
        added-commands formats f settings.stream_max_len (length pings) bs,
      )
