-- ===== src/Pings/Codec.antt =====
-- Payloads: `encode_pings`, `decode_pings` and `parse_stream_chunk` of app/pipeline/utils.py.
use geo_device.Prelude.{◌≡◌, refl, ◌≢◌, Option, none, some, List, [], ◌∷◌, map, ℕ_discrete}
use geo_device.Constants.{Bytes, payload_field}
use geo_device.Exec.{Result, ok, raised}
use geo_device.Dict
use geo_device.Pings.{
  Datetime, Ping, PingJson, Formats, Entry, StreamChunk, bytes_key, Bytes_discrete,
}

infixl 10 ◌>>=◌
abbrev ◌>>=◌ : {A B : Type 0} → Result A → (A → Result B) → Result B
ok a >>= f = f a
raised e >>= f = raised e

module _ (formats : Formats) where
  open formats use {isoformat, fromisoformat, dumps, loads}

  unfoldable pub to_json : Ping → PingJson
  to_json p = (p.device_id, p.lat, p.lon, isoformat p.recorded_at)

  unfoldable pub from_json : PingJson → Result Ping
  from_json (device_id, lat, lon, recorded_at) = do
    at ← fromisoformat recorded_at
    ok (record { device_id = device_id; lat = lat; lon = lon; recorded_at = at })

  unfoldable pub from_json_all : List PingJson → Result (List Ping)
  unfolding from_json
  from_json_all [] = ok []
  from_json_all (j ∷ js) = do p ← from_json j; ps ← from_json_all js; ok (p ∷ ps)

  unfoldable pub encode_pings : List Ping → Bytes
  unfolding to_json
  encode_pings pings = dumps (map to_json pings)

  unfoldable pub decode_pings : Bytes → Result (List Ping)
  unfolding from_json_all
  decode_pings raw = do js ← loads raw; from_json_all js

  -- An entry with no payload, or an empty one, is skipped; a payload that does not decode raises.
  unfoldable pub parse_entry : Entry → Result (Option StreamChunk)
  unfolding Dict.get decode_pings
  parse_entry (entry_id, fields) = elim (Dict.get fields payload_field) [
    | none ↦ ok none
    | some [] ↦ ok none
    | some (b ∷ bs) ↦ do
      pings ← decode_pings (b ∷ bs)
      ok (some (record { entry_id = entry_id; pings = pings }))
  ]

  abbrev pub prepend : {A : Type 0} → Option A → List A → List A
  prepend none chunks = chunks
  prepend (some c) chunks = c ∷ chunks

  unfoldable pub parse_stream_chunk : List Entry → Result (List StreamChunk)
  unfolding parse_entry
  parse_stream_chunk [] = ok []
  parse_stream_chunk (e ∷ entries) = do
    c ← parse_entry e
    chunks ← parse_stream_chunk entries
    ok (prepend c chunks)

  -- What the program relies on of the formats: they read back what they wrote.
  -- And a JSON text is never empty.
  pub record IsFaithful : Type 0 where
    pub date : (t : Datetime) → fromisoformat (isoformat t) ≡ ok t
    pub bytes : (js : List PingJson) → loads (dumps js) ≡ ok js
    pub not_empty : (js : List PingJson) → dumps js ≢ []

  from_json-to_json :
      IsFaithful → (pings : List Ping) → from_json_all (map to_json pings) ≡ ok pings
  unfolding from_json_all to_json
  from_json-to_json f [] = refl
  from_json-to_json f (p ∷ pings) = rw (f.date p.recorded_at, from_json-to_json f pings)

  -- With formats that read back what they wrote, decoding a payload that was encoded gives the
  -- pings back.
  pub decode-encode :
      IsFaithful → (pings : List Ping) → decode_pings (encode_pings pings) ≡ ok pings
  unfolding decode_pings encode_pings
  decode-encode f pings = rw f.bytes (from_json-to_json f pings)

  parse_payload :
      (entry_id raw : Bytes) (pings : List Ping)
      → raw ≢ []
      → decode_pings raw ≡ ok pings
      → parse_entry (entry_id, (payload_field, raw) ∷ [])
        ≡ ok (some (record { entry_id = entry_id; pings = pings }))
  unfolding parse_entry Bytes_discrete ℕ_discrete
  parse_payload entry_id [] pings n e = absurd (n refl)
  parse_payload entry_id (b ∷ bs) pings n e = rw (e, ◌>>=◌)

  -- An entry with the payload of some pings parses to a chunk of these pings.
  pub parse-encode :
      IsFaithful
      → (entry_id : Bytes) (pings : List Ping)
      → parse_entry (entry_id, (payload_field, encode_pings pings) ∷ [])
        ≡ ok (some (record { entry_id = entry_id; pings = pings }))
  parse-encode f entry_id pings =
      parse_payload entry_id (encode_pings pings) pings
        (unfold encode_pings in f.not_empty (map to_json pings)) (decode-encode f pings)
