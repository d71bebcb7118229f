-- ===== src/Presence.antt =====
-- app/pipeline/presence.py, and the script `SYNC_ZONES_LUA` of app/pipeline/constants.py, which runs
-- inside redis.
pub mod Script
pub mod Entered
pub mod Digits
pub mod Hits
pub mod Server
pub mod Filtering
pub mod Keyspace
mod Tests
use Prim.Native.String.{◌++◌ as append}
use geo_device.Prelude.{
  ℕ, zero, suc, ◌+◌, ◌/◌, ◌%◌, Bool, true, false, Option, none, some, List, [], ◌∷◌, ◌++◌, map,
  String, ite, ◌≟◌, string_key, String_discrete, ltb,
}
use geo_device.Constants.{Bytes}
use geo_device.Dict
use geo_device.Dict.{Dict}
use geo_device.Errors.{value_error}
use geo_device.Exec.{Exec, Result, ok, raised, pure, raise, lift, ◌>>=◌}
use geo_device.Pings.{ZoneHit, bytes_key, Bytes_discrete}
use geo_device.Services.{Redis, ScriptCall}
use geo_device.Settings.{IngestSettings}
use geo_device.Trace.{Run, silent}

-- The decimal digits of a number, the last one first; `fuel` is at least the number of digits.
unfoldable pub digits_of : ℕ → ℕ → Bytes
digits_of zero n = []
digits_of (suc fuel) n =
    let more = digits_of fuel (n / 10) in
    (b'0' + n % 10) ∷ elim (ltb n 10) [ true ↦ [] | false ↦ more ]

abbrev pub reversed : Bytes → Bytes → Bytes
reversed [] acc = acc
reversed (b ∷ bs) acc = reversed bs (b ∷ acc)

-- `str(geozone_id).encode()`
unfoldable pub zone_key : ℕ → Bytes
unfolding digits_of
zone_key n = reversed (digits_of (suc n) n) []

-- `DEVICE_ZONES_KEY.format(device_id=device_id)`
unfoldable pub device_zones_key : String → String
device_zones_key device_id = append "inside:" device_id

abbrev pub Zones : Type 0
Zones = Dict Bytes ZoneHit

abbrev pub or_none : Option Zones → Zones
or_none none = []
or_none (some zones) = zones

-- One round of the first loop, over a `defaultdict(dict)`.
unfoldable pub note_hit : Dict String Zones → ZoneHit → Dict String Zones
unfolding Dict.get Dict.put zone_key
note_hit d hit =
    Dict.put d hit.device_id
      (Dict.put (or_none (Dict.get d hit.device_id)) (zone_key hit.geozone_id) hit)

unfoldable pub hits_by_device : Dict String Zones → List ZoneHit → Dict String Zones
unfolding note_hit
hits_by_device d [] = d
hits_by_device d (hit ∷ hits) = hits_by_device (note_hit d hit) hits

-- `list(dict.fromkeys(device_ids))`
unfoldable pub from_keys : Dict String (Unit {0}) → List String → List String
unfolding Dict.put Dict.keys
from_keys d [] = Dict.keys d
from_keys d (id ∷ ids) = from_keys (Dict.put d id tt) ids

-- `zones[zone_id] for zone_id in entered if zone_id in zones`
unfoldable pub entered_hits : Zones → List Bytes → List ZoneHit
unfolding Dict.get
entered_hits zones [] = []
entered_hits zones (z ∷ entered) = elim (Dict.get zones z) [
  | none ↦ entered_hits zones entered
  | some hit ↦ hit ∷ entered_hits zones entered
]

-- The last loop; `zip(…, strict=True)` raises on lists of different lengths.
unfoldable pub collect : Dict String Zones → List String → List (List Bytes) → Result (List ZoneHit)
unfolding entered_hits Dict.get
collect d [] [] = ok []
collect d [] (r ∷ results) = raised value_error
collect d (id ∷ devices) [] = raised value_error
collect d (id ∷ devices) (entered ∷ results) = elim (collect d devices results) [
  | ok entries ↦ ok (entered_hits (or_none (Dict.get d id)) entered ++ entries)
  | raised e ↦ raised e
]

unfoldable pub script_call : ℕ → Dict String Zones → String → ScriptCall
unfolding device_zones_key Dict.get Dict.keys
script_call ttl d device_id = record {
  key = device_zones_key device_id;
  ttl = ttl;
  zones = Dict.keys (or_none (Dict.get d device_id));
}

module _ {W : Type 0} (redis : Redis W) (settings : IngestSettings) where
  unfoldable pub filter_new_entries : List ZoneHit → List String → Exec (Run W) (List ZoneHit)
  unfolding pure lift silent collect from_keys hits_by_device script_call ◌>>=◌
  filter_new_entries hits [] = pure []
  filter_new_entries hits (id ∷ device_ids) =
      let by_device = hits_by_device [] hits in
      let devices = from_keys [] (id ∷ device_ids) in
      (do
        results ←
            silent
              (redis.run_scripts (map (script_call settings.zone_entry_ttl_s by_device) devices))
        lift (collect by_device devices results))
