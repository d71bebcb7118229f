-- ===== src/Presence/Hits.antt =====
-- The table of hits by device that `filter_new_entries` builds, against the list of hits.
use geo_device.Prelude.{
  ℕ, ◌≡◌, refl, ap, ◌∙◌, ◌↔◌, ◌⊎◌, Option, none, some, List, [], ◌∷◌, String, ite, ◌≟◌, if_pos,
  if_neg, string_key, nat_key, arith, In, Distinct,
}
use geo_device.Constants.{Bytes}
use geo_device.Dict
use geo_device.Dict.{Dict}
use geo_device.Dict.Laws.{get-put, put-Distinct, In-keys-put}
use geo_device.Pings.{ZoneHit, bytes_key}
use geo_device.Presence.Digits.{zone_key_inj}
use geo_device.Presence.{Zones, zone_key, or_none, note_hit, hits_by_device, from_keys}

-- What the table has for a device and a zone.
abbrev pub entry : Dict String Zones → String → Bytes → Option ZoneHit
entry d device_id z = Dict.get (or_none (Dict.get d device_id)) z

-- The last hit of the device in the zone, or `found` where there is none.
abbrev pub last_hit : String → Bytes → Option ZoneHit → List ZoneHit → Option ZoneHit
last_hit device_id z found [] = found
last_hit device_id z found (hit ∷ hits) =
    last_hit device_id z
      (ite (hit.device_id ≟ device_id) (ite (zone_key hit.geozone_id ≟ z) (some hit) found) found)
      hits

-- The last hit of the device in the zone of the id, or `found` where there is none.
abbrev pub last_in : String → ℕ → Option ZoneHit → List ZoneHit → Option ZoneHit
last_in device_id zone found [] = found
last_in device_id zone found (hit ∷ hits) =
    last_in device_id zone
      (ite (hit.device_id ≟ device_id) (ite (hit.geozone_id ≟ zone) (some hit) found) found) hits

same_test : (m n : ℕ) (x y : Option ZoneHit) → ite (zone_key m ≟ zone_key n) x y ≡ ite (m ≟ n) x y
same_test m n x y = elim (m ≟ n) [
  | yes p ↦ rw (if_pos (m ≟ n) p, if_pos (zone_key m ≟ zone_key n) (ap zone_key p)) refl
  | no d ↦
      rw (if_neg (m ≟ n) d, if_neg (zone_key m ≟ zone_key n) (λ e. d (zone_key_inj m n e))) refl
]

-- The key of a zone stands for its id.
pub last_hit-zone_key :
    (device_id : String) (zone : ℕ) (found : Option ZoneHit) (hits : List ZoneHit)
    → last_hit device_id (zone_key zone) found hits ≡ last_in device_id zone found hits
last_hit-zone_key device_id zone found [] = refl
last_hit-zone_key device_id zone found (hit ∷ hits) =
    last_hit-zone_key device_id zone
      (ite (hit.device_id ≟ device_id)
        (ite (zone_key hit.geozone_id ≟ zone_key zone) (some hit) found) found)
      hits
    ∙ ap (λ o. last_in device_id zone (ite (hit.device_id ≟ device_id) o found) hits)
        (same_test hit.geozone_id zone (some hit) found)

entry-note_hit :
    (d : Dict String Zones) (hit : ZoneHit) (device_id : String) (z : Bytes)
    → entry (note_hit d hit) device_id z
      ≡ ite
          (hit.device_id ≟ device_id)
          (ite (zone_key hit.geozone_id ≟ z) (some hit) (entry d device_id z))
          (entry d device_id z)
unfolding note_hit
entry-note_hit d hit device_id z =
    let zones = or_none (Dict.get d hit.device_id) in
    ground (
      arith,
      get-put d hit.device_id device_id (Dict.put zones (zone_key hit.geozone_id) hit),
      get-put zones (zone_key hit.geozone_id) z hit,
    )

entry-from :
    (d : Dict String Zones) (hits : List ZoneHit) (device_id : String) (z : Bytes)
    → entry (hits_by_device d hits) device_id z ≡ last_hit device_id z (entry d device_id z) hits
unfolding hits_by_device
entry-from d [] device_id z = refl
entry-from d (hit ∷ hits) device_id z =
    rw (← entry-note_hit d hit device_id z) (entry-from (note_hit d hit) hits device_id z)

-- The table has, for a device and a zone, the last hit of the device in the zone.
pub entry-hits_by_device :
    (hits : List ZoneHit) (device_id : String) (z : Bytes)
    → entry (hits_by_device [] hits) device_id z ≡ last_hit device_id z none hits
unfolding Dict.get
entry-hits_by_device hits device_id z = entry-from [] hits device_id z

last_hit_found :
    (device_id : String) (z : Bytes) (found : Option ZoneHit) (hits : List ZoneHit) (h : ZoneHit)
    → (found ≡ some h → (h.device_id ≡ device_id) × (zone_key h.geozone_id ≡ z))
    → last_hit device_id z found hits ≡ some h
    → (h.device_id ≡ device_id) × (zone_key h.geozone_id ≡ z)
last_hit_found device_id z found [] h f e = f e
last_hit_found device_id z found (hit ∷ hits) h f e =
    last_hit_found device_id z
      (ite (hit.device_id ≟ device_id) (ite (zone_key hit.geozone_id ≟ z) (some hit) found) found)
      hits h (λ p. ground (arith, f)) e

-- The hit that is found is one of the device, in the zone.
pub last_hit-zone :
    (device_id : String) (z : Bytes) (hits : List ZoneHit) (h : ZoneHit)
    → last_hit device_id z none hits ≡ some h
    → (h.device_id ≡ device_id) × (zone_key h.geozone_id ≡ z)
last_hit-zone device_id z hits h e = last_hit_found device_id z none hits h (λ p. cc) e

from_keys-Distinct :
    (d : Dict String (Unit {0})) (ids : List String)
    → Distinct (Dict.keys d)
    → Distinct (from_keys d ids)
unfolding from_keys
from_keys-Distinct d [] h = h
from_keys-Distinct d (id ∷ ids) h =
    from_keys-Distinct (Dict.put d id tt) ids (put-Distinct d id tt h)

pub devices-Distinct : (ids : List String) → Distinct (from_keys [] ids)
unfolding Dict.keys
devices-Distinct ids = from_keys-Distinct [] ids tt

In-from_keys :
    (d : Dict String (Unit {0})) (ids : List String) (id : String)
    → In id (from_keys d ids) ↔ (In id (Dict.keys d) ⊎ In id ids)
unfolding from_keys
In-from_keys d [] id = ground arith
In-from_keys d (i ∷ ids) id =
    ground (arith, In-from_keys (Dict.put d i tt) ids id, In-keys-put d i tt id)

pub In-devices : (ids : List String) (id : String) → In id (from_keys [] ids) ↔ In id ids
unfolding Dict.keys
In-devices ids id = ground (arith, In-from_keys [] ids id)
