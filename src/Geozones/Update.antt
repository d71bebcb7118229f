-- ===== src/Geozones/Update.antt =====
-- What `update` makes of a request that was validated.
use geo_device.Prelude.{◌≡◌, refl, false, ◌||◌, Option, none, some, arith}
use geo_device.Exec.{ok}
use geo_device.Geozones.{
  GeozoneUpdateRequest, Field, unset, null, given, Values, check_fields, center_of, values_of,
  is_null, attribute, is_none, differ,
}
use geo_device.Pings.{Float}

-- The center that the two coordinates of a request stand for.
abbrev pub Centered : Field Float → Field Float → Option (Option Float × Option Float) → Type 0
Centered (given lat) (given lon) center = center ≡ some (some lat, some lon)
Centered (given lat) _ center = ⊥
Centered _ (given lon) center = ⊥
Centered _ _ center = center ≡ none

centered :
    (lat lon : Field Float)
    → (is_null lat || is_null lon) ≡ false
    → differ (is_none (attribute lat)) (is_none (attribute lon)) ≡ false
    → (center : Option (Option Float × Option Float)) × (center_of lat lon ≡ ok center)
      × Centered lat lon center
unfolding center_of
centered unset unset h k = (none, refl, refl)
centered unset null h k = cc
centered unset (given b) h k = cc
centered null lon h k = cc
centered (given a) unset h k = cc
centered (given a) null h k = cc
centered (given a) (given b) h k = (some (some a, some b), refl, refl)

values_of-center :
    (r : GeozoneUpdateRequest) (center : Option (Option Float × Option Float))
    → center_of r.lat r.lon ≡ ok center
    → values_of r ≡ ok (record { name = r.name; radius_m = r.radius_m; center = center })
unfolding values_of
values_of-center r center e = rw (e, values_of) refl

-- For a request that passes `check_fields`, the values of the update are computed with no
-- `KeyError`; no column is set to null, name and radius are set as they were given, and the center
-- is set exactly when both coordinates were given, to these.
pub values_of-check_fields :
    (r : GeozoneUpdateRequest)
    → check_fields r ≡ ok r
    → (v : Values) × (values_of r ≡ ok v)
      × (v.name ≡ r.name)
      × (is_null v.name ≡ false)
      × (v.radius_m ≡ r.radius_m)
      × (is_null v.radius_m ≡ false)
      × Centered r.lat r.lon v.center
unfolding check_fields
values_of-check_fields r h =
    let (center, e, c) = centered r.lat r.lon (ground arith) (ground arith) in
    (
      record { name = r.name; radius_m = r.radius_m; center = center },
      values_of-center r center e,
      refl,
      ground arith,
      refl,
      ground arith,
      c,
    )
