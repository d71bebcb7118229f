-- ===== src/Geozones/HttpTests.antt =====
-- A user who deletes a geozone with a header that has blanks around the name.
use geo_device.Prelude.{◌≡◌, ◌≢◌, ◌↔◌, refl, Bool, true, some, String, In}
use geo_device.Exec.{ok}
use geo_device.Geozones.{GeozoneResponse}
use geo_device.Geozones.Handled.{IsOwn, handle-IsOwn}
use geo_device.Geozones.Http.{Answer, handle}
use geo_device.Geozones.Requests.{deletes}
use geo_device.Geozones.Tests.{Rows, table, table-IsTable, zones}
use geo_device.Pings.{Float}

abbrev strip : String → String
strip s = "ann"

-- An order in which every number is within its bounds.
abbrev le : Float → Float → Bool
le x y = true

abbrev start : Rows
start = (zones, zones)

handle-IsOwn_example :
    ((r : GeozoneResponse)
      → r.user_id ≢ "ann"
      → In r (handle table strip le le (some " ann ") (deletes 1) start).1.1 ↔ In r zones)
    × ((answer : Answer)
        → (handle table strip le le (some " ann ") (deletes 1) start).0 ≡ ok answer
        → IsOwn table (λ w. w.0) (λ w. w.1) strip le le (deletes 1) "ann" answer)
handle-IsOwn_example =
    handle-IsOwn table (λ w. w.0) (λ w. w.1) strip le le (deletes 1) (some " ann ") start
      table-IsTable refl
