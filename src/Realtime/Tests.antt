-- ===== src/Realtime/Tests.antt =====
-- The alerts of three hits of two users.
use geo_device.Prelude.{ℕ, ◌≡◌, ◌↔◌, none, List, String, [], ◌∷◌, map, In, Distinct}
use geo_device.Pings.{Formats, ZoneHit}
use geo_device.Pings.Sample.{formats}
use geo_device.Realtime.{by_user, alert_commands}
use geo_device.Realtime.Grouping.{of_user, users_of, messages, alert_commands-by_user}

-- The bytes of a message are the ids of the zones.
abbrev alert_formats : Formats
alert_formats = record formats { dumps_alerts = λ hits. map (λ hit. hit.geozone_id) hits }

abbrev hit : String → ℕ → ZoneHit
hit user_id n = record {
  user_id = user_id;
  geozone_id = n;
  geozone_name = "home";
  device_id = "a";
  lat = record { bits = 1 };
  lon = record { bits = 2 };
  recorded_at = record { wall = 3; tzinfo = none };
}

abbrev hits : List ZoneHit
hits = hit "ann" 2 ∷ hit "bob" 3 ∷ hit "ann" 4 ∷ []

alert_commands-by_user_example :
    (users : List String) × Distinct users
    × ((u : String) → In u users ↔ In u (users_of hits))
    × (alert_commands alert_formats (by_user [] hits)
        ≡ messages alert_formats (λ u. of_user u hits) users)
alert_commands-by_user_example = alert_commands-by_user alert_formats hits
