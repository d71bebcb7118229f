-- ===== src/Realtime.antt =====
-- app/realtime/events.py: what the ingest workers publish for the websockets.
pub mod Grouping
mod Tests
use Prim.Native.String.{◌++◌ as append}
use geo_device.Prelude.{ℕ, List, [], ◌∷◌, ◌++◌, map, String, length, Option, none, some, string_key}
use geo_device.Dict
use geo_device.Dict.{Dict}
use geo_device.Exec.{Exec, pure, ◌>>=◌, ◌>>◌}
use geo_device.Pings.{Ping, ZoneHit, Formats}
use geo_device.Pings.Codec.{to_json}
use geo_device.Services.{Redis, Command, publish}
use geo_device.Trace.{Run, pipelined, published, perform}

abbrev pub alert_channel_prefix : String
alert_channel_prefix = "alerts:"

abbrev pub position_channel : String
position_channel = "positions"

-- `ALERT_CHANNEL.format(user_id=user_id)`
unfoldable pub alert_channel : String → String
alert_channel user_id = append alert_channel_prefix user_id

abbrev pub or_no_hits : Option (List ZoneHit) → List ZoneHit
or_no_hits none = []
or_no_hits (some hits) = hits

-- The loop that fills `by_user`, a `defaultdict(list)`.
unfoldable pub by_user : Dict String (List ZoneHit) → List ZoneHit → Dict String (List ZoneHit)
unfolding Dict.get Dict.put
by_user d [] = d
by_user d (hit ∷ hits) =
    by_user (Dict.put d hit.user_id (or_no_hits (Dict.get d hit.user_id) ++ hit ∷ [])) hits

module _ (formats : Formats) where
  unfoldable pub alert_commands : Dict String (List ZoneHit) → List Command
  unfolding alert_channel
  alert_commands [] = []
  alert_commands ((user_id, hits) ∷ d) =
      publish (alert_channel user_id) (formats.dumps_alerts hits) ∷ alert_commands d

module _ {W : Type 0} (redis : Redis W) (formats : Formats) where
  unfoldable pub publish_alerts : List ZoneHit → Exec (Run W) ℕ
  unfolding pure perform by_user alert_commands ◌>>=◌
  publish_alerts [] = pure 0
  publish_alerts (hit ∷ hits) = do
    perform (λ _. pipelined (alert_commands formats (by_user [] (hit ∷ hits))))
        (redis.execute (alert_commands formats (by_user [] (hit ∷ hits))))
    pure (length (hit ∷ hits))

  unfoldable pub publish_positions : List Ping → Exec (Run W) ℕ
  unfolding pure perform to_json ◌>>=◌
  publish_positions [] = pure 0
  publish_positions (ping ∷ positions) = do
    perform (λ _. published position_channel)
        (redis.publish_now position_channel
          (formats.dumps_positions (map (to_json formats) (ping ∷ positions))))
    pure (length (ping ∷ positions))
