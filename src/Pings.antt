-- ===== src/Pings.antt =====
-- `Ping`, `StreamChunk`, `ZoneHit` and the codec of app/pipeline/utils.py.
pub mod Codec
pub mod Sample
mod Tests
use geo_device.Prelude.{
  ℕ, ◌≡◌, refl, Option, none, some, List, [], ◌∷◌, map, String, Key, ◌≟◌, ℕ_discrete,
}
use mathlib.Core.Path.{ap₂}
use geo_device.Constants.{Bytes}
use geo_device.Exec.{Result, ok, raised}

-- The bit pattern of a binary64: the program carries coordinates and never computes with them.
pub record Float : Type 0 where
  pub bits : ℕ

-- A `datetime`: the reading in microseconds, and the offset of its `tzinfo` in seconds, if any
-- (`east` of UTC or west).
pub record Offset : Type 0 where
  pub seconds_east : ℕ
  pub seconds_west : ℕ

pub record Datetime : Type 0 where
  pub wall : ℕ
  pub tzinfo : Option Offset

pub record Ping : Type 0 where
  pub device_id : String
  pub lat : Float
  pub lon : Float
  pub recorded_at : Datetime

pub record ZoneHit : Type 0 where
  pub user_id : String
  pub geozone_id : ℕ
  pub geozone_name : String
  pub device_id : String
  pub lat : Float
  pub lon : Float
  pub recorded_at : Datetime

pub record StreamChunk : Type 0 where
  pub entry_id : Bytes
  pub pings : List Ping

-- The tuple that `to_json` returns.
abbrev pub PingJson : Type 0
PingJson = String × Float × Float × String

-- What the program uses of orjson and of `datetime`: texts of dates, and the bytes of a list.
pub record Formats : Type 0 where
  pub isoformat : Datetime → String
  pub fromisoformat : String → Result Datetime
  pub dumps : List PingJson → Bytes
  pub loads : Bytes → Result (List PingJson)
  -- the messages of app/realtime/events.py
  pub dumps_alerts : List ZoneHit → Bytes
  pub dumps_positions : List PingJson → Bytes

-- An entry of a stream as the redis client returns it: its id, and its fields.
abbrev pub Entry : Type 0
Entry = Bytes × List (Bytes × Bytes)

unfoldable pub Bytes_discrete : Discrete Bytes
Bytes_discrete [] [] = yes refl
Bytes_discrete [] (b ∷ bs) = no (λ e. cc)
Bytes_discrete (a ∷ as') [] = no (λ e. cc)
Bytes_discrete (a ∷ as') (b ∷ bs) = elim (ℕ_discrete a b) [
  | yes p ↦ elim (Bytes_discrete as' bs) [ yes q ↦ yes (ap₂ ◌∷◌ p q) | no n ↦ no (λ e. n (cc)) ]
  | no n ↦ no (λ e. n (cc))
]

instance abbrev pub bytes_key : Key Bytes
bytes_key = record { dec = Bytes_discrete }
