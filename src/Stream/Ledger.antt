-- ===== src/Stream/Ledger.antt =====
-- The counter of pings against the pings that wait on the stream, while processes publish,
-- acknowledge, count and reconcile.
use geo_device.Prelude.{ℕ, ◌≡◌, some, List, map, In, Distinct, All}
use geo_device.Prelude.Int.{IsAtLeast}
use geo_device.Constants.{stream}
use geo_device.Exec.{ok}
use geo_device.Pings.{Ping, StreamChunk, Entry, Formats}
use geo_device.Pings.Codec.{parse_entry}
use geo_device.Services.{Redis, GroupInfo}
use geo_device.Settings.{IngestSettings}
use geo_device.Stream
use geo_device.Stream.{entry_backlog, backlog_of}
use geo_device.Stream.Counter.{Server, IsGroup, queued}
use geo_device.Trace.{Run}

module _ (formats : Formats) where
  -- The counter is at least the number of pings that wait. So it is not negative either.
  abbrev pub IsCovered : Server → Type 0
  IsCovered s = IsAtLeast (queued formats s.entries) s.counter

  -- One of the entries parses to the chunk.
  abbrev pub IsHeld : List Entry → StreamChunk → Type 0
  IsHeld entries c =
      (e : Entry) × In e entries × (e.0 ≡ c.entry_id) × (parse_entry formats e ≡ ok (some c))

  -- Chunks that a consumer may acknowledge: each is on the stream, and none stands twice.
  abbrev pub AreHeld : List Entry → List StreamChunk → Type 0
  AreHeld entries chunks = All (IsHeld entries) chunks × Distinct (map (λ c. c.entry_id) chunks)

module _ {W : Type 0} (redis : Redis W) (formats : Formats) (settings : IngestSettings)
    (view : W → Server) where
  -- Redis reports on the group of the program, and can tell its lag.
  abbrev pub TellsLag : Run W → Type 0
  TellsLag r =
      (reply : List GroupInfo) × (g : GroupInfo) × (lag : ℕ) × (pending : ℕ) × ((redis.xinfo_groups
          stream r.world).0
        ≡ ok reply)
      × IsGroup reply g
      × (g.lag ≡ some lag)
      × (g.pending ≡ some pending)

  -- What the processes do with the stream, each call to its end.
  pub data Step : Run W → Run W → Type 0 where
    publishes :
        (pings : List Ping) (r : Run W)
        → (Stream.publish redis formats settings pings r).0 ≡ ok tt
        → Step r (Stream.publish redis formats settings pings r).1
    acknowledges :
        (chunks : List StreamChunk) (r : Run W)
        → AreHeld formats (view r.world).entries chunks
        → (Stream.ack redis chunks r).0 ≡ ok tt
        → Step r (Stream.ack redis chunks r).1
    reconciles :
        (r : Run W)
        → TellsLag r
        → (Stream.reconcile_backlog redis r).0 ≡ ok tt
        → Step r (Stream.reconcile_backlog redis r).1
    counts : (r : Run W) → Step r (Stream.get_backlog redis r).1

  pub data Steps : Run W → Run W → Type 0 where
    still : (r : Run W) → Steps r r
    more : (r s t : Run W) → Step r s → Steps s t → Steps r t
