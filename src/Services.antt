-- ===== src/Services.antt =====
-- The programs around the model: redis, the database, the clock. They are not part of the
-- repository, so each is a record of calls on a world `W` that is left open. A call changes the
-- world and returns or raises; `CancelledError` can come out of any of them.
use geo_device.Prelude.{ℕ, Bool, Option, List, String}
use geo_device.Prelude.Int.{ℤ}
use geo_device.Constants.{Bytes}
use geo_device.Exec.{Exec}
use geo_device.Pings.{Ping, ZoneHit, Entry}

-- A command that the program queues in a pipeline.
pub data Command : Type 0 where
  xadd : (stream : String) (field value : Bytes) (maxlen : ℕ) → Command
  incrby decrby : (key : String) (amount : ℕ) → Command
  xack : (stream group : String) (ids : List Bytes) → Command
  publish : (channel : String) (payload : Bytes) → Command

-- One run of the script `SYNC_ZONES_LUA`: its key, and its arguments behind the first.
pub record ScriptCall : Type 0 where
  pub key : String
  pub ttl : ℕ
  pub zones : List Bytes

-- A group in the reply of `XINFO GROUPS`; `None` where redis cannot tell.
pub record GroupInfo : Type 0 where
  pub name : String
  pub lag : Option ℕ
  pub pending : Option ℕ

pub record Redis (W : Type 0) : Type 0 where
  pub xreadgroup :
      (consumer entry_id : String) (count block : ℕ) → Exec W (List (String × List Entry))
  pub xautoclaim : (consumer : String) (min_idle_time count : ℕ) → Exec W (List Entry)
  pub xinfo_groups : (stream : String) → Exec W (List GroupInfo)
  pub xgroup_create : (stream group id : String) → Exec W (Unit {0})
  pub get : (key : String) → Exec W (Option ℤ)
  pub set : (key : String) (value : ℕ) → Exec W (Unit {0})
  -- `execute` of a pipeline
  pub execute : List Command → Exec W (Unit {0})
  pub run_scripts : List ScriptCall → Exec W (List (List Bytes))
  pub publish_now : (channel : String) (payload : Bytes) → Exec W (Unit {0})

-- A session of the database: the statements of the ingest worker.
pub record Session (W : Type 0) : Type 0 where
  pub insert_pings : List Ping → Exec W (Unit {0})
  pub select_hits : List Ping → Exec W (List ZoneHit)
  pub commit : Exec W (Unit {0})
  -- the end of `async with async_session()`: what is not committed is rolled back
  pub close : Exec W (Unit {0})

pub record Clock (W : Type 0) : Type 0 where
  pub monotonic : W → ℕ
  -- `random.uniform(0.0, limit)`
  pub uniform : (limit : ℕ) → W → ℕ × W
  pub sleep : ℕ → Exec W (Unit {0})
  -- `asyncio.timeout`, on entering: the deadline is that many milliseconds later
  pub timeout : ℕ → W → W
  -- a `CancelledError` came from the deadline of `asyncio.timeout`
  pub timed_out : W → Bool
