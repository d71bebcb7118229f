-- ===== src/Trace.antt =====
-- The world with a record of the calls that were made: each call that matters for the order of
-- events leaves an event, with whether it returned. The newest event is first. The record is the
-- model's own: no code reads it.
pub mod Rules
use geo_device.Prelude.{ℕ, Bool, List, [], ◌∷◌, String}
use geo_device.Constants.{Bytes}
use geo_device.Exec.{Exec, Result, ok, raised, is_ok}
use geo_device.Pings.{Ping, Entry}
use geo_device.Services.{Command}

pub data Event : Type 0 where
  -- entries that `XREADGROUP` or `XAUTOCLAIM` returned
  entries_read : List Entry → Event
  pipelined : List Command → Event
  counter_set : ℕ → Event
  inserted : List Ping → Event
  matched : List Ping → Event
  committed session_closed : Event
  slept : ℕ → Event
  published : (channel : String) → Event

abbrev pub Trace : Type 0
Trace = List (Event × Bool)

pub record Run (W : Type 0) : Type 0 where
  pub world : W
  pub trace : Trace

-- A call on the world that leaves an event, which may tell of the result.
unfoldable pub perform : {W A : Type 0} → (Result A → Event) → Exec W A → Exec (Run W) A
perform event call r =
    let (result, w) = call r.world in
    (result, record { world = w; trace = (event result, is_ok result) ∷ r.trace })

-- A call that leaves none.
unfoldable pub silent : {W A : Type 0} → Exec W A → Exec (Run W) A
silent call r = let (result, w) = call r.world in (result, record r { world = w })
