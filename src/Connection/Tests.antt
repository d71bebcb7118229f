-- ===== src/Connection/Tests.antt =====
-- Runs of a connection.
use geo_device.Prelude.{◌≡◌, arith, inr, true, false, none, some, List, [], ◌∷◌, In}
use geo_device.Connection.{Connection, Session, running, runtime_error}
use geo_device.Connection.Fifo.{Event, sends, pumps, run, Moves, offered, run-Moves}
use geo_device.Connection.Alerts.{send_all, send_all-In}

abbrev connection : Connection
connection = record {
  user_id = "ann";
  message_queue = record { maxsize = 2; items = [] };
  sender = running;
  dropped_messages = 0;
}

abbrev session : Session
session = record { connection = connection; texts = []; closed = false }

abbrev events : List Event
events =
    sends "a" false
    ∷ sends "b" false
    ∷ sends "c" false
    ∷ sends "d" true
    ∷ pumps none
    ∷ sends "e" true
    ∷ pumps (some runtime_error)
    ∷ sends "f" false
    ∷ []

run-Moves_example : (t : Session) × (run session events ≡ some t) × Moves session t (offered events)
run-Moves_example = run-Moves events session (inr (omega arith))

send_all-In_example :
    (d : Connection) × (send_all connection (("a", true) ∷ ("b", true) ∷ []) ≡ some d)
    × In "a" d.message_queue.items
send_all-In_example =
    send_all-In connection "a" (("b", true) ∷ []) (inr (omega arith)) (omega arith)
