-- ===== src/Connection.antt =====
-- `Connection` of app/realtime/registry.py, over `asyncio.Queue`. Two connections are the same if
-- they are the same object, so the registry names them by numbers (Registry.antt).
pub mod Queue
pub mod Bounds
pub mod Fifo
pub mod Alerts
mod Tests
use geo_device.Prelude.{
  ℕ, suc, ◌+◌, ◌≡◌, Bool, true, false, ◌&&◌, ◌||◌, not, Option, none, some, List, [], ◌∷◌, ◌++◌,
  String, ltb, leb, ◌==◌, if◌then◌else◌,
}
use Queue.{MessageQueue, full, get_nowait, put_nowait}

-- The errors that end the sender task, and any other.
pub data SendError : Type 0 where
  websocket_disconnect runtime_error os_error other_error : SendError

-- `_sender`: `None`, a task that runs, or a task that is done.
pub data Sender : Type 0 where
  no_sender running finished : Sender

pub record Connection : Type 0 where
  pub user_id : String
  pub message_queue : MessageQueue
  pub sender : Sender
  pub dropped_messages : ℕ

-- `Connection(websocket, user_id)`; `queue_size` is `config.realtime.QUEUE_SIZE`
unfoldable pub new_connection : ℕ → String → Connection
new_connection queue_size user_id = record {
  user_id = user_id;
  message_queue = record { maxsize = queue_size; items = [] };
  sender = no_sender;
  dropped_messages = 0;
}

-- `start` creates the sender task, `close` cancels and awaits it.
unfoldable pub start : Connection → Connection
start c = record c { sender = running }

-- The connection, and the number that `close` logs as dropped, if it logs.
unfoldable pub close : Connection → Connection × Option ℕ
close c = elim c.sender [
  | no_sender ↦ (c, none)
  | _ ↦ (
    record c { sender = no_sender },
    if c.dropped_messages == 0 then none else some c.dropped_messages,
  )
]

-- `QueueEmpty` is caught
unfoldable pub discard_oldest : Connection → Connection
unfolding get_nowait
discard_oldest c = elim (get_nowait c.message_queue) [
  | none ↦ c
  | some (message, queue) ↦ record c {
    message_queue = queue;
    dropped_messages = c.dropped_messages + 1;
  }
]

-- `self._message_queue.put_nowait(message)`; `none`: it raised `QueueFull`
unfoldable pub enqueue : Connection → String → Option Connection
unfolding put_nowait
enqueue c message = elim (put_nowait c.message_queue message) [
  | none ↦ none
  | some queue ↦ some (record c { message_queue = queue })
]

unfoldable pub send : Connection → String → Bool → Option Connection
unfolding full discard_oldest enqueue
send c message priority =
    if full c.message_queue
    then (if priority
        then enqueue (discard_oldest c) message
        else some (record c { dropped_messages = c.dropped_messages + 1 }))
    else enqueue c message

-- A connection with its websocket: what `send_text` was called with, and if it was closed.
pub record Session : Type 0 where
  pub connection : Connection
  pub texts : List String
  pub closed : Bool

-- One round of `_send_queued`: `outcome` is the error that `send_text` raises, if it does. The
-- task ends with every error; only the errors that it catches close the websocket.
unfoldable pub send_queued : Session → Option SendError → Session
unfolding get_nowait
send_queued s outcome = elim s.connection.sender [
  | running ↦ elim (get_nowait s.connection.message_queue) [
    | none ↦ s
    | some (message, queue) ↦
        let c = record s.connection { message_queue = queue } in
        let texts = s.texts ++ message ∷ [] in
        elim outcome [
          | none ↦ record s { connection = c; texts = texts }
          | some other_error ↦ record s {
            connection = record c { sender = finished };
            texts = texts;
          }
          | some _ ↦ record {
            connection = record c { sender = finished };
            texts = texts;
            closed = true;
          }
        ]
  ]
  | _ ↦ s
]
