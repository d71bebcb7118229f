-- ===== src/Connection/Queue.antt =====
-- What `Connection` uses of `asyncio.Queue`: a bounded queue; `maxsize` 0 is no bound.
use geo_device.Prelude.{
  ℕ, Bool, ◌&&◌, Option, none, some, List, [], ◌∷◌, ◌++◌, String, length, ltb, leb, if◌then◌else◌,
}

pub record MessageQueue : Type 0 where
  pub maxsize : ℕ
  pub items : List String

unfoldable pub full : MessageQueue → Bool
full q = ltb 0 q.maxsize && leb q.maxsize (length q.items)

-- `none`: `QueueFull`
unfoldable pub put_nowait : MessageQueue → String → Option MessageQueue
unfolding full
put_nowait q message = if full q then none else some (record q { items = q.items ++ message ∷ [] })

take_first : ℕ → List String → Option (String × MessageQueue)
take_first maxsize [] = none
take_first maxsize (m ∷ rest) = some (m, record { maxsize = maxsize; items = rest })

-- `none`: `QueueEmpty`
unfoldable pub get_nowait : MessageQueue → Option (String × MessageQueue)
unfolding take_first
get_nowait q = take_first q.maxsize q.items
