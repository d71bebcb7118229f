-- ===== src/Registry.antt =====
-- `ConnectionRegistry` of app/realtime/registry.py. A connection is an object that the registry, the
-- websocket's handler and the sender task share: `Objects` holds the objects, and the registry has
-- the numbers that name them. A set of connections is a list; the order of iteration is the order
-- of insertion here, and Registry/Delivery.antt shows that it does not matter.
pub mod Valid
pub mod Users
pub mod Delivery
pub mod Sessions
mod SessionsTests
mod Tests
use geo_device.Prelude.{
  ℕ, ◌≡◌, Bool, true, false, Option, none, some, List, [], ◌∷◌, ◌++◌, String, length, ◌==◌,
  if◌then◌else◌, ◌≟◌, string_key, String_discrete,
}
use geo_device.Dict
use geo_device.Dict.{Dict}
use geo_device.Connection.{Connection, send}

abbrev pub Objects : Type 0
Objects = ℕ → Connection

unfoldable pub assign : Objects → ℕ → Connection → Objects
assign objects i c j = if i == j then c else objects j

-- `_connections`
abbrev pub Connections : Type 0
Connections = Dict String (List ℕ)

unfoldable pub contains : List ℕ → ℕ → Bool
contains [] i = false
contains (j ∷ ids) i = if j == i then true else contains ids i

-- `set.add` and `set.discard`
unfoldable pub set_add : List ℕ → ℕ → List ℕ
unfolding contains
set_add ids i = if contains ids i then ids else ids ++ i ∷ []

unfoldable pub set_discard : List ℕ → ℕ → List ℕ
set_discard [] i = []
set_discard (j ∷ ids) i = if j == i then ids else j ∷ set_discard ids i

abbrev pub or_empty : Option (List ℕ) → List ℕ
or_empty none = []
or_empty (some ids) = ids

-- `users`
unfoldable pub users : Connections → List String
unfolding Dict.keys
users d = Dict.keys d

-- `add(connection)`, for the connection `i` of the user `user_id`: the `defaultdict` makes an
-- empty set for a new user
unfoldable pub add : Connections → String → ℕ → Connections × Bool
unfolding set_add Dict.get Dict.put
add d user_id i =
    let sessions = set_add (or_empty (Dict.get d user_id)) i in
    (Dict.put d user_id sessions, length sessions == 1)

-- The end of `discard`, with what is left of the user's set.
abbrev pub drop_empty : Connections → String → List ℕ → Connections × Bool
drop_empty d user_id [] = (Dict.remove d user_id, true)
drop_empty d user_id (i ∷ ids) = (Dict.put d user_id (i ∷ ids), false)

unfoldable pub discard : Connections → String → ℕ → Connections × Bool
unfolding set_discard Dict.get
discard d user_id i = elim (or_empty (Dict.get d user_id)) [
  | [] ↦ (d, false)
  | j ∷ ids ↦ drop_empty d user_id (set_discard (j ∷ ids) i)
]

-- `for connection in ids: connection.send(message, priority)`; `none`: a `QueueFull` escaped
unfoldable pub send_each : List ℕ → Objects → String → Bool → Option Objects
unfolding assign
send_each [] objects message priority = some objects
send_each (i ∷ ids) objects message priority = elim (send (objects i) message priority) [
  | none ↦ none
  | some c ↦ send_each ids (assign objects i c) message priority
]

unfoldable pub send_to_user : Connections → Objects → String → String → Bool → Option Objects
unfolding send_each Dict.get
send_to_user d objects user_id message priority =
    send_each (or_empty (Dict.get d user_id)) objects message priority

unfoldable pub broadcast : Connections → Objects → String → Bool → Option Objects
unfolding send_each
broadcast [] objects message priority = some objects
broadcast ((user_id, ids) ∷ d) objects message priority =
    elim (send_each ids objects message priority) [
      | none ↦ none
      | some objects' ↦ broadcast d objects' message priority
    ]
