-- ===== src/Stream/Counter.antt =====
-- What the stream and its counter are on the server, and what the commands of the program do to
-- them there: the documented behaviour of redis, as laws that the calls keep.
use geo_device.Prelude.{
  ℕ, zero, suc, ◌+◌, ◌≤◌, ◌≡◌, ◌≢◌, inl, inr, none, some, Option, List, [], ◌∷◌, ◌++◌, drop, length,
  ◌≟◌, string_key, ite, arith, In,
}
use geo_device.Prelude.Int.{ℤ, pos, add_nat, sub_nat}
use geo_device.Constants.{Bytes, stream, group, pending_pings_key}
use geo_device.Exec.{Result, ok, raised}
use geo_device.Pings.{StreamChunk, Entry, Formats, bytes_key}
use geo_device.Pings.Codec.{parse_entry}
use geo_device.Services.{Redis, Command, GroupInfo, xadd, incrby, decrby, xack, publish}

-- The counter, and the entries that no consumer has acknowledged, the oldest first.
pub record Server : Type 0 where
  pub counter : ℤ
  pub entries : List Entry

-- The entries but those with the id.
unfoldable pub without : Bytes → List Entry → List Entry
without id [] = []
without id (e ∷ entries) = let rest = without id entries in ite (e.0 ≟ id) rest (e ∷ rest)

unfoldable pub without_all : List Bytes → List Entry → List Entry
unfolding without
without_all [] entries = entries
without_all (id ∷ ids) entries = without_all ids (without id entries)

-- `XADD` puts an entry behind the others under an id of the server's choice, and may drop some of
-- the oldest entries to keep the stream within its length.
abbrev pub Effect : Command → Server → Server → Type 0
Effect (xadd name field value maxlen) s t =
    (id : Bytes) × (k : ℕ) × (t
      ≡ record s { entries = drop k s.entries ++ (id, (field, value) ∷ []) ∷ [] })
Effect (incrby key n) s t =
    t ≡ record s { counter = ite (key ≟ pending_pings_key) (add_nat s.counter n) s.counter }
Effect (decrby key n) s t =
    t ≡ record s { counter = ite (key ≟ pending_pings_key) (sub_nat s.counter n) s.counter }
Effect (xack name _ ids) s t = t ≡ record s { entries = without_all ids s.entries }
Effect (publish channel payload) s t = t ≡ s

abbrev pub Effects : List Command → Server → Server → Type 0
Effects [] s t = t ≡ s
Effects (c ∷ commands) s u = (t : Server) × Effect c s t × Effects commands t u

abbrev pub value_of : Option ℤ → ℤ
value_of none = pos 0
value_of (some i) = i

-- The group of the program in a reply of `XINFO GROUPS`; a stream has one group of a name.
pub record IsGroup (reply : List GroupInfo) (g : GroupInfo) : Type 0 where
  pub listed : In g reply
  pub named : g.name ≡ group
  pub only : (g' : GroupInfo) → In g' reply → g'.name ≡ group → g' ≡ g

-- `view` reads the stream and the counter off the world. An entry that is not acknowledged is among
-- the pending entries of the group or was not delivered to it yet; the lag, where redis can tell it,
-- is the number of those that were not delivered.
pub record IsServer {W : Type 0} (redis : Redis W) (view : W → Server) : Type 0 where
  pub executes :
      (commands : List Command) (w : W)
      → (redis.execute commands w).0 ≡ ok tt
      → Effects commands (view w) (view (redis.execute commands w).1)
  pub gets :
      (v : Option ℤ) (w : W)
      → (redis.get pending_pings_key w).0 ≡ ok v
      → value_of v ≡ (view w).counter
  pub get_keeps : (w : W) → view (redis.get pending_pings_key w).1 ≡ view w
  pub groups :
      (w : W) (reply : List GroupInfo) (g : GroupInfo) (lag pending : ℕ)
      → (redis.xinfo_groups stream w).0 ≡ ok reply
      → IsGroup reply g
      → g.lag ≡ some lag
      → g.pending ≡ some pending
      → length (view w).entries ≤ lag + pending
  pub groups_keep : (w : W) → view (redis.xinfo_groups stream w).1 ≡ view w
  pub sets :
      (n : ℕ) (w : W)
      → (redis.set pending_pings_key n w).0 ≡ ok tt
      → view (redis.set pending_pings_key n w).1 ≡ record (view w) { counter = pos n }

-- How many pings an entry carries: none if it is skipped, or does not decode.
abbrev pings_in : Result (Option StreamChunk) → ℕ
pings_in (raised e) = 0
pings_in (ok none) = 0
pings_in (ok (some c)) = length c.pings

module _ (formats : Formats) where
  abbrev pub size : Entry → ℕ
  size e = pings_in (parse_entry formats e)

  -- How many pings wait in the entries.
  unfoldable pub queued : List Entry → ℕ
  queued [] = 0
  queued (e ∷ entries) = size e + queued entries

  pub queued-append : (xs ys : List Entry) → queued (xs ++ ys) ≡ queued xs + queued ys
  unfolding queued
  queued-append [] ys = omega arith
  queued-append (x ∷ xs) ys = omega (arith, queued-append xs ys)

  pub queued-drop : (k : ℕ) (xs : List Entry) → queued (drop k xs) ≤ queued xs
  unfolding queued
  queued-drop zero xs = omega arith
  queued-drop (suc k) [] = omega arith
  queued-drop (suc k) (x ∷ xs) = omega (arith, queued-drop k xs)

  queued-without_le : (id : Bytes) (xs : List Entry) → queued (without id xs) ≤ queued xs
  unfolding queued without
  queued-without_le id [] = omega arith
  queued-without_le id (x ∷ xs) = ground (arith, queued-without_le id xs)

  -- An entry that is taken off takes its pings along.
  pub queued-without :
      (e : Entry) (xs : List Entry) → In e xs → queued (without e.0 xs) + size e ≤ queued xs
  unfolding queued without
  queued-without e [] m = absurd m
  queued-without e (x ∷ xs) (inl q) = rw q (ground (arith, queued-without_le e.0 xs))
  queued-without e (x ∷ xs) (inr m) = ground (arith, queued-without e xs m)

-- Another entry stays.
pub In-without :
    (id : Bytes) (e : Entry) (xs : List Entry) → e.0 ≢ id → In e xs → In e (without id xs)
unfolding without
In-without id e [] n m = absurd m
In-without id e (x ∷ xs) n m = ground (arith, In-without id e xs n)
