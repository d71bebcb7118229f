-- ===== src/Stream.antt =====
-- app/pipeline/stream.py: the stream of pings, its consumer group, and the counter of pings that are
-- not written yet.
pub mod Counter
pub mod Ledger
pub mod Payloads
pub mod Reconciled
mod LedgerTests
mod Tests
use geo_device.Prelude.{
  ℕ, zero, suc, ◌+◌, Bool, true, false, not, ◌&&◌, Option, none, some, List, [], ◌∷◌, ◌++◌, map,
  String, length, ◌==◌, if◌then◌else◌, ite, ◌≟◌, string_key, String_discrete,
}
use geo_device.Prelude.Int.{ℤ, pos, negsuc, pos_part}
use geo_device.Constants.{
  Bytes, stream, group, payload_field, new_messages, read_count, block_ms, claim_idle_ms,
  pending_pings_key, group_exists_prefix,
}
use text.Mathlib.Text.{starts_with}
use geo_device.Errors.{Exn, response_error, value_error}
use geo_device.Exec.{Exec, Result, ok, raised, pure, raise, lift, try_except, ◌>>=◌}
use geo_device.Pings.{Ping, StreamChunk, Entry, Formats}
use geo_device.Pings.Codec.{encode_pings, parse_stream_chunk}
use geo_device.Batched.{batched}
use geo_device.Services.{Redis, Command, xadd, incrby, decrby, xack, GroupInfo}
use geo_device.Settings.{IngestSettings}
use geo_device.Trace.{Run, Event, entries_read, pipelined, counter_set, perform, silent}

-- The pings of some chunks, in order.
abbrev pub pings_of : List StreamChunk → List Ping
pings_of [] = []
pings_of (c ∷ chunks) = c.pings ++ pings_of chunks

module _ (formats : Formats) (settings : IngestSettings) where
  -- What `publish` queues in its pipeline.
  unfoldable pub publish_commands : List Ping → List Command
  unfolding batched encode_pings
  publish_commands pings =
      map (λ chunk. xadd stream payload_field (encode_pings formats chunk) settings.stream_max_len)
        (batched settings.chunk_size pings)
      ++ incrby pending_pings_key (length pings) ∷ []

-- `sum(len(chunk.pings) for chunk in chunks)`
unfoldable pub pings_count : List StreamChunk → ℕ
pings_count [] = 0
pings_count (c ∷ chunks) = length c.pings + pings_count chunks

-- What `ack` queues in its pipeline.
unfoldable pub ack_commands : List StreamChunk → List Command
unfolding pings_count
ack_commands chunks =
    xack stream group (map (λ c. c.entry_id) chunks)
    ∷ decrby pending_pings_key (pings_count chunks)
    ∷ []

abbrev pub or_zero : Option ℕ → ℕ
or_zero none = 0
or_zero (some n) = n

-- The loop of `get_entry_backlog`: the first group of the name counts.
unfoldable pub entry_backlog : List GroupInfo → ℕ
entry_backlog [] = 0
entry_backlog (g ∷ groups) =
    ite (g.name ≟ group) (or_zero g.lag + or_zero g.pending) (entry_backlog groups)

-- `max(int(pending or 0), 0)`
unfoldable pub backlog_of : Option ℤ → ℕ
backlog_of none = 0
backlog_of (some i) = pos_part i

-- `response[0][1]`, or no entry where there is no response
unfoldable pub response_entries : List (String × List Entry) → List Entry
response_entries [] = []
response_entries ((name, entries) ∷ rest) = entries

abbrev pub entries_of : Result (List (String × List Entry)) → List Entry
entries_of (ok response) = response_entries response
entries_of (raised e) = []

abbrev pub claimed_entries : Result (List Entry) → List Entry
claimed_entries (ok entries) = entries
claimed_entries (raised e) = []

module _ {W : Type 0} (redis : Redis W) (formats : Formats) (settings : IngestSettings) where
  -- `batched` raises `ValueError` for a size of 0
  unfoldable pub publish : List Ping → Exec (Run W) (Unit {0})
  unfolding publish_commands pure raise perform
  publish [] = pure tt
  publish (p ∷ pings) =
      if settings.chunk_size == 0
      then raise value_error
      else perform (λ _. pipelined (publish_commands formats settings (p ∷ pings)))
          (redis.execute (publish_commands formats settings (p ∷ pings)))

  unfoldable pub claim_stale : String → Exec (Run W) (List StreamChunk)
  unfolding perform parse_stream_chunk ◌>>=◌
  claim_stale consumer = do
    entries ←
        perform (λ r. entries_read (claimed_entries r))
          (redis.xautoclaim consumer claim_idle_ms read_count)
    lift (parse_stream_chunk formats entries)

  unfoldable pub read_new : String → String → Exec (Run W) (List StreamChunk)
  unfolding perform parse_stream_chunk response_entries ◌>>=◌
  read_new consumer entry_id = do
    response ←
        perform (λ r. entries_read (entries_of r))
          (redis.xreadgroup consumer entry_id read_count block_ms)
    lift (parse_stream_chunk formats (response_entries response))

module _ {W : Type 0} (redis : Redis W) where
  unfoldable pub get_backlog : Exec (Run W) ℕ
  unfolding silent backlog_of ◌>>=◌
  get_backlog = do pending ← silent (redis.get pending_pings_key); pure (backlog_of pending)

  unfoldable pub get_entry_backlog : Exec (Run W) ℕ
  unfolding silent entry_backlog ◌>>=◌
  get_entry_backlog = do groups ← silent (redis.xinfo_groups stream); pure (entry_backlog groups)

  unfoldable pub reset_pending : ℕ → Exec (Run W) (Unit {0})
  unfolding perform pure
  reset_pending pending =
      if pending == 0 then pure tt else perform (λ _. counter_set 0) (redis.set pending_pings_key 0)

  -- The counter is read only if no entry is left.
  unfoldable pub reconcile_backlog : Exec (Run W) (Unit {0})
  unfolding get_backlog get_entry_backlog reset_pending ◌>>=◌
  reconcile_backlog = do
    entries ← get_entry_backlog
    if entries == 0 then get_backlog >>= reset_pending else pure tt

  unfoldable pub ack : List StreamChunk → Exec (Run W) (Unit {0})
  unfolding ack_commands perform pure
  ack [] = pure tt
  ack (c ∷ chunks) =
      perform (λ _. pipelined (ack_commands (c ∷ chunks)))
        (redis.execute (ack_commands (c ∷ chunks)))

  -- `except ResponseError`, which raises again unless the group is there already
  unfoldable pub group_exists : Exn → Exec (Run W) (Unit {0})
  unfolding pure raise
  group_exists (response_error text) =
      if starts_with text group_exists_prefix then pure tt else raise (response_error text)
  group_exists e = raise e

  unfoldable pub ensure_group : Exec (Run W) (Unit {0})
  unfolding silent try_except group_exists
  ensure_group = try_except (silent (redis.xgroup_create stream group "0")) (λ _. true) group_exists
