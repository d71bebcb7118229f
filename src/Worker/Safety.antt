-- ===== src/Worker/Safety.antt =====
-- A worker acknowledges only entries whose pings are stored, whatever it does and whatever the
-- world answers.
use geo_device.Prelude.{
  ℕ, ◌≡◌, refl, inl, inr, true, Option, none, some, List, [], ◌∷◌, String, All, All-mono, arith,
  ◌==◌,
}
use geo_device.Constants.{pending_pings_key, stream, read_count, block_ms, claim_idle_ms}
use geo_device.Exec.{Result, ok, raised, lift}
use geo_device.Exec.Triple.{Outcome, Triple-bind, Triple-pure, Triple-if}
use geo_device.Pings.{Ping, StreamChunk, Entry, Formats}
use geo_device.Pings.Codec.{parse_entry, parse_stream_chunk}
use geo_device.Realtime.{publish_positions}
use geo_device.Stream
use geo_device.Stream.{response_entries, entries_of, claimed_entries, entry_backlog, backlog_of}
use geo_device.Trace.{Run, Trace, entries_read, counter_set, published}
use geo_device.Trace.Rules.{Runs, perform_rule, silent_rule}
use geo_device.Worker.{Env, flush_read}
use geo_device.Worker.Rules.{Works}
use geo_device.Worker.Acknowledged.{IsSafe, Ready, Delivered, Parsed}
use geo_device.Worker.Flushing.{flush_rule}

module _ (formats : Formats) where
  chunk_origin :
      (x : Entry) (entries : List Entry) (chunks : List StreamChunk)
      (o : Result (Option StreamChunk)) (r : Result (List StreamChunk))
      → parse_entry formats x ≡ o
      → parse_stream_chunk formats entries ≡ r
      → ((cs : List StreamChunk) → r ≡ ok cs → All (λ c. Parsed formats c entries) cs)
      → parse_stream_chunk formats (x ∷ entries) ≡ ok chunks
      → All (λ c. Parsed formats c (x ∷ entries)) chunks
  unfolding parse_stream_chunk
  chunk_origin x entries chunks (ok none) (ok cs) p q ih e =
      let k : cs ≡ chunks = ground arith in rw (← k) (All-mono _ _ cs (λ c m. inr m) (ih cs refl))
  chunk_origin x entries chunks (ok (some c)) (ok cs) p q ih e =
      let k : c ∷ cs ≡ chunks = ground arith in
      rw (← k) (inl p, All-mono _ _ cs (λ c m. inr m) (ih cs refl))
  chunk_origin x entries chunks (ok o) (raised exn) p q ih e = absurd (ground arith)
  chunk_origin x entries chunks (raised exn) r p q ih e = absurd (ground arith)

  -- Every chunk that is parsed comes from one of the entries.
  parsed :
      (entries : List Entry) (chunks : List StreamChunk)
      → parse_stream_chunk formats entries ≡ ok chunks
      → All (λ c. Parsed formats c entries) chunks
  unfolding parse_stream_chunk
  parsed [] [] e = tt
  parsed [] (c ∷ chunks) e = cc
  parsed (x ∷ entries) chunks e =
      chunk_origin x entries chunks (parse_entry formats x) (parse_stream_chunk formats entries)
        refl refl (λ cs. parsed entries cs) e

  -- The record is safe, and the entries are in it.
  abbrev WasRead : List Entry → Trace → Type 0
  WasRead entries t =
      IsSafe formats t × ((c : StreamChunk) → Parsed formats c entries → Delivered formats c t)

  -- Parsing what was just read makes chunks that are ready to be flushed.
  parse_rule :
      {W : Type 0} (entries : List Entry)
      → Runs {W = W}
          (WasRead entries)
          (lift (parse_stream_chunk formats entries))
          (λ chunks. Ready formats chunks)
          (IsSafe formats)
  unfolding lift
  parse_rule {W} entries = record { at = λ r h. go r h (parse_stream_chunk formats entries) refl }
    where
      go :
          (r : Run W)
          → WasRead entries r.trace
          → (result : Result (List StreamChunk)) → parse_stream_chunk formats entries ≡ result
          → Outcome {S = Run W}
              (λ chunks r. Ready formats chunks r.trace)
              (λ e r. IsSafe formats r.trace)
              result
              r
      go r h (ok chunks) e = (h.0, All-mono _ _ chunks (λ c m. h.1 c m) (parsed entries chunks e))
      go r h (raised exn) e = h.0

module _ {W : Type 0} (env : Env W) where
  open env use {redis, session, clock, formats, settings}

  abbrev pub Safe : Trace → Type 0
  Safe = IsSafe formats

  pub read_rule :
      (consumer entry_id : String)
      → Runs Safe
          (Stream.read_new redis formats settings consumer entry_id)
          (λ chunks. Ready formats chunks)
          Safe
  unfolding Stream.read_new
  read_rule consumer entry_id =
      Triple-bind _ _ _
        (perform_rule Safe (λ response. WasRead formats (response_entries response)) Safe
          (λ r. entries_read (entries_of r))
          (redis.xreadgroup consumer entry_id read_count block_ms) (λ t a h. (h, λ c p. inl p))
          (λ t e h. h))
        (λ response. parse_rule formats (response_entries response))

  pub claim_rule :
      (consumer : String)
      → Runs Safe
          (Stream.claim_stale redis formats settings consumer)
          (λ chunks. Ready formats chunks)
          Safe
  unfolding Stream.claim_stale
  claim_rule consumer =
      Triple-bind _ _ _
        (perform_rule Safe (λ entries. WasRead formats entries) Safe
          (λ r. entries_read (claimed_entries r))
          (redis.xautoclaim consumer claim_idle_ms read_count) (λ t a h. (h, λ c p. inl p))
          (λ t e h. h))
        (λ entries. parse_rule formats entries)

  reset_rule : (pending : ℕ) → Runs Safe (Stream.reset_pending redis pending) (λ u. Safe) Safe
  unfolding Stream.reset_pending
  reset_rule pending =
      Triple-if (pending == 0) _ _ (λ e. Triple-pure tt (λ r h. h))
        (λ e. perform_rule Safe (λ u. Safe) Safe (λ r. counter_set 0) _ (λ t u h. h) (λ t e h. h))

  pub reconcile_rule : Runs Safe (Stream.reconcile_backlog redis) (λ u. Safe) Safe
  unfolding Stream.reconcile_backlog Stream.get_entry_backlog Stream.get_backlog
  reconcile_rule =
      Triple-bind _ _ _
        (Triple-bind _ _ _ (silent_rule Safe (redis.xinfo_groups stream))
          (λ groups. Triple-pure (entry_backlog groups) (λ r h. h)))
        (λ entries.
          Triple-if (entries == 0) _ _
            (λ e.
              Triple-bind _ _ _
                (Triple-bind _ _ _ (silent_rule Safe (redis.get pending_pings_key))
                  (λ pending. Triple-pure (backlog_of pending) (λ r h. h)))
                reset_rule)
            (λ e. Triple-pure tt (λ r h. h)))

  pub positions_rule :
      (positions : List Ping)
      → Runs Safe (publish_positions redis formats positions) (λ n. Safe) Safe
  unfolding publish_positions
  positions_rule [] = Triple-pure 0 (λ r h. h)
  positions_rule (p ∷ positions) =
      Triple-bind _ _ _
        (perform_rule Safe (λ u. Safe) Safe (λ r. published "positions") _ (λ t u h. h)
          (λ t e h. h))
        (λ u. Triple-pure _ (λ r h. h))

  pub flush_read_rule :
      (chunks : List StreamChunk)
      → Works (Ready formats chunks) (flush_read env chunks) (λ b. Safe) Safe
  unfolding flush_read
  flush_read_rule [] = Triple-pure true (λ s h. h.0)
  flush_read_rule (c ∷ chunks) = flush_rule env (c ∷ chunks)
