-- ===== src/Worker/Acknowledged.antt =====
-- No entry of the stream is acknowledged before its pings are stored.
use geo_device.Prelude.{
  ◌≡◌, ◌⊎◌, true, some, List, [], ◌∷◌, ◌++◌, map, In, In-append_right, All, All-In, All-mono,
}
use geo_device.Exec.{ok}
use geo_device.Exec.Triple.{Triple-bind, Triple-pure, Triple-exit}
use geo_device.Pings.{Ping, StreamChunk, Entry, Formats}
use geo_device.Pings.Codec.{parse_entry}
use geo_device.Services.{Command, xack}
use geo_device.Stream.{pings_of}
use geo_device.Trace.{
  Trace, entries_read, pipelined, inserted, matched, committed, session_closed, perform,
}
use geo_device.Worker.{Env, write_pings, match_zones, close_session, store}
use geo_device.Trace.Rules.{Runs, perform_rule}

-- The pings that the sessions inserted, as the record of calls tells: those of the open
-- transaction, and those that are committed.
abbrev pub rows : Trace → List Ping × List Ping
rows [] = ([], [])
rows ((inserted pings, true) ∷ t) = let (open_rows, stored) = rows t in (open_rows ++ pings, stored)
rows ((committed, true) ∷ t) = let (open_rows, stored) = rows t in ([], stored ++ open_rows)
rows ((session_closed, b) ∷ t) = let (open_rows, stored) = rows t in ([], stored)
rows ((e, b) ∷ t) = rows t

module _ (formats : Formats) where
  -- One of the entries parses to the chunk.
  abbrev pub Parsed : StreamChunk → List Entry → Type 0
  Parsed c [] = ⊥
  Parsed c (e ∷ entries) = (parse_entry formats e ≡ ok (some c)) ⊎ Parsed c entries

  -- The chunk is in what the consumer read from the stream.
  abbrev pub Delivered : StreamChunk → Trace → Type 0
  Delivered c [] = ⊥
  Delivered c ((entries_read entries, b) ∷ t) = Parsed c entries ⊎ Delivered c t
  Delivered c ((e, b) ∷ t) = Delivered c t

  -- What an acknowledgement wants of the calls before it: the ids are those of chunks that were
  -- read, and the pings of these chunks are committed.
  abbrev pub Justified : List Command → Trace → Type 0
  Justified [] t = Unit {0}
  Justified (xack s g ids ∷ commands) t =
      ((chunks : List StreamChunk) × (ids ≡ map (λ c. c.entry_id) chunks)
        × All (λ c. Delivered c t) chunks
        × All (λ p. In p (rows t).1) (pings_of chunks))
      × Justified commands t
  Justified (command ∷ commands) t = Justified commands t

  -- Every acknowledgement in the record was justified when it was made.
  abbrev pub IsSafe : Trace → Type 0
  IsSafe [] = Unit {0}
  IsSafe ((pipelined commands, b) ∷ t) = Justified commands t × IsSafe t
  IsSafe ((e, b) ∷ t) = IsSafe t

  module _ (chunks : List StreamChunk) where
    abbrev pub Ready : Trace → Type 0
    Ready t = IsSafe t × All (λ c. Delivered c t) chunks

    abbrev pub Opened : List Ping → Trace → Type 0
    Opened pings t = Ready t × All (λ p. In p (rows t).0) pings

    abbrev pub Stored : List Ping → Trace → Type 0
    Stored pings t = Ready t × All (λ p. In p (rows t).1) pings

module _ {W : Type 0} (env : Env W) (chunks : List StreamChunk) (pings : List Ping) where
  open env use {redis, session, clock, formats, settings}

  insert-Opened :
      (ps : List Ping)
      → Runs
          (Ready formats chunks)
          (write_pings env ps)
          (λ n. Opened formats chunks ps)
          (Ready formats chunks)
  unfolding write_pings
  insert-Opened [] = Triple-pure 0 (λ r h. (h, tt))
  insert-Opened (p ∷ ps) =
      Triple-bind _ _ _
        (perform_rule (Ready formats chunks) (λ u. Opened formats chunks (p ∷ ps))
          (Ready formats chunks) (λ r. inserted (p ∷ ps)) _
          (λ t u h. (h, All-In _ (p ∷ ps) (λ q m. In-append_right q (rows t).0 (p ∷ ps) m)))
          (λ t e h. h))
        (λ u. Triple-pure _ (λ r h. h))

  match-Opened :
      (ps : List Ping)
      → Runs
          (Opened formats chunks pings)
          (match_zones env ps)
          (λ hits. Opened formats chunks pings)
          (Ready formats chunks)
  unfolding match_zones
  match-Opened [] = Triple-pure [] (λ r h. h)
  match-Opened (p ∷ ps) =
      perform_rule (Opened formats chunks pings) (λ hits. Opened formats chunks pings)
        (Ready formats chunks) (λ r. matched (p ∷ ps)) _ (λ t u h. h) (λ t e h. h.0)

  commit-Stored :
      Runs
        (Opened formats chunks pings)
        (perform (λ _. committed) session.commit)
        (λ u. Stored formats chunks pings)
        (Ready formats chunks)
  commit-Stored =
      perform_rule (Opened formats chunks pings) (λ u. Stored formats chunks pings)
        (Ready formats chunks) (λ r. committed) _
        (λ t u h. (h.0, All-mono _ _ pings (λ p m. In-append_right p (rows t).1 (rows t).0 m) h.1))
        (λ t e h. h.0)

  pub store-Stored :
      Runs
        (Ready formats chunks)
        (store env pings)
        (λ hits. Stored formats chunks pings)
        (Ready formats chunks)
  unfolding store close_session
  store-Stored =
      Triple-exit (λ hits r. Stored formats chunks pings r.trace)
        (λ e r. Ready formats chunks r.trace) _ (close_session env)
        (Triple-bind _ _ _ (insert-Opened pings) (λ n.
          Triple-bind _ _ _ (match-Opened pings)
            (λ hits. Triple-bind _ _ _ commit-Stored (λ u. Triple-pure hits (λ r h. h)))))
        (λ hits.
          perform_rule (Stored formats chunks pings) (λ u. Stored formats chunks pings)
            (Ready formats chunks) (λ r. session_closed) _ (λ t u h. h) (λ t e h. h.0))
        (λ e.
          perform_rule (Ready formats chunks) (λ u. Ready formats chunks) (Ready formats chunks)
            (λ r. session_closed) _ (λ t u h. h) (λ t e h. h))
