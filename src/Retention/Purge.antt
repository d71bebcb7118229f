-- ===== src/Retention/Purge.antt =====
-- What a purge deletes, when nothing else touches the rows and no statement fails.
use geo_device.Prelude.{ℕ, ◌+◌, ◌-◌, ◌*◌, min, ◌≡◌, List, [], ◌∷◌, length, ltb, if◌then◌else◌}
use geo_device.Exec.{Exec, Result, ok}
use geo_device.Settings.{IngestSettings}
use geo_device.Retention.{Delete}

-- The rows, by the time of their recording, that are older than a time; and those that are not.
unfoldable pub older : ℕ → List ℕ → List ℕ
older before [] = []
older before (at ∷ rows) = let rest = older before rows in if ltb at before then at ∷ rest else rest

unfoldable pub not_older : ℕ → List ℕ → List ℕ
not_older before [] = []
not_older before (at ∷ rows) =
    let rest = not_older before rows in if ltb at before then rest else at ∷ rest

-- A statement deletes as many of the rows that it selects as its limit allows, tells how many, and
-- leaves the rows that it does not select.
pub record Deletes {W : Type 0} (execute : Delete → Exec W ℕ) (rows : W → List ℕ) : Type 0 where
  pub removed :
      (stmt : Delete) (w : W)
      → (execute stmt w).0 ≡ ok (min (length (older stmt.recorded_before (rows w))) stmt.limit)
  pub left :
      (stmt : Delete) (w : W)
      → length (older stmt.recorded_before (rows (execute stmt w).1))
        ≡ length (older stmt.recorded_before (rows w)) - stmt.limit
  pub keeps :
      (stmt : Delete) (w : W)
      → not_older stmt.recorded_before (rows (execute stmt w).1)
        ≡ not_older stmt.recorded_before (rows w)

module _ {W : Type 0} (now : W → ℕ) (execute : Delete → Exec W ℕ) (rows : W → List ℕ)
    (laws : Deletes execute rows) (settings : IngestSettings) where
  abbrev pub expired : ℕ → W → ℕ
  expired cutoff w = length (older cutoff (rows w))

  -- What some passes do: the number deleted, the expired rows that are left, and the other rows.
  record Purged (cutoff passes deleted : ℕ) (w : W) (r : Result ℕ × W) : Type 0 where
    total : r.0 ≡ ok (deleted + min (expired cutoff w) (passes * settings.retention_batch_size))
    left : expired cutoff r.1 ≡ expired cutoff w - passes * settings.retention_batch_size
    kept : not_older cutoff (rows r.1) ≡ not_older cutoff (rows w)

  module _ (cutoff : ℕ) where
    abbrev stmt : Delete
    stmt = record { recorded_before = cutoff; limit = settings.retention_batch_size }
