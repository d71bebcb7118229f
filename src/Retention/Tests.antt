-- ===== src/Retention/Tests.antt =====
-- A purge of a table with two expired rows and one that is not.
use geo_device.Prelude.{ℕ, zero, suc, min, List, [], ◌∷◌, length, ltb, if◌then◌else◌}
use geo_device.Exec.{Exec, ok}
use geo_device.Retention.{Delete}
use geo_device.Retention.Purge.{older}

-- The rows without the first `n` that are older.
unfoldable remove : ℕ → ℕ → List ℕ → List ℕ
remove before n [] = []
remove before zero (at ∷ rows) = at ∷ rows
remove before (suc n) (at ∷ rows) =
    let gone = remove before n rows in
    let rest = remove before (suc n) rows in if ltb at before then gone else at ∷ rest

abbrev execute : Delete → Exec (List ℕ) ℕ
execute stmt rows = (
  ok (min (length (older stmt.recorded_before rows)) stmt.limit),
  remove stmt.recorded_before stmt.limit rows,
)

abbrev now : List ℕ → ℕ
now rows = 604_800_500

abbrev table : List ℕ
table = 100 ∷ 500 ∷ 200 ∷ []
