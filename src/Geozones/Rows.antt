-- ===== src/Geozones/Rows.antt =====
-- The documented behaviour of the statements of SQL, whatever their `where`, on the rows of the
-- table as `_READ_COLUMNS` shows them.
use geo_device.Prelude.{ℕ, ◌≡◌, ◌↔◌, ◌⊎◌, Option, none, some, List, ◌∷◌, In, All, string_key}
use geo_device.Exec.Triple.{Outcome}
use geo_device.Geozones.{GeozoneResponse, Condition, id_is, user_is, NewGeozone, Values, Table}

abbrev pub Holds : GeozoneResponse → Condition → Type 0
Holds r (id_is id) = r.id ≡ id
Holds r (user_is user_id) = r.user_id ≡ user_id

-- The row is one that the `where` selects.
abbrev pub Matches : List Condition → GeozoneResponse → Type 0
Matches conditions r = All (Holds r) conditions

-- The rows that the `where` does not select are the same.
abbrev pub SameOthers : List Condition → List GeozoneResponse → List GeozoneResponse → Type 0
SameOthers conditions old new = (r : GeozoneResponse) → ¬ Matches conditions r → In r new ↔ In r old

-- The rows after an update of one row, with what it returned: the row, which keeps its id and user.
abbrev pub Replaced :
    List Condition → Option GeozoneResponse → List GeozoneResponse → List GeozoneResponse → Type 0
Replaced conditions none old new = new ≡ old
Replaced conditions (some row) old new =
    Matches conditions row
    × ((r : GeozoneResponse) → In r new ↔ ((row ≡ r) ⊎ (In r old × (¬ Matches conditions r))))

abbrev pub Deleted :
    List Condition → Option ℕ → List GeozoneResponse → List GeozoneResponse → Type 0
Deleted conditions none old new = new ≡ old
Deleted conditions (some n) old new =
    (r : GeozoneResponse) → In r new ↔ (In r old × (¬ Matches conditions r))

-- What a selection of at most one row may return.
abbrev pub IsSelected : List Condition → Option GeozoneResponse → List GeozoneResponse → Type 0
IsSelected conditions none rows = (r : GeozoneResponse) → In r rows → ¬ Matches conditions r
IsSelected conditions (some r) rows = In r rows × Matches conditions r

-- The row shows the values of the insertion.
pub record IsRow (values : NewGeozone) (row : GeozoneResponse) : Type 0 where
  pub user_id : row.user_id ≡ values.user_id
  pub name : row.name ≡ values.name
  pub lat : row.lat ≡ values.center.y
  pub lon : row.lon ≡ values.center.x
  pub radius_m : row.radius_m ≡ values.radius_m

module _ {W : Type 0} (table : Table W) (rows saved : W → List GeozoneResponse) where
  open table use {insert, select_page, select_one, update_one, delete_one, commit, rollback}

  abbrev pub Unchanged : W → W → Type 0
  Unchanged w w' = (rows w' ≡ rows w) × (saved w' ≡ saved w)

  -- The documented behaviour of the statements: `rows` is what the transaction sees, and `saved`
  -- what is committed. A statement touches the rows that its `where` selects only, whatever the `where`
  -- is; an update or a deletion of several rows, of which the caller wants one, may have taken place
  -- when it raises; a commit that fails may have taken place.
  pub record IsTable : Type 0 where
    pub inserts :
        (values : NewGeozone) (w : W)
        → Outcome
            (λ row w'. IsRow values row × (rows w' ≡ row ∷ rows w) × (saved w' ≡ saved w))
            (λ e w'. Unchanged w w')
            (insert values w).0
            (insert values w).1
    pub selects_page :
        (conditions : List Condition) (limit offset : ℕ) (w : W)
        → Outcome
            (λ page w'. All (Matches conditions) page × Unchanged w w')
            (λ e w'. Unchanged w w')
            (select_page conditions limit offset w).0
            (select_page conditions limit offset w).1
    pub selects_one :
        (conditions : List Condition) (w : W)
        → Outcome
            (λ one w'. IsSelected conditions one (rows w) × Unchanged w w')
            (λ e w'. Unchanged w w')
            (select_one conditions w).0
            (select_one conditions w).1
    pub updates_one :
        (conditions : List Condition) (values : Values) (w : W)
        → Outcome
            (λ one w'. Replaced conditions one (rows w) (rows w') × (saved w' ≡ saved w))
            (λ e w'. SameOthers conditions (rows w) (rows w') × (saved w' ≡ saved w))
            (update_one conditions values w).0
            (update_one conditions values w).1
    pub deletes_one :
        (conditions : List Condition) (w : W)
        → Outcome
            (λ one w'. Deleted conditions one (rows w) (rows w') × (saved w' ≡ saved w))
            (λ e w'. SameOthers conditions (rows w) (rows w') × (saved w' ≡ saved w))
            (delete_one conditions w).0
            (delete_one conditions w).1
    pub commits :
        (w : W)
        → Outcome
            (λ t w'. (rows w' ≡ rows w) × (saved w' ≡ rows w))
            (λ e w'. (rows w' ≡ rows w) × ((saved w' ≡ rows w) ⊎ (saved w' ≡ saved w)))
            (commit w).0
            (commit w).1
    pub rolls_back :
        (w : W)
        → Outcome
            (λ t w'. (rows w' ≡ saved w) × (saved w' ≡ saved w))
            (λ e w'. Unchanged w w')
            (rollback w).0
            (rollback w).1
