-- ===== src/Geozones/Stored.antt =====
-- What a geozone that was created reads back as, and the names that a user has already.
use geo_device.Prelude.{
  ℕ, ◌≡◌, ◌≢◌, ◌⊎◌, refl, subst, sym, ◌∙◌, ap, inl, inr, false, Option, none, some, List, [], ◌∷◌,
  String, In, All, ite, ◌≟◌, string_key, if_pos, if_neg, String_discrete,
}
use geo_device.Errors.{Exn, integrity_error}
use geo_device.Exec.{Result, ok, raised, pure, try_except, ◌>>=◌, ◌>>◌}
use geo_device.Exec.Triple.{
  Triple, Outcome, Triple-law, Triple-pure, Triple-raise, Triple-bind, Triple-try,
}
use geo_device.Geozones.{
  GeozoneCreateRequest, GeozoneResponse, NewGeozone, id_is, user_is, new_geozone, make_point,
  by_id_and_user, Table, create, retrieve, found, missing, name_exists, is_integrity_error, give_up,
}
use geo_device.Geozones.Rows.{IsTable, IsRow, IsSelected, Unchanged}
use geo_device.Migrations.{Constraint, check, primary_key, unique, geozones_constraints}

-- The row has what the request gives.
abbrev pub IsRequested : String → GeozoneCreateRequest → GeozoneResponse → Type 0
IsRequested user_id payload row =
    (row.user_id ≡ user_id)
    × (row.name ≡ payload.name)
    × (row.lat ≡ payload.lat)
    × (row.lon ≡ payload.lon)
    × (row.radius_m ≡ payload.radius_m)

-- The user has a geozone of the name.
abbrev pub IsTaken : String → String → List GeozoneResponse → Type 0
IsTaken user_id name rows =
    (r : GeozoneResponse) × In r rows × (r.user_id ≡ user_id) × (r.name ≡ name)

-- Two rows have the same value in a column of a constraint.
abbrev pub Agree : String → GeozoneResponse → GeozoneResponse → Type 0
Agree column r row = ite (column ≟ "id") (r.id ≡ row.id) (
    ite (column ≟ "user_id") (r.user_id ≡ row.user_id)
      (ite (column ≟ "name") (r.name ≡ row.name) ⊥))

abbrev pub Clash : Constraint → GeozoneResponse → GeozoneResponse → Type 0
Clash (check name condition) r row = ⊥
Clash (primary_key name columns) r row = All (λ column. Agree column r row) columns
Clash (unique name columns) r row = All (λ column. Agree column r row) columns

module _ {W : Type 0} (table : Table W) (rows saved : W → List GeozoneResponse) where
  open table use {insert, select_one, commit, rollback}

  -- The documented behaviour of an insertion under the constraints that the migration gives the
  -- table: a row that goes in clashes with no other by any of them. A rollback raises no
  -- `IntegrityError`.
  pub record IsKeyed : Type 0 where
    pub inserts :
        (values : NewGeozone) (w : W)
        → Outcome
            (λ row w'.
              IsRow values row
              × (rows w' ≡ row ∷ rows w)
              × (saved w' ≡ saved w)
              × ((c : Constraint) (r : GeozoneResponse)
                  → In c geozones_constraints
                  → In r (rows w)
                  → ¬ Clash c r row))
            (λ e w'. Unchanged table rows saved w w')
            (insert values w).0
            (insert values w).1
    pub rolls_back :
        (w : W)
        → Outcome
            (λ t w'. (rows w' ≡ saved w) × (saved w' ≡ saved w))
            (λ e w'. (is_integrity_error e ≡ false) × Unchanged table rows saved w w')
            (rollback w).0
            (rollback w).1

  module _ (user_id : String) (payload : GeozoneCreateRequest)
      (old kept : List GeozoneResponse) where
    -- A new row, under an id and a name that were free.
    abbrev pub IsNew : GeozoneResponse → Type 0
    IsNew row =
        IsRequested user_id payload row
        × (¬ IsTaken user_id payload.name old)
        × ((r : GeozoneResponse) → In r old → r.id ≢ row.id)

    -- After a creation that returned: the row is committed, before the others.
    abbrev pub Created : GeozoneResponse → W → Type 0
    Created row w = IsNew row × (rows w ≡ row ∷ old) × (saved w ≡ row ∷ old)

    -- After a step that raised: nothing is committed, or such a row in a commit that failed.
    abbrev pub Broken : Exn → W → Type 0
    Broken e w = (saved w ≡ kept) ⊎ ((row : GeozoneResponse) × IsNew row × (saved w ≡ row ∷ old))

    -- After a creation that raised: no `IntegrityError` gets out.
    abbrev pub Failed : Exn → W → Type 0
    Failed e w = (is_integrity_error e ≡ false) × Broken e w

    abbrev Before : W → Type 0
    Before w = (rows w ≡ old) × (saved w ≡ kept)

    abbrev Inserted : GeozoneResponse → W → Type 0
    Inserted row w = IsNew row × (rows w ≡ row ∷ old) × (saved w ≡ kept)

    module _ (laws : IsTable table rows saved) (keyed : IsKeyed) where
      insert-IsNew :
          (row : GeozoneResponse) (rs : List GeozoneResponse)
          → rs ≡ old
          → IsRow (new_geozone user_id payload) row
          → ((c : Constraint) (r : GeozoneResponse)
              → In c geozones_constraints
              → In r rs
              → ¬ Clash c r row)
          → IsNew row
      unfolding new_geozone make_point String_discrete
      insert-IsNew row rs e given apart = (
        (given.user_id, given.name, given.lat, given.lon, given.radius_m),
        (λ (r, m, u, n).
            apart (unique "uq_geozones_user_name" ("user_id" ∷ "name" ∷ [])) r
              (inr (inr (inl refl))) (rw e m) (u ∙ sym given.user_id, (n ∙ sym given.name, tt))),
        (λ r m i.
            apart (primary_key "pk_geozones" ("id" ∷ [])) r (inr (inl refl)) (rw e m) (i, tt)),
      )

      insert-Inserted : Triple Before (insert (new_geozone user_id payload)) Inserted Broken
      insert-Inserted =
          Triple-law Before Inserted Broken (insert (new_geozone user_id payload)) _ _
            (keyed.inserts (new_geozone user_id payload))
            (λ w w' row p (given, seen, unsaved, apart). (
              insert-IsNew row (rows w) p.0 given apart,
              seen ∙ ap (λ rs. row ∷ rs) p.0,
              unsaved ∙ p.1,
            ))
            (λ w w' e p h. inl (h.1 ∙ p.1))

      commit-Created :
          (row : GeozoneResponse) → Triple (Inserted row) (commit >> pure row) Created Broken
      commit-Created row =
          Triple-bind (λ t. Created row) commit (λ t. pure row)
            (Triple-law (Inserted row) (λ t. Created row) Broken commit _ _ laws.commits
              (λ w w' t p h. (p.0, h.0 ∙ p.1, h.1 ∙ p.1))
              (λ w w' e p h. elim h.1 [ inl q ↦ inr (row, p.0, q ∙ p.1) | inr q ↦ inl (q ∙ p.2) ]))
            (λ t. Triple-pure row (λ w p. p))

      rollback-Broken : (e : Exn) → Triple (Broken e) rollback (λ t. Broken e) Failed
      rollback-Broken e =
          Triple-law (Broken e) (λ t. Broken e) Failed rollback _ _ keyed.rolls_back
            (λ w w' t p h. rw h.1 p) (λ w w' x p h. (h.0, rw h.1.1 p))

      create-Created : Triple Before (create table user_id payload) Created Failed
      unfolding create give_up
      create-Created =
          Triple-try Broken _ is_integrity_error _
            (Triple-bind Inserted _ _ insert-Inserted commit-Created) (λ e c w p. (c, p))
            (λ e c.
              Triple-bind (λ t. Broken e) _ _ (rollback-Broken e)
                (λ t. Triple-raise _ (λ w p. (refl, p))))

  module _ (user_id : String) (payload : GeozoneCreateRequest) (w : W) where
    abbrev pub after_create : W
    after_create = (create table user_id payload w).1

    conflict :
        (insert (new_geozone user_id payload) w).0 ≡ raised integrity_error
        → (rollback (insert (new_geozone user_id payload) w).1).0 ≡ ok tt
        → create table user_id payload w ≡ (
          raised (name_exists table payload.name),
          (rollback (insert (new_geozone user_id payload) w).1).1,
        )
    unfolding create give_up try_except ◌>>=◌
    conflict e e' = rw (e, e', create) refl

    abbrev pub ConflictAnswered : Type 0
    ConflictAnswered =
        ((create table user_id payload w).0 ≡ raised (name_exists table payload.name))
        × (rows after_create ≡ saved w)
        × (saved after_create ≡ saved w)

    rolled :
        (r : Result (Unit {0})) (v x : W)
        → r ≡ ok tt
        → Outcome
            (λ t w'. (rows w' ≡ saved v) × (saved w' ≡ saved v))
            (λ e w'. Unchanged table rows saved v w')
            r
            x
        → (rows x ≡ saved v) × (saved x ≡ saved v)
    rolled (ok t) v x e h = h
    rolled (raised y) v x e h = absurd (ne e)
      where
        ne : raised y ≢ ok tt
        ne q = cc

    unsaved :
        (r : Result GeozoneResponse) (x : W)
        → r ≡ raised integrity_error
        → Outcome
            (λ row w'.
              IsRow (new_geozone user_id payload) row
              × (rows w' ≡ row ∷ rows w)
              × (saved w' ≡ saved w))
            (λ e w'. Unchanged table rows saved w w')
            r
            x
        → saved x ≡ saved w
    unsaved (ok row) x e h = h.2
    unsaved (raised y) x e h = h.1

    -- Under the documented behaviour of the statements and of the constraints of the table: a
    -- creation that returns has committed one row with what was requested, before all others, under
    -- an id that no other row has and a name that the user did not have. One that raises raises no
    -- `IntegrityError`, and has committed nothing, or such a row where the commit itself failed. If
    -- the insertion raises an `IntegrityError` and the rollback returns, the error is the conflict
    -- (409) that names the name, and the transaction is clean again, with nothing committed.
    pub create-Ends :
        IsTable table rows saved
        → IsKeyed
        → Outcome
            (Created user_id payload (rows w) (saved w))
            (Failed user_id payload (rows w) (saved w))
            (create table user_id payload w).0
            (create table user_id payload w).1
          × ((insert (new_geozone user_id payload) w).0 ≡ raised integrity_error
              → (rollback (insert (new_geozone user_id payload) w).1).0 ≡ ok tt
              → ConflictAnswered)
    create-Ends laws keyed = (
      (create-Created user_id payload (rows w) (saved w) laws keyed).at w (refl, refl),
      (λ e e'.
          let v = (insert (new_geozone user_id payload) w).1 in
          let same : saved v ≡ saved w =
            unsaved _ v e (laws.inserts (new_geozone user_id payload) w) in
          let (clean, kept) = rolled _ v _ e' (laws.rolls_back v) in
          subst
            (λ (p : Result GeozoneResponse × W).
              (p.0 ≡ raised (name_exists table payload.name))
              × (rows p.1 ≡ saved w)
              × (saved p.1 ≡ saved w))
            (sym (conflict e e')) (refl, clean ∙ same, kept ∙ same)),
    )

    -- What a read of the new id by any user finds.
    read_new :
        (row : GeozoneResponse) (reader : String) (one : Option GeozoneResponse)
        (rs : List GeozoneResponse)
        → row.user_id ≡ user_id
        → ((r : GeozoneResponse) → In r rs → r.id ≢ row.id)
        → IsSelected (id_is row.id ∷ user_is reader ∷ []) one (row ∷ rs)
        → one ≡ ite (reader ≟ user_id) (some row) none
    read_new row reader none rs own fresh h = elim (reader ≟ user_id) [
      | yes p ↦ absurd (h row (inl refl) (refl, (own ∙ sym p, tt)))
      | no n ↦ rw (if_neg (reader ≟ user_id) n) refl
    ]
    read_new row reader (some r) rs own fresh (inr m, (i, (u, t))) = absurd (fresh r m i)
    read_new row reader (some r) rs own fresh (inl e, (i, (u, t))) =
        let mine : reader ≡ user_id = sym u ∙ ap (λ x. x.user_id) (sym e) ∙ own in
        rw (if_pos (reader ≟ user_id) mine) (ap some (sym e))

    selection :
        (id : ℕ) (reader : String) (one : Option GeozoneResponse) (v : W)
        (r : Result (Option GeozoneResponse) × W)
        → r.0 ≡ ok one
        → Outcome
            (λ o w'.
              IsSelected (id_is id ∷ user_is reader ∷ []) o (rows v)
              × Unchanged table rows saved v w')
            (λ e w'. Unchanged table rows saved v w')
            r.0
            r.1
        → IsSelected (id_is id ∷ user_is reader ∷ []) one (rows v)
    selection id reader one v (ok o, x) e h =
        let same : o ≡ one = cc in
        subst (λ y. IsSelected (id_is id ∷ user_is reader ∷ []) y (rows v)) same h.0
    selection id reader one v (raised y, x) e h = absurd (ne e)
      where
        ne : raised y ≢ ok one
        ne q = cc

    found_if :
        {P : Type 0} (id : ℕ) (row : GeozoneResponse) (d : Dec P) (s : W)
        → (found table id (ite d (some row) none) s).0 ≡ ite d (ok row) (raised (missing table id))
    unfolding found
    found_if id row (yes p) s = refl
    found_if id row (no n) s = refl

    -- Under the documented behaviour of the statements: when a geozone is created, a read of its id
    -- whose statement returns gives the user the row that the creation returned, and any other
    -- reader the error 404.
    pub create-retrieve :
        (row : GeozoneResponse) (reader : String) (one : Option GeozoneResponse)
        → IsTable table rows saved
        → IsKeyed
        → (create table user_id payload w).0 ≡ ok row
        → (select_one (id_is row.id ∷ user_is reader ∷ []) (create table user_id payload w).1).0
          ≡ ok one
        → (retrieve table row.id reader (create table user_id payload w).1).0
          ≡ ite (reader ≟ user_id) (ok row) (raised (missing table row.id))
    unfolding retrieve found by_id_and_user
    create-retrieve row reader one laws keyed made answered =
        let w' = (create table user_id payload w).1 in
        let ends : Created user_id payload (rows w) (saved w) row w' =
          subst
            (λ r.
              Outcome (Created user_id payload (rows w) (saved w))
                (Failed user_id payload (rows w) (saved w)) r w')
            made (create-Ends laws keyed).0 in
        let ((given, free, fresh), seen, stored) = ends in
        let selected : IsSelected (id_is row.id ∷ user_is reader ∷ []) one (rows w') =
          selection row.id reader one w' _ answered
            (laws.selects_one (id_is row.id ∷ user_is reader ∷ []) w') in
        let what : one ≡ ite (reader ≟ user_id) (some row) none =
          read_new row reader one (rows w) given.0 fresh (rw seen at selected) in
        rw (answered, retrieve, what) (found_if row.id row (reader ≟ user_id) _)
