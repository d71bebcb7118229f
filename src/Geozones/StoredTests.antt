-- ===== src/Geozones/StoredTests.antt =====
-- A table with its constraints, on which a geozone is created and read by two users.
use geo_device.Prelude.{
  ℕ, suc, ◌+◌, ◌≤◌, ◌≡◌, ◌≢◌, ◌↔◌, refl, sym, ap, subst, ◌∙◌, inl, inr, arith, Bool, true, false,
  none, List, [], ◌∷◌, String, In, ite, ◌≟◌, string_key, Bool-cases, if◌then◌else◌, String_discrete,
  ℕ_discrete,
}
use geo_device.Errors.{integrity_error}
use geo_device.Exec.{Result, ok, raised}
use geo_device.Exec.Triple.{Outcome}
use geo_device.Geozones.{
  GeozoneCreateRequest, GeozoneResponse, NewGeozone, Table, new_geozone, make_point, create,
  retrieve, missing,
}
use geo_device.Geozones.Rows.{IsTable, IsRow}
use geo_device.Geozones.Stored.{
  IsTaken, Clash, IsKeyed, Created, Failed, ConflictAnswered, create-Ends, create-retrieve,
}
use geo_device.Geozones.Tests.{
  Rows, table, table-IsTable, find, matches, row_of, row_of-IsRow, zones,
}
use geo_device.Migrations.{Constraint, geozones_constraints}

-- An id above all others.
unfoldable ids : List GeozoneResponse → ℕ
ids [] = 0
ids (r ∷ rs) = r.id + ids rs

ids_le : (rs : List GeozoneResponse) (r : GeozoneResponse) → In r rs → r.id ≤ ids rs
unfolding ids
ids_le [] r m = absurd m
ids_le (x ∷ rs) r (inl e) = let same : x.id ≡ r.id = ap (λ y. y.id) e in omega (arith, same)
ids_le (x ∷ rs) r (inr m) = omega (arith, ids_le rs r m)

ids_above : (rs : List GeozoneResponse) (r : GeozoneResponse) → In r rs → r.id ≢ suc (ids rs)
ids_above rs r m e = omega (arith, ids_le rs r m)

abbrev is_named : String → String → GeozoneResponse → Bool
is_named user_id name r = ite (r.user_id ≟ user_id) (ite (r.name ≟ name) true false) false

named_iff :
    (user_id name : String) (r : GeozoneResponse)
    → (is_named user_id name r ≡ false) ↔ (¬ ((r.user_id ≡ user_id) × (r.name ≡ name)))
named_iff user_id name r = ground (arith, r.user_id ≟ user_id, r.name ≟ name)

unfoldable taken : String → String → List GeozoneResponse → Bool
taken user_id name [] = false
taken user_id name (r ∷ rs) =
    let rest = taken user_id name rs in if is_named user_id name r then true else rest

taken-IsTaken :
    (user_id name : String) (rs : List GeozoneResponse)
    → taken user_id name rs ≡ false
    → ¬ IsTaken user_id name rs
unfolding taken
taken-IsTaken user_id name [] e (r, m, u, n) = absurd m
taken-IsTaken user_id name (x ∷ rs) e (r, m, u, n) = elim (Bool-cases (is_named user_id name x)) [
  | inl c ↦ absurd (ground arith)
  | inr c ↦ elim m [
    | inl q ↦ (named_iff user_id name x).0 c (ap (λ y. y.user_id) q ∙ u, ap (λ y. y.name) q ∙ n)
    | inr m' ↦ taken-IsTaken user_id name rs (rw (c, taken) at e) (r, m', u, n)
  ]
]

insert_unless : Bool → GeozoneResponse → Rows → Result GeozoneResponse × Rows
insert_unless true row w = (raised integrity_error, w)
insert_unless false row w = (ok row, (row ∷ w.0, w.1))

abbrev keyed : Table Rows
keyed = record table {
  insert = λ values w.
      insert_unless (taken values.user_id values.name w.0) (row_of (suc (ids w.0)) values) w;
}

keyed-apart :
    (values : NewGeozone) (rs : List GeozoneResponse)
    → taken values.user_id values.name rs ≡ false
    → (c : Constraint) (r : GeozoneResponse) → In c geozones_constraints
    → In r rs
    → ¬ Clash c r (row_of (suc (ids rs)) values)
unfolding String_discrete
keyed-apart values rs free c r (inl e) m clash =
    absurd (subst (λ k. Clash k r (row_of (suc (ids rs)) values)) (sym e) clash)
keyed-apart values rs free c r (inr (inl e)) m clash =
    ids_above rs r m (subst (λ k. Clash k r (row_of (suc (ids rs)) values)) (sym e) clash).0
keyed-apart values rs free c r (inr (inr (inl e))) m clash =
    let (same_user, (same_name, t)) =
      subst (λ k. Clash k r (row_of (suc (ids rs)) values)) (sym e) clash in
    taken-IsTaken values.user_id values.name rs free (r, m, same_user, same_name)
keyed-apart values rs free c r (inr (inr (inr n))) m clash = absurd n

keyed-inserts :
    (b : Bool) (values : NewGeozone) (w : Rows)
    → taken values.user_id values.name w.0 ≡ b
    → let row = row_of (suc (ids w.0)) values in
      Outcome
        (λ row' w'.
          IsRow values row'
          × (w'.0 ≡ row' ∷ w.0)
          × (w'.1 ≡ w.1)
          × ((c : Constraint) (r : GeozoneResponse)
              → In c geozones_constraints
              → In r w.0
              → ¬ Clash c r row'))
        (λ e w'. (w'.0 ≡ w.0) × (w'.1 ≡ w.1))
        (insert_unless b row w).0
        (insert_unless b row w).1
unfolding insert_unless
keyed-inserts true values w e = (refl, refl)
keyed-inserts false values w e =
    (row_of-IsRow (suc (ids w.0)) values, refl, refl, keyed-apart values w.0 e)

keyed-IsKeyed : IsKeyed keyed (λ w. w.0) (λ w. w.1)
keyed-IsKeyed = record {
  inserts = λ values w. keyed-inserts (taken values.user_id values.name w.0) values w refl;
  rolls_back = λ w. (refl, refl);
}

insert-IsTable :
    (b : Bool) (values : NewGeozone) (w : Rows)
    → let row = row_of (suc (ids w.0)) values in
      Outcome
        (λ row' w'. IsRow values row' × (w'.0 ≡ row' ∷ w.0) × (w'.1 ≡ w.1))
        (λ e w'. (w'.0 ≡ w.0) × (w'.1 ≡ w.1))
        (insert_unless b row w).0
        (insert_unless b row w).1
unfolding insert_unless
insert-IsTable true values w = (refl, refl)
insert-IsTable false values w = (row_of-IsRow (suc (ids w.0)) values, refl, refl)

keyed-IsTable : IsTable keyed (λ w. w.0) (λ w. w.1)
keyed-IsTable = record {
  inserts = λ values w. insert-IsTable (taken values.user_id values.name w.0) values w;
  selects_page = table-IsTable.selects_page;
  selects_one = table-IsTable.selects_one;
  updates_one = table-IsTable.updates_one;
  deletes_one = table-IsTable.deletes_one;
  commits = table-IsTable.commits;
  rolls_back = table-IsTable.rolls_back;
}

abbrev lake : GeozoneCreateRequest
lake = record {
  name = "lake";
  lat = record { bits = 1 };
  lon = record { bits = 2 };
  radius_m = record { bits = 3 };
}

abbrev start : Rows
start = (zones, zones)

create-Ends_example :
    Outcome
      (Created keyed (λ w. w.0) (λ w. w.1) "ann" lake zones zones)
      (Failed keyed (λ w. w.0) (λ w. w.1) "ann" lake zones zones)
      (create keyed "ann" lake start).0
      (create keyed "ann" lake start).1
    × ((keyed.insert (new_geozone "ann" lake) start).0 ≡ raised integrity_error
        → (keyed.rollback (keyed.insert (new_geozone "ann" lake) start).1).0 ≡ ok tt
        → ConflictAnswered keyed (λ w. w.0) (λ w. w.1) "ann" lake start)
create-Ends_example =
    create-Ends keyed (λ w. w.0) (λ w. w.1) "ann" lake start keyed-IsTable keyed-IsKeyed

create-retrieve_example :
    (retrieve keyed 4 "bob" (create keyed "ann" lake start).1).0
    ≡ ite
        (String_discrete "bob" "ann")
        (ok (row_of 4 (new_geozone "ann" lake)))
        (raised (missing keyed 4))
unfolding create new_geozone make_point taken insert_unless ids find matches String_discrete
    ℕ_discrete
create-retrieve_example =
    create-retrieve keyed (λ w. w.0) (λ w. w.1) "ann" lake start (row_of 4 (new_geozone "ann" lake))
      "bob" none keyed-IsTable keyed-IsKeyed refl refl
