-- ===== src/Geozones/Tests.antt =====
-- An update that moves a zone, and a table to delete a zone from.
use geo_device.Prelude.{
  ℕ, ◌≡◌, ◌↔◌, refl, sym, subst, inl, inr, Bool, true, false, ◌&&◌, Bool-cases, Option, none, some,
  List, [], ◌∷◌, String, In, All, All-mono, ite, ◌≟◌, string_key, nat_key, if◌then◌else◌, arith,
}
use geo_device.Exec.{ok}
use geo_device.Geozones.{
  GeozoneResponse, Condition, id_is, user_is, NewGeozone, Field, Table, GeozoneUpdateRequest, unset,
  null, given, Values, check_fields, values_of, is_null,
}
use geo_device.Geozones.Rows.{IsTable, IsRow, Holds, Matches, IsSelected, Replaced, Deleted}
use geo_device.Geozones.Update.{Centered, values_of-check_fields}

abbrev move : GeozoneUpdateRequest
move = record {
  name = unset;
  lat = given (record { bits = 5 });
  lon = given (record { bits = 6 });
  radius_m = given (record { bits = 7 });
}

values_of-check_fields_example :
    (v : Values) × (values_of move ≡ ok v)
    × (v.name ≡ unset)
    × (is_null v.name ≡ false)
    × (v.radius_m ≡ move.radius_m)
    × (is_null v.radius_m ≡ false)
    × Centered move.lat move.lon v.center
unfolding check_fields
values_of-check_fields_example = values_of-check_fields move refl

-- A table as the rows that the transaction sees and those that are committed.
abbrev pub Rows : Type 0
Rows = List GeozoneResponse × List GeozoneResponse

abbrev pub holds : GeozoneResponse → Condition → Bool
holds r (id_is id) = ite (r.id ≟ id) true false
holds r (user_is user_id) = ite (r.user_id ≟ user_id) true false

unfoldable pub matches : List Condition → GeozoneResponse → Bool
matches [] r = true
matches (c ∷ conditions) r = holds r c && matches conditions r

holds_iff : (c : Condition) (r : GeozoneResponse) → (holds r c ≡ true) ↔ Holds r c
holds_iff (id_is id) r = ground (arith, r.id ≟ id)
holds_iff (user_is user_id) r = ground (arith, r.user_id ≟ user_id)

pub matches_iff :
    (conditions : List Condition) (r : GeozoneResponse)
    → (matches conditions r ≡ true) ↔ Matches conditions r
unfolding matches
matches_iff [] r = ground arith
matches_iff (c ∷ conditions) r = ground (arith, holds_iff c r, matches_iff conditions r)

unfoldable pub without : List Condition → List GeozoneResponse → List GeozoneResponse
without conditions [] = []
without conditions (r ∷ rs) =
    let rest = without conditions rs in if matches conditions r then rest else r ∷ rest

unfoldable pub find : List Condition → List GeozoneResponse → Option GeozoneResponse
find conditions [] = none
find conditions (r ∷ rs) =
    let rest = find conditions rs in if matches conditions r then some r else rest

unfoldable pub find_all : List Condition → List GeozoneResponse → List GeozoneResponse
find_all conditions [] = []
find_all conditions (r ∷ rs) =
    let rest = find_all conditions rs in if matches conditions r then r ∷ rest else rest

moved :
    (conditions : List Condition) (p q : GeozoneResponse)
    → p ≡ q
    → Matches conditions p
    → Matches conditions q
moved conditions p q e m = subst (Matches conditions) e m

In-without :
    (conditions : List Condition) (rs : List GeozoneResponse) (r : GeozoneResponse)
    → In r (without conditions rs) ↔ (In r rs × (¬ Matches conditions r))
unfolding without
In-without conditions [] r = ground arith
In-without conditions (x ∷ rs) r = ground (
  arith,
  In-without conditions rs r,
  matches_iff conditions x,
  moved conditions x r,
  (λ (e : x ≡ r). moved conditions r x (sym e)),
)

pub find-IsSelected :
    (conditions : List Condition) (rs : List GeozoneResponse)
    → IsSelected conditions (find conditions rs) rs
unfolding find
find-IsSelected conditions [] = λ r m. absurd m
find-IsSelected conditions (x ∷ rs) = elim (Bool-cases (matches conditions x)) [
  | inl c ↦ rw (c, find) (inl refl, (matches_iff conditions x).0 c)
  | inr c ↦ rw (c, find) (later (find conditions rs) x c (find-IsSelected conditions rs))
]
  where
    later :
        (one : Option GeozoneResponse) (x : GeozoneResponse)
        → matches conditions x ≡ false
        → IsSelected conditions one rs
        → IsSelected conditions one (x ∷ rs)
    later none x c h = λ r m given. elim m [
      | inl q ↦
          let yes_x = (matches_iff conditions x).1 (moved conditions r x (sym q) given) in
          absurd (cc)
      | inr m' ↦ h r m' given
    ]
    later (some r) x c h = (inr h.0, h.1)

find_all-All :
    (conditions : List Condition) (rs : List GeozoneResponse)
    → All (Matches conditions) (find_all conditions rs)
unfolding find_all
find_all-All conditions [] = tt
find_all-All conditions (r ∷ rs) =
    ground (arith, find_all-All conditions rs, matches_iff conditions r)

abbrev pub zone : ℕ → String → String → GeozoneResponse
zone id user_id name = record {
  id = id;
  user_id = user_id;
  name = name;
  lat = record { bits = 1 };
  lon = record { bits = 2 };
  radius_m = record { bits = 3 };
  created_at = record { wall = 4; tzinfo = none };
  updated_at = record { wall = 4; tzinfo = none };
}

abbrev pub renamed : Field String → GeozoneResponse → GeozoneResponse
renamed (given name) r = record r { name = name }
renamed _ r = r

pub replace_one :
    List Condition
    → Field String
    → Option GeozoneResponse
    → List GeozoneResponse
    → Option GeozoneResponse × List GeozoneResponse
replace_one conditions name none rs = (none, rs)
replace_one conditions name (some r) rs =
    (some (renamed name r), renamed name r ∷ without conditions rs)

renamed-Holds :
    (name : Field String) (c : Condition) (r : GeozoneResponse)
    → Holds r c
    → Holds (renamed name r) c
renamed-Holds (given n) (id_is id) r h = h
renamed-Holds (given n) (user_is u) r h = h
renamed-Holds unset c r h = h
renamed-Holds null c r h = h

replaced :
    (conditions : List Condition) (name : Field String) (one : Option GeozoneResponse)
    (rs : List GeozoneResponse)
    → IsSelected conditions one rs
    → Replaced conditions
        (replace_one conditions name one rs).0
        rs
        (replace_one conditions name one rs).1
unfolding replace_one
replaced conditions name none rs h = refl
replaced conditions name (some r) rs h = (
  All-mono _ _ conditions (λ c m. renamed-Holds name c r m) h.1,
  (λ q. ground (arith, In-without conditions rs q)),
)

abbrev pub delete_found :
    List Condition → Option GeozoneResponse → List GeozoneResponse → Option ℕ × List GeozoneResponse
delete_found conditions none rs = (none, rs)
delete_found conditions (some r) rs = (some r.id, without conditions rs)

deleted :
    (conditions : List Condition) (one : Option GeozoneResponse) (rs : List GeozoneResponse)
    → Deleted conditions (delete_found conditions one rs).0 rs (delete_found conditions one rs).1
deleted conditions none rs = refl
deleted conditions (some r) rs = In-without conditions rs

-- What the columns of an inserted row read.
abbrev pub row_of : ℕ → NewGeozone → GeozoneResponse
row_of id values = record {
  id = id;
  user_id = values.user_id;
  name = values.name;
  lat = values.center.y;
  lon = values.center.x;
  radius_m = values.radius_m;
  created_at = record { wall = 4; tzinfo = none };
  updated_at = record { wall = 4; tzinfo = none };
}

pub row_of-IsRow : (id : ℕ) (values : NewGeozone) → IsRow values (row_of id values)
row_of-IsRow id values = record {
  user_id = refl;
  name = refl;
  lat = refl;
  lon = refl;
  radius_m = refl;
}

abbrev pub table : Table Rows
table = record {
  insert = λ values w. (ok (row_of 9 values), (row_of 9 values ∷ w.0, w.1));
  select_page = λ conditions limit offset w. (ok (find_all conditions w.0), w);
  select_one = λ conditions w. (ok (find conditions w.0), w);
  update_one = λ conditions values w.
      let (one, rs) = replace_one conditions values.name (find conditions w.0) w.0 in
      (ok one, (rs, w.1));
  delete_one = λ conditions w.
      let (one, rs) = delete_found conditions (find conditions w.0) w.0 in (ok one, (rs, w.1));
  commit = λ w. (ok tt, (w.0, w.0));
  rollback = λ w. (ok tt, (w.1, w.1));
  repr = λ s. s;
  str = λ n. "7";
}

pub table-IsTable : IsTable table (λ w. w.0) (λ w. w.1)
unfolding replace_one
table-IsTable = record {
  inserts = λ values w. (row_of-IsRow 9 values, refl, refl);
  selects_page = λ c l o w. (find_all-All c w.0, (refl, refl));
  selects_one = λ c w. (find-IsSelected c w.0, (refl, refl));
  updates_one = λ c v w. (replaced c v.name (find c w.0) w.0 (find-IsSelected c w.0), refl);
  deletes_one = λ c w. (deleted c (find c w.0) w.0, refl);
  commits = λ w. (refl, refl);
  rolls_back = λ w. (refl, refl);
}

abbrev pub zones : List GeozoneResponse
zones = zone 1 "ann" "home" ∷ zone 2 "bob" "work" ∷ []
