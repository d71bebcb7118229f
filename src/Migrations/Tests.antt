-- ===== src/Migrations/Tests.antt =====
-- A database that is the list of its objects.
use geo_device.Prelude.{
  ◌≡◌, ◌≢◌, ◌↔◌, refl, arith, Bool, true, false, List, [], ◌∷◌, String, In, ite, ◌≟◌, string_key,
  if◌then◌else◌, inl, inr,
}
use geo_device.Exec.{Exec, ok, ◌>>◌}
use geo_device.Migrations.{
  Op, create_extension, drop_extension, create_function, drop_function, create_trigger,
  create_table, drop_table, create_index, drop_index, upgrade_head, downgrade_base,
}
use geo_device.Migrations.Undone.{
  Object, extension, function, table, trigger, index, After, OnTable, IsIndex, IsDatabase,
  downgrade-upgrade,
}

unfoldable pub without : (Object → Bool) → List Object → List Object
without gone [] = []
without gone (o ∷ os) = let rest = without gone os in if gone o then rest else o ∷ rest

In-without :
    (gone : Object → Bool) (os : List Object) (o : Object)
    → In o (without gone os) ↔ ((gone o ≡ false) × In o os)
unfolding without
In-without gone [] o = ground arith
In-without gone (x ∷ os) o = ground (arith, In-without gone os o)

-- The names of the first and second string of an object, if it is of the kind.
abbrev named_extension : String → Object → Bool
named_extension n (extension m) = ite (n ≟ m) true false
named_extension n o = false

abbrev named_function : String → Object → Bool
named_function n (function m) = ite (n ≟ m) true false
named_function n o = false

abbrev of_table : String → Object → Bool
of_table t (table u) = ite (t ≟ u) true false
of_table t (trigger n u) = ite (t ≟ u) true false
of_table t (index n u) = ite (t ≟ u) true false
of_table t o = false

abbrev named_index : String → Object → Bool
named_index n (index m t) = ite (n ≟ m) true false
named_index n o = false

abbrev pub run : Op → Exec (List Object) (Unit {0})
run (create_extension n) w = (ok tt, extension n ∷ w)
run (drop_extension n) w = (ok tt, without (named_extension n) w)
run (create_function n) w = (ok tt, function n ∷ w)
run (drop_function n) w = (ok tt, without (named_function n) w)
run (create_trigger n t f) w = (ok tt, trigger n t ∷ w)
run (create_table n columns constraints) w = (ok tt, table n ∷ w)
run (drop_table n) w = (ok tt, without (of_table n) w)
run (create_index n t columns method) w = (ok tt, index n t ∷ w)
run (drop_index n) w = (ok tt, without (named_index n) w)

abbrev pub Present : List Object → Object → Type 0
Present w o = In o w

named_extension_iff : (n : String) (o : Object) → (named_extension n o ≡ false) ↔ (extension n ≢ o)
named_extension_iff n (extension m) = ground (arith, n ≟ m)
named_extension_iff n (function m) = ground arith
named_extension_iff n (table m) = ground arith
named_extension_iff n (trigger m t) = ground arith
named_extension_iff n (index m t) = ground arith

named_function_iff : (n : String) (o : Object) → (named_function n o ≡ false) ↔ (function n ≢ o)
named_function_iff n (extension m) = ground arith
named_function_iff n (function m) = ground (arith, n ≟ m)
named_function_iff n (table m) = ground arith
named_function_iff n (trigger m t) = ground arith
named_function_iff n (index m t) = ground arith

of_table_iff : (n : String) (o : Object) → (of_table n o ≡ false) ↔ (¬ OnTable n o)
of_table_iff n (extension m) = ground arith
of_table_iff n (function m) = ground arith
of_table_iff n (table m) = ground (arith, n ≟ m)
of_table_iff n (trigger m t) = ground (arith, n ≟ t)
of_table_iff n (index m t) = ground (arith, n ≟ t)

named_index_iff : (n : String) (o : Object) → (named_index n o ≡ false) ↔ (¬ IsIndex n o)
named_index_iff n (extension m) = ground arith
named_index_iff n (function m) = ground arith
named_index_iff n (table m) = ground arith
named_index_iff n (trigger m t) = ground arith
named_index_iff n (index m t) = ground (arith, n ≟ m)

pub run-After :
    (op : Op) (w : List Object) (o : Object) → Present (run op w).1 o ↔ After op (Present w) o
run-After (create_extension n) w o = ground arith
run-After (drop_extension n) w o =
    ground (arith, In-without (named_extension n) w o, named_extension_iff n o)
run-After (create_function n) w o = ground arith
run-After (drop_function n) w o =
    ground (arith, In-without (named_function n) w o, named_function_iff n o)
run-After (create_trigger n t f) w o = ground arith
run-After (create_table n columns constraints) w o = ground arith
run-After (drop_table n) w o = ground (arith, In-without (of_table n) w o, of_table_iff n o)
run-After (create_index n t columns method) w o = ground arith
run-After (drop_index n) w o = ground (arith, In-without (named_index n) w o, named_index_iff n o)

database : IsDatabase run Present
database = record { runs = λ op w h o n. run-After op w o }

-- A database with an extension that is not the program's.
abbrev before : List Object
before = extension "plpgsql" ∷ []

downgrade-upgrade_example :
    Present (upgrade_head run before).1 (trigger "trg_geozones_set_bounds" "geozones")
    × (¬ Present
        ((upgrade_head run >> downgrade_base run) before).1
        (trigger "trg_geozones_set_bounds" "geozones"))
unfolding upgrade_head downgrade_base
downgrade-upgrade_example =
    downgrade-upgrade run Present database before refl
      (trigger "trg_geozones_set_bounds" "geozones") (inr (inr (inr (inl refl))))
