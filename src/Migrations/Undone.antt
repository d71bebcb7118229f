-- ===== src/Migrations/Undone.antt =====
-- The downgrades take back what the upgrades made: the effect of the operations on the objects that
-- the revisions name.
use geo_device.Prelude.{
  ◌≡◌, ◌≢◌, ◌↔◌, ◌⊎◌, refl, subst, arith, List, [], ◌∷◌, ◌++◌, String, In, All, All-get,
}
use geo_device.Exec.Triple.{Triple, Outcome, Triple-pure, Triple-bind}
use geo_device.Exec.{Exec, Result, ok, raised, for_each, ◌>>=◌, ◌>>◌}
use geo_device.Errors.{Exn}
use geo_device.Migrations.{
  Op, create_extension, drop_extension, create_function, drop_function, create_trigger,
  create_table, drop_table, create_index, drop_index, upgrade, downgrade, upgrade_head,
  downgrade_base, enable_postgis, add_geozones, add_location_pings,
}

-- What a database has, by name.
pub data Object : Type 0 where
  extension function table : String → Object
  -- with the name of the table
  trigger index : String → String → Object

abbrev pub OnTable : String → Object → Type 0
OnTable t (table u) = t ≡ u
OnTable t (trigger n u) = t ≡ u
OnTable t (index n u) = t ≡ u
OnTable t o = ⊥

abbrev pub IsIndex : String → Object → Type 0
IsIndex n (index m t) = n ≡ m
IsIndex n o = ⊥

-- The objects after an operation that succeeded; a table goes with its triggers and indexes.
abbrev pub After : Op → (Object → Type 0) → Object → Type 0
After (create_extension n) has o = (extension n ≡ o) ⊎ has o
After (drop_extension n) has o = (extension n ≢ o) × has o
After (create_function n) has o = (function n ≡ o) ⊎ has o
After (drop_function n) has o = (function n ≢ o) × has o
After (create_trigger n t f) has o = (trigger n t ≡ o) ⊎ has o
After (create_table n columns constraints) has o = (table n ≡ o) ⊎ has o
After (drop_table n) has o = (¬ OnTable n o) × has o
After (create_index n t columns method) has o = (index n t ≡ o) ⊎ has o
After (drop_index n) has o = (¬ IsIndex n o) × has o

abbrev pub AfterAll : List Op → (Object → Type 0) → Object → Type 0
AfterAll [] has = has
AfterAll (op ∷ ops) has = AfterAll ops (After op has)

After-iff :
    (op : Op) (p q : Object → Type 0) (o : Object) → (p o ↔ q o) → After op p o ↔ After op q o
After-iff (create_extension n) p q o h = ground arith
After-iff (drop_extension n) p q o h = ground arith
After-iff (create_function n) p q o h = ground arith
After-iff (drop_function n) p q o h = ground arith
After-iff (create_trigger n t f) p q o h = ground arith
After-iff (create_table n columns constraints) p q o h = ground arith
After-iff (drop_table n) p q o h = ground arith
After-iff (create_index n t columns method) p q o h = ground arith
After-iff (drop_index n) p q o h = ground arith

-- The objects that the revisions name. What PostgreSQL makes beside them (the index of a key, the
-- types of a table, what an extension contains) and the table of alembic are not among them.
abbrev pub named_objects : List Object
named_objects =
    extension "postgis"
    ∷ function "geozones_set_bounds"
    ∷ table "geozones"
    ∷ trigger "trg_geozones_set_bounds" "geozones"
    ∷ index "ix_geozones_center_gist" "geozones"
    ∷ index "ix_geozones_bounds_gist" "geozones"
    ∷ table "location_pings"
    ∷ index "ix_pings_device_recorded" "location_pings"
    ∷ []

abbrev pub IsNamed : Object → Type 0
IsNamed o = In o named_objects

-- The objects of all three upgrades and of all three downgrades.
abbrev pub all_upgrades : List Op
all_upgrades = enable_postgis.upgrade ++ add_geozones.upgrade ++ add_location_pings.upgrade

abbrev all_downgrades : List Op
all_downgrades = add_location_pings.downgrade ++ add_geozones.downgrade ++ enable_postgis.downgrade

-- All named objects are there after the upgrades, and none after the downgrades.
made : (has : Object → Type 0) (o : Object) → IsNamed o → AfterAll all_upgrades has o
made has o n = ground arith

each_gone : (has : Object → Type 0) → All (λ o. ¬ AfterAll all_downgrades has o) named_objects
each_gone has = (
  (λ h. ground arith),
  (
    (λ h. ground arith),
    (
      (λ h. ground arith),
      (
        (λ h. ground arith),
        (
          (λ h. ground arith),
          ((λ h. ground arith), ((λ h. ground arith), ((λ h. ground arith), tt))),
        ),
      ),
    ),
  ),
)

first_ok :
    {S : Type 0} (m n : Exec S (Unit {0})) (s : S) (r : Result (Unit {0}))
    → (m s).0 ≡ r
    → ((m >> n) s).0 ≡ ok tt
    → (m s).0 ≡ ok tt
unfolding ◌>>=◌
first_ok m n s (ok t) e h = e
first_ok m n s (raised x) e h = absurd (ne (rw (e, ◌>>=◌) at h))
  where
    ne : {A : Type 0} {y : Exn} {a : A} → raised y ≢ ok a
    ne q = cc

module _ {W : Type 0} (run : Op → Exec W (Unit {0})) (has : W → Object → Type 0) where
  -- What PostgreSQL documents of the operations: on the objects that the revisions name, one that
  -- succeeds has its effect and no other.
  pub record IsDatabase : Type 0 where
    pub runs :
        (op : Op) (w : W)
        → (run op w).0 ≡ ok tt
        → (o : Object) → IsNamed o
        → has (run op w).1 o ↔ After op (has w) o

  abbrev pub Has : (Object → Type 0) → W → Type 0
  Has q w = (o : Object) → IsNamed o → has w o ↔ q o

  abbrev pub Anything : Exn → W → Type 0
  Anything e w = Unit {0}

  module _ (laws : IsDatabase) where
    run-Has :
        (q : Object → Type 0) (op : Op) → Triple (Has q) (run op) (λ t. Has (After op q)) Anything
    run-Has q op = record { at = λ w p. outcome w p (run op w).0 refl }
      where
        outcome :
            (w : W) (p : Has q w) (r : Result (Unit {0}))
            → (run op w).0 ≡ r
            → Outcome (λ t. Has (After op q)) Anything r (run op w).1
        outcome w p (ok t) e = λ o n.
            let effect = laws.runs op w e o n in
            let same = After-iff op (has w) q o (p o n) in
            ((λ h. same.0 (effect.0 h)), (λ h. effect.1 (same.1 h)))
        outcome w p (raised x) e = tt

    for_each-Has :
        (q : Object → Type 0) (ops : List Op)
        → Triple (Has q) (for_each ops run) (λ t. Has (AfterAll ops q)) Anything
    unfolding for_each
    for_each-Has q [] = Triple-pure tt (λ w p. p)
    for_each-Has q (op ∷ ops) =
        Triple-bind (λ t. Has (After op q)) (run op) (λ t. for_each ops run) (run-Has q op)
          (λ t. for_each-Has (After op q) ops)

    pub upgrade-Has :
        (q : Object → Type 0)
        → Triple (Has q) (upgrade_head run) (λ t. Has (AfterAll all_upgrades q)) Anything
    unfolding upgrade_head upgrade
    upgrade-Has q =
        let q1 = AfterAll enable_postgis.upgrade q in
        let q2 = AfterAll add_geozones.upgrade q1 in
        Triple-bind (λ t. Has q2) _ _
          (Triple-bind (λ t. Has q1) _ _ (for_each-Has q enable_postgis.upgrade)
            (λ t. for_each-Has q1 add_geozones.upgrade))
          (λ t. for_each-Has q2 add_location_pings.upgrade)

    downgrade-Has :
        (q : Object → Type 0)
        → Triple (Has q) (downgrade_base run) (λ t. Has (AfterAll all_downgrades q)) Anything
    unfolding downgrade_base downgrade
    downgrade-Has q =
        let q1 = AfterAll add_location_pings.downgrade q in
        let q2 = AfterAll add_geozones.downgrade q1 in
        Triple-bind (λ t. Has q2) _ _
          (Triple-bind (λ t. Has q1) _ _ (for_each-Has q add_location_pings.downgrade)
            (λ t. for_each-Has q1 add_geozones.downgrade))
          (λ t. for_each-Has q2 enable_postgis.downgrade)

    -- Under the documented behaviour of the operations on the objects that the revisions name (the
    -- extension, the function, the tables, the trigger and the indexes): when an upgrade to the
    -- head and then a downgrade to the base return, all of these objects are there in between, and
    -- none of them is there at the end.
    pub downgrade-upgrade :
        (w : W)
        → ((upgrade_head run >> downgrade_base run) w).0 ≡ ok tt
        → (o : Object) → IsNamed o
        → has (upgrade_head run w).1 o × (¬ has ((upgrade_head run >> downgrade_base run) w).1 o)
    downgrade-upgrade w done o n =
        let seen : Has (has w) w = λ x m. ((λ h. h), (λ h. h)) in
        let up : Has (AfterAll all_upgrades (has w)) (upgrade_head run w).1 =
          subst
            (λ r.
              Outcome (λ t. Has (AfterAll all_upgrades (has w))) Anything r (upgrade_head run w).1)
            (first_ok (upgrade_head run) (downgrade_base run) w _ refl done)
            ((upgrade-Has (has w)).at w seen) in
        let both =
          Triple-bind (λ t. Has (AfterAll all_upgrades (has w))) (upgrade_head run)
            (λ t. downgrade_base run) (upgrade-Has (has w))
            (λ t. downgrade-Has (AfterAll all_upgrades (has w))) in
        let end = ((upgrade_head run >> downgrade_base run) w).1 in
        let back : Has (AfterAll all_downgrades (AfterAll all_upgrades (has w))) end =
          subst
            (λ r.
              Outcome (λ t. Has (AfterAll all_downgrades (AfterAll all_upgrades (has w)))) Anything
                r end)
            done (both.at w seen) in
        (
          (up o n).1 (made (has w) o n),
          (λ h.
              All-get (λ x. ¬ AfterAll all_downgrades (AfterAll all_upgrades (has w)) x) o
                named_objects (each_gone (AfterAll all_upgrades (has w))) n ((back o n).0 h)),
        )
