-- ===== src/Migrations/Online.antt =====
-- migrations/env.py: the url of the database, and the migrations in one transaction of a connection.
-- alembic, the connection and what `context.run_migrations` runs are parameters.
use geo_device.Prelude.{
  true, false, ◌≢◌, ◌↔◌, ◌⊎◌, inl, inr, ℕ, Option, none, some, List, [], ◌∷◌, String, ◌==◌,
  if◌then◌else◌,
}
use Prim.Native.String.{len}
use geo_device.Config.{DatabaseSettings, get_url}
use geo_device.Errors.{Exn}
use geo_device.Exec.{
  Exec, Result, ok, raised, raise, modify, for_each, try_except, try_finally, ◌>>=◌, ◌>>◌,
}
use geo_device.Exec.Triple.{
  Triple, Outcome, Triple-pure, Triple-raise, Triple-bind, Triple-try, Triple-finally,
  Triple-modify, Triple-and,
}
use geo_device.Migrations.{
  Op, upgrade, upgrade_head, enable_postgis, add_geozones, add_location_pings,
}
use geo_device.Migrations.Undone.{Object, IsNamed, AfterAll, all_upgrades, IsDatabase, upgrade-Has}

-- `alembic_config.attributes.get("url") or config.database.get_url("psycopg")`; `str` writes a number.
unfoldable pub migration_url : (str : ℕ → String) → DatabaseSettings → Option String → String
unfolding get_url
migration_url str settings none = get_url str settings (some "psycopg")
migration_url str settings (some url) =
    if len url == 0 then get_url str settings (some "psycopg") else url

-- A connection of the engine.
pub record Engine (W : Type 0) : Type 0 where
  pub connect : (url : String) → Exec W (Unit {0})
  pub commit : Exec W (Unit {0})
  pub rollback : W → W
  pub close : W → W

module _ {W : Type 0} (engine : Engine W) where
  open engine use {connect, commit, rollback, close}

  -- `with context.begin_transaction(): …`
  unfoldable pub with_transaction : Exec W (Unit {0}) → Exec W (Unit {0})
  unfolding try_except modify raise ◌>>=◌
  with_transaction m = try_except m (λ e. true) (λ e. modify rollback >> raise e) >> commit

  unfoldable pub run_migrations_online : String → Exec W (Unit {0}) → Exec W (Unit {0})
  unfolding with_transaction try_finally ◌>>=◌
  run_migrations_online url run_migrations =
      connect url >> try_finally (with_transaction run_migrations) close

abbrev pub Same : (Object → Type 0) → (Object → Type 0) → Type 0
Same p q = (o : Object) → IsNamed o → p o ↔ q o

same_trans : (p q r : Object → Type 0) → Same p q → Same q r → Same p r
same_trans p q r f g o n = ((λ h. (g o n).0 ((f o n).0 h)), (λ h. (f o n).1 ((g o n).1 h)))

module _ {W : Type 0} (engine : Engine W) (run : Op → Exec W (Unit {0}))
    (has saved : W → Object → Type 0) where
  open engine use {connect, commit, rollback, close}

  -- What PostgreSQL documents of a transaction: `has` is what the connection sees, and `saved` what
  -- is committed. Operations touch the transaction only; a commit that fails may have taken place.
  pub record IsTransactional : Type 0 where
    pub connects :
        (url : String) (w : W)
        → Outcome
            (λ t w'. Same (has w') (saved w) × Same (saved w') (saved w))
            (λ e w'. Same (saved w') (saved w))
            (connect url w).0
            (connect url w).1
    pub runs_apart : (op : Op) (w : W) → Same (saved (run op w).1) (saved w)
    pub commits :
        (w : W)
        → Outcome
            (λ t w'. Same (saved w') (has w))
            (λ e w'. Same (saved w') (has w) ⊎ Same (saved w') (saved w))
            (commit w).0
            (commit w).1
    pub rolls_back : (w : W) → Same (saved (rollback w)) (saved w)
    pub closes : (w : W) → Same (saved (close w)) (saved w)

  module _ (laws : IsTransactional) (base : Object → Type 0) where
    abbrev Kept : W → Type 0
    Kept w = Same (saved w) base

    abbrev KeptAfter : Exn → W → Type 0
    KeptAfter e = Kept

    run-Kept : (op : Op) → Triple Kept (run op) (λ t. Kept) KeptAfter
    run-Kept op = record {
      at = λ w p. go (run op w).0 (run op w).1 (same_trans _ _ _ (laws.runs_apart op w) p);
    }
      where
        go : (r : Result (Unit {0})) (w : W) → Kept w → Outcome (λ t. Kept) KeptAfter r w
        go (ok t) w p = p
        go (raised e) w p = p

    for_each-Kept : (ops : List Op) → Triple Kept (for_each ops run) (λ t. Kept) KeptAfter
    unfolding for_each
    for_each-Kept [] = Triple-pure tt (λ w p. p)
    for_each-Kept (op ∷ ops) =
        Triple-bind (λ t. Kept) (run op) (λ t. for_each ops run) (run-Kept op)
          (λ t. for_each-Kept ops)

    upgrade-Kept : Triple Kept (upgrade_head run) (λ t. Kept) KeptAfter
    unfolding upgrade_head upgrade
    upgrade-Kept =
        Triple-bind (λ t. Kept) _ _
          (Triple-bind (λ t. Kept) _ _ (for_each-Kept enable_postgis.upgrade)
            (λ t. for_each-Kept add_geozones.upgrade))
          (λ t. for_each-Kept add_location_pings.upgrade)

    -- Committed: all of the upgrades, or none.
    abbrev pub AllUpgrades : W → Type 0
    AllUpgrades w = Same (saved w) (AfterAll all_upgrades base)

    abbrev pub AllOrNone : Exn → W → Type 0
    AllOrNone e w = AllUpgrades w ⊎ Kept w

    module _ (database : IsDatabase run has) where
      abbrev Upgraded : W → Type 0
      Upgraded w = Same (has w) (AfterAll all_upgrades base) × Kept w

      commit-All : Triple Upgraded commit (λ t. AllUpgrades) AllOrNone
      commit-All = record { at = λ w p. go (commit w).0 (commit w).1 w p (laws.commits w) }
        where
          go :
              (r : Result (Unit {0})) (w' w : W)
              → Upgraded w
              → Outcome
                  (λ t w'. Same (saved w') (has w))
                  (λ e w'. Same (saved w') (has w) ⊎ Same (saved w') (saved w))
                  r
                  w'
              → Outcome (λ t. AllUpgrades) AllOrNone r w'
          go (ok t) w' w p h = same_trans _ _ _ h p.0
          go (raised e) w' w p (inl h) = inl (same_trans _ _ _ h p.0)
          go (raised e) w' w p (inr h) = inr (same_trans _ _ _ h p.1)

      true_ne : true ≢ false
      true_ne e = cc

      transaction-All :
          Triple
            (λ w. Same (has w) base × Kept w)
            (with_transaction engine (upgrade_head run))
            (λ t. AllUpgrades)
            AllOrNone
      unfolding with_transaction
      transaction-All =
          Triple-bind (λ t. Upgraded) _ _
            (Triple-try (λ e w. Unit {0} × Kept w) _ (λ e. true) _
              (Triple-and (upgrade_head run) (upgrade-Has run has database base) upgrade-Kept)
              (λ e c w h. absurd (true_ne c))
              (λ e c.
                Triple-bind (λ t. Kept) _ _
                  (Triple-modify rollback (λ w h. same_trans _ _ _ (laws.rolls_back w) h.1))
                  (λ t. Triple-raise e (λ w h. inr h))))
            (λ t. commit-All)

      connect-Opened :
          (url : String) → Triple Kept (connect url) (λ t w. Same (has w) base × Kept w) AllOrNone
      connect-Opened url = record {
        at = λ w p. go (connect url w).0 (connect url w).1 w p (laws.connects url w);
      }
        where
          go :
              (r : Result (Unit {0})) (w' w : W)
              → Kept w
              → Outcome
                  (λ t w'. Same (has w') (saved w) × Same (saved w') (saved w))
                  (λ e w'. Same (saved w') (saved w))
                  r
                  w'
              → Outcome (λ t w. Same (has w) base × Kept w) AllOrNone r w'
          go (ok t) w' w p h = (same_trans _ _ _ h.0 p, same_trans _ _ _ h.1 p)
          go (raised e) w' w p h = inr (same_trans _ _ _ h p)

      close-All :
          (url : String)
          → Triple Kept
              (run_migrations_online engine url (upgrade_head run))
              (λ t. AllUpgrades)
              AllOrNone
      unfolding run_migrations_online
      close-All url = Triple-bind _ _ _ (connect-Opened url) (λ t.
          Triple-finally (λ t. AllUpgrades) AllOrNone _ close transaction-All
            (λ t w h. same_trans _ _ _ (laws.closes w) h)
            (λ e w h. elim h [
              | inl a ↦ inl (same_trans _ _ _ (laws.closes w) a)
              | inr k ↦ inr (same_trans _ _ _ (laws.closes w) k)
            ]))

  -- Under the documented behaviour of the operations, on the objects that the revisions name, and of
  -- transactions: after an upgrade to the head that returns, the three revisions have taken effect on
  -- these objects. However it fails, in the connection, in any operation or in the commit, the
  -- database has of them what it has after all revisions, or what it had before.
  pub upgrade-AllOrNone :
      (url : String) (w : W)
      → IsDatabase run has
      → (laws : IsTransactional)
      → Outcome
          (λ t. AllUpgrades laws (saved w))
          (AllOrNone laws (saved w))
          (run_migrations_online engine url (upgrade_head run) w).0
          (run_migrations_online engine url (upgrade_head run) w).1
  upgrade-AllOrNone url w database laws =
      (close-All laws (saved w) database url).at w (λ o n. ((λ h. h), (λ h. h)))
