-- ===== src/Migrations/OnlineTests.antt =====
-- An upgrade of an empty database, in one transaction.
use geo_device.Prelude.{List, []}
use geo_device.Exec.{Exec, ok}
use geo_device.Exec.Triple.{Outcome}
use geo_device.Migrations.{Op, upgrade_head}
use geo_device.Migrations.Online.{
  Engine, IsTransactional, AllUpgrades, AllOrNone, run_migrations_online, upgrade-AllOrNone,
}
use geo_device.Migrations.Undone.{Object, IsDatabase}
use geo_device.Migrations.Tests.{run, Present, run-After}

-- The objects that the transaction sees, and those that are committed.
abbrev World : Type 0
World = List Object × List Object

abbrev run_seen : Op → Exec World (Unit {0})
run_seen op w = ((run op w.0).0, ((run op w.0).1, w.1))

abbrev Seen : World → Object → Type 0
Seen w o = Present w.0 o

abbrev Saved : World → Object → Type 0
Saved w o = Present w.1 o

abbrev engine : Engine World
engine = record {
  connect = λ url w. (ok tt, (w.1, w.1));
  commit = λ w. (ok tt, (w.0, w.0));
  rollback = λ w. (w.1, w.1);
  close = λ w. w;
}

engine-IsTransactional : IsTransactional engine run_seen Seen Saved
engine-IsTransactional = record {
  connects = λ url w. ((λ o n. ((λ h. h), (λ h. h))), (λ o n. ((λ h. h), (λ h. h))));
  runs_apart = λ op w o n. ((λ h. h), (λ h. h));
  commits = λ w o n. ((λ h. h), (λ h. h));
  rolls_back = λ w o n. ((λ h. h), (λ h. h));
  closes = λ w o n. ((λ h. h), (λ h. h));
}

seen-IsDatabase : IsDatabase run_seen Seen
seen-IsDatabase = record { runs = λ op w h o n. run-After op w.0 o }

abbrev empty : World
empty = ([], [])

upgrade-AllOrNone_example :
    Outcome
      (λ t. AllUpgrades engine run_seen Seen Saved engine-IsTransactional (Saved empty))
      (AllOrNone engine run_seen Seen Saved engine-IsTransactional (Saved empty))
      (run_migrations_online engine "postgresql://" (upgrade_head run_seen) empty).0
      (run_migrations_online engine "postgresql://" (upgrade_head run_seen) empty).1
upgrade-AllOrNone_example =
    upgrade-AllOrNone engine run_seen Seen Saved "postgresql://" empty seen-IsDatabase
      engine-IsTransactional
