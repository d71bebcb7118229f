-- ===== src/Presence/Tests.antt =====
-- A run of the script on a device that leaves one zone and enters another.
use geo_device.Prelude.{
  ℕ, ◌<◌, arith, refl, subst, ◌≡◌, ◌≢◌, ◌↔◌, ◌⊎◌, none, List, String, [], ◌∷◌, In, Distinct, ite,
  ◌≟◌, string_key,
}
use geo_device.Constants.{Bytes}
use geo_device.Presence.Keyspace.{Keyspace, commands, ttl, commands-IsSets}
use geo_device.Exec.{ok}
use geo_device.Pings.{ZoneHit}
use geo_device.Presence.{filter_new_entries}
use geo_device.Presence.Filtering.{RunsScripts, Filtered, filter_new_entries-Filtered}
use geo_device.Presence.Server.{Ran}
use geo_device.Services.{Redis, ScriptCall}
use geo_device.Settings.{defaults}
use geo_device.Trace.{Run}
use geo_device.Presence.Script.{sync_zones}
use geo_device.Presence.Entered.{sync_zones_entered, sync_zones_members}

-- The device `a` is in the zones 1 and 2, and in no zone otherwise.
abbrev keyspace : Keyspace
keyspace = ((λ k. ite (k ≟ "inside:a") ((b'1' ∷ []) ∷ (b'2' ∷ []) ∷ []) []), (λ k. none))

abbrev listed_zones : List Bytes
listed_zones = (b'2' ∷ []) ∷ (b'3' ∷ []) ∷ []

sync_zones_entered_example :
    ((a : Bytes)
      → In a (sync_zones commands "inside:a" 60 listed_zones keyspace).0
        ↔ (In a listed_zones × (¬ In a (keyspace.0 "inside:a"))))
    × Distinct (sync_zones commands "inside:a" 60 listed_zones keyspace).0
sync_zones_entered_example =
    sync_zones_entered commands ttl commands-IsSets "inside:a" 60 listed_zones keyspace

sync_zones_members_example :
    In (b'1' ∷ []) ((sync_zones commands "inside:a" 60 listed_zones keyspace).1.0 "inside:a") ↔ (
      (◌≡◌ {A = String} "inside:a" "inside:a" × In (b'1' ∷ []) listed_zones × ◌<◌ 0 60)
      ⊎ (◌≢◌ {A = String} "inside:a" "inside:a" × In (b'1' ∷ []) (keyspace.0 "inside:a")))
sync_zones_members_example =
    sync_zones_members commands ttl commands-IsSets "inside:a" 60 listed_zones keyspace "inside:a"
      (b'1' ∷ [])

-- The scripts, with nothing in between.
unfoldable run_all : List ScriptCall → Keyspace → List (List Bytes) × Keyspace
run_all [] d = ([], d)
run_all (call ∷ calls) d =
    let (entered, d') = sync_zones commands call.key call.ttl call.zones d in
    let (results, d'') = run_all calls d' in (entered ∷ results, d'')

-- A server that runs the scripts.
abbrev redis : Redis Keyspace
redis = record {
  xreadgroup = λ consumer entry_id count block d. (ok [], d);
  xautoclaim = λ consumer min_idle_time count d. (ok [], d);
  xinfo_groups = λ stream d. (ok [], d);
  xgroup_create = λ stream group id d. (ok tt, d);
  get = λ key d. (ok none, d);
  set = λ key value d. (ok tt, d);
  execute = λ commands d. (ok tt, d);
  run_scripts = λ calls d. (ok (run_all calls d).0, (run_all calls d).1);
  publish_now = λ channel payload d. (ok tt, d);
}

run_all-Ran :
    (devices : List String) (scripts : List ScriptCall) (d : Keyspace)
    → Ran commands devices scripts d (run_all scripts d).0 (run_all scripts d).1
unfolding run_all
run_all-Ran devices [] d = (refl, (λ id m a. ((λ n. n), (λ n. n))))
run_all-Ran devices (call ∷ scripts) d =
    let d' = (sync_zones commands call.key call.ttl call.zones d).1 in
    (
      d,
      (run_all scripts d').0,
      (λ id m a. ((λ n. n), (λ n. n))),
      refl,
      run_all-Ran devices scripts d',
    )

redis-RunsScripts : (devices : List String) → RunsScripts redis (λ d. d) commands devices
redis-RunsScripts devices = record {
  runs = λ calls d results e.
      subst (λ xs. Ran commands devices calls d xs (run_all calls d).1) (unwrap e)
        (run_all-Ran devices calls d);
}
  where
    unwrap : {xs ys : List (List Bytes)} → ok xs ≡ ok ys → xs ≡ ys
    unwrap e = cc

abbrev hit : ℕ → ZoneHit
hit n = record {
  user_id = "ann";
  geozone_id = n;
  geozone_name = "home";
  device_id = "a";
  lat = record { bits = 1 };
  lon = record { bits = 2 };
  recorded_at = record { wall = 3; tzinfo = none };
}

abbrev hits : List ZoneHit
hits = hit 2 ∷ hit 3 ∷ []

abbrev started : Run Keyspace
started = record { world = keyspace; trace = [] }

filter_new_entries-Filtered_example :
    Filtered redis
      (λ d. d)
      commands
      defaults
      hits
      ("a" ∷ "b" ∷ "a" ∷ [])
      keyspace
      (filter_new_entries redis defaults hits ("a" ∷ "b" ∷ "a" ∷ []) started).0
      (filter_new_entries redis defaults hits ("a" ∷ "b" ∷ "a" ∷ []) started).1.world
filter_new_entries-Filtered_example =
    filter_new_entries-Filtered redis (λ d. d) commands ttl commands-IsSets defaults (omega arith)
      hits ("a" ∷ "b" ∷ "a" ∷ []) (redis-RunsScripts ("a" ∷ "b" ∷ "a" ∷ [])) started
