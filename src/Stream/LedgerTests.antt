-- ===== src/Stream/LedgerTests.antt =====
-- A server that is its own world, on which a batch is published, a chunk acknowledged, and the
-- counter read and reconciled.
use geo_device.Prelude.{
  ℕ, ◌+◌, ◌≤◌, ◌≡◌, refl, sym, ap, ◌∙◌, inl, inr, List, [], ◌∷◌, ◌++◌, some, length, ◌≟◌,
  string_key, ite, arith, String_discrete,
}
use geo_device.Prelude.Int.{pos, negsuc, add_nat, sub_nat}
use geo_device.Constants.{Bytes, group, pending_pings_key}
use geo_device.Exec.{ok}
use geo_device.Pings.{StreamChunk}
use geo_device.Pings.Sample.{formats, pings}
use geo_device.Services.{Redis, Command, GroupInfo, xadd, incrby, decrby, xack, publish}
use geo_device.Settings.{defaults}
use geo_device.Stream
use geo_device.Stream.{entry_backlog}
use geo_device.Stream.Counter.{Server, Effect, Effects, IsGroup, IsServer, without_all}
use geo_device.Stream.Reconciled.{Reconciled, reconcile-counter}
use geo_device.Trace.{Run}

abbrev id : Bytes
id = b'1' ∷ []

-- Nothing is dropped.
abbrev apply : Command → Server → Server
apply (xadd name field value maxlen) s = record s {
  entries = s.entries ++ (id, (field, value) ∷ []) ∷ [];
}
apply (incrby key n) s = record s {
  counter = ite (key ≟ pending_pings_key) (add_nat s.counter n) s.counter;
}
apply (decrby key n) s = record s {
  counter = ite (key ≟ pending_pings_key) (sub_nat s.counter n) s.counter;
}
apply (xack name who ids) s = record s { entries = without_all ids s.entries }
apply (publish channel payload) s = s

abbrev apply_all : List Command → Server → Server
apply_all [] s = s
apply_all (c ∷ commands) s = apply_all commands (apply c s)

abbrev group_of : Server → GroupInfo
group_of s = record { name = group; lag = some (length s.entries); pending = some 0 }

abbrev redis : Redis Server
redis = record {
  xreadgroup = λ consumer entry_id count block s. (ok [], s);
  xautoclaim = λ consumer min_idle_time count s. (ok [], s);
  xinfo_groups = λ name s. (ok (group_of s ∷ []), s);
  xgroup_create = λ name who start s. (ok tt, s);
  get = λ key s. (ok (some s.counter), s);
  set = λ key n s. (ok tt, record s { counter = pos n });
  execute = λ commands s. (ok tt, apply_all commands s);
  run_scripts = λ calls s. (ok [], s);
  publish_now = λ channel payload s. (ok tt, s);
}

apply-Effect : (c : Command) (s : Server) → Effect c s (apply c s)
apply-Effect (xadd name field value maxlen) s = (id, 0, refl)
apply-Effect (incrby key n) s = refl
apply-Effect (decrby key n) s = refl
apply-Effect (xack name who ids) s = refl
apply-Effect (publish channel payload) s = refl

apply_all-Effects :
    (commands : List Command) (s : Server) → Effects commands s (apply_all commands s)
apply_all-Effects [] s = refl
apply_all-Effects (c ∷ commands) s =
    (apply c s, apply-Effect c s, apply_all-Effects commands (apply c s))

group_of-IsGroup : (s : Server) → IsGroup (group_of s ∷ []) (group_of s)
group_of-IsGroup s = record {
  listed = inl refl;
  named = refl;
  only = λ g' m e. elim m [ inl q ↦ sym q | inr n ↦ absurd n ];
}

bounded :
    (s : Server) (reply : List GroupInfo) (g : GroupInfo) (lag pending : ℕ)
    → group_of s ∷ [] ≡ reply
    → IsGroup reply g
    → g.lag ≡ some lag
    → length s.entries ≤ lag + pending
bounded s reply g lag pending q h l =
    let same : group_of s ≡ g = h.only (group_of s) (rw (sym q) (inl refl)) refl in
    let known : some (length s.entries) ≡ some lag = ap (λ x. x.lag) same ∙ l in
    let e : length s.entries ≡ lag = cc in omega (arith, e)

redis-IsServer : IsServer redis (λ s. s)
unfolding entry_backlog String_discrete
redis-IsServer = record {
  executes = λ commands s e. apply_all-Effects commands s;
  gets = λ v s e. let p : some s.counter ≡ v = cc in rw (sym p) refl;
  get_keeps = λ s. refl;
  groups = λ s reply g lag pending e h l p. bounded s reply g lag pending (cc) h l;
  groups_keep = λ s. refl;
  sets = λ n s e. refl;
}

abbrev start : Run Server
start = record { world = record { counter = pos 0; entries = [] }; trace = [] }

abbrev filled : Run Server
filled = (Stream.publish redis formats defaults pings start).1

abbrev chunk : StreamChunk
chunk = record { entry_id = id; pings = pings }

abbrev emptied : Run Server
emptied = (Stream.ack redis (chunk ∷ []) filled).1

abbrev counted : Run Server
counted = (Stream.get_backlog redis emptied).1

abbrev final : Run Server
final = (Stream.reconcile_backlog redis counted).1

-- A counter below zero, as a chunk that is acknowledged twice leaves it.
abbrev negative : Run Server
negative = record { world = record { counter = negsuc 1; entries = [] }; trace = [] }

reconcile-counter_example :
    Reconciled redis
      (λ s. s)
      redis-IsServer
      negative
      (group_of negative.world ∷ [])
      (group_of negative.world)
unfolding Stream.reconcile_backlog String_discrete
reconcile-counter_example =
    reconcile-counter redis (λ s. s) redis-IsServer negative (group_of negative.world ∷ [])
      (group_of negative.world) refl (group_of-IsGroup negative.world) refl
