-- ===== src/Presence/Keyspace.antt =====
-- A keyspace with sets and times to live, which behaves as redis documents it.
use geo_device.Prelude.{
  ℕ, zero, suc, ◌<◌, ◌≡◌, refl, ◌≢◌, ◌⊎◌, inl, inr, ltb, Option, none, some, List, [], ◌∷◌, String,
  length, arith, In, ite, ◌≟◌, string_key, true, if◌then◌else◌,
}
use geo_device.Constants.{Bytes}
use geo_device.Pings.{bytes_key}
use geo_device.Presence.Script.{SetCommands, IsSets, listed}

abbrev pub Keyspace : Type 0
Keyspace = (String → List Bytes) × (String → Option ℕ)

abbrev pub store : {V : Type 0} → (String → V) → String → V → String → V
store f k v j = ite (k ≟ j) v (f j)

unfoldable pub without : List Bytes → Bytes → List Bytes
without [] z = []
without (a ∷ members) z = let rest = without members z in ite (a ≟ z) rest (a ∷ rest)

In-without :
    (members : List Bytes) (z a : Bytes)
    → (In a (without members z) → In a members × (a ≢ z))
      × (In a members → a ≢ z → In a (without members z))
unfolding without
In-without [] z a = ground arith
In-without (b ∷ members) z a = ground (arith, In-without members z a)

listed_In :
    (members : List Bytes) (z : Bytes)
    → (listed members z ≡ true → In z members) × (In z members → listed members z ≡ true)
unfolding listed
listed_In [] z = ground arith
listed_In (a ∷ members) z = ground (arith, listed_In members z)

abbrev pub commands : SetCommands Keyspace
commands = record {
  smembers = λ d k. d.0 k;
  srem = λ d k z. (store d.0 k (without (d.0 k) z), d.1);
  sadd = λ d k z. if listed (d.0 k) z then (d, 0) else ((store d.0 k (z ∷ d.0 k), d.1), 1);
  scard = λ d k. length (d.0 k);
  expire =
      λ d k n. if ltb 0 n then (d.0, store d.1 k (some n)) else (store d.0 k [], store d.1 k none);
  del = λ d k. (store d.0 k [], store d.1 k none);
}

abbrev pub ttl : Keyspace → String → Option ℕ
ttl d k = d.1 k

expire_kept :
    (d : Keyspace) (k j : String) (n : ℕ)
    → (j ≢ k) ⊎ (0 < n)
    → commands.smembers (commands.expire d k n) j ≡ commands.smembers d j
expire_kept d k j zero (inl m) = ground arith
expire_kept d k j zero (inr h) = absurd (omega arith)
expire_kept d k j (suc n) h = ground arith

pub commands-IsSets : IsSets commands ttl
commands-IsSets = record {
  card = λ d k. refl;
  rem = λ d k j z a. ground (arith, In-without (d.0 k) z a, k ≟ j);
  add = λ d k j z a. ground (arith, listed_In (d.0 k) z, k ≟ j, a ≟ z);
  added = λ d k z. ground (arith, listed_In (d.0 k) z);
  expire_keeps = λ d k j n h. expire_kept d k j n h;
  expire_deletes = λ d k. ground arith;
  expire_sets = λ d k n h h'. ground arith;
  del_empties = λ d k. ground arith;
  del_keeps = λ d k j n. ground arith;
}
