-- ===== src/Presence/Script.antt =====
-- The script `SYNC_ZONES_LUA`, statement by statement, over the commands of redis that it calls.
use geo_device.Prelude.{
  ℕ, ◌<◌, ◌≡◌, ◌≢◌, ◌⊎◌, Bool, true, false, Option, some, List, [], ◌∷◌, String, length, In, ite,
  ◌≟◌, ltb, ◌==◌, if◌then◌else◌,
}
use geo_device.Constants.{Bytes}
use geo_device.Pings.{bytes_key}

-- The commands on sets, on the keyspace `D` of a server; `sadd` returns the number of members added.
pub record SetCommands (D : Type 0) : Type 0 where
  pub smembers : D → String → List Bytes
  pub srem : D → String → Bytes → D
  pub sadd : D → String → Bytes → D × ℕ
  pub scard : D → String → ℕ
  pub expire : D → String → ℕ → D
  pub del : D → String → D

-- `current[zone]`
unfoldable pub listed : List Bytes → Bytes → Bool
listed [] z = false
listed (a ∷ args) z = ite (a ≟ z) true (listed args z)

module _ {D : Type 0} (commands : SetCommands D) (key : String) where
  open commands use {smembers, srem, sadd, scard, expire, del}

  -- The loop over `SMEMBERS`.
  unfoldable pub leave : List Bytes → List Bytes → D → D
  unfolding listed
  leave args [] d = d
  leave args (z ∷ members) d = leave args members (if listed args z then d else srem d key z)

  -- The loop that fills `entered`.
  unfoldable pub enter : List Bytes → D → List Bytes × D
  enter [] d = ([], d)
  enter (z ∷ args) d =
      let (d', n) = sadd d key z in
      let (entered, d'') = enter args d' in (if n == 1 then z ∷ entered else entered, d'')

  unfoldable pub sync_zones : ℕ → List Bytes → D → List Bytes × D
  unfolding leave enter
  sync_zones ttl args d =
      let (entered, d') = enter args (leave args (smembers d key) d) in
      (entered, if ltb 0 (scard d' key) then expire d' key ttl else del d' key)

-- What redis documents of these commands, as far as the script relies on it. `ttl` is the time to
-- live of a key, in seconds.
module _ {D : Type 0} (commands : SetCommands D) (ttl : D → String → Option ℕ) where
  open commands use {smembers, srem, sadd, scard, expire, del}

  pub record IsSets : Type 0 where
    pub card : (d : D) (k : String) → scard d k ≡ length (smembers d k)
    pub rem :
        (d : D) (k j : String) (z a : Bytes)
        → (In a (smembers (srem d k z) j) → In a (smembers d j) × ((j ≡ k) → a ≢ z))
          × (In a (smembers d j) → (j ≢ k) ⊎ (a ≢ z) → In a (smembers (srem d k z) j))
    pub add :
        (d : D) (k j : String) (z a : Bytes)
        → (In a (smembers (sadd d k z).0 j) → In a (smembers d j) ⊎ ((j ≡ k) × (a ≡ z)))
          × (In a (smembers d j) ⊎ ((j ≡ k) × (a ≡ z)) → In a (smembers (sadd d k z).0 j))
    pub added :
        (d : D) (k : String) (z : Bytes)
        → ((sadd d k z).1 ≡ 1 → ¬ In z (smembers d k))
          × ((¬ In z (smembers d k)) → (sadd d k z).1 ≡ 1)
    pub expire_keeps :
        (d : D) (k j : String) (n : ℕ)
        → (j ≢ k) ⊎ (0 < n)
        → smembers (expire d k n) j ≡ smembers d j
    -- a time to live of 0 deletes the key
    pub expire_deletes : (d : D) (k : String) → smembers (expire d k 0) k ≡ []
    pub expire_sets :
        (d : D) (k : String) (n : ℕ) → 0 < scard d k → 0 < n → ttl (expire d k n) k ≡ some n
    pub del_empties : (d : D) (k : String) → smembers (del d k) k ≡ []
    pub del_keeps : (d : D) (k j : String) → j ≢ k → smembers (del d k) j ≡ smembers d j
