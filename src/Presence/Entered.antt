-- ===== src/Presence/Entered.antt =====
-- What the script `SYNC_ZONES_LUA` does to the set of a device, and what it returns.
use geo_device.Prelude.{
  ℕ, zero, suc, ◌<◌, ◌≡◌, refl, sym, ◌≢◌, ◌↔◌, ◌⊎◌, inl, inr, true, Option, some, List, [], ◌∷◌,
  String, length, arith, In, Distinct, ◌≟◌, ltb, Bool-cases, string_key,
}
use geo_device.Constants.{Bytes}
use geo_device.Pings.{bytes_key}
use geo_device.Presence.Script.{SetCommands, IsSets, listed, leave, enter, sync_zones}

listed_iff : (args : List Bytes) (z : Bytes) → (listed args z ≡ true) ↔ In z args
unfolding listed
listed_iff [] z = ground arith
listed_iff (a ∷ args) z = ground (arith, listed_iff args z)

nil_of-length : (xs : List Bytes) → length xs ≡ 0 → xs ≡ []
nil_of-length [] e = refl
nil_of-length (x ∷ xs) e = absurd (omega arith)

length_of-In : (xs : List Bytes) (a : Bytes) → In a xs → 0 < length xs
length_of-In [] a m = absurd m
length_of-In (x ∷ xs) a m = omega arith

Nat-cases : (n : ℕ) → (n ≡ 0) ⊎ (0 < n)
Nat-cases zero = inl refl
Nat-cases (suc n) = inr (omega arith)

first : (xs : List Bytes) → 0 < length xs → (a : Bytes) × In a xs
first [] h = absurd (omega arith)
first (x ∷ xs) h = (x, inl refl)

module _ {D : Type 0} (commands : SetCommands D) (ttl : D → String → Option ℕ)
    (laws : IsSets commands ttl) (key : String) where
  open commands use {smembers, srem, sadd, scard, expire, del}

  leave_sound :
      (args members : List Bytes) (d : D) (j : String) (a : Bytes)
      → In a (smembers (leave commands key args members d) j)
      → In a (smembers d j) × (j ≡ key → In a members → listed args a ≡ true)
  unfolding leave
  leave_sound args [] d j a m = (m, (λ e n. absurd n))
  leave_sound args (z ∷ members) d j a m = elim (Bool-cases (listed args z)) [
    | inl l ↦
        let (x, y) = leave_sound args members d j a (rw l at m) in
        (x, λ e n. elim n [ inl p ↦ rw (← p) l | inr k ↦ y e k ])
    | inr l ↦
        let (x, y) = leave_sound args members (srem d key z) j a (rw l at m) in
        let (old, other) = (laws.rem d key j z a).0 x in
        (old, λ e n. elim n [ inl p ↦ absurd (other e (sym p)) | inr k ↦ y e k ])
  ]

  leave_complete :
      (args members : List Bytes) (d : D) (j : String) (a : Bytes)
      → In a (smembers d j)
      → (j ≢ key) ⊎ (listed args a ≡ true)
      → In a (smembers (leave commands key args members d) j)
  unfolding leave
  leave_complete args [] d j a m h = m
  leave_complete args (z ∷ members) d j a m h = elim (Bool-cases (listed args z)) [
    | inl l ↦ rw l (leave_complete args members d j a m h)
    | inr l ↦ rw l (
        leave_complete args members (srem d key z) j a
          ((laws.rem d key j z a).1 m (ground (arith, h, a ≟ z))) h)
  ]

  enter_members :
      (args : List Bytes) (d : D) (j : String) (a : Bytes)
      → In a (smembers (enter commands key args d).1 j)
        ↔ (In a (smembers d j) ⊎ ((j ≡ key) × In a args))
  unfolding enter
  enter_members [] d j a = ground arith
  enter_members (z ∷ args) d j a =
      ground (arith, enter_members args (sadd d key z).0 j a, laws.add d key j z a)

  enter_returns :
      (args : List Bytes) (d : D) (a : Bytes)
      → In a (enter commands key args d).0 ↔ (In a args × (¬ In a (smembers d key)))
  unfolding enter
  enter_returns [] d a = ground arith
  enter_returns (z ∷ args) d a = ground (
    arith,
    enter_returns args (sadd d key z).0 a,
    laws.add d key key z a,
    laws.added d key z,
    a ≟ z,
  )

  enter-Distinct : (args : List Bytes) (d : D) → Distinct (enter commands key args d).0
  unfolding enter
  enter-Distinct [] d = tt
  enter-Distinct (z ∷ args) d = ground (
    arith,
    enter-Distinct args (sadd d key z).0,
    enter_returns args (sadd d key z).0 z,
    laws.add d key key z z,
  )

  module _ (time_to_live : ℕ) (args : List Bytes) (d : D) where
    abbrev left : D
    left = leave commands key args (smembers d key) d

    abbrev filled : D
    filled = (enter commands key args left).1

    abbrev entered : List Bytes
    entered = (sync_zones commands key time_to_live args d).0

    abbrev after : D
    after = (sync_zones commands key time_to_live args d).1

    -- What the set of the key holds before the last step.
    filled_members : (a : Bytes) → In a (smembers filled key) ↔ In a args
    filled_members a = ground (
      arith,
      enter_members args left key a,
      leave_sound args (smembers d key) d key a,
      listed_iff args a,
    )

    -- The last step keeps the members of every key but this one.
    last_step_other : (j : String) → j ≢ key → smembers after j ≡ smembers filled j
    unfolding sync_zones
    last_step_other j n = elim (Bool-cases (ltb 0 (scard filled key))) [
      | inl some_left ↦ rw some_left (laws.expire_keeps filled key j time_to_live (inl n))
      | inr none_left ↦ rw none_left (laws.del_keeps filled key j n)
    ]

    -- And of this one, if the time to live is positive.
    last_step_key : 0 < time_to_live → smembers after key ≡ smembers filled key
    unfolding sync_zones
    last_step_key h = elim (Bool-cases (ltb 0 (scard filled key))) [
      | inl some_left ↦ rw some_left (laws.expire_keeps filled key key time_to_live (inr h))
      | inr none_left ↦
          let empty = nil_of-length (smembers filled key) (ground (arith, laws.card filled key)) in
          rw (none_left, laws.del_empties filled key, empty) refl
    ]

    -- A time to live of 0 empties the key.
    last_step_lapsed : time_to_live ≡ 0 → smembers after key ≡ []
    unfolding sync_zones
    last_step_lapsed e = elim (Bool-cases (ltb 0 (scard filled key))) [
      | inl some_left ↦ rw (some_left, e) (laws.expire_deletes filled key)
      | inr none_left ↦ rw none_left (laws.del_empties filled key)
    ]

    -- Under the documented behaviour of the commands, one run of the script with a positive time to
    -- live and at least one zone listed gives the key that time to live.
    pub sync_zones_expires : 0 < time_to_live → 0 < length args → ttl after key ≡ some time_to_live
    unfolding sync_zones
    sync_zones_expires h h' =
        let (a, m) = first args h' in
        let some_left : 0 < scard filled key =
          rw (laws.card filled key)
            (length_of-In (smembers filled key) a ((filled_members a).1 m)) in
        ground (arith, laws.expire_sets filled key time_to_live some_left h)

    -- Under the documented behaviour of the commands on sets, one run of the script returns,
    -- without repetition, exactly the listed zones that were not in the set of the key.
    pub sync_zones_entered :
        ((a : Bytes) → In a entered ↔ (In a args × (¬ In a (smembers d key)))) × Distinct entered
    unfolding sync_zones
    sync_zones_entered = (
      (λ a. ground (
        arith,
        enter_returns args left a,
        leave_sound args (smembers d key) d key a,
        leave_complete args (smembers d key) d key a,
        listed_iff args a,
      )),
      enter-Distinct args left,
    )

    -- Under the documented behaviour of the commands on sets, one run of the script leaves in the set
    -- of the key exactly the listed zones if the time to live is positive, and no zone if it is 0;
    -- it changes the set of no other key.
    pub sync_zones_members :
        (j : String) (a : Bytes)
        → In a (smembers after j)
          ↔ (((j ≡ key) × In a args × (0 < time_to_live)) ⊎ ((j ≢ key) × In a (smembers d j)))
    sync_zones_members j a = elim (j ≟ key) [
      | yes p ↦ rw p (elim (Nat-cases time_to_live) [
        | inl z ↦ rw (last_step_lapsed z) (ground (arith, z))
        | inr h ↦ rw (last_step_key h) (ground (arith, h, filled_members a))
      ])
      | no n ↦ rw (last_step_other j n) (
          ground (
            arith,
            enter_members args left j a,
            leave_sound args (smembers d key) d j a,
            leave_complete args (smembers d key) d j a,
          ))
    ]
