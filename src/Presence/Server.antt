-- ===== src/Presence/Server.antt =====
-- A run of the scripts of all devices, among the commands of other clients, and the collection of its results.
use geo_device.Prelude.{
  ℕ, ◌<◌, ◌≡◌, refl, sym, subst, ◌≢◌, ◌↔◌, ◌⊎◌, ◌∙◌, inl, inr, ap, Option, none, some, List, [],
  ◌∷◌, ◌++◌, map, String, string_key, arith, In, In-append, In-append_left, In-append_right,
  Distinct, Option-cases, ◌≟◌,
}
use text.Mathlib.TextLemmas.{append_cancel_left}
use geo_device.Constants.{Bytes}
use geo_device.Dict
use geo_device.Dict.{Dict}
use geo_device.Dict.Laws.{get-In}
use geo_device.Exec.{ok}
use geo_device.Pings.{ZoneHit, bytes_key}
use geo_device.Presence.{
  Zones, zone_key, device_zones_key, or_none, entered_hits, collect, script_call,
}
use geo_device.Presence.Script.{SetCommands, IsSets, sync_zones}
use geo_device.Presence.Entered.{sync_zones_entered, sync_zones_members}
use geo_device.Presence.Hits.{last_in}
use geo_device.Services.{ScriptCall}

module _ {D : Type 0} (commands : SetCommands D) where
  open commands use {smembers}

  -- The sets of the devices are the same.
  abbrev pub SameSets : List String → D → D → Type 0
  SameSets devices d d' =
      (id : String)
      → In id devices
      → (a : Bytes)
      → In a (smembers d' (device_zones_key id)) ↔ In a (smembers d (device_zones_key id))

  -- The scripts of a pipeline, one after the other. Between them, and around them, other clients may
  -- change the keyspace, but not the sets of the devices.
  abbrev pub Ran : List String → List ScriptCall → D → List (List Bytes) → D → Type 0
  Ran devices [] d results d' = (results ≡ []) × SameSets devices d d'
  Ran devices (call ∷ calls) d results d' =
      (m : D) × (rest : List (List Bytes)) × SameSets devices d m
      × (results ≡ (sync_zones commands call.key call.ttl call.zones m).0 ∷ rest)
      × Ran devices calls (sync_zones commands call.key call.ttl call.zones m).1 rest d'

  -- The hit is the last one of its device in its zone, and the device was not in the zone.
  pub record IsNew (hits : List ZoneHit) (d : D) (h : ZoneHit) : Type 0 where
    pub last : last_in h.device_id h.geozone_id none hits ≡ some h
    pub absent : ¬ In (zone_key h.geozone_id) (smembers d (device_zones_key h.device_id))

device_zones_key_inj : (a b : String) → device_zones_key a ≡ device_zones_key b → a ≡ b
unfolding device_zones_key
device_zones_key_inj a b e = append_cancel_left "inside:" a b e

-- What the comprehension of the last loop keeps.
In-entered_hits :
    (zones : Zones) (entered : List Bytes) (h : ZoneHit)
    → In h (entered_hits zones entered) ↔ ((z : Bytes) × In z entered × (Dict.get zones z ≡ some h))
unfolding entered_hits
In-entered_hits zones [] h = ((λ m. absurd m), (λ (z, m, e). m))
In-entered_hits zones (z ∷ entered) h = elim (Option-cases (Dict.get zones z)) [
  | inl e ↦
      rw (e, entered_hits)
        (
          (λ m. let (y, n, p) = (In-entered_hits zones entered h).0 m in (y, inr n, p)),
          (λ (y, n, p). elim n [
            | inl q ↦ absurd (ground (arith))
            | inr n' ↦ (In-entered_hits zones entered h).1 (y, n', p)
          ]),
        )
  | inr (hit, e) ↦
      rw (e, entered_hits)
        (
          (λ m. elim m [
            | inl q ↦ (z, inl refl, e ∙ ap some q)
            | inr m' ↦ let (y, n, p) = (In-entered_hits zones entered h).0 m' in (y, inr n, p)
          ]),
          (λ (y, n, p). elim n [
            | inl q ↦ inl (ground (arith))
            | inr n' ↦ inr ((In-entered_hits zones entered h).1 (y, n', p))
          ]),
        )
]

module _ {D : Type 0} (commands : SetCommands D) (ttl : D → String → Option ℕ)
    (laws : IsSets commands ttl) (time_to_live : ℕ) (positive : 0 < time_to_live)
    (by_device : Dict String Zones) where
  open commands use {smembers}

  abbrev pub call : String → ScriptCall
  call = script_call time_to_live by_device

  abbrev pub zones_of : String → Zones
  zones_of device_id = or_none (Dict.get by_device device_id)

  abbrev pub first : String → D → List Bytes × D
  first device_id =
      sync_zones commands (device_zones_key device_id) time_to_live (Dict.keys (zones_of device_id))

  first-members :
      (device_id : String) (d : D) (j : String) (a : Bytes)
      → In a (smembers (first device_id d).1 j) ↔ (
          ((j ≡ device_zones_key device_id) × In a (Dict.keys (zones_of device_id)))
          ⊎ ((j ≢ device_zones_key device_id) × In a (smembers d j)))
  first-members device_id d j a = ground (
    arith,
    positive,
    sync_zones_members commands ttl laws (device_zones_key device_id) time_to_live
        (Dict.keys (zones_of device_id)) d j a,
  )

  -- A script leaves the sets of the other devices alone.
  first_other :
      (id i : String) (d : D) (a : Bytes)
      → i ≢ id
      → In a (smembers (first id d).1 (device_zones_key i)) ↔ In a (smembers d (device_zones_key i))
  first_other id i d a n =
      let apart : device_zones_key i ≢ device_zones_key id = λ q. n (device_zones_key_inj i id q) in
      ground (arith, first-members id d (device_zones_key i) a)

  first_own :
      (id : String) (d : D) (a : Bytes)
      → In a (smembers (first id d).1 (device_zones_key id)) ↔ In a (Dict.keys (zones_of id))
  first_own id d a = ground (arith, first-members id d (device_zones_key id) a)

  -- A hit of the table for the device, in a zone that the device was not in.
  abbrev pub New : D → ZoneHit → String → Type 0
  New d h device_id =
      (z : Bytes) × (Dict.get (zones_of device_id) z ≡ some h)
      × (¬ In z (smembers d (device_zones_key device_id)))

  In-first :
      (device_id : String) (d : D) (h : ZoneHit)
      → In h (entered_hits (zones_of device_id) (first device_id d).0) ↔ New d h device_id
  In-first device_id d h = (
    (λ m.
        let (z, n, e) = (In-entered_hits (zones_of device_id) (first device_id d).0 h).0 m in
        (z, e, ((entered z).0 n).1)),
    (λ (z, e, absent).
        (In-entered_hits (zones_of device_id) (first device_id d).0 h).1
          (z, (entered z).1 (get-In (zones_of device_id) z e, absent), e)),
  )
    where
      entered :
          (a : Bytes)
          → In a (first device_id d).0 ↔ (
              In a (Dict.keys (zones_of device_id))
              × (¬ In a (smembers d (device_zones_key device_id))))
      entered =
          (sync_zones_entered commands ttl laws (device_zones_key device_id) time_to_live
            (Dict.keys (zones_of device_id)) d).0

  New-same :
      (d m : D) (h : ZoneHit) (i : String)
      → ((a : Bytes)
          → In a (smembers m (device_zones_key i)) ↔ In a (smembers d (device_zones_key i)))
      → New m h i ↔ New d h i
  New-same d m h i same = (
    (λ (z, e, absent). (z, e, λ n. absent ((same z).1 n))),
    (λ (z, e, absent). (z, e, λ n. absent ((same z).0 n))),
  )

  -- What the scripts of some devices leave in the set of a device.
  abbrev pub Left : List String → D → D → String → Bytes → Type 0
  Left devices d d' i a = In a (smembers d' (device_zones_key i)) ↔ (
      (In i devices × In a (Dict.keys (zones_of i)))
      ⊎ ((¬ In i devices) × In a (smembers d (device_zones_key i))))

  Left-cons :
      (id : String) (devices batch : List String) (d m d' : D) (i : String) (a : Bytes)
      → ¬ In id devices
      → In i batch
      → SameSets commands batch d m
      → Left devices (first id m).1 d' i a
      → Left (id ∷ devices) d d' i a
  Left-cons id devices batch d m d' i a new b same l = elim (i ≟ id) [
    | yes p ↦
        rw p (
          ground
            (arith, new, first_own id m a, subst (λ x. Left devices (first id m).1 d' x a) p l))
    | no n ↦
        let other : id ≢ i = λ e. n (sym e) in
        ground (arith, l, other, first_other id i m a n, same i b a)
  ]

  -- The last loop finds its results, and collects the new hits of all devices.
  pub collected :
      (devices batch : List String) (d : D) (results : List (List Bytes)) (d' : D)
      → ((id : String) → In id devices → In id batch)
      → Distinct devices
      → Ran commands batch (map call devices) d results d'
      → (entries : List ZoneHit) × (collect by_device devices results ≡ ok entries)
        × ((h : ZoneHit)
            → In h entries ↔ ((device_id : String) × In device_id devices × New d h device_id))
        × ((i : String) (a : Bytes) → In i batch → Left devices d d' i a)
  unfolding collect script_call
  collected [] batch d results d' sub distinct (e, same) = (
    [],
    rw e refl,
    (λ h. ((λ m. absurd m), (λ (i, m, n). m))),
    (λ i a b. ground (arith, same i b a)),
  )
  collected (id ∷ devices) batch d results d' sub distinct (m, rest, same, q, ran) =
      let s = (first id m).1 in
      let (more, e, found, left) =
        collected devices batch s rest d' (λ i n. sub i (inr n)) distinct.1 ran in
      let mine = entered_hits (zones_of id) (first id m).0 in
      let at_first = λ (h : ZoneHit). New-same d m h id (same id (sub id (inl refl))) in
      (
        mine ++ more,
        rw (q, e, collect) refl,
        (λ h. (
          (λ n. elim (In-append h mine more n) [
            | inl n' ↦ (id, inl refl, (at_first h).0 ((In-first id m h).0 n'))
            | inr n' ↦ let (i, n'', new) = (found h).0 n' in (i, inr n'', (later h i n'').0 new)
          ]),
          (λ (i, n, new). elim n [
            | inl p ↦
                In-append_left h mine more
                  ((In-first id m h).1 ((at_first h).1 (subst (New d h) (sym p) new)))
            | inr n' ↦ In-append_right h mine more ((found h).1 (i, n', (later h i n').1 new))
          ]),
        )),
        (λ i a b. Left-cons id devices batch d m d' i a distinct.0 b same (left i a b)),
      )
    where
      later : (h : ZoneHit) (i : String) → In i devices → New (first id m).1 h i ↔ New d h i
      later h i n =
          let apart : i ≢ id = λ p. distinct.0 (subst (λ j. In j devices) p n) in
          New-same d (first id m).1 h i
            (λ a. ground (arith, first_other id i m a apart, same i (sub i (inr n)) a))
