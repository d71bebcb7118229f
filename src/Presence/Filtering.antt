-- ===== src/Presence/Filtering.antt =====
-- `filter_new_entries` over a server that runs the queued scripts one after the other.
use geo_device.Prelude.{
  ℕ, ◌<◌, ◌≡◌, refl, inl, inr, sym, subst, ◌↔◌, ◌∙◌, ap, Option, none, some, List, [], ◌∷◌, map,
  String, string_key, In,
}
use geo_device.Constants.{Bytes}
use geo_device.Dict
use geo_device.Dict.{Dict}
use geo_device.Dict.Laws.{get-In, get_of-In}
use geo_device.Exec.{Result, ok, raised}
use geo_device.Pings.{ZoneHit, bytes_key}
use geo_device.Presence.{
  Zones, zone_key, device_zones_key, or_none, hits_by_device, from_keys, script_call,
  filter_new_entries,
}
use geo_device.Presence.Script.{SetCommands, IsSets}
use geo_device.Presence.Hits.{
  entry-hits_by_device, last_hit, last_in, last_hit-zone, last_hit-zone_key, devices-Distinct,
  In-devices,
}
use geo_device.Services.{Redis, ScriptCall}
use geo_device.Settings.{IngestSettings}
use geo_device.Trace.{Run}
use geo_device.Presence.Server.{Ran, IsNew, New, collected}

module _ {W D : Type 0} (redis : Redis W) (keyspace : W → D) (commands : SetCommands D) where
  open commands use {smembers}

  -- A pipeline of scripts that returns ran them in order, each at once. It is no transaction: other
  -- clients may run commands in between, of which none changes the sets of the devices.
  pub record RunsScripts (device_ids : List String) : Type 0 where
    pub runs :
        (calls : List ScriptCall) (w : W) (results : List (List Bytes))
        → (redis.run_scripts calls w).0 ≡ ok results
        → Ran commands device_ids calls
            (keyspace w)
            results
            (keyspace (redis.run_scripts calls w).1)

  module _ (settings : IngestSettings) (hits : List ZoneHit) (device_ids : List String) where
    abbrev pub calls : List ScriptCall
    calls =
        map (script_call settings.zone_entry_ttl_s (hits_by_device [] hits))
          (from_keys [] device_ids)

    -- What `filter_new_entries` may end in, from a keyspace in another.
    abbrev pub Filtered : W → Result (List ZoneHit) → W → Type 0
    Filtered w (ok entries) w' =
        ((h : ZoneHit)
          → In h entries ↔ (In h.device_id device_ids × IsNew commands hits (keyspace w) h))
        × ((id : String) (a : Bytes)
            → In id device_ids
            → In a (smembers (keyspace w') (device_zones_key id)) ↔ (
                (h : ZoneHit) × (last_in id h.geozone_id none hits ≡ some h)
                × (a ≡ zone_key h.geozone_id)))
    Filtered w (raised e) w' = (redis.run_scripts calls w).0 ≡ raised e

  module _ (ttl : D → String → Option ℕ) (laws : IsSets commands ttl) (settings : IngestSettings)
      (positive : 0 < settings.zone_entry_ttl_s) (hits : List ZoneHit) where
    abbrev table : Dict String Zones
    table = hits_by_device [] hits

    New-hits :
        (device_ids : List String) (d : D) (h : ZoneHit)
        → ((id : String) × In id (from_keys [] device_ids)
            × New commands ttl laws settings.zone_entry_ttl_s positive table d h id)
          ↔ (In h.device_id device_ids × IsNew commands hits d h)
    New-hits device_ids d h = (
      (λ (id, m, (z, e, absent)).
          let q = sym (entry-hits_by_device hits id z) ∙ e in
          let (at_device, at_zone) = last_hit-zone id z hits h q in
          moved id z (sym at_device) (sym at_zone) ((In-devices device_ids id).0 m) q absent),
      (λ (m, new). (
        h.device_id,
        (In-devices device_ids h.device_id).1 m,
        (
          zone_key h.geozone_id,
          entry-hits_by_device hits h.device_id (zone_key h.geozone_id)
              ∙ last_hit-zone_key h.device_id h.geozone_id none hits
              ∙ new.last,
          new.absent,
        ),
      )),
    )
      where
        moved :
            (id : String) (z : Bytes)
            → id ≡ h.device_id
            → z ≡ zone_key h.geozone_id
            → In id device_ids
            → last_hit id z none hits ≡ some h
            → ¬ In z (smembers d (device_zones_key id))
            → In h.device_id device_ids × IsNew commands hits d h
        moved id z p q m e absent = (
          subst (λ i. In i device_ids) p m,
          record {
            last =
                sym (last_hit-zone_key h.device_id h.geozone_id none hits)
                ∙ subst (λ i. last_hit i (zone_key h.geozone_id) none hits ≡ some h) p
                    (subst (λ y. last_hit id y none hits ≡ some h) q e);
            absent =
                subst (λ i. ¬ In (zone_key h.geozone_id) (smembers d (device_zones_key i))) p
                  (subst (λ y. ¬ In y (smembers d (device_zones_key id))) q absent);
          },
        )

    -- A zone is among the keys of a device when it has a last hit of the device.
    listed_hit :
        (id : String) (a : Bytes)
        → In a (Dict.keys (or_none (Dict.get table id))) ↔ (
            (h : ZoneHit) × (last_in id h.geozone_id none hits ≡ some h)
            × (a ≡ zone_key h.geozone_id))
    listed_hit id a = (
      (λ m.
          let (h, e) = get_of-In (or_none (Dict.get table id)) a m in
          let q = sym (entry-hits_by_device hits id a) ∙ e in
          let key = sym (last_hit-zone id a hits h q).1 in
          (
            h,
            sym (last_hit-zone_key id h.geozone_id none hits)
                ∙ subst (λ y. last_hit id y none hits ≡ some h) key q,
            key,
          )),
      (λ (h, e, key). get-In (or_none (Dict.get table id)) a (
          entry-hits_by_device hits id a
          ∙ ap (λ y. last_hit id y none hits) key
          ∙ last_hit-zone_key id h.geozone_id none hits
          ∙ e)),
    )

    module _ (device_ids : List String) (server : RunsScripts device_ids) where
      ended :
          (r : Run W) (ids : List String) (result : Result (List (List Bytes))) (w : W)
          → ids ≡ device_ids
          → redis.run_scripts (calls settings hits ids) r.world ≡ (result, w)
          → Filtered settings hits ids r.world
              (filter_new_entries redis settings hits ids r).0
              (filter_new_entries redis settings hits ids r).1.world
      unfolding filter_new_entries
      ended r [] result w q e = ((λ h. (λ m. absurd m, λ m. absurd m.0)), (λ id a m. absurd m))
      ended r (id ∷ ids) (raised exn) w q e = rw (e, filter_new_entries) (rw e refl)
      ended r (id ∷ ids) (ok results) w q e =
          let d = keyspace r.world in
          let devices = from_keys [] (id ∷ ids) in
          let ran : Ran commands (id ∷ ids) (calls settings hits (id ∷ ids)) d results
              (keyspace w) =
            subst
              (λ p.
                Ran commands (id ∷ ids) (calls settings hits (id ∷ ids)) d results (keyspace p.1))
              e
              (subst
                (λ b.
                  Ran commands b (calls settings hits (id ∷ ids)) d results
                    (keyspace (redis.run_scripts (calls settings hits (id ∷ ids)) r.world).1))
                (sym q)
                (server.runs (calls settings hits (id ∷ ids)) r.world results (ap (λ p. p.0) e))) in
          let (entries, c, found, left) =
            collected commands ttl laws settings.zone_entry_ttl_s positive table devices (id ∷ ids)
              d results (keyspace w) (λ i m. (In-devices (id ∷ ids) i).0 m)
              (devices-Distinct (id ∷ ids)) ran in
          rw (e, filter_new_entries, c)
            (
              (λ h.
                  let k = New-hits (id ∷ ids) d h in
                  ((λ m. k.0 ((found h).0 m)), (λ x. (found h).1 (k.1 x)))),
              (λ i a m.
                  let l = left i a m in
                  let there = (In-devices (id ∷ ids) i).1 m in
                  let k = listed_hit i a in
                  (
                    (λ n. elim (l.0 n) [ inl x ↦ k.0 x.1 | inr x ↦ absurd (x.0 there) ]),
                    (λ x. l.1 (inl (there, k.1 x))),
                  )),
            )

      -- With a positive time to live, for a redis that runs scripts as documented, on the documented
      -- commands on sets, while no other client changes the sets of the devices listed: if
      -- `filter_new_entries` returns, the entries are exactly the last hits of each device and zone,
      -- for the devices listed, whose zone was not in the set of the device; and the set of each
      -- device listed is then the zones of its hits. If it raises, the error is the one that redis
      -- raised.
      pub filter_new_entries-Filtered :
          (r : Run W)
          → Filtered settings hits device_ids r.world
              (filter_new_entries redis settings hits device_ids r).0
              (filter_new_entries redis settings hits device_ids r).1.world
      filter_new_entries-Filtered r =
          ended r device_ids (redis.run_scripts (calls settings hits device_ids) r.world).0
            (redis.run_scripts (calls settings hits device_ids) r.world).1 refl refl
