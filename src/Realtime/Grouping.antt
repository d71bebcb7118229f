-- ===== src/Realtime/Grouping.antt =====
-- The messages that `publish_alerts` queues, against the hits one by one.
use geo_device.Prelude.{
  ◌≡◌, refl, ◌≢◌, ◌↔◌, ◌⊎◌, inl, inr, ap, List, [], ◌∷◌, ◌++◌, map, append_assoc, append-nil,
  String, ite, ◌≟◌, string_key, arith, In, Distinct,
}
use mathlib.Core.Path.{ap₂}
use geo_device.Dict
use geo_device.Dict.{Dict}
use geo_device.Dict.Laws.{get-put, In-keys-put, put-Distinct}
use geo_device.Pings.{ZoneHit, Formats}
use geo_device.Realtime.{alert_channel, or_no_hits, by_user, alert_commands}
use geo_device.Services.{Command, publish}

-- The hits of one user, in order.
abbrev pub of_user : String → List ZoneHit → List ZoneHit
of_user user_id [] = []
of_user user_id (hit ∷ hits) =
    let rest = of_user user_id hits in ite (hit.user_id ≟ user_id) (hit ∷ rest) rest

abbrev pub users_of : List ZoneHit → List String
users_of hits = map (λ hit. hit.user_id) hits

get-by_user :
    (d : Dict String (List ZoneHit)) (hits : List ZoneHit) (user_id : String)
    → or_no_hits (Dict.get (by_user d hits) user_id)
      ≡ or_no_hits (Dict.get d user_id) ++ of_user user_id hits
unfolding by_user
get-by_user d [] user_id = rw append-nil refl
get-by_user d (hit ∷ hits) user_id =
    let old = or_no_hits (Dict.get d hit.user_id) in
    let next = Dict.put d hit.user_id (old ++ hit ∷ []) in
    ground (
      arith,
      get-by_user next hits user_id,
      get-put d hit.user_id user_id (old ++ hit ∷ []),
      append_assoc old (hit ∷ []) (of_user user_id hits),
    )

by_user-Distinct :
    (d : Dict String (List ZoneHit)) (hits : List ZoneHit)
    → Distinct (Dict.keys d)
    → Distinct (Dict.keys (by_user d hits))
unfolding by_user
by_user-Distinct d [] h = h
by_user-Distinct d (hit ∷ hits) h =
    let more = or_no_hits (Dict.get d hit.user_id) ++ hit ∷ [] in
    by_user-Distinct (Dict.put d hit.user_id more) hits (put-Distinct d hit.user_id more h)

In-keys-by_user :
    (d : Dict String (List ZoneHit)) (hits : List ZoneHit) (user_id : String)
    → In user_id (Dict.keys (by_user d hits))
      ↔ (In user_id (Dict.keys d) ⊎ In user_id (users_of hits))
unfolding by_user
In-keys-by_user d [] user_id = ground arith
In-keys-by_user d (hit ∷ hits) user_id =
    let more = or_no_hits (Dict.get d hit.user_id) ++ hit ∷ [] in
    ground (
      arith,
      In-keys-by_user (Dict.put d hit.user_id more) hits user_id,
      In-keys-put d hit.user_id more user_id,
    )

module _ (formats : Formats) where
  -- One message to each of the users, with what `f` has for the user.
  abbrev pub messages : (String → List ZoneHit) → List String → List Command
  messages f users = map (λ u. publish (alert_channel u) (formats.dumps_alerts (f u))) users

  alert_commands-keys :
      (f : String → List ZoneHit) (d : Dict String (List ZoneHit))
      → Distinct (Dict.keys d)
      → ((u : String) → In u (Dict.keys d) → or_no_hits (Dict.get d u) ≡ f u)
      → alert_commands formats d ≡ messages f (Dict.keys d)
  unfolding alert_commands Dict.keys Dict.get
  alert_commands-keys f [] h same = refl
  alert_commands-keys f ((u, hits) ∷ d) h same =
      ap₂ ◌∷◌
        (ap (λ hs. publish (alert_channel u) (formats.dumps_alerts hs))
          (ground (arith, same u (inl refl))))
        (alert_commands-keys f d h.1
          (λ w m. let apart : u ≢ w = λ e. h.0 (ground arith) in ground (arith, same w (inr m))))

  -- The messages that `publish_alerts` queues are one to each user that has a hit, on the channel
  -- of the user, with exactly the hits of the user, in order.
  pub alert_commands-by_user :
      (hits : List ZoneHit)
      → (users : List String) × Distinct users
        × ((u : String) → In u users ↔ In u (users_of hits))
        × (alert_commands formats (by_user [] hits) ≡ messages (λ u. of_user u hits) users)
  unfolding Dict.keys Dict.get
  alert_commands-by_user hits = (
    Dict.keys (by_user [] hits),
    by_user-Distinct [] hits tt,
    (λ u. ground (arith, In-keys-by_user [] hits u)),
    alert_commands-keys (λ u. of_user u hits) (by_user [] hits) (by_user-Distinct [] hits tt)
        (λ u m. get-by_user [] hits u),
  )
