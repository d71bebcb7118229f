-- ===== src/Registry/Delivery.antt =====
-- Who receives what `send_to_user` and `broadcast` send.
use geo_device.Prelude.{
  ℕ, ◌≡◌, refl, ◌≢◌, ◌||◌, inl, inr, Bool, true, none, some, List, [], ◌∷◌, ◌++◌, String, arith, In,
  Distinct, All-get, if◌then◌else◌, string_key, Option-cases, Distinct-append, flat, ◌∙◌, ap,
}
use geo_device.Dict.Laws.{get-absent, get-In}
use geo_device.Dict
use geo_device.Connection.{send}
use geo_device.Connection.Bounds.{IsBounded, sent, send-sent, sent-IsBounded}
use geo_device.Registry.{
  Objects, Connections, assign, contains, or_empty, send_each, send_to_user, broadcast,
}
use geo_device.Registry.Valid.{IsGood, IsValid, get-IsGood, contains_iff}
use geo_device.Registry.Users.{holds}

-- Every connection object has its queue within its bound.
abbrev pub AllBounded : Objects → Type 0
AllBounded objects = (i : ℕ) → IsBounded (objects i)

-- The objects after `send` was called on exactly the connections that the test picks.
abbrev pub delivered : Objects → (ℕ → Bool) → String → Bool → Objects
delivered objects picked message priority j =
    if picked j then sent (objects j) message priority else objects j

module _ (objects : Objects) where
  stored-Distinct :
      (d : Connections) (user_id : String)
      → IsValid objects d
      → Distinct (or_empty (Dict.get d user_id))
  stored-Distinct d user_id v = elim (Option-cases (Dict.get d user_id)) [
    | inl e ↦ rw e tt
    | inr (ids, e) ↦ rw e (get-IsGood objects d user_id v e).distinct
  ]

  own_of-In :
      (ids : List ℕ) (user_id : String) (j : ℕ)
      → IsGood objects user_id ids
      → contains ids j ≡ true
      → (objects j).user_id ≡ user_id
  own_of-In ids user_id j g h = All-get _ j ids g.own ((contains_iff ids j).0 h)

  -- A connection that is registered for a user is the user's.
  holds-own :
      (d : Connections) (user_id : String) (j : ℕ)
      → IsValid objects d
      → holds d user_id j ≡ true
      → (objects j).user_id ≡ user_id
  unfolding holds contains
  holds-own d user_id j v h = elim (Option-cases (Dict.get d user_id)) [
    | inl e ↦ absurd (ground arith)
    | inr (ids, e) ↦ own_of-In ids user_id j (get-IsGood objects d user_id v e) (ground arith)
  ]

  contains-append :
      (ids more : List ℕ) (j : ℕ) → contains (ids ++ more) j ≡ (contains ids j || contains more j)
  unfolding contains
  contains-append [] more j = refl
  contains-append (i ∷ ids) more j = ground (arith, contains-append ids more j)

  -- Some set has the connection exactly when the set of its own user has it.
  flat-holds :
      (d : Connections) (j : ℕ)
      → IsValid objects d
      → contains (flat (Dict.values d)) j ≡ holds d (objects j).user_id j
  unfolding holds Dict.values Dict.get contains Dict.keys
  flat-holds [] j v = refl
  flat-holds ((u, ids) ∷ d) j v = ground (
    arith,
    contains-append ids (flat (Dict.values d)) j,
    flat-holds d j v.2,
    own_of-In ids u j v.0,
    get-absent d u v.1,
  )

  In_of_holds : (d : Connections) (u : String) (j : ℕ) → holds d u j ≡ true → In u (Dict.keys d)
  unfolding holds contains
  In_of_holds d u j h = elim (Option-cases (Dict.get d u)) [
    | inl e ↦ absurd (ground arith)
    | inr (ids, e) ↦ get-In d u e
  ]

  flat-Distinct : (d : Connections) → IsValid objects d → Distinct (flat (Dict.values d))
  unfolding Dict.values
  flat-Distinct [] v = tt
  flat-Distinct ((u, ids) ∷ d) v =
      Distinct-append ids (flat (Dict.values d)) v.0.distinct (flat-Distinct d v.2) (λ j m h. v.1 (
        ground (
          arith,
          contains_iff ids j,
          contains_iff (flat (Dict.values d)) j,
          own_of-In ids u j v.0,
          In_of_holds d u j,
          flat-holds d j v.2,
        )))

module _ (message : String) (priority : Bool) where
  assign-AllBounded :
      (objects : Objects) (i : ℕ)
      → AllBounded objects
      → AllBounded (assign objects i (sent (objects i) message priority))
  unfolding assign
  assign-AllBounded objects i b j =
      ground (arith, b j, sent-IsBounded (objects i) message priority (b i))

  -- A loop of `send` over distinct connections calls it once on each of them and on no other.
  send_each-delivered :
      (ids : List ℕ) (objects : Objects)
      → Distinct ids
      → AllBounded objects
      → (objects' : Objects) × (send_each ids objects message priority ≡ some objects')
        × ((j : ℕ) → objects' j ≡ delivered objects (contains ids) message priority j)
  unfolding send_each contains
  send_each-delivered [] objects d b = (objects, refl, (λ j. refl))
  send_each-delivered (i ∷ ids) objects d b =
      let next = assign objects i (sent (objects i) message priority) in
      let (out, ran, each) = send_each-delivered ids next d.1 (assign-AllBounded objects i b) in
      (
        out,
        rw (send-sent (objects i) message priority (b i), send_each) ran,
        (λ j. each j ∙ ground (arith, contains_iff ids i)),
      )

  -- In a valid registry whose connections are within their bounds, what a user is sent reaches each
  -- connection registered for the user, once, and no other; no `QueueFull` escapes.
  pub send_to_user-delivered :
      (d : Connections) (objects : Objects) (user_id : String)
      → IsValid objects d
      → AllBounded objects
      → (objects' : Objects) × (send_to_user d objects user_id message priority ≡ some objects')
        × ((j : ℕ) → objects' j ≡ delivered objects (holds d user_id) message priority j)
  unfolding send_to_user holds
  send_to_user-delivered d objects user_id v b =
      send_each-delivered (or_empty (Dict.get d user_id)) objects
        (stored-Distinct objects d user_id v) b

  -- In a valid registry whose connections are within their bounds, what a user is sent leaves every
  -- connection of another user as it is.
  pub send_to_user_other :
      (d : Connections) (objects out : Objects) (user_id : String) (j : ℕ)
      → IsValid objects d
      → AllBounded objects
      → send_to_user d objects user_id message priority ≡ some out
      → (objects j).user_id ≢ user_id
      → out j ≡ objects j
  send_to_user_other d objects out user_id j v b sent_out n =
      let (out', ran, each) = send_to_user-delivered d objects user_id v b in
      let same : out ≡ out' = ground arith in
      ground (arith, each j, holds-own objects d user_id j v)

  send_each-append :
      (ids more : List ℕ) (objects : Objects)
      → send_each (ids ++ more) objects message priority
        ≡ elim (send_each ids objects message priority) [
          | none ↦ none
          | some out ↦ send_each more out message priority
        ]
  unfolding send_each
  send_each-append [] more objects = refl
  send_each-append (i ∷ ids) more objects =
      elim (Option-cases (send (objects i) message priority)) [
        | inl e ↦ rw (e, send_each) refl
        | inr (c, e) ↦ rw (e, send_each) (send_each-append ids more (assign objects i c))
      ]

  broadcast-send_each :
      (d : Connections) (objects : Objects)
      → broadcast d objects message priority
        ≡ send_each (flat (Dict.values d)) objects message priority
  unfolding broadcast Dict.values send_each
  broadcast-send_each [] objects = refl
  broadcast-send_each ((u, ids) ∷ d) objects =
      elim (Option-cases (send_each ids objects message priority)) [
        | inl e ↦ rw (send_each-append, e, broadcast) refl
        | inr (out, e) ↦ rw (send_each-append, e, broadcast) (broadcast-send_each d out)
      ]

  -- In a valid registry whose connections are within their bounds, a broadcast reaches every
  -- connection that is registered for its user, once, and no other; no `QueueFull` escapes.
  pub broadcast-delivered :
      (d : Connections) (objects : Objects)
      → IsValid objects d
      → AllBounded objects
      → (objects' : Objects) × (broadcast d objects message priority ≡ some objects')
        × ((j : ℕ)
            → objects' j
              ≡ delivered objects (λ i. holds d (objects i).user_id i) message priority j)
  broadcast-delivered d objects v b =
      let (out, ran, each) =
        send_each-delivered (flat (Dict.values d)) objects (flat-Distinct objects d v) b in
      (
        out,
        broadcast-send_each d objects ∙ ran,
        (λ j.
            each j
            ∙ ap (λ (p : Bool). if p then sent (objects j) message priority else objects j)
                (flat-holds objects d j v)),
      )
