-- ===== src/Registry/Valid.antt =====
-- The invariant of the registry, and what the results of `add` and `discard` mean.
use geo_device.Prelude.{
  ℕ, ◌<◌, ◌≡◌, refl, ◌↔◌, ◌≢◌, inl, inr, true, some, List, [], ◌∷◌, ◌++◌, String, length,
  length-append, arith, In, Distinct, All, All-append, In-append, if_pos, if_neg, Bool-cases, ◌≟◌,
  string_key, Option-cases,
}
use geo_device.Dict
use geo_device.Registry.{
  Objects, Connections, contains, set_add, set_discard, or_empty, add, drop_empty, discard,
}

module _ (objects : Objects) where
  -- A user's set: not empty, no connection twice, and all of them the user's.
  pub record IsGood (user_id : String) (ids : List ℕ) : Type 0 where
    pub occupied : 0 < length ids
    pub distinct : Distinct ids
    pub own : All (λ i. (objects i).user_id ≡ user_id) ids

  -- The registry: each user once, with a good set.
  abbrev pub IsValid : Connections → Type 0
  IsValid [] = Unit {0}
  IsValid ((user_id, ids) ∷ d) = IsGood user_id ids × (¬ In user_id (Dict.keys d)) × IsValid d

  pub get-IsGood :
      (d : Connections) (user_id : String) {ids : List ℕ}
      → IsValid d
      → Dict.get d user_id ≡ some ids
      → IsGood user_id ids
  unfolding Dict.get
  get-IsGood [] user_id v h = cc
  get-IsGood ((u, is) ∷ d) user_id {ids} v h = elim (u ≟ user_id) [
    | yes p ↦ let e : is ≡ ids = ground arith in rw (← p, ← e) v.0
    | no n ↦ get-IsGood d user_id v.2 (ground arith)
  ]

  keys-put :
      (d : Connections) (u j : String) (ids : List ℕ)
      → j ≢ u
      → In j (Dict.keys (Dict.put d u ids))
      → In j (Dict.keys d)
  unfolding Dict.put Dict.keys
  keys-put [] u j ids n m = ground arith
  keys-put ((i, is) ∷ d) u j ids n m = ground (arith, keys-put d u j ids n)

  keys-remove :
      (d : Connections) (u j : String) → In j (Dict.keys (Dict.remove d u)) → In j (Dict.keys d)
  unfolding Dict.remove Dict.keys
  keys-remove [] u j m = m
  keys-remove ((i, is) ∷ d) u j m = ground (arith, keys-remove d u j)

  put-IsValid :
      (d : Connections) (user_id : String) (ids : List ℕ)
      → IsValid d
      → IsGood user_id ids
      → IsValid (Dict.put d user_id ids)
  unfolding Dict.put Dict.keys
  put-IsValid [] user_id ids v g = (g, (λ m. m), tt)
  put-IsValid ((u, is) ∷ d) user_id ids v g = elim (u ≟ user_id) [
    | yes p ↦ rw (if_pos _ p) (rw p g, v.1, v.2)
    | no n ↦
        rw (if_neg _ n)
          (v.0, (λ m. v.1 (keys-put d user_id u ids n m)), put-IsValid d user_id ids v.2 g)
  ]

  remove-IsValid :
      (d : Connections) (user_id : String) → IsValid d → IsValid (Dict.remove d user_id)
  unfolding Dict.remove Dict.keys
  remove-IsValid [] user_id v = tt
  remove-IsValid ((u, is) ∷ d) user_id v = elim (u ≟ user_id) [
    | yes p ↦ rw (if_pos _ p) v.2
    | no n ↦
        rw (if_neg _ n) (v.0, (λ m. v.1 (keys-remove d user_id u m)), remove-IsValid d user_id v.2)
  ]

pub contains_iff : (ids : List ℕ) (i : ℕ) → (contains ids i ≡ true) ↔ In i ids
unfolding contains
contains_iff [] i = ground arith
contains_iff (j ∷ ids) i = ground (arith, contains_iff ids i)

Distinct-snoc : (ids : List ℕ) (i : ℕ) → Distinct ids → ¬ In i ids → Distinct (ids ++ i ∷ [])
Distinct-snoc [] i d n = ((λ m. m), tt)
Distinct-snoc (j ∷ ids) i d n =
    ((λ m. ground (arith, In-append j ids (i ∷ []) m)), Distinct-snoc ids i d.1 (λ m. n (inr m)))

module _ (objects : Objects) (user_id : String) where
  abbrev Own : ℕ → Type 0
  Own i = (objects i).user_id ≡ user_id

  -- The set of `or_empty` satisfies all of `IsGood` but that it is not empty.
  stored :
      (d : Connections)
      → IsValid objects d
      → Distinct (or_empty (Dict.get d user_id)) × All Own (or_empty (Dict.get d user_id))
  stored d v = elim (Option-cases (Dict.get d user_id)) [
    | inl e ↦ rw e (tt, tt)
    | inr (ids, e) ↦ let g = get-IsGood objects d user_id v e in rw e (g.distinct, g.own)
  ]

  set_add-IsGood :
      (ids : List ℕ) (i : ℕ)
      → Distinct ids
      → All Own ids
      → Own i
      → IsGood objects user_id (set_add ids i)
  unfolding set_add
  set_add-IsGood ids i d a o = elim (Bool-cases (contains ids i)) [
    | inl old ↦
        rw (old, set_add)
          (record { occupied = occupied ids ((contains_iff ids i).0 old); distinct = d; own = a })
    | inr new ↦
        rw (new, set_add)
          (record {
            occupied = omega (arith, length-append ids (i ∷ []));
            distinct = Distinct-snoc ids i d (λ m. ground (arith, contains_iff ids i));
            own = All-append Own ids (i ∷ []) a (o, tt);
          })
  ]
    where
      occupied : (ids : List ℕ) → In i ids → 0 < length ids
      occupied [] m = absurd m
      occupied (j ∷ ids) m = omega arith

  In-set_discard : (ids : List ℕ) (i j : ℕ) → In j (set_discard ids i) → In j ids
  unfolding set_discard
  In-set_discard [] i j m = m
  In-set_discard (k ∷ ids) i j m = ground (arith, In-set_discard ids i j)

  set_discard-keeps :
      (ids : List ℕ) (i : ℕ)
      → Distinct ids
      → All Own ids
      → Distinct (set_discard ids i) × All Own (set_discard ids i)
  unfolding set_discard
  set_discard-keeps [] i d a = (d, a)
  set_discard-keeps (k ∷ ids) i d a =
      ground (arith, set_discard-keeps ids i d.1 a.1, In-set_discard ids i k)

  drop_empty-IsValid :
      (d : Connections) (ids : List ℕ)
      → IsValid objects d
      → Distinct ids
      → All Own ids
      → IsValid objects (drop_empty d user_id ids).0
  drop_empty-IsValid d [] v h a = remove-IsValid objects d user_id v
  drop_empty-IsValid d (i ∷ ids) v h a =
      put-IsValid objects d user_id (i ∷ ids) v
        (record { occupied = omega arith; distinct = h; own = a })

  -- `add` keeps the registry valid, for a connection of the user it is added for.
  pub add-IsValid :
      (d : Connections) (i : ℕ) → IsValid objects d → Own i → IsValid objects (add d user_id i).0
  unfolding add
  add-IsValid d i v o =
      let s = stored d v in
      put-IsValid objects d user_id _ v (set_add-IsGood (or_empty (Dict.get d user_id)) i s.0 s.1 o)

  discard_at :
      (d : Connections) (i : ℕ) (ids : List ℕ)
      → or_empty (Dict.get d user_id) ≡ ids
      → IsValid objects d
      → Distinct ids
      → All Own ids
      → IsValid objects (discard d user_id i).0
  unfolding discard
  discard_at d i [] e v h a = rw (e, discard) v
  discard_at d i (j ∷ ids) e v h a =
      let k = set_discard-keeps (j ∷ ids) i h a in
      rw (e, discard) (drop_empty-IsValid d (set_discard (j ∷ ids) i) v k.0 k.1)

  -- `discard` keeps the registry valid, in particular without a user that has no connection left.
  pub discard-IsValid :
      (d : Connections) (i : ℕ) → IsValid objects d → IsValid objects (discard d user_id i).0
  discard-IsValid d i v =
      let s = stored d v in discard_at d i (or_empty (Dict.get d user_id)) refl v s.0 s.1
