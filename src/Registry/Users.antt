-- ===== src/Registry/Users.antt =====
-- The registry as a relation between users and connections, and what the results of `add` and
-- `discard` say of its users.
use geo_device.Prelude.{
  ℕ, ◌<◌, ◌≡◌, ◌≢◌, refl, ◌↔◌, ◌⊎◌, inl, inr, Bool, true, false, not, ◌&&◌, ◌||◌, List, [], ◌∷◌,
  ◌++◌, String, length, length-append, arith, In, Distinct, ◌==◌, ite, if_neg, ◌≟◌, string_key,
  Option-cases,
}
use geo_device.Dict
use geo_device.Dict.Laws.{In-keys-put, get-In, get-absent, get-put, get-remove}
use geo_device.Registry.{
  Objects, Connections, contains, set_add, set_discard, or_empty, users, add, drop_empty, discard,
}
use geo_device.Registry.Valid.{IsValid, get-IsGood, contains_iff}

-- The abstract view: the connection `i` is registered for the user.
unfoldable pub holds : Connections → String → ℕ → Bool
unfolding contains Dict.get
holds d user_id i = contains (or_empty (Dict.get d user_id)) i

keys-Distinct : (objects : Objects) (d : Connections) → IsValid objects d → Distinct (Dict.keys d)
unfolding Dict.keys
keys-Distinct objects [] v = tt
keys-Distinct objects ((u, ids) ∷ d) v = (v.1, keys-Distinct objects d v.2)

contains-snoc : (ids : List ℕ) (i j : ℕ) → contains (ids ++ i ∷ []) j ≡ (contains ids j || i == j)
unfolding contains
contains-snoc [] i j = ground arith
contains-snoc (k ∷ ids) i j = ground (arith, contains-snoc ids i j)

contains-set_add :
    (ids : List ℕ) (i j : ℕ) → contains (set_add ids i) j ≡ (contains ids j || i == j)
unfolding set_add
contains-set_add ids i j = ground (arith, contains-snoc ids i j)

contains-set_discard :
    (ids : List ℕ) (i j : ℕ)
    → Distinct ids
    → contains (set_discard ids i) j ≡ (contains ids j && not (i == j))
unfolding set_discard contains
contains-set_discard [] i j d = refl
contains-set_discard (k ∷ ids) i j d =
    ground (arith, contains-set_discard ids i j d.1, contains_iff ids j)

-- `add` registers one connection for one user and changes nothing else.
pub holds-add :
    (d : Connections) (u w : String) (i j : ℕ)
    → holds (add d u i).0 w j ≡ (holds d w j || ite (u ≟ w) (i == j) false)
unfolding holds add
holds-add d u w i j =
    let sessions = or_empty (Dict.get d u) in
    ground (arith, get-put d u w (set_add sessions i), contains-set_add sessions i j)

not-In-remove :
    (d : Connections) (u : String) → Distinct (Dict.keys d) → ¬ In u (Dict.keys (Dict.remove d u))
unfolding Dict.remove Dict.keys
not-In-remove [] u h = λ m. m
not-In-remove ((k, is) ∷ d) u h = ground (arith, not-In-remove d u h.1)

get_of-In :
    (objects : Objects) (d : Connections) (u : String)
    → IsValid objects d
    → In u (Dict.keys d)
    → 0 < length (or_empty (Dict.get d u))
unfolding Dict.get Dict.keys
get_of-In objects [] u v m = absurd m
get_of-In objects ((k, ids) ∷ d) u v m = ground (arith, v.0.occupied, get_of-In objects d u v.2)

-- In a valid registry, `add` of a connection that the user did not have returns `True` exactly when
-- the user was not among the users, and the user is among them afterwards.
pub add_first :
    (objects : Objects) (d : Connections) (u : String) (i : ℕ)
    → IsValid objects d
    → holds d u i ≡ false
    → (((add d u i).1 ≡ true) ↔ (¬ In u (users d))) × In u (users (add d u i).0)
unfolding add users set_add holds
add_first objects d u i v h = ground (
  arith,
  get_of-In objects d u v,
  get-absent d u,
  In-keys-put d u (or_empty (Dict.get d u) ++ i ∷ []) u,
  length-append (or_empty (Dict.get d u)) (i ∷ []),
)

module _ {ℓ} (P : Connections × Bool → Type ℓ) (d : Connections) (u : String) (i : ℕ) where
  drop_cases :
      (left : List ℕ)
      → (left ≡ [] → P (Dict.remove d u, true))
      → ((k : ℕ) (ks : List ℕ) → left ≡ k ∷ ks → P (Dict.put d u (k ∷ ks), false))
      → P (drop_empty d u left)
  drop_cases [] last more = last refl
  drop_cases (k ∷ ks) last more = more k ks refl

  discard_cases_at :
      (ids : List ℕ)
      → or_empty (Dict.get d u) ≡ ids
      → (ids ≡ [] → P (d, false))
      → (0 < length ids → set_discard ids i ≡ [] → P (Dict.remove d u, true))
      → ((k : ℕ) (ks : List ℕ)
          → 0 < length ids
          → set_discard ids i ≡ k ∷ ks
          → P (Dict.put d u (k ∷ ks), false))
      → P (discard d u i)
  unfolding discard
  discard_cases_at [] e none_left last more = rw (e, discard) (none_left refl)
  discard_cases_at (j ∷ ids) e none_left last more =
      rw (e, discard)
        (drop_cases (set_discard (j ∷ ids) i) (last (omega arith))
          (λ k ks. more k ks (omega arith)))

  -- The three outcomes of `discard`.
  discard_cases :
      (or_empty (Dict.get d u) ≡ [] → P (d, false))
      → (0 < length (or_empty (Dict.get d u))
          → set_discard (or_empty (Dict.get d u)) i ≡ []
          → P (Dict.remove d u, true))
      → ((k : ℕ) (ks : List ℕ)
          → 0 < length (or_empty (Dict.get d u))
          → set_discard (or_empty (Dict.get d u)) i ≡ k ∷ ks
          → P (Dict.put d u (k ∷ ks), false))
      → P (discard d u i)
  discard_cases = discard_cases_at (or_empty (Dict.get d u)) refl

In_of_get :
    (d : Connections) (u : String) → 0 < length (or_empty (Dict.get d u)) → In u (Dict.keys d)
In_of_get d u h = elim (Option-cases (Dict.get d u)) [
  | inl e ↦ absurd (ground arith)
  | inr (ids, e) ↦ get-In d u e
]

-- In a valid registry, `discard` returns `True` exactly when the user was among the users and is
-- not any more.
pub discard_last :
    (objects : Objects) (d : Connections) (u : String) (i : ℕ)
    → IsValid objects d
    → ((discard d u i).1 ≡ true) ↔ (In u (users d) × (¬ In u (users (discard d u i).0)))
unfolding users
discard_last objects d u i v =
    discard_cases (λ r. (r.1 ≡ true) ↔ (In u (users d) × (¬ In u (users r.0)))) d u i
      (λ e. ground arith)
      (λ h e. ground (arith, In_of_get d u h, not-In-remove d u (keys-Distinct objects d v)))
      (λ k ks h e. ground (arith, In-keys-put d u (k ∷ ks) u))

-- In a valid registry, `discard` takes out one connection of one user and changes nothing else.
pub holds-discard :
    (objects : Objects) (d : Connections) (u w : String) (i j : ℕ)
    → IsValid objects d
    → holds (discard d u i).0 w j ≡ (holds d w j && not (ite (u ≟ w) (i == j) false))
unfolding holds
holds-discard objects d u w i j v =
    discard_cases (λ r. holds r.0 w j ≡ (holds d w j && not (ite (u ≟ w) (i == j) false))) d u i
      (λ e. elim (u ≟ w) [ yes p ↦ rw (← p, e) refl | no n ↦ rw (if_neg (u ≟ w) n) (ground arith) ])
      (λ h e. ground (arith, get-remove d u w (keys-Distinct objects d v), left))
      (λ k ks h e. ground (arith, get-put d u w (k ∷ ks), left))
  where
    stored : Distinct (or_empty (Dict.get d u))
    stored = elim (Option-cases (Dict.get d u)) [
      | inl e ↦ rw e tt
      | inr (ids, e) ↦ rw e (get-IsGood objects d u v e).distinct
    ]

    left :
        contains (set_discard (or_empty (Dict.get d u)) i) j
        ≡ (contains (or_empty (Dict.get d u)) j && not (i == j))
    left = contains-set_discard (or_empty (Dict.get d u)) i j stored

-- `add` adds the user to the users, and no one else.
pub users-add :
    (d : Connections) (u w : String) (i : ℕ)
    → In w (users (add d u i).0) ↔ ((u ≡ w) ⊎ In w (users d))
unfolding add users
users-add d u w i = In-keys-put d u (set_add (or_empty (Dict.get d u)) i) w

In-keys-remove :
    (d : Connections) (u w : String)
    → u ≢ w
    → In w (Dict.keys (Dict.remove d u)) ↔ In w (Dict.keys d)
unfolding Dict.remove Dict.keys
In-keys-remove [] u w n = ground arith
In-keys-remove ((k, is) ∷ d) u w n = ground (arith, In-keys-remove d u w n)

-- `discard` takes out of the users the user whose last connection it was, and no one else.
pub users-discard :
    (objects : Objects) (d : Connections) (u w : String) (i : ℕ)
    → IsValid objects d
    → In w (users (discard d u i).0) ↔ (In w (users d) × (((discard d u i).1 ≡ false) ⊎ (u ≢ w)))
unfolding users
users-discard objects d u w i v =
    discard_cases (λ r. In w (users r.0) ↔ (In w (users d) × ((r.1 ≡ false) ⊎ (u ≢ w)))) d u i
      (λ e. ground arith)
      (λ h e.
        ground (arith, u ≟ w, In-keys-remove d u w, not-In-remove d u (keys-Distinct objects d v)))
      (λ k ks h e. ground (arith, In-keys-put d u (k ∷ ks) w, In_of_get d u h))

length-set_add : (ids : List ℕ) (i : ℕ) → (length (set_add ids i) == 1) ≡ false → 0 < length ids
unfolding set_add contains
length-set_add [] i h = ground arith
length-set_add (j ∷ ids) i h = omega arith

-- `add` returns `False` only for a user that is among the users already.
pub add_old : (d : Connections) (u : String) (i : ℕ) → (add d u i).1 ≡ false → In u (users d)
unfolding add users
add_old d u i h = In_of_get d u (length-set_add (or_empty (Dict.get d u)) i h)
