-- ===== src/Registry/Sessions.antt =====
-- The registry up to the order of its dict and its sets: which connections are registered for which
-- user.
use mathlib.Core.Quot
use mathlib.Core.Quot.{Quot, Quot-set}
use geo_device.Prelude.{
  ℕ, ◌≡◌, ◌≢◌, refl, sym, ◌∙◌, ap, fun_ext, Bool, false, ◌||◌, ◌&&◌, not, some, String, arith, ◌==◌,
  ite, ◌≟◌, string_key,
}
use geo_device.Registry.{Objects, Connections, add, discard, send_to_user, broadcast}
use geo_device.Registry.Delivery.{AllBounded, broadcast-delivered, send_to_user-delivered}
use geo_device.Registry.Users.{holds, holds-add, holds-discard}
use geo_device.Registry.Valid.{IsValid, add-IsValid, discard-IsValid}

or_swap : (a b c : Bool) → ((a || b) || c) ≡ ((a || c) || b)
or_swap a b c = ground arith

and_swap : (a b c : Bool) → ((a && b) && c) ≡ ((a && c) && b)
and_swap a b c = ground arith

or_and_swap : (a b c : Bool) → (b && c) ≡ false → ((a && not b) || c) ≡ ((a || c) && not b)
or_and_swap a b c h = ground arith

module _ (objects : Objects) where
  -- A registry that is valid for the objects.
  abbrev pub Registered : Type 0
  Registered = (d : Connections) × IsValid objects d

  abbrev pub SameSessions : Registered → Registered → Type 0
  SameSessions (d, v) (e, w) = (user_id : String) (i : ℕ) → holds d user_id i ≡ holds e user_id i

  abbrev pub Sessions : Type 0
  Sessions = Quot SameSessions

  abbrev pub sessions : Registered → Sessions
  sessions = Quot.mk

  -- Whether the connection is registered for the user.
  unfoldable pub has : String → ℕ → Sessions → Bool
  has user_id i = Quot.lift (hlevel) (λ (d, v). holds d user_id i) (λ x y h. h user_id i)

  exact : (x y : Registered) → sessions x ≡ sessions y → SameSessions x y
  unfolding has
  exact x y e user_id i = ap (has user_id i) e

  ext : (s t : Sessions) → ((user_id : String) (i : ℕ) → has user_id i s ≡ has user_id i t) → s ≡ t
  unfolding has
  ext = Quot.ind (λ _. hlevel Quot-set) λ x. Quot.ind (λ _. hlevel Quot-set) λ y. Quot.sound

  pub add-SameSessions :
      (i : ℕ) (x y : Registered)
      → SameSessions x y
      → SameSessions
          (
            (add x.0 (objects i).user_id i).0,
            add-IsValid objects (objects i).user_id x.0 i x.1 refl,
          )
          (
            (add y.0 (objects i).user_id i).0,
            add-IsValid objects (objects i).user_id y.0 i y.1 refl,
          )
  add-SameSessions i x y h u j =
      let user_id = (objects i).user_id in
      holds-add x.0 user_id u i j
      ∙ ap (λ b. b || ite (user_id ≟ u) (i == j) false) (h u j)
      ∙ sym (holds-add y.0 user_id u i j)

  pub discard-SameSessions :
      (i : ℕ) (x y : Registered)
      → SameSessions x y
      → SameSessions
          (
            (discard x.0 (objects i).user_id i).0,
            discard-IsValid objects (objects i).user_id x.0 i x.1,
          )
          (
            (discard y.0 (objects i).user_id i).0,
            discard-IsValid objects (objects i).user_id y.0 i y.1,
          )
  discard-SameSessions i x y h u j =
      let user_id = (objects i).user_id in
      holds-discard objects x.0 user_id u i j x.1
      ∙ ap (λ b. b && not (ite (user_id ≟ u) (i == j) false)) (h u j)
      ∙ sym (holds-discard objects y.0 user_id u i j y.1)

  -- `add` and `discard` of a connection.
  unfoldable pub register : ℕ → Sessions → Sessions
  register i =
      let user_id = (objects i).user_id in
      Quot.lift Quot-set
        (λ (d, v). sessions ((add d user_id i).0, add-IsValid objects user_id d i v refl))
        (λ x y h. Quot.sound (add-SameSessions i x y h))

  unfoldable pub unregister : ℕ → Sessions → Sessions
  unregister i =
      let user_id = (objects i).user_id in
      Quot.lift Quot-set
        (λ (d, v). sessions ((discard d user_id i).0, discard-IsValid objects user_id d i v))
        (λ x y h. Quot.sound (discard-SameSessions i x y h))

  -- The connection is the one, and the user its user.
  abbrev is_own : ℕ → String → ℕ → Bool
  is_own i user_id j = ite ((objects i).user_id ≟ user_id) (i == j) false

  has-register :
      (i : ℕ) (u : String) (j : ℕ) (s : Sessions)
      → has u j (register i s) ≡ (has u j s || is_own i u j)
  unfolding has register
  has-register i u j = Quot.ind (λ _. hlevel) (λ (d, v). holds-add d (objects i).user_id u i j)

  has-unregister :
      (i : ℕ) (u : String) (j : ℕ) (s : Sessions)
      → has u j (unregister i s) ≡ (has u j s && not (is_own i u j))
  unfolding has unregister
  has-unregister i u j =
      Quot.ind (λ _. hlevel) (λ (d, v). holds-discard objects d (objects i).user_id u i j v)

  apart : (i k : ℕ) (u : String) (j : ℕ) → i ≢ k → (is_own k u j && is_own i u j) ≡ false
  apart i k u j n = ground arith

  -- In the registry up to order: registering two connections commutes, so does unregistering them,
  -- and, if the connections differ, registering the one and unregistering the other.
  pub register_comm :
      (i k : ℕ) (s : Sessions)
      → i ≢ k
      → (register i (register k s) ≡ register k (register i s))
        × (unregister i (unregister k s) ≡ unregister k (unregister i s))
        × (register i (unregister k s) ≡ unregister k (register i s))
  register_comm i k s n = (
    ext _ _ (λ u j.
        rw (has-register, has-register, has-register, has-register)
          (or_swap (has u j s) (is_own k u j) (is_own i u j))),
    ext _ _ (λ u j.
        rw (has-unregister, has-unregister, has-unregister, has-unregister)
          (and_swap (has u j s) (not (is_own k u j)) (not (is_own i u j)))),
    ext _ _ (λ u j.
        rw (has-register, has-unregister, has-unregister, has-register)
          (or_and_swap (has u j s) (is_own k u j) (is_own i u j) (apart i k u j n))),
  )

  -- What is sent depends on the registry up to order alone: two valid registries that are the same
  -- sessions leave the same objects after a broadcast, and after a message to any user.
  pub broadcast-sessions :
      (x y : Registered) (message : String) (priority : Bool)
      → AllBounded objects
      → sessions x ≡ sessions y
      → (broadcast x.0 objects message priority ≡ broadcast y.0 objects message priority)
        × ((user_id : String)
            → send_to_user x.0 objects user_id message priority
              ≡ send_to_user y.0 objects user_id message priority)
  broadcast-sessions x y message priority b e =
      let same = exact x y e in
      let (out, ran, each) = broadcast-delivered message priority x.0 objects x.1 b in
      let (out', ran', each') = broadcast-delivered message priority y.0 objects y.1 b in
      (
        ran
            ∙ ap some (fun_ext λ j. each j ∙ rw (same (objects j).user_id j) refl ∙ sym (each' j))
            ∙ sym ran',
        (λ user_id.
            let (to, sent_to, one) =
              send_to_user-delivered message priority x.0 objects user_id x.1 b in
            let (to', sent_to', one') =
              send_to_user-delivered message priority y.0 objects user_id y.1 b in
            sent_to
            ∙ ap some (fun_ext λ j. one j ∙ rw (same user_id j) refl ∙ sym (one' j))
            ∙ sym sent_to'),
      )
