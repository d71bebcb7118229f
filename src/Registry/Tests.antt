-- ===== src/Registry/Tests.antt =====
-- Runs of a registry with two users.
use geo_device.Prelude.{
  ℕ, ◌≡◌, refl, subst, ◌↔◌, ◌≢◌, inl, inr, true, false, some, [], ◌∷◌, String, arith, In, ◌==◌, ite,
  ◌&&◌, not, ltb, if◌then◌else◌, string_key, String_discrete,
}
use geo_device.Connection.{running}
use geo_device.Dict
use geo_device.Registry.{Objects, contains, Connections, users, discard, send_to_user, broadcast}
use geo_device.Registry.Valid.{IsValid}
use geo_device.Registry.Users.{holds, holds-discard, discard_last}
use geo_device.Registry.Delivery.{
  AllBounded, delivered, send_to_user-delivered, broadcast-delivered,
}

-- Connections 0 to 9 are Ann's, the others Bob's.
abbrev pub objects : Objects
objects i = record {
  user_id = if ltb i 10 then "ann" else "bob";
  message_queue = record { maxsize = 2; items = [] };
  sender = running;
  dropped_messages = 0;
}

abbrev pub registry : Connections
registry = ("ann", 1 ∷ 2 ∷ []) ∷ ("bob", 10 ∷ []) ∷ []

pub bob_is_not_ann : ◌≢◌ {A = String} "bob" "ann"
unfolding String_discrete
bob_is_not_ann e = subst (λ s. ite (String_discrete "bob" s) (Unit {0}) ⊥) e tt

pub valid : IsValid objects registry
unfolding Dict.keys
valid = (
  record { occupied = omega arith; distinct = ground arith; own = (refl, (refl, tt)) },
  (λ m. elim m [ inl e ↦ bob_is_not_ann e | inr n ↦ n ]),
  (record { occupied = omega arith; distinct = ground arith; own = (refl, tt) }, (λ m. m), tt),
)

pub bounded : AllBounded objects
bounded i = inr (omega arith)

eve_is_new : holds registry "eve" 11 ≡ false
unfolding holds contains Dict.get String_discrete
eve_is_new = refl

discard_last_example :
    ((discard registry "bob" 10).1 ≡ true)
    ↔ (In "bob" (users registry) × (¬ In "bob" (users (discard registry "bob" 10).0)))
discard_last_example = discard_last objects registry "bob" 10 valid

holds-discard_example :
    holds (discard registry "ann" 1).0 "ann" 2
    ≡ (holds registry "ann" 2 && not (ite (String_discrete "ann" "ann") (1 == 2) false))
holds-discard_example = holds-discard objects registry "ann" "ann" 1 2 valid

send_to_user-delivered_example :
    (out : Objects) × (send_to_user registry objects "ann" "hello" true ≡ some out)
    × ((j : ℕ) → out j ≡ delivered objects (holds registry "ann") "hello" true j)
send_to_user-delivered_example =
    send_to_user-delivered "hello" true registry objects "ann" valid bounded

broadcast-delivered_example :
    (out : Objects) × (broadcast registry objects "hello" false ≡ some out)
    × ((j : ℕ)
        → out j ≡ delivered objects (λ i. holds registry (objects i).user_id i) "hello" false j)
broadcast-delivered_example = broadcast-delivered "hello" false registry objects valid bounded

told : (out : Objects) × (send_to_user registry objects "ann" "hello" true ≡ some out)
told =
    let (out, ran, each) =
      send_to_user-delivered "hello" true registry objects "ann" valid bounded in
    (out, ran)
