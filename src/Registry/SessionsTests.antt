-- ===== src/Registry/SessionsTests.antt =====
-- Two registries with the same connections in another order.
use mathlib.Core.Quot
use geo_device.Prelude.{◌≡◌, refl, sym, inl, inr, true, [], ◌∷◌, String, arith, ◌≟◌, string_key}
use geo_device.Dict
use geo_device.Registry.{Connections, contains, broadcast, send_to_user}
use geo_device.Registry.Sessions.{
  Registered, SameSessions, sessions, register, unregister, register_comm, broadcast-sessions,
}
use geo_device.Registry.Tests.{objects, registry, valid, bounded, bob_is_not_ann}
use geo_device.Registry.Users.{holds}
use geo_device.Registry.Valid.{IsValid}

abbrev turned : Connections
turned = ("bob", 10 ∷ []) ∷ ("ann", 2 ∷ 1 ∷ []) ∷ []

turned-valid : IsValid objects turned
unfolding Dict.keys
turned-valid = (
  record { occupied = omega arith; distinct = ground arith; own = (refl, tt) },
  (λ m. elim m [ inl e ↦ bob_is_not_ann (sym e) | inr n ↦ n ]),
  (
    record { occupied = omega arith; distinct = ground arith; own = (refl, (refl, tt)) },
    (λ m. m),
    tt,
  ),
)

abbrev x : Registered objects
x = (registry, valid)

abbrev y : Registered objects
y = (turned, turned-valid)

same : SameSessions objects x y
unfolding holds contains Dict.get
same u i = ground (arith, bob_is_not_ann, "ann" ≟ u, "bob" ≟ u)

register_comm_example :
    (register objects 11 (register objects 12 (sessions objects x))
      ≡ register objects 12 (register objects 11 (sessions objects x)))
    × (unregister objects 11 (unregister objects 12 (sessions objects x))
        ≡ unregister objects 12 (unregister objects 11 (sessions objects x)))
    × (register objects 11 (unregister objects 12 (sessions objects x))
        ≡ unregister objects 12 (register objects 11 (sessions objects x)))
register_comm_example = register_comm objects 11 12 (sessions objects x) (λ e. omega arith)

broadcast-sessions_example :
    (broadcast registry objects "hello" true ≡ broadcast turned objects "hello" true)
    × ((user_id : String)
        → send_to_user registry objects user_id "hello" true
          ≡ send_to_user turned objects user_id "hello" true)
broadcast-sessions_example = broadcast-sessions objects x y "hello" true bounded (Quot.sound same)
