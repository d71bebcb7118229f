-- ===== src/Subscriber/Failed.antt =====
-- What an attachment leaves behind whose subscription raises.
use geo_device.Prelude.{ℕ, ◌≡◌, ◌≢◌, refl, inl, inr, arith, In, Bool-cases, true, false, string_key}
use geo_device.Connection
use geo_device.Errors.{Exn}
use geo_device.Exec.{ok, raised}
use geo_device.Registry.{add, users}
use geo_device.Registry.Users.{holds, holds-add, add_first, users-add}
use geo_device.Registry.Valid.{IsValid, add-IsValid}
use geo_device.Subscriber.{PubSub, Hub, attach, on_world}

module _ {W : Type 0} (pubsub : PubSub W) where
  ok_ne : (e : Exn) → ok tt ≢ raised e
  ok_ne e p = cc

  attach_later :
      (k : ℕ) (s : Hub W)
      → (add s.connections (s.objects k).user_id k).1 ≡ false
      → ((attach pubsub k s).0 ≡ ok tt) × ((attach pubsub k s).1.world ≡ s.world)
  unfolding attach on_world Connection.start
  attach_later k s e = rw (e, attach) (refl, refl)

  attach_raised :
      (i : ℕ) (s : Hub W) (e : Exn)
      → (attach pubsub i s).0 ≡ raised e
      → ((attach pubsub i s).1.connections ≡ (add s.connections (s.objects i).user_id i).0)
  unfolding attach on_world Connection.start
  attach_raised i s e h = elim (Bool-cases (add s.connections (s.objects i).user_id i).1) [
    | inl b ↦ rw (b, attach) refl
    | inr b ↦ absurd (ok_ne e (rw (b, attach) at h))
  ]

  attach_objects :
      (i k : ℕ) (s : Hub W) → ((attach pubsub i s).1.objects k).user_id ≡ (s.objects k).user_id
  unfolding attach on_world Connection.start
  attach_objects i k s = elim (Bool-cases (add s.connections (s.objects i).user_id i).1) [
    | inl b ↦ rw (b, attach) (ground arith)
    | inr b ↦ rw (b, attach) (ground arith)
  ]

  -- In a valid registry: after an attachment that raised, the connection is registered for its
  -- user, and the attachment of another connection of the user returns without a call of redis, so
  -- that the alert channel of the user is subscribed no more than before.
  pub attach_failed :
      (i k : ℕ) (s : Hub W) (e : Exn)
      → IsValid s.objects s.connections
      → (attach pubsub i s).0 ≡ raised e
      → (s.objects k).user_id ≡ (s.objects i).user_id
      → i ≢ k
      → holds s.connections (s.objects k).user_id k ≡ false
      → (holds (attach pubsub i s).1.connections (s.objects i).user_id i ≡ true)
        × ((attach pubsub k (attach pubsub i s).1).0 ≡ ok tt)
        × ((attach pubsub k (attach pubsub i s).1).1.world ≡ (attach pubsub i s).1.world)
  attach_failed i k s e v h same apart fresh =
      let u = (s.objects i).user_id in
      let d = (add s.connections u i).0 in
      let known : In u (users d) = (users-add s.connections u u i).1 (inl refl) in
      let again =
        add_first s.objects d u k (add-IsValid s.objects u s.connections i v refl)
          (ground (arith, holds-add s.connections u u i k, rw same at fresh)) in
      let quiet = attach_later k (attach pubsub i s).1 (
        rw (attach_raised i s e h, attach_objects i k s, same)
          (elim (Bool-cases (add d u k).1) [ inl b ↦ absurd (again.0.0 b known) | inr b ↦ b ])) in
      (
        rw (attach_raised i s e h) (ground (arith, holds-add s.connections u u i i)),
        quiet.0,
        quiet.1,
      )
