-- ===== src/Subscriber/Channels.antt =====
-- Which channels a subscriber is subscribed to, and whom a message reaches.
use text.Mathlib.TextLemmas.{append_cancel_left}
use text.Mathlib.TextPositions.{starts_with-append, slice-append_right, len-append}
use geo_device.Prelude.{
  ℕ, ◌≡◌, ◌≢◌, ◌↔◌, ◌⊎◌, inl, inr, refl, arith, Bool, true, Bool-cases, List, [], ◌∷◌, String, In,
  ◌≟◌, string_key,
}
use geo_device.Connection
use geo_device.Exec.{Result, ok, raised}
use geo_device.Registry.{users, add, discard}
use geo_device.Registry.Valid.{IsValid}
use geo_device.Registry.Users.{add_old, users-add, users-discard}
use geo_device.Realtime.{alert_channel, alert_channel_prefix}
use geo_device.Subscriber.{PubSub, Hub, attach, detach, on_world, remove_prefix}

pub alert_channel_inj : (u w : String) → alert_channel u ≡ alert_channel w → u ≡ w
unfolding alert_channel
alert_channel_inj u w e = append_cancel_left "alerts:" u w e

-- The subscriber reads the user off the channel that the worker published to.
pub remove_prefix-alert_channel :
    (u : String) → remove_prefix (alert_channel u) alert_channel_prefix ≡ u
unfolding alert_channel remove_prefix
remove_prefix-alert_channel u =
    rw (starts_with-append alert_channel_prefix u, len-append alert_channel_prefix u)
      (slice-append_right alert_channel_prefix u)

module _ {W : Type 0} (pubsub : PubSub W) (subscribed : W → String → Bool) where
  open pubsub use {subscribe, unsubscribe}

  -- What redis documents of subscriptions: a call that succeeds has its effect and no other.
  pub record IsPubSub : Type 0 where
    pub subscribes :
        (cs : List String) (d : String) (w : W)
        → (subscribe cs w).0 ≡ ok tt
        → (subscribed (subscribe cs w).1 d ≡ true) ↔ (In d cs ⊎ (subscribed w d ≡ true))
    pub unsubscribes :
        (c d : String) (w : W)
        → (unsubscribe c w).0 ≡ ok tt
        → (subscribed (unsubscribe c w).1 d ≡ true) ↔ ((c ≢ d) × (subscribed w d ≡ true))

  -- The alert channels of the users of the registry are the alert channels that are subscribed.
  abbrev pub IsMirrored : Hub W → Type 0
  IsMirrored s =
      (u : String) → (subscribed s.world (alert_channel u) ≡ true) ↔ In u (users s.connections)

  -- Under the documented behaviour of subscriptions, an attachment keeps the alert channels that
  -- are subscribed those of the users of the registry, if it returns.
  pub attach-IsMirrored :
      (i : ℕ) (s : Hub W)
      → IsPubSub
      → IsMirrored s
      → (attach pubsub i s).0 ≡ ok tt
      → IsMirrored (attach pubsub i s).1
  unfolding attach on_world add Connection.start
  attach-IsMirrored i s laws mirror done u =
      let user_id = (s.objects i).user_id in
      elim (Bool-cases (add s.connections user_id i).1) [
        | inl e ↦
            let subscribed_now = rw (e, attach) at done in
            rw (e, attach)
              (ground (
                arith,
                laws.subscribes (alert_channel user_id ∷ []) (alert_channel u) s.world
                    subscribed_now,
                mirror u,
                users-add s.connections user_id u i,
                alert_channel_inj user_id u,
                user_id ≟ u,
              ))
        | inr e ↦
            rw (e, attach)
              (ground (
                arith,
                mirror u,
                users-add s.connections user_id u i,
                add_old s.connections user_id i e,
                user_id ≟ u,
              ))
      ]

  detach_last :
      (i : ℕ) (s : Hub W) (r : Result (Unit {0})) (w : W)
      → IsPubSub
      → IsValid s.objects s.connections
      → IsMirrored s
      → (discard s.connections (s.objects i).user_id i).1 ≡ true
      → unsubscribe (alert_channel (s.objects i).user_id) s.world ≡ (r, w)
      → (detach pubsub i s).0 ≡ ok tt
      → IsMirrored (detach pubsub i s).1
  unfolding detach
  detach_last i s (ok t) w laws v mirror e x done u =
      let user_id = (s.objects i).user_id in
      let effect = laws.unsubscribes (alert_channel user_id) (alert_channel u) s.world in
      rw (e, x, detach)
        (ground (
          arith,
          rw x at effect,
          mirror u,
          users-discard s.objects s.connections user_id u i v,
          alert_channel_inj user_id u,
          user_id ≟ u,
        ))
  detach_last i s (raised exn) w laws v mirror e x done u =
      absurd (raised_ne (rw (e, x, detach) at done))
    where
      raised_ne : raised exn ≢ ok tt
      raised_ne p = cc

  -- Under the documented behaviour of subscriptions, in a valid registry, a detachment keeps the
  -- alert channels that are subscribed those of the users of the registry, if it returns.
  pub detach-IsMirrored :
      (i : ℕ) (s : Hub W)
      → IsPubSub
      → IsValid s.objects s.connections
      → IsMirrored s
      → (detach pubsub i s).0 ≡ ok tt
      → IsMirrored (detach pubsub i s).1
  unfolding detach
  detach-IsMirrored i s laws v mirror done u =
      let user_id = (s.objects i).user_id in
      elim (Bool-cases (discard s.connections user_id i).1) [
        | inl e ↦
            let (r, w) = unsubscribe (alert_channel user_id) s.world in
            detach_last i s r w laws v mirror e refl done u
        | inr e ↦
            rw (e, detach)
              (ground (arith, mirror u, users-discard s.objects s.connections user_id u i v))
      ]
