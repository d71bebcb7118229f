-- ===== src/Subscriber/Rounds.antt =====
-- One round of the subscriber's loop, its two ways, and the invariant of the subscriber.
use geo_device.Prelude.{
  ℕ, ◌≡◌, ◌≢◌, ◌⊎◌, inl, inr, refl, ◌∙◌, Bool, true, Option, none, some, [], ◌∷◌, String, In,
  Bool-cases, All-In, All-get, In-append_left, In-append_right, flat, string_key,
}
use geo_device.Dict
use geo_device.Errors.{Exn, redis_errors}
use geo_device.Exec.{Result, ok, raised, pure}
use geo_device.Pacing
use geo_device.Pacing.{Backoff}
use geo_device.Realtime.{alert_channel}
use geo_device.Registry.{Objects, Connections}
use geo_device.Registry.Delivery.{AllBounded}
use geo_device.Registry.Valid.{IsValid}
use geo_device.Subscriber.{
  Message, PubSub, Hub, dispatch, dispatch_some, next_message, back_off, resubscribe, round,
  on_world,
}
use geo_device.Subscriber.Channels.{IsPubSub, IsMirrored}
use geo_device.Subscriber.Recovery.{IsCovered, all_channels, resubscribe-IsMirrored}
use geo_device.Subscriber.Dispatch.{Reached-AllBounded, Reached-user_id, dispatch-other}

-- The registry looks at nothing of an object but its user, and at no object but its own.
pub IsValid-of_users :
    (objects out : Objects) (d : Connections)
    → ((j : ℕ) → In j (flat (Dict.values d)) → (out j).user_id ≡ (objects j).user_id)
    → IsValid objects d
    → IsValid out d
unfolding Dict.values
IsValid-of_users objects out [] same v = tt
IsValid-of_users objects out ((u, ids) ∷ d) same v =
    let rest = flat (Dict.values d) in
    (
      record {
        occupied = v.0.occupied;
        distinct = v.0.distinct;
        own =
            All-In _ ids (λ j m. same j (In-append_left j ids rest m) ∙ All-get _ j ids v.0.own m);
      },
      v.1,
      IsValid-of_users objects out d (λ j m. same j (In-append_right j ids rest m)) v.2,
    )

module _ {W : Type 0} (pubsub : PubSub W) (subscribed : W → String → Bool) where
  open pubsub use {subscribe, get_message, sleep}

  -- What reading and waiting do to subscriptions: a failure may lose some, nothing adds one.
  pub record IsReader : Type 0 where
    pub keeps :
        (m : Option Message) (c : String) (w : W)
        → (get_message w).0 ≡ ok m
        → subscribed (get_message w).1 c ≡ subscribed w c
    pub loses : (c : String) (w : W) → subscribed (get_message w).1 c ≡ true → subscribed w c ≡ true
    pub waits :
        (n : ℕ) (c : String) (w : W) → subscribed (sleep n w).1 c ≡ true → subscribed w c ≡ true

  -- The registry is valid, the queues are within their bounds, and the alert channels that are
  -- subscribed are those of the users.
  pub record IsSound (s : Hub W) : Type 0 where
    pub valid : IsValid s.objects s.connections
    pub bounded : AllBounded s.objects
    pub mirrored : IsMirrored pubsub subscribed s

  dispatch-IsSound : (m : Message) (s : Hub W) → IsSound s → IsSound (dispatch m s).1
  dispatch-IsSound m s g =
      let (picked, priority, out, reached) =
        dispatch-other s m.payload m.channel g.valid g.bounded in
      rw reached.ran (record {
        valid =
            IsValid-of_users s.objects out s.connections
              (λ j i. Reached-user_id s m.payload m picked priority out reached j) g.valid;
        bounded = Reached-AllBounded s m.payload m picked priority out reached g.bounded;
        mirrored = g.mirrored;
      })

  dispatch_some-IsSound :
      (m : Option Message) (s : Hub W) → IsSound s → IsSound (dispatch_some m s).1
  unfolding pure
  dispatch_some-IsSound none s g = g
  dispatch_some-IsSound (some m) s g = dispatch-IsSound m s g

  abbrev waiting : Hub W → Hub W
  waiting s = record s {
    backoff = (Pacing.sleep s.backoff).0;
    world = (sleep (Pacing.sleep s.backoff).1 (get_message s.world).1).1;
  }

  -- The read of the round returned, or the new subscription after it did.
  abbrev pub Recovered : Hub W → Type 0
  Recovered s =
      ((m : Option Message) × ((get_message s.world).0 ≡ ok m))
      ⊎ ((subscribe (all_channels pubsub subscribed s) (waiting s).world).0 ≡ ok tt)

  round_read :
      (s : Hub W) (m : Option Message)
      → (get_message s.world).0 ≡ ok m
      → round pubsub s
        ≡ dispatch_some m
            (record s { backoff = Pacing.reset s.backoff; world = (get_message s.world).1 })
  unfolding round next_message on_world
  round_read s m e = rw (e, round) refl

  raised_ne : (e : Exn) → raised e ≢ ok tt
  raised_ne e p = cc

  round_caught :
      (s : Hub W) (e : Exn) (slept again : Result (Unit {0}))
      → redis_errors e ≡ true
      → (get_message s.world).0 ≡ raised e
      → (sleep (Pacing.sleep s.backoff).1 (get_message s.world).1).0 ≡ slept
      → (resubscribe pubsub (waiting s)).0 ≡ again
      → (round pubsub s).0 ≡ ok tt
      → round pubsub s ≡ (ok tt, (resubscribe pubsub (waiting s)).1)
  unfolding round next_message back_off on_world
  round_caught s e (ok t) (ok u) c x y z done = rw (x, c, y, z, round) refl
  round_caught s e (ok t) (raised f) c x y z done =
      absurd (raised_ne f (rw (x, c, y, z, round) at done))
  round_caught s e (raised f) again c x y z done =
      absurd (raised_ne f (rw (x, c, y, round) at done))

  round_failed :
      (s : Hub W) (e : Exn)
      → (get_message s.world).0 ≡ raised e
      → (round pubsub s).0 ≡ ok tt
      → round pubsub s ≡ (ok tt, (resubscribe pubsub (waiting s)).1)
  unfolding round next_message on_world
  round_failed s e x done = elim (Bool-cases (redis_errors e)) [
    | inl c ↦ round_caught s e _ _ c x refl refl done
    | inr c ↦ absurd (raised_ne e (rw (x, c, round) at done))
  ]

  resubscribed-IsSound :
      (s : Hub W)
      → IsPubSub pubsub subscribed
      → IsCovered pubsub subscribed s
      → IsValid s.objects s.connections
      → AllBounded s.objects
      → (subscribe (all_channels pubsub subscribed s) s.world).0 ≡ ok tt
      → IsSound (resubscribe pubsub s).1
  unfolding resubscribe on_world
  resubscribed-IsSound s laws covered v b done = record {
    valid = rw (done, resubscribe) v;
    bounded = rw (done, resubscribe) b;
    mirrored = (resubscribe-IsMirrored pubsub subscribed s laws covered done).0;
  }

  round-IsSound_at :
      (s : Hub W) (read : Result (Option Message))
      → (get_message s.world).0 ≡ read
      → IsPubSub pubsub subscribed
      → IsReader
      → IsSound s
      → Recovered s
      → (round pubsub s).0 ≡ ok tt
      → IsSound (round pubsub s).1
  round-IsSound_at s (ok m) e laws reader g recovered done = rw (round_read s m e) (
      dispatch_some-IsSound m _ (record {
        valid = g.valid;
        bounded = g.bounded;
        mirrored = λ u. rw (reader.keeps m (alert_channel u) s.world e) (g.mirrored u);
      }))
  round-IsSound_at s (raised x) e laws reader g recovered done = rw (round_failed s x e done) (
      resubscribed-IsSound (waiting s) laws
        (λ u h.
          (g.mirrored u).0
            (reader.loses (alert_channel u) s.world (reader.waits _ (alert_channel u) _ h)))
        g.valid g.bounded (succeeded recovered))
    where
      succeeded :
          Recovered s → (subscribe (all_channels pubsub subscribed s) (waiting s).world).0 ≡ ok tt
      succeeded (inl (m, p)) = absurd (cc)
      succeeded (inr p) = p

  -- Under the documented behaviour of redis: a round of the subscriber that returns keeps the
  -- registry valid, the queues within their bounds, and the alert channels that are subscribed those
  -- of the users, if its read returned or its new subscription did, whatever subscriptions were lost.
  pub round-IsSound :
      (s : Hub W)
      → IsPubSub pubsub subscribed
      → IsReader
      → IsSound s
      → Recovered s
      → (round pubsub s).0 ≡ ok tt
      → IsSound (round pubsub s).1
  round-IsSound s = round-IsSound_at s _ refl
