-- ===== src/Subscriber/Recovery.antt =====
-- What a round of the subscriber does to its subscriptions, lost ones included.
use text.Mathlib.TextPositions.{starts_with-append}
use text.Mathlib.Text.{starts_with}
use geo_device.Prelude.{
  ◌≡◌, ◌≢◌, ◌↔◌, ap, subst, arith, Bool, true, false, List, [], ◌∷◌, map, String, In, ◌≟◌,
  string_key,
}
use geo_device.Exec.{ok}
use geo_device.Realtime.{alert_channel, alert_channel_prefix, position_channel}
use geo_device.Registry.{users}
use geo_device.Subscriber.{PubSub, Hub, resubscribe, on_world}
use geo_device.Subscriber.Channels.{IsPubSub, IsMirrored, alert_channel_inj}

pub alert_channel-apart : (u : String) → alert_channel u ≢ position_channel
unfolding alert_channel
alert_channel-apart u e = apart reads
  where
    reads : starts_with position_channel alert_channel_prefix ≡ true
    reads =
        subst (λ s. starts_with s alert_channel_prefix ≡ true) e
          (starts_with-append alert_channel_prefix u)

    apart : false ≡ true → ⊥
    apart p = cc

In-alert_channels :
    (us : List String) (u : String) → In (alert_channel u) (map alert_channel us) ↔ In u us
In-alert_channels [] u = ground arith
In-alert_channels (w ∷ us) u =
    ground (arith, In-alert_channels us u, alert_channel_inj w u, ap alert_channel, w ≟ u)

module _ {W : Type 0} (pubsub : PubSub W) (subscribed : W → String → Bool) where
  open pubsub use {subscribe}

  abbrev pub all_channels : Hub W → List String
  all_channels s = position_channel ∷ map alert_channel (users s.connections)

  -- Only alert channels of users of the registry are subscribed, perhaps not all of them.
  abbrev pub IsCovered : Hub W → Type 0
  IsCovered s =
      (u : String) → subscribed s.world (alert_channel u) ≡ true → In u (users s.connections)

  pub resubscribe-IsMirrored :
      (s : Hub W)
      → IsPubSub pubsub subscribed
      → IsCovered s
      → (subscribe (all_channels s) s.world).0 ≡ ok tt
      → IsMirrored pubsub subscribed (resubscribe pubsub s).1
        × (subscribed (resubscribe pubsub s).1.world position_channel ≡ true)
  unfolding resubscribe on_world
  resubscribe-IsMirrored s laws covered done =
      let cs = all_channels s in
      (
        (λ u.
            rw (done, resubscribe)
              (ground (
                arith,
                laws.subscribes cs (alert_channel u) s.world done,
                covered u,
                In-alert_channels (users s.connections) u,
                alert_channel-apart u,
              ))),
        rw (done, resubscribe) (ground (arith, laws.subscribes cs position_channel s.world done)),
      )
