-- ===== src/Subscriber/Tests.antt =====
-- A subscriber with one user, to which a second one comes, and from which the first one goes.
use geo_device.Prelude.{
  In, ◌≡◌, ◌≢◌, ◌↔◌, ◌⊎◌, refl, arith, Bool, true, false, inr, Option, none, List, [], ◌∷◌, ◌++◌,
  String, ite, ◌≟◌, string_key, String_discrete, ltb, if◌then◌else◌,
}
use geo_device.Connection.{running}
use geo_device.Dict
use geo_device.Errors.{redis_error}
use geo_device.Exec.{Result, ok, raised}
use geo_device.Realtime.{alert_channel}
use geo_device.Registry.{Objects, users}
use geo_device.Registry.Valid.{IsValid}
use geo_device.Registry.Delivery.{AllBounded}
use geo_device.Registry.Users.{holds}
use geo_device.Subscriber.{PubSub, Hub, Message, attach, detach, round}
use geo_device.Subscriber.Dispatch.{Reached, dispatch-alert}
use geo_device.Subscriber.Failed.{attach_failed}
use geo_device.Subscriber.Life.{attaches, detaches, reads, still, more, Steps-IsSound}
use geo_device.Subscriber.Rounds.{IsReader, IsSound}
use geo_device.Subscriber.Channels.{IsPubSub, IsMirrored, alert_channel_inj}

-- The world is the list of the channels that are subscribed.
unfoldable subscribed : List String → String → Bool
subscribed [] c = false
subscribed (d ∷ channels) c = ite (d ≟ c) true (subscribed channels c)

unfoldable without : List String → String → List String
without [] c = []
without (d ∷ channels) c = let rest = without channels c in ite (d ≟ c) rest (d ∷ rest)

abbrev pubsub : PubSub (List String)
pubsub = record {
  subscribe = λ channels w. (ok tt, channels ++ w);
  unsubscribe = λ channel w. (ok tt, without w channel);
  get_message = λ w. (ok none, w);
  sleep = λ delay w. (ok tt, w);
  aclose = λ w. (ok tt, w);
}

subscribed-without :
    (w : List String) (c d : String)
    → (subscribed (without w c) d ≡ true) ↔ ((c ≢ d) × (subscribed w d ≡ true))
unfolding subscribed without
subscribed-without [] c d = ground arith
subscribed-without (e ∷ w) c d = ground (arith, subscribed-without w c d, c ≟ d)

subscribed-append :
    (cs w : List String) (d : String)
    → (subscribed (cs ++ w) d ≡ true) ↔ (In d cs ⊎ (subscribed w d ≡ true))
unfolding subscribed
subscribed-append [] w d = ground arith
subscribed-append (c ∷ cs) w d = ground (arith, subscribed-append cs w d, c ≟ d)

pubsub-IsPubSub : IsPubSub pubsub subscribed
unfolding subscribed
pubsub-IsPubSub = record {
  subscribes = λ cs d w h. subscribed-append cs w d;
  unsubscribes = λ c d w h. subscribed-without w c d;
}

abbrev objects : Objects
objects i = record {
  user_id = if ltb i 10 then "ann" else "bob";
  message_queue = record { maxsize = 2; items = [] };
  sender = running;
  dropped_messages = 0;
}

abbrev hub : Hub (List String)
hub = record {
  connections = ("ann", 1 ∷ []) ∷ [];
  objects = objects;
  backoff = record { start = 500; limit = 15_000; delay = 0 };
  reading = true;
  world = alert_channel "ann" ∷ [];
}

valid : IsValid objects (("ann", 1 ∷ []) ∷ [])
unfolding Dict.keys
valid = (record { occupied = omega arith; distinct = ground arith; own = (refl, tt) }, (λ m. m), tt)

mirrored : IsMirrored pubsub subscribed hub
unfolding subscribed users Dict.keys
mirrored u = ground (arith, alert_channel_inj "ann" u, String_discrete "ann" u)

bounded : AllBounded objects
bounded j = inr (omega arith)

-- A pubsub whose reads fail and lose every subscription.
abbrev broken : PubSub (List String)
broken = record pubsub { get_message = λ w. (raised redis_error, []) }

broken-IsPubSub : IsPubSub broken subscribed
broken-IsPubSub = record {
  subscribes = pubsub-IsPubSub.subscribes;
  unsubscribes = pubsub-IsPubSub.unsubscribes;
}

broken-IsReader : IsReader broken subscribed
unfolding subscribed
broken-IsReader = record {
  keeps = λ m c w h. absurd (raised_ne m h);
  loses = λ c w h. absurd (cc);
  waits = λ n c w h. h;
}
  where
    raised_ne : (m : Option Message) → ◌≢◌ {A = Result (Option Message)} (raised redis_error) (ok m)
    raised_ne m p = cc

-- The second user comes, the subscriptions are lost in a round, and the first user goes.
abbrev attached : Hub (List String)
attached = (attach broken 10 hub).1

abbrev reread : Hub (List String)
reread = (round broken attached).1

Steps-IsSound_example : IsSound broken subscribed (detach broken 1 reread).1
unfolding attach detach round String_discrete
Steps-IsSound_example =
    Steps-IsSound broken subscribed hub _ broken-IsPubSub broken-IsReader
      (more _ _ _ (attaches 10 hub refl) (
        more _ _ _ (reads attached (inr refl) refl)
          (more _ _ _ (detaches 1 reread refl) (still _))))
      (record { valid = valid; bounded = bounded; mirrored = mirrored })

dispatch-alert_example :
    (out : Objects) × Reached hub "zone entered"
      (record { channel = alert_channel "ann"; payload = "zone entered" })
      (holds (("ann", 1 ∷ []) ∷ []) "ann")
      true
      out
dispatch-alert_example = dispatch-alert hub "zone entered" "ann" valid bounded

-- A pubsub that cannot subscribe.
abbrev refusing : PubSub (List String)
refusing = record pubsub { subscribe = λ channels w. (raised redis_error, w) }

attach_failed_example :
    (holds (attach refusing 10 hub).1.connections "bob" 10 ≡ true)
    × ((attach refusing 11 (attach refusing 10 hub).1).0 ≡ ok tt)
    × ((attach refusing 11 (attach refusing 10 hub).1).1.world ≡ (attach refusing 10 hub).1.world)
unfolding attach String_discrete holds
attach_failed_example = attach_failed refusing 10 11 hub redis_error valid refl refl (λ e. cc) refl
