-- ===== src/Routes/Tests.antt =====
-- A value that is let in, and a websocket that sends one message and goes.
use geo_device.Prelude.{
  ℕ, ◌+◌, ◌≡◌, ◌⊎◌, refl, true, false, none, some, [], String, ◌==◌, if◌then◌else◌,
}
use geo_device.Connection.{no_sender}
use geo_device.Errors.{Exn, http_exception, websocket_exception}
use geo_device.Exec.{ok, raised}
use geo_device.Registry.Users.{holds}
use geo_device.Routes.{Websocket, get_current_user, get_ws_user, connect, stream_updates}
use geo_device.Routes.Guards.{IsUserId, guards-agree}
use geo_device.Routes.Serving.{stream_updates-released}
use geo_device.Subscriber.{PubSub, Hub, attach}

guards-agree_example :
    (IsUserId "ann"
      × (get_current_user (λ s. s) (some "ann") ≡ ok "ann")
      × (get_ws_user (λ s. s) (some "ann") ≡ ok "ann"))
    ⊎ ((¬ IsUserId "ann")
        × ((detail : String) × (get_current_user (λ s. s) (some "ann")
              ≡ raised (http_exception 401 detail)))
        × ((reason : String) × (get_ws_user (λ s. s) (some "ann")
              ≡ raised (websocket_exception 1008 reason))))
guards-agree_example = guards-agree (λ s. s) (some "ann")

-- The world counts the messages.
abbrev pubsub : PubSub ℕ
pubsub = record {
  subscribe = λ channels w. (ok tt, w);
  unsubscribe = λ channel w. (ok tt, w);
  get_message = λ w. (ok none, w);
  sleep = λ delay w. (ok tt, w);
  aclose = λ w. (ok tt, w);
}

abbrev websocket : Websocket ℕ
websocket = record {
  accept = λ s. (ok tt, s);
  receive = λ s. (
    ok (if s.world == 0 then "websocket.receive" else "websocket.disconnect"),
    record s { world = s.world + 1 },
  );
}

abbrev hub : Hub ℕ
hub = record {
  connections = [];
  objects = λ i. record {
    user_id = "ann";
    message_queue = record { maxsize = 2; items = [] };
    sender = no_sender;
    dropped_messages = 0;
  };
  backoff = record { start = 500; limit = 15_000; delay = 0 };
  reading = true;
  world = 0;
}

stream_updates-released_example :
    (holds (stream_updates pubsub websocket 5 7 2 "bob" hub).1.connections "bob" 7 ≡ false)
    ⊎ ((e : Exn) × ((attach pubsub 7 (connect 7 2 "bob" hub)).0 ≡ raised e))
unfolding holds
stream_updates-released_example =
    stream_updates-released pubsub websocket 7 "bob" (λ s v e. (v, e)) 5 2 hub tt refl
