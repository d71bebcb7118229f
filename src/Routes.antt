-- ===== src/Routes.antt =====
-- app/dependencies.py, app/realtime/dependencies.py and app/realtime/router.py: who may call, and
-- what a websocket's handler does.
pub mod Guards
pub mod Serving
mod Tests
use Prim.Native.String.{len}
use geo_device.Prelude.{
  ℕ, zero, suc, Bool, true, false, Option, none, some, String, ltb, ◌==◌, if◌then◌else◌, ite, ◌≟◌,
  string_key,
}
use geo_device.Connection.{new_connection}
use geo_device.Errors.{
  Exn, http_exception, websocket_exception, websocket_disconnect, cancelled_error,
}
use geo_device.Exec.{Exec, Result, ok, raised, pure, raise, lift, modify, try_except, ◌>>=◌, ◌>>◌}
use geo_device.Registry.{assign}
use geo_device.Subscriber.{PubSub, Hub, attach, detach}

abbrev pub max_id_length : ℕ
max_id_length = 64

abbrev pub or_blank : Option String → String
or_blank none = ""
or_blank (some s) = s

-- `strip` is `str.strip`.
module _ (strip : String → String) where
  unfoldable pub get_current_user : Option String → Result String
  get_current_user header =
      let user_id = strip (or_blank header) in
      if len user_id == 0
      then raised (http_exception 401 "X-User-ID header is required")
      else (if ltb max_id_length (len user_id)
          then raised (http_exception 401 "X-User-ID doesn't follow supported format")
          else ok user_id)

  -- `CLOSE_INVALID_USER` is 1008.
  unfoldable pub get_ws_user : Option String → Result String
  get_ws_user query =
      let resolved = strip (or_blank query) in
      if len resolved == 0
      then raised (websocket_exception 1008 "user_id query parameter is incorrect")
      else (if ltb max_id_length (len resolved)
          then raised (websocket_exception 1008 "user_id query parameter is incorrect")
          else ok resolved)

abbrev pub ws_disconnect_type : String
ws_disconnect_type = "websocket.disconnect"

abbrev pub is_websocket_disconnect : Exn → Bool
is_websocket_disconnect websocket_disconnect = true
is_websocket_disconnect _ = false

-- A websocket: its calls give the event loop to the other tasks, so they change the whole hub.
-- `receive` returns the type of the message.
pub record Websocket (W : Type 0) : Type 0 where
  pub accept : Exec (Hub W) (Unit {0})
  pub receive : Exec (Hub W) String

-- `Connection(websocket, user_id)`, as the object `i`
unfoldable pub connect : {W : Type 0} → ℕ → ℕ → String → Hub W → Hub W
unfolding new_connection assign
connect i queue_size user_id s = record s {
  objects = assign s.objects i (new_connection queue_size user_id);
}

module _ {W : Type 0} (pubsub : PubSub W) (websocket : Websocket W) where
  open websocket use {accept, receive}

  -- The loop, in a handler that the server cancels at the receive after the first `n`.
  unfoldable pub receive_until : ℕ → Exec (Hub W) (Unit {0})
  unfolding pure raise ◌>>=◌
  receive_until zero = raise cancelled_error
  receive_until (suc n) = do
    message_type ← receive
    ite (message_type ≟ ws_disconnect_type) (pure tt) (receive_until n)

  -- The `try` statement; an exception of `detach` takes the place of the one before.
  unfoldable pub serve : ℕ → ℕ → Exec (Hub W) (Unit {0})
  unfolding pure lift try_except receive_until detach ◌>>=◌
  serve n i s =
      let (r, s') = try_except (receive_until n) is_websocket_disconnect (λ e. pure tt) s in
      (detach pubsub i >> lift r) s'

  unfoldable pub stream_updates : ℕ → ℕ → ℕ → String → Exec (Hub W) (Unit {0})
  unfolding modify connect attach serve ◌>>=◌
  stream_updates n i queue_size user_id = do
    accept
    modify (connect i queue_size user_id)
    attach pubsub i
    serve n i
