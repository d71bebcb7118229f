-- ===== src/Subscriber.antt =====
-- `Subscriber` of app/realtime/subscriber.py, over a pubsub of redis and the registry.
pub mod Channels
pub mod Recovery
pub mod Dispatch
pub mod Rounds
pub mod Life
pub mod Failed
mod Tests
use Prim.Native.String.{len, slice}
use text.Mathlib.Text.{starts_with}
use geo_device.Prelude.{
  ℕ, zero, suc, Bool, true, false, Option, none, some, List, [], ◌∷◌, map, String, ite, ◌≟◌,
  string_key, String_discrete, if◌then◌else◌,
}
use geo_device.Connection
use geo_device.Constants.{Bytes}
use geo_device.Errors.{Exn, redis_errors, queue_full}
use geo_device.Exec.{Exec, ok, raised, pure, raise, gets, modify, try_except, ◌>>=◌, ◌>>◌}
use geo_device.Pacing
use geo_device.Pacing.{Backoff}
use geo_device.Realtime.{alert_channel, alert_channel_prefix, position_channel}
use geo_device.Registry
use geo_device.Registry.{Objects, Connections, assign, users}

-- A message, its channel and data decoded.
pub record Message : Type 0 where
  pub channel : String
  pub payload : String

-- The pubsub of the redis client.
pub record PubSub (W : Type 0) : Type 0 where
  pub subscribe : List String → Exec W (Unit {0})
  pub unsubscribe : String → Exec W (Unit {0})
  pub get_message : Exec W (Option Message)
  pub sleep : ℕ → Exec W (Unit {0})
  pub aclose : Exec W (Unit {0})

-- The subscriber, the connection objects, and the world; `reading`: `_task` is not `None`.
pub record Hub (W : Type 0) : Type 0 where
  pub connections : Connections
  pub objects : Objects
  pub backoff : Backoff
  pub reading : Bool
  pub world : W

unfoldable pub on_world : {W A : Type 0} → Exec W A → Exec (Hub W) A
on_world m s = let (r, w) = m s.world in (r, record s { world = w })

-- `payload.removeprefix(…)`
unfoldable pub remove_prefix : String → String → String
remove_prefix s prefix = if starts_with s prefix then slice s (len prefix) (len s) else s

module _ {W : Type 0} (pubsub : PubSub W) where
  open pubsub use {subscribe, unsubscribe, get_message, aclose}

  -- Cancelling the task that reads and waiting for it do not raise.
  unfoldable pub start : Exec (Hub W) (Unit {0})
  unfolding on_world modify ◌>>=◌
  start = on_world (subscribe (position_channel ∷ [])) >> modify (λ s. record s { reading = true })

  unfoldable pub stop : Exec (Hub W) (Unit {0})
  unfolding on_world modify ◌>>=◌
  stop = modify (λ s. record s { reading = false }) >> on_world aclose

  -- The object `i` is the connection.
  unfoldable pub attach : ℕ → Exec (Hub W) (Unit {0})
  unfolding on_world pure Connection.start assign Registry.add alert_channel
  attach i s =
      let c = Connection.start (s.objects i) in
      let (connections, is_first) = Registry.add s.connections c.user_id i in
      let s' = record s { objects = assign s.objects i c; connections = connections } in
      if is_first then on_world (subscribe (alert_channel c.user_id ∷ [])) s' else (ok tt, s')

  close_object : ℕ → Hub W → Hub W
  unfolding Connection.close assign
  close_object i s = record s { objects = assign s.objects i (Connection.close (s.objects i)).0 }

  -- `close` is reached unless `unsubscribe` raises.
  unfoldable pub detach : ℕ → Exec (Hub W) (Unit {0})
  unfolding on_world pure modify close_object Registry.discard alert_channel ◌>>=◌
  detach i s =
      let user_id = (s.objects i).user_id in
      let (connections, is_last) = Registry.discard s.connections user_id i in
      let s' = record s { connections = connections } in
      ((if is_last then on_world (unsubscribe (alert_channel user_id)) else pure tt)
          >> modify (close_object i))
        s'

  unfoldable pub resubscribe : Exec (Hub W) (Unit {0})
  unfolding on_world pure try_except alert_channel users
  resubscribe s =
      try_except (on_world (subscribe (position_channel ∷ map alert_channel (users s.connections))))
        redis_errors (λ e. pure tt) s

-- What a delivery of the registry leaves; `none`: a `QueueFull` escaped.
abbrev delivered : {W : Type 0} → Option Objects → Exec (Hub W) (Unit {0})
delivered none s = (raised queue_full, s)
delivered (some objects) s = (ok tt, record s { objects = objects })

unfoldable pub dispatch : {W : Type 0} → Message → Exec (Hub W) (Unit {0})
unfolding remove_prefix Registry.broadcast Registry.send_to_user
dispatch message s =
    ite (message.channel ≟ position_channel)
      (delivered (Registry.broadcast s.connections s.objects message.payload false) s)
      (delivered
        (Registry.send_to_user s.connections s.objects
          (remove_prefix message.channel alert_channel_prefix) message.payload true)
        s)

abbrev dispatch_some : {W : Type 0} → Option Message → Exec (Hub W) (Unit {0})
dispatch_some none = pure tt
dispatch_some (some message) = dispatch message

module _ {W : Type 0} (pubsub : PubSub W) where
  open pubsub use {get_message, sleep}

  -- `self._backoff.sleep()`: the delay is set before the wait
  unfoldable pub back_off : Exec (Hub W) (Unit {0})
  unfolding on_world Pacing.sleep
  back_off s =
      let (backoff, delay) = Pacing.sleep s.backoff in
      on_world (sleep delay) (record s { backoff = backoff })

  -- The message of one round, with the back-off reset.
  unfoldable pub next_message : Exec (Hub W) (Option Message)
  unfolding on_world pure modify Pacing.reset ◌>>=◌
  next_message = do
    message ← on_world get_message
    modify (λ s. record s { backoff = Pacing.reset s.backoff })
    pure message

  -- One round of `_run`: an error of redis ends it, after a wait, with new subscriptions.
  unfoldable pub round : Exec (Hub W) (Unit {0})
  unfolding next_message back_off resubscribe dispatch pure try_except ◌>>=◌
  round = do
    message ←
        try_except next_message redis_errors (λ e. (back_off >> resubscribe pubsub) >> pure none)
    dispatch_some message

  -- The first `n` rounds of `_run`.
  unfoldable pub rounds : ℕ → Exec (Hub W) (Unit {0})
  unfolding round pure ◌>>=◌
  rounds zero = pure tt
  rounds (suc n) = round >> rounds n
