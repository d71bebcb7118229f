-- ===== src/Routes/Serving.antt =====
-- What a handler of a websocket leaves behind.
use geo_device.Prelude.{
  ℕ, zero, suc, ◌≡◌, ◌⊎◌, inl, inr, refl, ◌∙◌, arith, Bool, Bool-cases, false, String, ite, ◌≟◌,
  string_key,
}
use geo_device.Connection.{new_connection}
use geo_device.Subscriber.Life.{attach-IsValid, attach-user_id}
use geo_device.Errors.{Exn}
use geo_device.Exec.{Exec, Result, ok, raised, pure, raise, lift, try_except, ◌>>=◌, ◌>>◌}
use geo_device.Realtime.{alert_channel}
use geo_device.Registry.{discard, assign}
use geo_device.Registry.Users.{holds, holds-discard}
use geo_device.Registry.Valid.{IsValid}
use geo_device.Subscriber.{PubSub, Hub, attach, detach, on_world}
use geo_device.Routes.{
  Websocket, receive_until, serve, connect, stream_updates, is_websocket_disconnect,
  ws_disconnect_type,
}

ite_cases : {P A : Type 0} (Q : A → Type 0) (d : Dec P) {a b : A} → Q a → Q b → Q (ite d a b)
ite_cases Q (yes p) x y = x
ite_cases Q (no n) x y = y

module _ {S A : Type 0} where
  except_state :
      (m : Exec S A) (caught : Exn → Bool) (a : A) (s : S)
      → (try_except m caught (λ e. pure a) s).1 ≡ (m s).1
  unfolding try_except pure
  except_state m caught a s = handled (m s).0 refl
    where
      handled : (r : Result A) → (m s).0 ≡ r → (try_except m caught (λ e. pure a) s).1 ≡ (m s).1
      handled (ok b) e = rw (e, try_except) refl
      handled (raised x) e = elim (Bool-cases (caught x)) [
        | inl c ↦ rw (e, c, try_except) refl
        | inr c ↦ rw (e, c, try_except) refl
      ]

  lift_state :
      {B : Type 0} (m : Exec S B) (r : Result A) (s : S) (q : Result B)
      → (m s).0 ≡ q
      → ((m >> lift r) s).1 ≡ (m s).1
  unfolding ◌>>=◌ lift
  lift_state m r s (ok b) e = rw (e, ◌>>=◌) refl
  lift_state m r s (raised x) e = rw (e, ◌>>=◌) refl

module _ {W : Type 0} (pubsub : PubSub W) (websocket : Websocket W) where
  open pubsub use {unsubscribe}
  open websocket use {accept, receive}

  -- Whatever becomes of the call of redis, a detachment takes the connection out.
  detach-connections :
      (i : ℕ) (s : Hub W) (r : Result (Unit {0}))
      → (unsubscribe (alert_channel (s.objects i).user_id) s.world).0 ≡ r
      → (detach pubsub i s).1.connections ≡ (discard s.connections (s.objects i).user_id i).0
  unfolding detach on_world
  detach-connections i s (ok t) e =
      elim (Bool-cases (discard s.connections (s.objects i).user_id i).1) [
        | inl b ↦ rw (b, e, detach) refl
        | inr b ↦ rw (b, detach) refl
      ]
  detach-connections i s (raised x) e =
      elim (Bool-cases (discard s.connections (s.objects i).user_id i).1) [
        | inl b ↦ rw (b, e, detach) refl
        | inr b ↦ rw (b, detach) refl
      ]

  -- While the handler waits for a message, other tasks may do anything that keeps the registry
  -- valid and leaves the object its user.
  abbrev pub Waits : ℕ → String → Type 0
  Waits i user_id =
      (s : Hub W)
      → IsValid s.objects s.connections
      → (s.objects i).user_id ≡ user_id
      → IsValid (receive s).1.objects (receive s).1.connections
        × (((receive s).1.objects i).user_id ≡ user_id)

  module _ (i : ℕ) (user_id : String) (waits : Waits i user_id) where
    abbrev Kept : Hub W → Type 0
    Kept s = IsValid s.objects s.connections × ((s.objects i).user_id ≡ user_id)

    receive_until-Kept :
        (n : ℕ) (s : Hub W) (read : Result String)
        → (receive s).0 ≡ read
        → Kept s
        → Kept (receive_until pubsub websocket n s).1
    unfolding receive_until ◌>>=◌ pure raise
    receive_until-Kept zero s read e k = k
    receive_until-Kept (suc n) s (raised x) e k = rw (e, receive_until) (waits s k.0 k.1)
    receive_until-Kept (suc n) s (ok message_type) e k =
        let next = waits s k.0 k.1 in
        rw (e, receive_until)
          (ite_cases (λ (m : Exec (Hub W) (Unit {0})). Kept (m (receive s).1).1)
            (message_type ≟ ws_disconnect_type) next
            (receive_until-Kept n (receive s).1 _ refl next))

    discard-released :
        (s : Hub W) → Kept s → holds (detach pubsub i s).1.connections user_id i ≡ false
    discard-released s k =
        rw (detach-connections i s _ refl, k.1)
          (ground (arith, holds-discard s.objects s.connections user_id user_id i i k.0))

    serve-released :
        (n : ℕ) (s : Hub W)
        → Kept s
        → holds (serve pubsub websocket n i s).1.connections user_id i ≡ false
    unfolding serve
    serve-released n s k =
        let stop = receive_until pubsub websocket n in
        let (r, t) = try_except stop is_websocket_disconnect (λ e. pure tt) s in
        rw (lift_state (detach pubsub i) r t _ refl, except_state stop is_websocket_disconnect tt s)
          (discard-released (stop s).1 (receive_until-Kept n s _ refl k))

    attached-released :
        (n queue_size : ℕ) (s : Hub W) (accepted attached : Result (Unit {0}))
        → IsValid (connect i queue_size user_id (accept s).1).objects (accept s).1.connections
        → holds (accept s).1.connections user_id i ≡ false
        → (accept s).0 ≡ accepted
        → (attach pubsub i (connect i queue_size user_id (accept s).1)).0 ≡ attached
        → (holds (stream_updates pubsub websocket n i queue_size user_id s).1.connections user_id i
            ≡ false)
          ⊎ ((e : Exn) × ((attach pubsub i (connect i queue_size user_id (accept s).1)).0
                ≡ raised e))
    unfolding stream_updates connect new_connection assign
    attached-released n queue_size s (raised e) attached v fresh x y =
        inl (rw (x, stream_updates) fresh)
    attached-released n queue_size s (ok t) (raised e) v fresh x y = inr (e, y)
    attached-released n queue_size s (ok t) (ok u) v fresh x y =
        let new = connect i queue_size user_id (accept s).1 in
        inl (
          rw (x, y, stream_updates)
            (serve-released n (attach pubsub i new).1
              (attach-IsValid pubsub i new v, attach-user_id pubsub i new ∙ (ground arith))))

    -- While other tasks keep the registry valid and the object its user's: however the handler
    -- ends, by a disconnect message, an exception of the websocket or a cancellation, and whatever
    -- redis answers, the connection is not registered then, unless the attachment itself raised.
    pub stream_updates-released :
        (n queue_size : ℕ) (s : Hub W)
        → IsValid (connect i queue_size user_id (accept s).1).objects (accept s).1.connections
        → holds (accept s).1.connections user_id i ≡ false
        → (holds (stream_updates pubsub websocket n i queue_size user_id s).1.connections user_id i
            ≡ false)
          ⊎ ((e : Exn) × ((attach pubsub i (connect i queue_size user_id (accept s).1)).0
                ≡ raised e))
    stream_updates-released n queue_size s v fresh =
        attached-released n queue_size s _ _ v fresh refl refl
