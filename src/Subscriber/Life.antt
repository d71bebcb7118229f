-- ===== src/Subscriber/Life.antt =====
-- The life of a subscriber: connections come, are attached, send, and are detached, between the
-- rounds of the loop. Each of these is one step, to its end: what other tasks do while an attachment,
-- a detachment or a round awaits redis is not part of the relation, nor is a step that raises.
use geo_device.Prelude.{
  ℕ, ◌≡◌, ◌≢◌, refl, inl, inr, arith, Bool, Bool-cases, false, ◌⊎◌, sym, Option, List, [], ◌∷◌,
  String, In, flat, subst,
}
use geo_device.Dict
use geo_device.Connection
use geo_device.Connection.{Connection, SendError, Session, new_connection, send_queued}
use geo_device.Connection.Bounds.{IsBounded}
use geo_device.Connection.Fifo.{pump-Moves}
use geo_device.Errors.{Exn}
use geo_device.Exec.{Result, ok, raised}
use geo_device.Realtime.{alert_channel}
use geo_device.Registry.{Objects, Connections, add, discard, assign}
use geo_device.Registry.Delivery.{AllBounded}
use geo_device.Registry.Valid.{IsValid, add-IsValid, discard-IsValid}
use geo_device.Subscriber.{PubSub, Hub, attach, detach, round, on_world}
use geo_device.Subscriber.Channels.{IsPubSub, attach-IsMirrored, detach-IsMirrored}
use geo_device.Subscriber.Rounds.{IsReader, IsSound, Recovered, IsValid-of_users, round-IsSound}

-- A connection with a websocket that has been sent nothing yet.
abbrev session : Connection → Session
session c = record { connection = c; texts = []; closed = false }

-- The registry has no user's connection `i`.
abbrev pub IsNew : ℕ → Connections → Type 0
IsNew i d = ¬ In i (flat (Dict.values d))

module _ {W : Type 0} (pubsub : PubSub W) (subscribed : W → String → Bool) where
  pub data Step : Hub W → Hub W → Type 0 where
    -- a websocket is accepted: a new object, which nobody has yet
    arrives :
        (i queue_size : ℕ) (user_id : String) (s : Hub W)
        → IsNew i s.connections
        → Step s (record s { objects = assign s.objects i (new_connection queue_size user_id) })
    attaches : (i : ℕ) (s : Hub W) → (attach pubsub i s).0 ≡ ok tt → Step s (attach pubsub i s).1
    detaches : (i : ℕ) (s : Hub W) → (detach pubsub i s).0 ≡ ok tt → Step s (detach pubsub i s).1
    -- the sender task of a connection hands one message to the websocket, which may raise
    pumps :
        (i : ℕ) (outcome : Option SendError) (s : Hub W)
        → Step s (record s {
          objects = assign s.objects i (send_queued (session (s.objects i)) outcome).connection;
        })
    -- a round of the loop, in which a read that failed was followed by a new subscription
    reads :
        (s : Hub W)
        → Recovered pubsub subscribed s
        → (round pubsub s).0 ≡ ok tt
        → Step s (round pubsub s).1

  pub data Steps : Hub W → Hub W → Type 0 where
    still : (s : Hub W) → Steps s s
    more : (s t u : Hub W) → Step s t → Steps t u → Steps s u

-- An object that no user has, or one of the same user, may be replaced.
assign-IsValid :
    (objects : Objects) (d : Connections) (i : ℕ) (c : Connection)
    → ¬ In i (flat (Dict.values d)) ⊎ (c.user_id ≡ (objects i).user_id)
    → IsValid objects d
    → IsValid (assign objects i c) d
unfolding assign
assign-IsValid objects d i c (inl new) v =
    IsValid-of_users objects _ d
      (λ j m.
        let n : i ≢ j = λ e. new (subst (λ k. In k (flat (Dict.values d))) (sym e) m) in
        ground arith)
      v
assign-IsValid objects d i c (inr same) v = IsValid-of_users objects _ d (λ j m. ground arith) v

assign-AllBounded :
    (objects : Objects) (i : ℕ) (c : Connection)
    → IsBounded c
    → AllBounded objects
    → AllBounded (assign objects i c)
unfolding assign
assign-AllBounded objects i c b all j = ground (arith, all j)

assign-user_id :
    (objects : Objects) (i : ℕ) (c : Connection)
    → c.user_id ≡ (objects i).user_id
    → (assign objects i c i).user_id ≡ (objects i).user_id
unfolding assign
assign-user_id objects i c e = ground arith

raised_ne : (e : Exn) → raised e ≢ ok tt
raised_ne e p = cc

start-keeps :
    (c : Connection)
    → ((Connection.start c).user_id ≡ c.user_id)
      × ((Connection.start c).message_queue ≡ c.message_queue)
unfolding Connection.start
start-keeps c = (refl, refl)

close-keeps :
    (c : Connection)
    → ((Connection.close c).0.user_id ≡ c.user_id)
      × ((Connection.close c).0.message_queue ≡ c.message_queue)
unfolding Connection.close
close-keeps c = ground arith

pump-user_id :
    (c : Connection) (outcome : Option SendError) (items : List String)
    → c.message_queue.items ≡ items
    → (send_queued (session c) outcome).connection.user_id ≡ c.user_id
unfolding send_queued
pump-user_id c outcome [] e = ground arith
pump-user_id c outcome (m ∷ items) e = ground arith

module _ {W : Type 0} (pubsub : PubSub W) (i : ℕ) (s : Hub W) where
  open pubsub use {unsubscribe}
  open s use {objects, connections}

  attach-parts :
      ((attach pubsub i s).1.objects ≡ assign objects i (Connection.start (objects i)))
      × ((attach pubsub i s).1.connections ≡ (add connections (objects i).user_id i).0)
  unfolding attach on_world
  attach-parts = elim (Bool-cases (add connections (objects i).user_id i).1) [
    | inl e ↦ rw (e, attach) (refl, refl)
    | inr e ↦ rw (e, attach) (refl, refl)
  ]

  -- The registry stays valid, and the object its user's, if the call of redis raises too.
  pub attach-IsValid :
      IsValid objects connections
      → IsValid (attach pubsub i s).1.objects (attach pubsub i s).1.connections
  attach-IsValid v =
      rw (attach-parts.0, attach-parts.1)
        (add-IsValid _ (objects i).user_id connections i
          (assign-IsValid objects connections i _ (inr (start-keeps (objects i)).0) v)
          (assign-user_id objects i _ (start-keeps (objects i)).0))

  pub attach-user_id : ((attach pubsub i s).1.objects i).user_id ≡ (objects i).user_id
  attach-user_id = rw attach-parts.0 (assign-user_id objects i _ (start-keeps (objects i)).0)

  detach-parts_at :
      (r : Result (Unit {0}))
      → (unsubscribe (alert_channel (objects i).user_id) s.world).0 ≡ r
      → (detach pubsub i s).0 ≡ ok tt
      → ((detach pubsub i s).1.objects ≡ assign objects i (Connection.close (objects i)).0)
        × ((detach pubsub i s).1.connections ≡ (discard connections (objects i).user_id i).0)
  unfolding detach on_world
  detach-parts_at (ok t) e h = elim (Bool-cases (discard connections (objects i).user_id i).1) [
    | inl b ↦ rw (b, e, detach) (refl, refl)
    | inr b ↦ rw (b, detach) (refl, refl)
  ]
  detach-parts_at (raised x) e h = elim (Bool-cases (discard connections (objects i).user_id i).1) [
    | inl b ↦ absurd (raised_ne x (rw (b, e, detach) at h))
    | inr b ↦ rw (b, detach) (refl, refl)
  ]

  module _ (subscribed : W → String → Bool) (g : IsSound pubsub subscribed s) where
    attach-IsSound :
        IsPubSub pubsub subscribed
        → (attach pubsub i s).0 ≡ ok tt
        → IsSound pubsub subscribed (attach pubsub i s).1
    attach-IsSound laws done = record {
      valid = attach-IsValid g.valid;
      bounded =
          rw attach-parts.0 (
            assign-AllBounded objects i _ (rw (start-keeps (objects i)).1 (g.bounded i)) g.bounded);
      mirrored = attach-IsMirrored pubsub subscribed i s laws g.mirrored done;
    }

    detach-IsSound :
        IsPubSub pubsub subscribed
        → (detach pubsub i s).0 ≡ ok tt
        → IsSound pubsub subscribed (detach pubsub i s).1
    detach-IsSound laws done =
        let parts = detach-parts_at _ refl done in
        record {
          valid =
              rw (parts.0, parts.1)
                (discard-IsValid _ (objects i).user_id connections i (
                  assign-IsValid objects connections i _ (inr (close-keeps (objects i)).0)
                    g.valid));
          bounded = rw parts.0 (
              assign-AllBounded objects i _ (rw (close-keeps (objects i)).1 (g.bounded i))
                g.bounded);
          mirrored = detach-IsMirrored pubsub subscribed i s laws g.valid g.mirrored done;
        }

module _ {W : Type 0} (pubsub : PubSub W) (subscribed : W → String → Bool) where
  Step-IsSound :
      (s t : Hub W)
      → IsPubSub pubsub subscribed
      → IsReader pubsub subscribed
      → Step pubsub subscribed s t
      → IsSound pubsub subscribed s
      → IsSound pubsub subscribed t
  unfolding new_connection
  Step-IsSound s t laws reader (arrives i queue_size user_id _ new) g = record {
    valid = assign-IsValid s.objects s.connections i _ (inl new) g.valid;
    bounded = assign-AllBounded s.objects i _ (inr (omega arith)) g.bounded;
    mirrored = g.mirrored;
  }
  Step-IsSound s t laws reader (attaches i _ done) g =
      attach-IsSound pubsub i s subscribed g laws done
  Step-IsSound s t laws reader (detaches i _ done) g =
      detach-IsSound pubsub i s subscribed g laws done
  Step-IsSound s t laws reader (pumps i outcome _) g = record {
    valid =
        assign-IsValid s.objects s.connections i _ (inr (pump-user_id (s.objects i) outcome _ refl))
          g.valid;
    bounded =
        assign-AllBounded s.objects i _
          (pump-Moves (session (s.objects i)) outcome (g.bounded i)).bounded g.bounded;
    mirrored = g.mirrored;
  }
  Step-IsSound s t laws reader (reads _ recovered done) g =
      round-IsSound pubsub subscribed s laws reader g recovered done

  -- Under the documented behaviour of redis: along any sequence of steps, in any order but each to
  -- its end before the next, of arrivals, attachments and detachments that return, messages handed
  -- to websockets, and rounds of the loop that return and in which a subscription that follows a
  -- failed read succeeds: the registry stays valid, the queues stay within their bounds, and the
  -- alert channels that are subscribed stay those of the users of the registry.
  pub Steps-IsSound :
      (s t : Hub W)
      → IsPubSub pubsub subscribed
      → IsReader pubsub subscribed
      → Steps pubsub subscribed s t
      → IsSound pubsub subscribed s
      → IsSound pubsub subscribed t
  Steps-IsSound s t laws reader (still _) g = g
  Steps-IsSound s t laws reader (more _ mid _ step steps) g =
      Steps-IsSound mid t laws reader steps (Step-IsSound s mid laws reader step g)
