-- ===== src/Subscriber/Dispatch.antt =====
-- Whom the messages of the channels reach.
use geo_device.Prelude.{
  ℕ, ◌≡◌, refl, arith, Bool, true, false, String, if_pos, if_neg, ◌≟◌, string_key,
}
use geo_device.Connection.Bounds.{sent, sent-IsBounded}
use geo_device.Connection.{Connection}
use geo_device.Exec.{ok}
use geo_device.Realtime.{alert_channel, alert_channel_prefix, position_channel}
use geo_device.Registry.{Objects}
use geo_device.Registry.Delivery.{
  AllBounded, delivered, broadcast-delivered, send_to_user-delivered,
}
use geo_device.Registry.Users.{holds}
use geo_device.Registry.Valid.{IsValid}
use geo_device.Subscriber.{Message, Hub, dispatch, remove_prefix}
use geo_device.Subscriber.Channels.{remove_prefix-alert_channel}
use geo_device.Subscriber.Recovery.{alert_channel-apart}

sent-user_id :
    (c : Connection) (message : String) (priority : Bool)
    → (sent c message priority).user_id ≡ c.user_id
unfolding sent
sent-user_id c message priority = ground arith

module _ {W : Type 0} (s : Hub W) (payload : String) where
  -- Only the connections that the test picks were sent the payload; all else is as it was.
  pub record Reached (m : Message) (picked : ℕ → Bool) (priority : Bool) (out : Objects)
      : Type 0 where
    pub ran : dispatch m s ≡ (ok tt, record s { objects = out })
    pub each : (j : ℕ) → out j ≡ delivered s.objects picked payload priority j

  -- In a valid registry whose connections are within their bounds, a message on the alert channel
  -- of a user is sent once, with priority, to each connection that is registered for the user, and
  -- to no other; nothing raises.
  pub dispatch-alert :
      (u : String)
      → IsValid s.objects s.connections
      → AllBounded s.objects
      → (out : Objects) × Reached
          (record { channel = alert_channel u; payload = payload })
          (holds s.connections u)
          true
          out
  unfolding dispatch
  dispatch-alert u v b =
      let (out, ran, each) = send_to_user-delivered payload true s.connections s.objects u v b in
      (
        out,
        record {
          ran =
              rw (if_neg _ (alert_channel-apart u), remove_prefix-alert_channel u, ran, dispatch)
                refl;
          each = each;
        },
      )

  -- In a valid registry whose connections are within their bounds, a message on the channel of
  -- positions is sent once, without priority, to each connection that is registered, and to no
  -- other; nothing raises.
  pub dispatch-positions :
      IsValid s.objects s.connections
      → AllBounded s.objects
      → (out : Objects) × Reached
          (record { channel = position_channel; payload = payload })
          (λ i. holds s.connections (s.objects i).user_id i)
          false
          out
  unfolding dispatch
  dispatch-positions v b =
      let (out, ran, each) = broadcast-delivered payload false s.connections s.objects v b in
      (out, record { ran = rw (if_pos _ refl, ran, dispatch) refl; each = each })

  -- Every message reaches some connections, perhaps none.
  pub dispatch-other :
      (channel : String)
      → IsValid s.objects s.connections
      → AllBounded s.objects
      → (picked : ℕ → Bool) × (priority : Bool) × (out : Objects) × Reached
          (record { channel = channel; payload = payload })
          picked
          priority
          out
  unfolding dispatch
  dispatch-other channel v b = elim (channel ≟ position_channel) [
    | yes e ↦
        let (out, r) = dispatch-positions v b in
        (
          _,
          false,
          out,
          record { ran = rw (if_pos _ e) (rw (if_pos _ refl, dispatch) at r.ran); each = r.each },
        )
    | no n ↦
        let u = remove_prefix channel alert_channel_prefix in
        let (out, ran, each) = send_to_user-delivered payload true s.connections s.objects u v b in
        (
          holds s.connections u,
          true,
          out,
          record { ran = rw (if_neg _ n, ran, dispatch) refl; each = each },
        )
  ]

  module _ (m : Message) (picked : ℕ → Bool) (priority : Bool) (out : Objects) where
    pub Reached-AllBounded : Reached m picked priority out → AllBounded s.objects → AllBounded out
    Reached-AllBounded r b j =
        ground (arith, r.each j, b j, sent-IsBounded (s.objects j) payload priority (b j))

    pub Reached-user_id :
        Reached m picked priority out → (j : ℕ) → (out j).user_id ≡ (s.objects j).user_id
    Reached-user_id r j = ground (arith, r.each j, sent-user_id (s.objects j) payload priority)
