-- ===== src/Connection/Bounds.antt =====
-- `send` never raises and never fills the queue over its bound.
use geo_device.Prelude.{
  ℕ, ◌+◌, ◌≤◌, ◌<◌, ◌≡◌, refl, ◌⊎◌, inl, inr, Bool-cases, Bool, true, false, some, List, [], ◌∷◌,
  ◌++◌, String, length, length-append, arith, if◌then◌else◌,
}
use geo_device.Connection.Queue.{full}
use geo_device.Connection.{Connection, send}

-- Its queue holds no more than its bound.
abbrev pub IsBounded : Connection → Type 0
IsBounded c =
    (c.message_queue.maxsize ≡ 0) ⊎ (length c.message_queue.items ≤ c.message_queue.maxsize)

abbrev pub tail : List String → List String
tail [] = []
tail (m ∷ rest) = rest

-- What a call of `send` leaves behind, with no exception in it.
unfoldable pub sent : Connection → String → Bool → Connection
unfolding full
sent c message priority =
    if full queue
    then record c {
      message_queue =
          if priority then record queue { items = tail queue.items ++ message ∷ [] } else queue;
      dropped_messages = c.dropped_messages + 1;
    }
    else record c { message_queue = record queue { items = queue.items ++ message ∷ [] } }
  where
    open c use {message_queue as queue}

length-tail : (xs : List String) (n : ℕ) → 0 < n → length xs ≤ n → length (tail xs) < n
length-tail [] n h k = omega arith
length-tail (x ∷ xs) n h k = omega arith

send_full :
    (c : Connection) (message : String) (priority : Bool) (items : List String)
    → c.message_queue.items ≡ items
    → IsBounded c
    → send c message priority ≡ some (sent c message priority)
unfolding send sent
send_full c message priority [] e h = ground arith
send_full c message priority (m ∷ rest) e h = ground arith

pub send-sent :
    (c : Connection) (message : String) (priority : Bool)
    → IsBounded c
    → send c message priority ≡ some (sent c message priority)
send-sent c message priority h = send_full c message priority c.message_queue.items refl h

pub sent-IsBounded :
    (c : Connection) (message : String) (priority : Bool)
    → IsBounded c
    → IsBounded (sent c message priority)
unfolding sent
sent-IsBounded c message priority h =
    let q = c.message_queue in
    ground (
      arith,
      length-append (tail q.items) (message ∷ []),
      length-append q.items (message ∷ []),
      length-tail q.items q.maxsize,
    )

module _ (c : Connection) (message : String) where
  open c use {message_queue as queue}

  -- The three outcomes of `send`: the oldest message evicted, the new one dropped, or room for it.
  abbrev pub evicting : Connection
  evicting = record c {
    message_queue = record queue { items = tail queue.items ++ message ∷ [] };
    dropped_messages = c.dropped_messages + 1;
  }

  abbrev pub dropping : Connection
  dropping = record c { dropped_messages = c.dropped_messages + 1 }

  abbrev pub queueing : Connection
  queueing = record c { message_queue = record queue { items = queue.items ++ message ∷ [] } }

pub sent_cases {ℓ} :
    (P : Connection → Type ℓ) (c : Connection) (message : String) (priority : Bool)
    → (full c.message_queue ≡ true → P (evicting c message))
    → (priority ≡ false → P (dropping c message))
    → (full c.message_queue ≡ false → P (queueing c message))
    → P (sent c message priority)
unfolding sent
sent_cases P c message true evict drop room = elim (Bool-cases (full c.message_queue)) [
  | inl e ↦ rw (e, sent) (evict e)
  | inr e ↦ rw (e, sent) (room e)
]
sent_cases P c message false evict drop room = elim (Bool-cases (full c.message_queue)) [
  | inl e ↦ rw (e, sent) (drop refl)
  | inr e ↦ rw (e, sent) (room e)
]
