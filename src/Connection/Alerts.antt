-- ===== src/Connection/Alerts.antt =====
-- How long an alert, a message sent with priority, stays in the queue of a connection.
use geo_device.Prelude.{
  ℕ, zero, suc, ◌+◌, ◌-◌, ◌≤◌, ◌<◌, ◌≡◌, refl, Bool, true, false, Option, none, some, List, [], ◌∷◌,
  ◌++◌, append_assoc, String, length, length-append, arith, inl, In, In-append_right,
}
use geo_device.Connection.Queue.{MessageQueue, full}
use geo_device.Connection.{Connection, send}
use geo_device.Connection.Bounds.{
  IsBounded, tail, sent, send-sent, sent-IsBounded, sent_cases, evicting,
}

-- Several calls of `send`; `none`: a `QueueFull` escaped.
unfoldable pub send_all : Connection → List (String × Bool) → Option Connection
send_all c [] = some c
send_all c ((message, priority) ∷ rest) = elim (send c message priority) [
  | none ↦ none
  | some d ↦ send_all d rest
]

-- `m` waits in the queue, and `n` more messages cannot push it out.
record Safe (m : String) (n : ℕ) (c : Connection) : Type 0 where
  before : List String
  behind : List String
  placed : c.message_queue.items ≡ before ++ m ∷ behind
  slack : n ≤ length before + (c.message_queue.maxsize - length c.message_queue.items)

full-le : (q : MessageQueue) → full q ≡ true → (q.maxsize ≤ length q.items) × (0 < q.maxsize)
unfolding full
full-le q h = ground arith

room-lt : (q : MessageQueue) → full q ≡ false → 0 < q.maxsize → length q.items < q.maxsize
unfolding full
room-lt q h k = ground arith

evicting-Safe :
    (m : String) (n : ℕ) (c : Connection) (message : String) (before behind : List String)
    → c.message_queue.items ≡ before ++ m ∷ behind
    → suc n ≤ length before
    → c.message_queue.maxsize ≤ length c.message_queue.items
    → Safe m n (evicting c message)
evicting-Safe m n c message [] behind e h k = absurd (omega arith)
evicting-Safe m n c message (x ∷ before) behind e h k = record {
  before = before;
  behind = behind ++ message ∷ [];
  placed = rw e (append_assoc before (m ∷ behind) (message ∷ []));
  slack = omega arith;
}

sent-Safe :
    (m : String) (n : ℕ) (c : Connection) (message : String) (priority : Bool)
    → 0 < c.message_queue.maxsize
    → Safe m (suc n) c
    → Safe m n (sent c message priority)
sent-Safe m n c message priority pos s =
    sent_cases (Safe m n) c message priority
      (λ f.
        let (le, _) = full-le q f in
        evicting-Safe m n c message s.before s.behind s.placed (omega (arith, s.slack)) le)
      (λ e. record {
        before = s.before;
        behind = s.behind;
        placed = s.placed;
        slack = omega (arith, s.slack);
      })
      (λ f. record {
        before = s.before;
        behind = s.behind ++ message ∷ [];
        placed = rw s.placed (append_assoc s.before (m ∷ s.behind) (message ∷ []));
        slack = omega (arith, s.slack, room-lt q f pos, length-append q.items (message ∷ []));
      })
  where
    open c use {message_queue as q}

maxsize-sent :
    (c : Connection) (message : String) (priority : Bool)
    → (sent c message priority).message_queue.maxsize ≡ c.message_queue.maxsize
maxsize-sent c message priority =
    sent_cases (λ d. d.message_queue.maxsize ≡ c.message_queue.maxsize) c message priority
      (λ _. refl) (λ _. refl) (λ _. refl)

length-tail : (xs : List String) → 0 < length xs → length (tail xs) + 1 ≡ length xs
length-tail [] h = omega arith
length-tail (x ∷ xs) h = omega arith

first-Safe :
    (c : Connection) (m : String)
    → IsBounded c
    → 0 < c.message_queue.maxsize
    → Safe m (c.message_queue.maxsize - 1) (sent c m true)
first-Safe c m b pos =
    sent_cases (Safe m (q.maxsize - 1)) c m true
      (λ f. record {
        before = tail q.items;
        behind = [];
        placed = refl;
        slack =
            omega (arith, full-le q f, length-tail q.items, length-append (tail q.items) (m ∷ []));
      })
      (λ e. cc)
      (λ f. record {
        before = q.items;
        behind = [];
        placed = refl;
        slack = omega (arith, room-lt q f pos, length-append q.items (m ∷ []));
      })
  where
    open c use {message_queue as q}

send_all-Safe :
    (later : List (String × Bool)) (m : String) (n : ℕ) (c : Connection)
    → IsBounded c
    → 0 < c.message_queue.maxsize
    → length later ≤ n
    → Safe m n c
    → (d : Connection) × (send_all c later ≡ some d) × In m d.message_queue.items
unfolding send_all
send_all-Safe [] m n c b pos h s =
    (c, refl, rw s.placed (In-append_right m s.before (m ∷ s.behind) (inl refl)))
send_all-Safe (e ∷ later) m zero c b pos h s = absurd (omega arith)
send_all-Safe ((message, priority) ∷ later) m (suc n) c b pos h s =
    rw (send-sent c message priority b, send_all)
      (send_all-Safe later m n (sent c message priority) (sent-IsBounded c message priority b)
        (rw maxsize-sent pos) (omega arith) (sent-Safe m n c message priority pos s))

-- With a bounded queue, a message sent with priority is in the queue, and is still there after any
-- number of further messages below the bound, with priority or not, as long as the sender task
-- takes none out. None of the calls raises.
pub send_all-In :
    (c : Connection) (m : String) (later : List (String × Bool))
    → IsBounded c
    → length later < c.message_queue.maxsize
    → (d : Connection) × (send_all c ((m, true) ∷ later) ≡ some d) × In m d.message_queue.items
unfolding send_all
send_all-In c m later b h =
    let pos : 0 < c.message_queue.maxsize = omega arith in
    rw (send-sent c m true b, send_all)
      (send_all-Safe later m _ (sent c m true) (sent-IsBounded c m true b) (rw maxsize-sent pos)
        (omega arith) (first-Safe c m b pos))
