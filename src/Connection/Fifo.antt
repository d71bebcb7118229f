-- ===== src/Connection/Fifo.antt =====
-- A connection's life: calls of `send` and rounds of the sender task, in any order.
use mathlib.Core.List.{Sublist, sublist-append_left, sublist-cons_self}
use mathlib.Core.List.Sublist
use geo_device.Prelude.{
  ℕ, ◌+◌, ◌≡◌, refl, Bool, true, Option, none, some, List, [], ◌∷◌, ◌++◌, append_assoc, append-nil,
  String, length, length-append, arith,
}
use geo_device.Connection.Queue.{full}
use geo_device.Connection.{Session, SendError, send, send_queued}
use geo_device.Connection.Bounds.{IsBounded, tail, sent, send-sent, sent-IsBounded, sent_cases}

pub data Event : Type 0 where
  sends : String → Bool → Event
  pumps : Option SendError → Event

-- `none`: a `QueueFull` escaped from `send`
unfoldable pub step : Session → Event → Option Session
step s (sends message priority) = elim (send s.connection message priority) [
  | none ↦ none
  | some c ↦ some (record s { connection = c })
]
step s (pumps outcome) = some (send_queued s outcome)

unfoldable pub run : Session → List Event → Option Session
unfolding step
run s [] = some s
run s (e ∷ es) = elim (step s e) [ none ↦ none | some t ↦ run t es ]

-- The messages that the events pass to `send`.
abbrev pub offered : List Event → List String
offered [] = []
offered (sends message priority ∷ es) = message ∷ offered es
offered (pumps outcome ∷ es) = offered es

-- The messages that went out or still wait, oldest first.
abbrev pub kept : Session → List String
kept s = s.texts ++ s.connection.message_queue.items

-- One event takes `s` to `t`, having offered `new`.
pub record Moves (s t : Session) (new : List String) : Type 0 where
  pub bounded : IsBounded t.connection
  pub ordered : Sublist (kept t) (kept s ++ new)
  pub counted :
      length (kept t) + t.connection.dropped_messages
      ≡ length (kept s) + s.connection.dropped_messages + length new

abbrev after_send : Session → String → Bool → Session
after_send s message priority = record s { connection = sent s.connection message priority }

tail-kept :
    (texts items : List String) (m : String)
    → Sublist (texts ++ (tail items ++ m ∷ [])) ((texts ++ items) ++ m ∷ [])
tail-kept texts [] m = rw append-nil (Sublist.refl _)
tail-kept texts (x ∷ items) m =
    rw append_assoc (Sublist.append (Sublist.refl texts) (sublist-cons_self x (items ++ m ∷ [])))

length-kept-tail :
    (texts items : List String) (maxsize : ℕ) (m : String)
    → full (record { maxsize = maxsize; items = items }) ≡ true
    → length (texts ++ (tail items ++ m ∷ [])) ≡ length (texts ++ items)
unfolding full
length-kept-tail texts [] maxsize m f = ground arith
length-kept-tail texts (x ∷ items) maxsize m f = omega (arith, length-append {0})

send-Moves :
    (s : Session) (m : String) (priority : Bool)
    → IsBounded s.connection
    → Moves s (after_send s m priority) (m ∷ [])
send-Moves s m priority h = record {
  bounded = sent-IsBounded s.connection m priority h;
  ordered =
      sent_cases (λ c. Sublist (kept (record s { connection = c })) (kept s ++ m ∷ [])) s.connection
        m priority (λ f. tail-kept s.texts items m) (λ e. sublist-append_left (kept s) (m ∷ []))
        (λ f. rw append_assoc (Sublist.refl _));
  counted =
      sent_cases
        (λ c.
          length (kept (record s { connection = c })) + c.dropped_messages
          ≡ length (kept s) + s.connection.dropped_messages + 1)
        s.connection m priority
        (λ f. omega (arith, length-kept-tail s.texts items queue.maxsize m f)) (λ e. omega arith)
        (λ f. omega (arith, length-append {0}));
}
  where
    open s.connection use {message_queue as queue}
    open queue use {items}

-- A round of the sender task moves a message over, and changes neither what was kept nor a count.
pump_keeps :
    (s : Session) (outcome : Option SendError) (items : List String)
    → s.connection.message_queue.items ≡ items
    → IsBounded s.connection
    → (kept (send_queued s outcome) ≡ kept s)
      × ((send_queued s outcome).connection.dropped_messages ≡ s.connection.dropped_messages)
      × IsBounded (send_queued s outcome).connection
unfolding send_queued
pump_keeps s outcome [] e h = ground arith
pump_keeps s outcome (m ∷ items) e h = ground (arith, append_assoc s.texts (m ∷ []) items)

pub pump-Moves :
    (s : Session) (outcome : Option SendError)
    → IsBounded s.connection
    → Moves s (send_queued s outcome) []
pump-Moves s outcome h =
    let (same, dropped, bounded) = pump_keeps s outcome s.connection.message_queue.items refl h in
    record {
      bounded = bounded;
      ordered = rw (same, append-nil) (Sublist.refl (kept s));
      counted = rw (same, dropped) (omega arith);
    }

Moves-trans :
    {s t u : Session} (new more : List String)
    → Moves s t new
    → Moves t u more
    → Moves s u (new ++ more)
Moves-trans {s} {t} {u} new more p q = record {
  bounded = q.bounded;
  ordered =
      rw (← append_assoc) (Sublist.trans q.ordered (Sublist.append p.ordered (Sublist.refl more)));
  counted = omega (arith, length-append {0}, p.counted, q.counted);
}

-- From a connection within its bound no `QueueFull` escapes, whatever the calls and the outcomes of
-- the websocket. The queue stays within its bound; the texts handed to the websocket, followed by
-- those that still wait, are a subsequence of the messages in the order in which they were sent;
-- and each message sent is handed over, waits, or is counted as dropped.
pub run-Moves :
    (events : List Event) (s : Session)
    → IsBounded s.connection
    → (t : Session) × (run s events ≡ some t) × Moves s t (offered events)
unfolding run
run-Moves [] s h = (
  s,
  refl,
  record { bounded = h; ordered = rw append-nil (Sublist.refl _); counted = omega arith },
)
run-Moves (sends m priority ∷ events) s h =
    let first = send-Moves s m priority h in
    let (t, ran, moves) = run-Moves events (after_send s m priority) first.bounded in
    (t, rw (send-sent s.connection m priority h, run) ran, Moves-trans (m ∷ []) _ first moves)
run-Moves (pumps outcome ∷ events) s h =
    let first = pump-Moves s outcome h in
    let (t, ran, moves) = run-Moves events (send_queued s outcome) first.bounded in
    (t, ran, Moves-trans [] _ first moves)
