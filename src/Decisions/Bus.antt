-- ===== src/Decisions/Bus.antt =====
-- internal/decisions/bus.go. `Publish` takes the lock to test `closed` and takes it again to send;
-- the two are `publish_open` and `send_all`, and other calls can stand between them. The stamp is
-- what NewULID and the clock give.
use grunyas.Prelude.{
  ℕ, ◌+◌, Option, none, some, Bool, true, false, List, [], ◌∷◌, ◌++◌, ltb, leb, ◌==◌, length,
  if◌then◌else◌,
}
use grunyas.Decisions.Events.{Stamp, Message, decision, transition, schema_version}

-- A buffered channel with its counter of drops; the identifier is the key of the map.
pub record Sub : Type 0 where
  pub id : ℕ
  pub ch : List Message
  pub drops : ℕ

pub record Bus : Type 0 where
  pub subscribers : List Sub
  pub next_sub_id : ℕ
  pub closed : Bool
  pub max_subs : ℕ
  pub buf_size : ℕ
  pub dropped_otel_overflow : ℕ
  pub dropped_sub_overflow : ℕ

unfoldable pub new_bus : ℕ → ℕ → Bus
new_bus max_subscribers per_subscriber_buffer = record {
  subscribers = [];
  next_sub_id = 0;
  closed = false;
  max_subs = max_subscribers;
  buf_size = per_subscriber_buffer;
  dropped_otel_overflow = 0;
  dropped_sub_overflow = 0;
}

-- The `switch` on the type of the event.
unfoldable pub stamped : Stamp → Message → Message
stamped s (decision e) = decision (record e { stamp = some s; schema_version = schema_version })
stamped s (transition _ e) = transition (some s) e

-- One round of the loop: the send succeeds if the buffer has room.
unfoldable pub send : ℕ → Message → Sub → Sub
send buf_size m s =
    if ltb (length s.ch) buf_size
    then record s { ch = s.ch ++ (m ∷ []) }
    else record s { drops = s.drops + 1 }

unfoldable pub is_full : ℕ → Sub → Bool
is_full buf_size s = leb buf_size (length s.ch)

-- The loop over the subscribers, with the number of drops.
unfoldable pub send_all : ℕ → Message → List Sub → List Sub × ℕ
unfolding send is_full
send_all buf_size m [] = ([], 0)
send_all buf_size m (s ∷ rest) =
    let (rest', dropped) = send_all buf_size m rest in
    (send buf_size m s ∷ rest', if is_full buf_size s then dropped + 1 else dropped)

-- The part of `Publish` under the read lock.
unfoldable pub publish_open : Message → Bus → Bus
unfolding send_all
publish_open m b =
    let (subs, dropped) = send_all b.buf_size m b.subscribers in
    record b { subscribers = subs; dropped_sub_overflow = b.dropped_sub_overflow + dropped }

-- `Publish` with no other call between its two locks.
unfoldable pub publish : Stamp → Message → Bus → Bus
unfolding stamped publish_open
publish stamp m b = if b.closed then b else publish_open (stamped stamp m) b

-- The identifier of the new subscription, or `none` for the result false.
unfoldable pub subscribe : Bus → Option ℕ × Bus
subscribe b =
    if b.closed then (none, b) else if leb b.max_subs (length b.subscribers) then (none, b) else (
      some b.next_sub_id,
      record b {
        next_sub_id = b.next_sub_id + 1;
        subscribers = record { id = b.next_sub_id; ch = []; drops = 0 } ∷ b.subscribers;
      },
    )

unfoldable pub without : ℕ → List Sub → List Sub
without id [] = []
without id (s ∷ rest) = if s.id == id then without id rest else s ∷ without id rest

-- The function `Unsub` of a subscription.
unfoldable pub unsubscribe : ℕ → Bus → Bus
unfolding without
unsubscribe id b = record b { subscribers = without id b.subscribers }

unfoldable pub on_sub : (Sub → Sub) → ℕ → List Sub → List Sub
on_sub f id [] = []
on_sub f id (s ∷ rest) = if s.id == id then f s ∷ on_sub f id rest else s ∷ on_sub f id rest

-- A receive from the channel, which takes the oldest event.
unfoldable pub receive : Sub → Sub
receive s = elim s.ch [ [] ↦ s | m ∷ rest ↦ record s { ch = rest } ]

-- s.drops.Swap(0)
unfoldable pub drain_dropped : Sub → Sub
drain_dropped s = record s { drops = 0 }

unfoldable pub mark_otel_dropped : ℕ → Bus → Bus
mark_otel_dropped n b = record b { dropped_otel_overflow = b.dropped_otel_overflow + n }

unfoldable pub subscriber_count : Bus → ℕ
subscriber_count b = length b.subscribers

unfoldable pub close : Bus → Bus
close b = record b { closed = true; subscribers = [] }

-- A call on the bus, or on a subscription by its identifier. `late_send` is the second part of a
-- `Publish` whose test found the bus open, when other calls came between.
pub data BusCall : Type 0 where
  publication : Stamp → Message → BusCall
  late_send : Message → BusCall
  subscription : BusCall
  unsubscription receipt drain : ℕ → BusCall
  otel_drop : ℕ → BusCall
  closing : BusCall

unfoldable pub step : BusCall → Bus → Bus
unfolding publish publish_open subscribe unsubscribe on_sub mark_otel_dropped close
step (publication s m) b = publish s m b
step (late_send m) b = publish_open m b
step subscription b = (subscribe b).1
step (unsubscription id) b = unsubscribe id b
step (receipt id) b = record b { subscribers = on_sub receive id b.subscribers }
step (drain id) b = record b { subscribers = on_sub drain_dropped id b.subscribers }
step (otel_drop n) b = mark_otel_dropped n b
step closing b = close b

unfoldable pub steps : List BusCall → Bus → Bus
steps [] b = b
steps (c ∷ cs) b = steps cs (step c b)
