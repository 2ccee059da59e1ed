-- ===== src/Admin/Stream.antt =====
-- `handleDecisionsSSE` of internal/admin/admin.go. The JSON text of an event is the event itself, and
-- its encoding does not fail; the subscription ends when the stream does.
use grunyas.Prelude.{
  true, false, ℕ, Bool, not, Option, none, some, List, [], ◌∷◌, ◌++◌, ltb, if◌then◌else◌,
}
use grunyas.Policy.Types.{TransitionEvent}
use grunyas.Decisions.Events.{Stamp, Event, Message, decision, transition}
use grunyas.Decisions.Bus.{Sub, Bus, subscribe, unsubscribe, on_sub, receive, drain_dropped}
use grunyas.Logger.Exporter.{find_sub}

-- The replies before the stream, and the stream with its subscription.
pub data Opened : Type 0 where
  unavailable not_flushable : Opened
  max_subscribers : (limit : ℕ) → Opened
  streaming : (id : ℕ) → Bus → Opened

abbrev pub subscribed : ℕ → Option ℕ × Bus → Opened
subscribed limit (none, b) = max_subscribers limit
subscribed limit (some id, b) = streaming id b

unfoldable pub open_stream : (flushes : Bool) → (limit : ℕ) → Option Bus → Opened
unfolding subscribe
open_stream flushes limit none = unavailable
open_stream flushes limit (some b) =
    if not flushes then not_flushable else subscribed limit (subscribe b)

pub data Frame : Type 0 where
  keep_alive_comment : Frame
  decision_frame : Event → Frame
  transition_frame : Option Stamp → TransitionEvent → Frame
  dropped_frame : ℕ → Frame

abbrev pub frame_of : Message → Frame
frame_of (decision e) = decision_frame e
frame_of (transition stamp e) = transition_frame stamp e

-- What the select of a round takes.
pub data Ready : Type 0 where
  request_done keep_alive event_ready : Ready

abbrev pub drops_now : Option Sub → ℕ
drops_now none = 0
drops_now (some s) = s.drops

-- After an event: its frame, and that of the drops since the last one.
unfoldable pub send_event : ℕ → Message → Bus → List Frame × Bus
unfolding find_sub on_sub receive drain_dropped
send_event id m b =
    let drops = drops_now (find_sub id b.subscribers) in
    let b' = record b { subscribers = on_sub drain_dropped id (on_sub receive id b.subscribers) } in
    if ltb 0 drops then (frame_of m ∷ dropped_frame drops ∷ [], b') else (frame_of m ∷ [], b')

-- A round of the loop: whether it goes on, the frames and the bus. An event that is not there leaves
-- the round waiting, which is the round without frames.
unfoldable pub stream_round : ℕ → Ready → Bus → Bool × List Frame × Bus
unfolding send_event unsubscribe find_sub
stream_round id request_done b = (false, [], unsubscribe id b)
stream_round id keep_alive b = (true, keep_alive_comment ∷ [], b)
stream_round id event_ready b = elim (find_sub id b.subscribers) [
  | none ↦ (false, [], unsubscribe id b)
  | some s ↦ elim s.ch [
    | [] ↦ (true, [], b)
    | m ∷ rest ↦ (true, (send_event id m b).0, (send_event id m b).1)
  ]
]

unfoldable pub stream : ℕ → List Ready → Bus → List Frame × Bus
unfolding stream_round
stream id [] b = ([], b)
stream id (r ∷ rest) b =
    let (goes_on, frames, b') = stream_round id r b in
    let (more, last) = stream id rest b' in if goes_on then (frames ++ more, last) else (frames, b')
