-- ===== src/Logger/Exporter.antt =====
-- internal/logger/decision_exporter.go, while the bus is open. A round of the loop receives an event;
-- no drop comes between the receive and the swap of the counter. The JSON text of an event, which the
-- record carries as well, is left out.
use grunyas.Prelude.{
  ℕ, String, str_eq, ◌||◌, Option, none, some, List, [], ◌∷◌, ◌++◌, ltb, ◌==◌, if◌then◌else◌,
}
use grunyas.Policy.Types.{TransitionEvent}
use grunyas.Decisions.Events.{Stamp, Event, Message, decision, transition}
use grunyas.Decisions.Bus.{Sub, Bus, on_sub, receive, drain_dropped, mark_otel_dropped, publish}

pub data Level : Type 0 where
  info warn : Level

-- The outcome's node and reason are fields of the record where they are not empty.
pub data LogRecord : Type 0 where
  dropped_events : ℕ → LogRecord
  routing_decision : Level → (node_id reason : Option String) → Event → LogRecord
  policy_transition : Option Stamp → TransitionEvent → LogRecord

abbrev pub unless_empty : String → Option String
unless_empty s = if str_eq s "" then none else some s

-- The switch on the type of the event.
unfoldable pub log_of : Message → LogRecord
log_of (decision e) =
    routing_decision
      (if str_eq e.outcome.kind "rejected" || str_eq e.outcome.kind "fallback" then warn else info)
      (unless_empty e.outcome.node_id) (unless_empty e.outcome.reason) e
log_of (transition stamp e) = policy_transition stamp e

unfoldable pub find_sub : ℕ → List Sub → Option Sub
find_sub id [] = none
find_sub id (s ∷ rest) = let found = find_sub id rest in if s.id == id then some s else found

-- A round of the loop with an event and the drops of the subscription.
unfoldable pub export_event : ℕ → Message → ℕ → Bus → List LogRecord × Bus
unfolding log_of on_sub receive drain_dropped mark_otel_dropped
export_event id m drops b =
    let b' = record b { subscribers = on_sub drain_dropped id (on_sub receive id b.subscribers) } in
    if ltb 0 drops
    then (dropped_events drops ∷ log_of m ∷ [], mark_otel_dropped drops b')
    else (log_of m ∷ [], b')

-- One round, and `none` while it waits for an event.
unfoldable pub export_next : ℕ → Bus → Option (List LogRecord × Bus)
unfolding find_sub export_event
export_next id b = elim (find_sub id b.subscribers) [
  | none ↦ none
  | some s ↦ elim s.ch [ [] ↦ none | m ∷ rest ↦ some (export_event id m s.drops b) ]
]

-- Publications and rounds of the exporter in any order, with the log so far.
pub data ExporterStep : Type 0 where
  published : Stamp → Message → ExporterStep
  exported : ExporterStep

unfoldable pub act : ℕ → ExporterStep → Bus × List LogRecord → Bus × List LogRecord
unfolding export_next publish
act id (published stamp m) (b, log) = (publish stamp m b, log)
act id exported (b, log) = elim (export_next id b) [
  | none ↦ (b, log)
  | some (records, b') ↦ (b', log ++ records)
]

unfoldable pub acts : ℕ → List ExporterStep → Bus × List LogRecord → Bus × List LogRecord
unfolding act
acts id [] s = s
acts id (a ∷ rest) s = acts id rest (act id a s)
