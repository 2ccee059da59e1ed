-- ===== src/Logger/Exported.antt =====
-- What internal/logger/decision_exporter.go logs of the events that the bus publishes.
use grunyas.Prelude.{
  if-holds, ℕ, ◌+◌, ◌≡◌, refl, ap, ◌∙◌, subst, arith, none, some, false, List, [], ◌∷◌, ◌++◌,
  length, length-append, ltb,
}
use grunyas.Decisions.Events.{Stamp, Message, decision, transition}
use grunyas.Decisions.Bus.{Sub, Bus, send, mark_otel_dropped, publish, publish_open, stamped}
use grunyas.Logger.Found.{find-send_all, find_taken}
use grunyas.Logger.Exporter.{
  LogRecord, dropped_events, routing_decision, policy_transition, log_of, find_sub, export_next,
  ExporterStep, published, exported, act, acts, export_event,
}

-- The events that a log shows, and the drops that it reports.
abbrev pub events_in : List LogRecord → ℕ
events_in [] = 0
events_in (dropped_events n ∷ log) = events_in log
events_in (routing_decision l n r e ∷ log) = events_in log + 1
events_in (policy_transition s e ∷ log) = events_in log + 1

abbrev pub drops_in : List LogRecord → ℕ
drops_in [] = 0
drops_in (dropped_events n ∷ log) = drops_in log + n
drops_in (routing_decision l n r e ∷ log) = drops_in log
drops_in (policy_transition s e ∷ log) = drops_in log

-- The publications among the actions.
abbrev pub publications : List ExporterStep → ℕ
publications [] = 0
publications (published stamp m ∷ rest) = publications rest + 1
publications (exported ∷ rest) = publications rest

count-send :
    (buf : ℕ) (m : Message) (s : Sub)
    → length (send buf m s).ch + (send buf m s).drops ≡ length s.ch + s.drops + 1
unfolding send
count-send buf m s =
    if-holds (λ (x : Sub). length x.ch + x.drops ≡ length s.ch + s.drops + 1)
      (ltb (length s.ch) buf) (λ e. omega (arith, length-append s.ch (m ∷ []))) (λ e. omega arith)

events_in-append :
    (log more : List LogRecord) → events_in (log ++ more) ≡ events_in log + events_in more
events_in-append [] more = omega arith
events_in-append (dropped_events n ∷ log) more = events_in-append log more
events_in-append (routing_decision l n r e ∷ log) more = omega (arith, events_in-append log more)
events_in-append (policy_transition s e ∷ log) more = omega (arith, events_in-append log more)

drops_in-append :
    (log more : List LogRecord) → drops_in (log ++ more) ≡ drops_in log + drops_in more
drops_in-append [] more = omega arith
drops_in-append (dropped_events n ∷ log) more = omega (arith, drops_in-append log more)
drops_in-append (routing_decision l n r e ∷ log) more = drops_in-append log more
drops_in-append (policy_transition s e ∷ log) more = drops_in-append log more

one_event : (m : Message) → (events_in (log_of m ∷ []) ≡ 1) × (drops_in (log_of m ∷ []) ≡ 0)
unfolding log_of
one_event (decision e) = (omega arith, refl)
one_event (transition s e) = (omega arith, refl)

-- Of `n` events published to an open bus, each is in the log, waits for the exporter, or is counted as
-- a drop; the drops in the log are those that the bus counts for the exporter.
abbrev pub Accounts : ℕ → ℕ → Bus × List LogRecord → Type 0
Accounts id n (b, log) =
    (s : Sub) × (find_sub id b.subscribers ≡ some s)
    × (b.closed ≡ false)
    × (events_in log + length s.ch + s.drops + b.dropped_otel_overflow ≡ n)
    × (drops_in log ≡ b.dropped_otel_overflow)

publish-Accounts :
    (id n : ℕ) (stamp : Stamp) (m : Message) (b : Bus) (log : List LogRecord)
    → Accounts id n (b, log)
    → Accounts id (n + 1) (publish stamp m b, log)
unfolding publish publish_open
publish-Accounts id n stamp m b log (s, f, c, e, d) = rw c (
  send b.buf_size (stamped stamp m) s,
  find-send_all b.buf_size (stamped stamp m) id b.subscribers s f,
  refl,
  omega (arith, e, count-send b.buf_size (stamped stamp m) s),
  d,
)

event-Accounts :
    (id n : ℕ) (b : Bus) (log : List LogRecord) (s : Sub) (m : Message) (rest : List Message)
    → find_sub id b.subscribers ≡ some s
    → s.ch ≡ m ∷ rest
    → b.closed ≡ false
    → events_in log + length s.ch + s.drops + b.dropped_otel_overflow ≡ n
    → drops_in log ≡ b.dropped_otel_overflow
    → let (records, b') = export_event id m s.drops b in Accounts id n (b', log ++ records)
unfolding export_event mark_otel_dropped
event-Accounts id n b log s m rest f q c e d =
    let found = find_taken id b.subscribers s m rest f q in
    let (one, zero_drops) = one_event m in
    let len : length s.ch ≡ length rest + 1 = ap length q ∙ omega arith in
    if-holds (λ (r : List LogRecord × Bus). Accounts id n (r.1, log ++ r.0)) (ltb 0 s.drops)
      (λ o. (
        record s { ch = rest; drops = 0 },
        found,
        c,
        omega (arith, e, len, one, events_in-append log (dropped_events s.drops ∷ log_of m ∷ [])),
        omega (arith, d, zero_drops, drops_in-append log (dropped_events s.drops ∷ log_of m ∷ [])),
      ))
      (λ o. (
        record s { ch = rest; drops = 0 },
        found,
        c,
        ground (arith, e, len, one, o, events_in-append log (log_of m ∷ [])),
        omega (arith, d, zero_drops, drops_in-append log (log_of m ∷ [])),
      ))

next_waits :
    (id : ℕ) (b : Bus) (s : Sub)
    → find_sub id b.subscribers ≡ some s
    → s.ch ≡ []
    → export_next id b ≡ none
unfolding export_next
next_waits id b s f q = rw (f, q, export_next) refl

next_event :
    (id : ℕ) (b : Bus) (s : Sub) (m : Message) (rest : List Message)
    → find_sub id b.subscribers ≡ some s
    → s.ch ≡ m ∷ rest
    → export_next id b ≡ some (export_event id m s.drops b)
unfolding export_next
next_event id b s m rest f q = rw (f, q, export_next) refl

export-Accounts :
    (id n : ℕ) (b : Bus) (log : List LogRecord)
    → Accounts id n (b, log)
    → Accounts id n (act id exported (b, log))
unfolding act
export-Accounts id n b log (s, f, c, e, d) = by_queue s.ch refl
  where
    by_queue : (ch : List Message) → s.ch ≡ ch → Accounts id n (act id exported (b, log))
    by_queue [] q = rw (next_waits id b s f q, act) (s, f, c, e, d)
    by_queue (m ∷ rest) q =
        rw (next_event id b s m rest f q, act) (event-Accounts id n b log s m rest f q c e d)

-- Over any publications to an open bus and rounds of its exporter, in any order, each event is logged,
-- waits for the exporter, or is counted as a drop of the exporter, and the drops that are logged are
-- those that the bus counts for it.
pub acts-Accounts :
    (id n : ℕ) (actions : List ExporterStep) (b : Bus) (log : List LogRecord)
    → Accounts id n (b, log)
    → Accounts id (n + publications actions) (acts id actions (b, log))
unfolding acts act
acts-Accounts id n [] b log a = subst (λ k. Accounts id k (b, log)) (omega arith) a
acts-Accounts id n (published stamp m ∷ rest) b log a =
    subst (λ k. Accounts id k (acts id rest (publish stamp m b, log))) (omega arith)
      (acts-Accounts id (n + 1) rest (publish stamp m b) log
        (publish-Accounts id n stamp m b log a))
acts-Accounts id n (exported ∷ rest) b log a =
    acts-Accounts id n rest (act id exported (b, log)).0 (act id exported (b, log)).1
      (export-Accounts id n b log a)
