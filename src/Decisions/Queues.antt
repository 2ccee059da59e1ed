-- ===== src/Decisions/Queues.antt =====
-- What the bus of internal/decisions/bus.go keeps between two calls, and what a publication does to
-- each subscriber.
use grunyas.Prelude.{
  ℕ, ◌+◌, ◌≤◌, ◌<◌, ◌≡◌, ◌⊎◌, inl, inr, refl, Option, false, List, [], ◌∷◌, length, arith, All,
  length-append, Bool-cases, leb, ◌==◌, if-holds,
}
use grunyas.Decisions.Events.{Message}
use grunyas.Decisions.Bus.{
  Sub, Bus, new_bus, BusCall, publication, late_send, subscription, unsubscription, receipt, drain,
  otel_drop, closing, step, steps, send, send_all, publish, publish_open, subscribe, unsubscribe,
  without, on_sub, receive, drain_dropped, mark_otel_dropped, close, stamped,
}

-- A subscriber whose queue is within the buffer and whose identifier has been given out.
abbrev pub IsBounded : ℕ → ℕ → Sub → Type 0
IsBounded buf_size next s = (length s.ch ≤ buf_size) × (s.id < next)

-- What holds of a bus between two calls. A closed bus has no subscriber, so that no event is sent
-- to a channel that has been closed.
pub record IsOrderly (b : Bus) : Type 0 where
  pub few : length b.subscribers ≤ b.max_subs
  pub bounded : All (IsBounded b.buf_size b.next_sub_id) b.subscribers
  pub silent : (b.closed ≡ false) ⊎ (b.subscribers ≡ [])

send-IsBounded :
    (buf next : ℕ) (m : Message) (s : Sub)
    → IsBounded buf next s
    → IsBounded buf next (send buf m s)
unfolding send
send-IsBounded buf next m s (q, i) =
    (ground (arith, q, length-append s.ch (m ∷ [])), ground (arith, i))

send_all-few :
    (buf : ℕ) (m : Message) (subs : List Sub) → length (send_all buf m subs).0 ≡ length subs
unfolding send_all
send_all-few buf m [] = refl
send_all-few buf m (s ∷ rest) = omega (arith, send_all-few buf m rest)

send_all-IsBounded :
    (buf next : ℕ) (m : Message) (subs : List Sub)
    → All (IsBounded buf next) subs
    → All (IsBounded buf next) (send_all buf m subs).0
unfolding send_all
send_all-IsBounded buf next m [] h = tt
send_all-IsBounded buf next m (s ∷ rest) (q, h) =
    (send-IsBounded buf next m s q, send_all-IsBounded buf next m rest h)

send_all-empty :
    (buf : ℕ) (m : Message) (subs : List Sub) → subs ≡ [] → (send_all buf m subs).0 ≡ []
unfolding send_all
send_all-empty buf m [] e = refl
send_all-empty buf m (s ∷ rest) e = cc

publish_open-IsOrderly : (m : Message) (b : Bus) → IsOrderly b → IsOrderly (publish_open m b)
unfolding publish_open
publish_open-IsOrderly m b h = record {
  few = omega (arith, h.few, send_all-few b.buf_size m b.subscribers);
  bounded = send_all-IsBounded b.buf_size b.next_sub_id m b.subscribers h.bounded;
  silent = elim h.silent [
    | inl at_work ↦ inl at_work
    | inr none_left ↦ inr (send_all-empty b.buf_size m b.subscribers none_left)
  ];
}

without-few : (id : ℕ) (subs : List Sub) → length (without id subs) ≤ length subs
unfolding without
without-few id [] = omega arith
without-few id (s ∷ rest) = ground (arith, without-few id rest)

without-All : (P : Sub → Type 0) (id : ℕ) (subs : List Sub) → All P subs → All P (without id subs)
unfolding without
without-All P id [] h = tt
without-All P id (s ∷ rest) (p, h) = elim (Bool-cases (s.id == id)) [
  | inl e ↦ rw e (without-All P id rest h)
  | inr e ↦ rw e (p, without-All P id rest h)
]

on_sub-few : (f : Sub → Sub) (id : ℕ) (subs : List Sub) → length (on_sub f id subs) ≡ length subs
unfolding on_sub
on_sub-few f id [] = refl
on_sub-few f id (s ∷ rest) = ground (arith, on_sub-few f id rest)

on_sub-All :
    (P : Sub → Type 0) (f : Sub → Sub) (id : ℕ) (subs : List Sub)
    → ((s : Sub) → P s → P (f s))
    → All P subs
    → All P (on_sub f id subs)
unfolding on_sub
on_sub-All P f id [] keeps h = tt
on_sub-All P f id (s ∷ rest) keeps (p, h) = elim (Bool-cases (s.id == id)) [
  | inl e ↦ rw e (keeps s p, on_sub-All P f id rest keeps h)
  | inr e ↦ rw e (p, on_sub-All P f id rest keeps h)
]

receive-IsBounded : (buf next : ℕ) (s : Sub) → IsBounded buf next s → IsBounded buf next (receive s)
unfolding receive
receive-IsBounded buf next s (q, i) = (ground (arith, q), ground (arith, i))

later-All :
    (buf next : ℕ) (subs : List Sub)
    → All (IsBounded buf next) subs
    → All (IsBounded buf (next + 1)) subs
later-All buf next [] h = tt
later-All buf next (s ∷ rest) ((q, i), h) = ((q, omega (arith, i)), later-All buf next rest h)

is_empty_length : (subs : List Sub) → length subs ≤ 0 → subs ≡ []
is_empty_length [] h = refl
is_empty_length (s ∷ rest) h = ground (arith, h)

gone : (id : ℕ) (subs : List Sub) → subs ≡ [] → without id subs ≡ []
gone id subs e = rw e (unfold without in refl)

still_gone : (f : Sub → Sub) (id : ℕ) (subs : List Sub) → subs ≡ [] → on_sub f id subs ≡ []
still_gone f id subs e = rw e (unfold on_sub in refl)

on_sub-IsOrderly :
    (f : Sub → Sub) (id : ℕ) (b : Bus)
    → ((s : Sub) → IsBounded b.buf_size b.next_sub_id s → IsBounded b.buf_size b.next_sub_id (f s))
    → IsOrderly b
    → IsOrderly (record b { subscribers = on_sub f id b.subscribers })
on_sub-IsOrderly f id b keeps h = record {
  few = omega (arith, h.few, on_sub-few f id b.subscribers);
  bounded = on_sub-All (IsBounded b.buf_size b.next_sub_id) f id b.subscribers keeps h.bounded;
  silent = elim h.silent [
    | inl at_work ↦ inl at_work
    | inr none_left ↦ inr (still_gone f id b.subscribers none_left)
  ];
}

subscribe-IsOrderly : (b : Bus) → IsOrderly b → IsOrderly (subscribe b).1
unfolding subscribe
subscribe-IsOrderly b h =
    if-holds (λ (r : Option ℕ × Bus). IsOrderly r.1) b.closed (λ e. h)
      λ e.
        if-holds (λ (r : Option ℕ × Bus). IsOrderly r.1) (leb b.max_subs (length b.subscribers))
          (λ full. h)
          λ room. record {
            few = ground (arith, room);
            bounded = (
              (omega arith, omega arith),
              later-All b.buf_size b.next_sub_id b.subscribers h.bounded,
            );
            silent = inl e;
          }

-- Each call on the bus keeps it orderly, also a send that comes late.
pub step-IsOrderly : (c : BusCall) (b : Bus) → IsOrderly b → IsOrderly (step c b)
unfolding step publish unsubscribe drain_dropped mark_otel_dropped close
step-IsOrderly (publication stamp m) b h =
    if-holds IsOrderly b.closed (λ e. h) λ e. publish_open-IsOrderly (stamped stamp m) b h
step-IsOrderly (late_send m) b h = publish_open-IsOrderly m b h
step-IsOrderly subscription b h = subscribe-IsOrderly b h
step-IsOrderly (unsubscription id) b h = record {
  few = omega (arith, h.few, without-few id b.subscribers);
  bounded = without-All (IsBounded b.buf_size b.next_sub_id) id b.subscribers h.bounded;
  silent = elim h.silent [
    | inl at_work ↦ inl at_work
    | inr none_left ↦ inr (gone id b.subscribers none_left)
  ];
}
step-IsOrderly (receipt id) b h =
    on_sub-IsOrderly receive id b (receive-IsBounded b.buf_size b.next_sub_id) h
step-IsOrderly (drain id) b h = on_sub-IsOrderly drain_dropped id b (λ s p. p) h
step-IsOrderly (otel_drop n) b h = record { few = h.few; bounded = h.bounded; silent = h.silent }
step-IsOrderly closing b h = record { few = omega arith; bounded = tt; silent = inr refl }

steps-IsOrderly : (cs : List BusCall) (b : Bus) → IsOrderly b → IsOrderly (steps cs b)
unfolding steps
steps-IsOrderly [] b h = h
steps-IsOrderly (c ∷ cs) b h = steps-IsOrderly cs (step c b) (step-IsOrderly c b h)

-- After any calls on a new bus, there are at most as many subscribers as it was made for, each
-- queue is within the buffer and its identifier was given out, and a closed bus has no subscriber
-- to send to.
pub bus_run-IsOrderly : (cs : List BusCall) (max buf : ℕ) → IsOrderly (steps cs (new_bus max buf))
unfolding new_bus
bus_run-IsOrderly cs max buf =
    steps-IsOrderly cs (new_bus max buf)
      record { few = omega arith; bounded = tt; silent = inl refl }
