-- ===== src/Decisions/Losses.antt =====
-- What `Publish` of internal/decisions/bus.go counts: no event is lost without a trace.
use grunyas.Prelude.{
  ◌++◌, ◌⊎◌, inl, inr, Bool-cases, ltb, ◌<◌, ◌≤◌, ℕ, ◌+◌, ◌≡◌, refl, List, [], ◌∷◌, length, arith,
  length-append,
}
use grunyas.Decisions.Events.{Message}
use grunyas.Decisions.Bus.{Sub, Bus, send, is_full, send_all, publish_open}

-- The events that wait in the queues, and the drops that the subscribers have counted.
abbrev pub waiting : List Sub → ℕ
waiting [] = 0
waiting (s ∷ rest) = length s.ch + waiting rest

abbrev pub drops_of : List Sub → ℕ
drops_of [] = 0
drops_of (s ∷ rest) = s.drops + drops_of rest

waiting-send_all :
    (buf : ℕ) (m : Message) (subs : List Sub)
    → waiting (send_all buf m subs).0 + (send_all buf m subs).1 ≡ waiting subs + length subs
unfolding send_all send is_full
waiting-send_all buf m [] = refl
waiting-send_all buf m (s ∷ rest) =
    ground (arith, waiting-send_all buf m rest, length-append s.ch (m ∷ []))

drops_of-send_all :
    (buf : ℕ) (m : Message) (subs : List Sub)
    → drops_of (send_all buf m subs).0 ≡ drops_of subs + (send_all buf m subs).1
unfolding send_all send is_full
drops_of-send_all buf m [] = refl
drops_of-send_all buf m (s ∷ rest) = ground (arith, drops_of-send_all buf m rest)

-- A subscriber with room in its queue has the event at the end of it, and no drop more; one whose
-- queue is full has the queue that it had, and one drop more.
abbrev pub IsServed : ℕ → Message → Sub → Sub → Type 0
IsServed buf m s s' =
    (s'.id ≡ s.id)
    × ((length s.ch < buf × (s'.ch ≡ s.ch ++ (m ∷ [])) × (s'.drops ≡ s.drops))
        ⊎ (buf ≤ length s.ch × (s'.ch ≡ s.ch) × (s'.drops ≡ s.drops + 1)))

-- Each subscriber in turn.
abbrev pub AreServed : ℕ → Message → List Sub → List Sub → Type 0
AreServed buf m [] [] = Unit
AreServed buf m [] (s' ∷ rest') = ⊥
AreServed buf m (s ∷ rest) [] = ⊥
AreServed buf m (s ∷ rest) (s' ∷ rest') = IsServed buf m s s' × AreServed buf m rest rest'

send-IsServed : (buf : ℕ) (m : Message) (s : Sub) → IsServed buf m s (send buf m s)
unfolding send
send-IsServed buf m s = elim (Bool-cases (ltb (length s.ch) buf)) [
  | inl room ↦ rw (send, room) (refl, inl (ground (arith, room), refl, refl))
  | inr full ↦ rw (send, full) (refl, inr (ground (arith, full), refl, refl))
]

send_all-AreServed :
    (buf : ℕ) (m : Message) (subs : List Sub) → AreServed buf m subs (send_all buf m subs).0
unfolding send_all
send_all-AreServed buf m [] = tt
send_all-AreServed buf m (s ∷ rest) = (send-IsServed buf m s, send_all-AreServed buf m rest)

-- A publication puts the event at the end of the queue of each subscriber with room, and counts a
-- drop for each other one, whose queue stays as it is. So the waiting events and the drops together
-- grow by one for each subscriber, and the counter of the bus grows as the counters of the
-- subscribers do.
pub publish_open-counts :
    (m : Message) (b : Bus)
    → let b' = publish_open m b in
      AreServed b.buf_size m b.subscribers b'.subscribers
      × (waiting b'.subscribers + drops_of b'.subscribers
          ≡ waiting b.subscribers + drops_of b.subscribers + length b.subscribers)
      × (b'.dropped_sub_overflow + drops_of b.subscribers
          ≡ b.dropped_sub_overflow + drops_of b'.subscribers)
unfolding publish_open
publish_open-counts m b =
    let w = waiting-send_all b.buf_size m b.subscribers in
    let d = drops_of-send_all b.buf_size m b.subscribers in
    (send_all-AreServed b.buf_size m b.subscribers, omega (arith, w, d), omega (arith, d))
