-- ===== src/Session/Balance.antt =====
-- Any run of the loop of internal/server/session/session.go keeps the order of its connections.
use grunyas.Prelude.{◌≡◌, Bool, true, false}
use grunyas.Session.Loop.{Loop, Event, give_back, held}

Keeps : Loop → Loop → Type 0
Keeps l l' = (held l' ≡ held l) × (l'.ended ≡ l.ended)

-- Any event but the request that Close sends to the loop.
abbrev pub is_loop_event : Event → Bool
is_loop_event give_back = false
is_loop_event _ = true
