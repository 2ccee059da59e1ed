-- ===== src/Session/Failed.antt =====
-- What `handleCompatSQL` of internal/server/session/session.go lets through to the upstream, over any
-- run of its calls and of reports of the server. The loop that calls it keeps two messages from it:
-- a query that starts a transaction while no start is pending, and Terminate.
use grunyas.Prelude.{
  ℕ, ◌≡◌, refl, Bool, true, false, not, ◌&&◌, ◌||◌, List, [], ◌∷◌, ◌++◌, if◌then◌else◌, arith, All,
  ◌∙◌,
}
use grunyas.Session.Boundary.{is_rollback}
use grunyas.Session.Compat.{
  Message, query, parse, sync, terminate, extended, State, World, Handled, TxStatus, in_transaction,
  failed, handle_compat_sql, handle_failed, handle_ready_for_query, is_failed,
}

-- A call for a message of the client, with what the call finds, or a ReadyForQuery of the server.
pub data Event : Type 0 where
  client : World → Message → Event
  server : ℕ → TxStatus → Event

abbrev pub forwarded : Message → Handled → List Message
forwarded m h = if h.handled || h.failed then [] else m ∷ []

-- The messages that go to the upstream, and the state after the event.
unfoldable pub step : Event → State → List Message × State
step (client w m) s = let (h, s') = handle_compat_sql w m s in (forwarded m h, s')
step (server now status) s = ([], handle_ready_for_query now status s)

unfoldable pub run : List Event → State → List Message × State
unfolding step
run [] s = ([], s)
run (e ∷ es) s = let (out, s') = step e s in let (more, s'') = run es s' in (out ++ more, s'')

-- A flush that works, a message that does not end the transaction or the session, and a status
-- that does not end the transaction.
abbrev pub ends : Message → Bool
ends (query sql) = is_rollback sql
ends terminate = true
ends _ = false

abbrev pub is_quiet : Event → Bool
is_quiet (client w m) = w.flush_works && not (ends m)
is_quiet (server now TxStatus.idle) = false
is_quiet (server now in_transaction) = true
is_quiet (server now failed) = true

step-failed :
    (e : Event) (s : State)
    → is_quiet e ≡ true
    → is_failed s.tx_state ≡ true
    → ((step e s).0 ≡ [])
      × (is_failed (step e s).1.tx_state ≡ true)
      × ((step e s).1.window ≡ s.window)
unfolding step handle_compat_sql handle_failed handle_ready_for_query
step-failed (client w (query sql)) s q h =
    (ground (arith, q, h), ground (arith, q, h), ground (arith, q, h))
step-failed (client w (parse name sql)) s q h =
    (ground (arith, q, h), ground (arith, q, h), ground (arith, q, h))
step-failed (client w sync) s q h =
    (ground (arith, q, h), ground (arith, q, h), ground (arith, q, h))
step-failed (client w terminate) s q h =
    (ground (arith, q, h), ground (arith, q, h), ground (arith, q, h))
step-failed (client w extended) s q h =
    (ground (arith, q, h), ground (arith, q, h), ground (arith, q, h))
step-failed (server now TxStatus.idle) s q h = (refl, ground (arith, q), ground (arith, q))
step-failed (server now in_transaction) s q h = (refl, h, refl)
step-failed (server now failed) s q h = (refl, refl, refl)

-- In a failed transaction no message is let through to the upstream, the transaction stays failed
-- and the post-write window stays as it is, whatever messages the session is called with other
-- than ROLLBACK as a query and Terminate, as long as replies can be flushed and the server does not
-- report idle.
pub failed_run_is_silent :
    (es : List Event) (s : State)
    → All (λ e. is_quiet e ≡ true) es
    → is_failed s.tx_state ≡ true
    → ((run es s).0 ≡ [])
      × (is_failed (run es s).1.tx_state ≡ true)
      × ((run es s).1.window ≡ s.window)
unfolding run
failed_run_is_silent [] s q h = (refl, h, refl)
failed_run_is_silent (e ∷ es) s (q, qs) h =
    let (out, f, w) = step-failed e s q h in
    let (out', f', w') = failed_run_is_silent es (step e s).1 qs f in (cc (out, out'), f', w' ∙ w)
