-- ===== src/Examples/Sessions.antt =====
-- A client of the compat port that holds a lease on a replica.
use grunyas.Prelude.{
  map, ◌↔◌, ◌+◌, ◌-◌, ◌*◌, ◌≤◌, ◌≡◌, refl, true, false, some, List, [], ◌∷◌, arith, All, ltb, none,
  ◌++◌, ◌||◌,
}
use grunyas.Classifier.Text.{Text, to_lower, after, codes, trim_left}
use grunyas.Classifier.Statement.{Traffic, TxState, Port}
use grunyas.Session.Window.{PostWriteWindow, is_active, remaining_ms, window_until_duration}
use grunyas.Session.Boundary.{is_rollback, normalized, is_word, has_prefix}
use grunyas.Classifier.Truncate.{trim_right}
use grunyas.Session.Compat.{
  query, parse, sync, extended, State, World, TxStatus, is_failed, in_transaction, terminate,
}
use grunyas.Messaging.SessionState.{strip_leading_comments, trim, query_uses_session_state}
use grunyas.Messaging.Fuel.{IsBare}
use grunyas.Messaging.Batches.{batch-uses_state, IsSessionText}
use grunyas.Session.Loop
use grunyas.Session.Loop.{Loop, PoolMode, ready, rounds}
use grunyas.Session.ReadPort.{is_read_action, rounds-IsReading}
use grunyas.Session.Failed.{Event, client, server, run, is_quiet, failed_run_is_silent}
use grunyas.Session.Replica.{OnReplica, is_allowed, replica_run_has_no_write}

abbrev window : PostWriteWindow
window = record { opened_at = some 1_000_000; duration_ms = 3 }

late : 1_000_000 ≤ 2_500_000
late = omega arith

window_until_duration_example :
    (is_active window 2_500_000 ≡ ltb 2_500_000 (1_000_000 + 3 * 1_000_000))
    × (ltb 0 (remaining_ms window 2_500_000) ≡ is_active window 2_500_000)
    × (remaining_ms window 2_500_000 ≤ 3)
    × (remaining_ms window 2_500_000 * 1_000_000
        ≤ (1_000_000 + 3 * 1_000_000 - 2_500_000) + 999_999)
    × (1_000_000 + 3 * 1_000_000 - 2_500_000 ≤ remaining_ms window 2_500_000 * 1_000_000)
window_until_duration_example = window_until_duration 1_000_000 2_500_000 3 late

abbrev world : World
world = record {
  now = 5;
  acquire = λ call. some (record { node_id = "b"; role = "replica" });
  refusal_code = "53300";
  refusal_text = "[grunyas] pool saturated";
  send_works = true;
  flush_works = true;
  upstream_works = true;
}

abbrev reading : State
reading = record {
  tx_state = TxState.in_transaction_read;
  first_class = Traffic.read;
  upstream = true;
  leased_node_id = "b";
  leased_role = "replica";
  window = window;
  awaiting_rollback_result = false;
  prepared = some [];
}

abbrev conversation : List Event
conversation =
    client world (query (codes "select 1"))
    ∷ server 6 TxStatus.in_transaction
    ∷ client world (query (codes "delete from t"))
    ∷ client world (query (codes "select 2"))
    ∷ client world (query (codes "ROLLBACK"))
    ∷ []

replica_run_has_no_write_example :
    All (λ m. is_allowed m ≡ true) (run conversation reading).0
    × OnReplica (run conversation reading).1
replica_run_has_no_write_example =
    replica_run_has_no_write conversation reading (refl, (refl, (refl, (refl, (refl, tt)))))
      (refl, refl)

abbrev broken : State
broken = record reading { tx_state = TxState.in_failed_transaction }

abbrev retries : List Event
retries =
    client world (query (codes "select 2"))
    ∷ client world (parse "p" (codes "select 3"))
    ∷ client world extended
    ∷ client world sync
    ∷ server 7 TxStatus.failed
    ∷ []

unfolded : is_quiet (client world (query (codes "select 2"))) ≡ true
unfolding is_rollback normalized is_word has_prefix trim_left trim_right
unfolded = refl

failed_run_is_silent_example :
    ((run retries broken).0 ≡ [])
    × (is_failed (run retries broken).1.tx_state ≡ true)
    × ((run retries broken).1.window ≡ broken.window)
failed_run_is_silent_example =
    failed_run_is_silent retries broken (unfolded, (refl, (refl, (refl, (refl, tt))))) refl

-- A start of a transaction that is answered at once, a read, its end, and the end of the session.
abbrev talk : List Loop.Event
talk =
    Loop.client world (query (codes "BEGIN"))
    ∷ Loop.client world (query (codes "select 1"))
    ∷ Loop.upstream world (ready in_transaction)
    ∷ Loop.client world (query (codes "COMMIT"))
    ∷ Loop.upstream world (ready TxStatus.idle)
    ∷ Loop.client world terminate
    ∷ []

abbrev fresh : Loop
fresh = record {
  port = Port.compat;
  pool_mode = PoolMode.transaction;
  pending_begin = none;
  swallowing = false;
  ended = false;
  compat = record reading { upstream = false; tx_state = TxState.idle };
}

-- A Set in the second statement of a batch is found.
abbrev set_part : Text
set_part = codes " SET x = 1"

set_part-IsOne : after b';' set_part ≡ none
unfolding after
set_part-IsOne = refl

batch-uses_state_example :
    (query_uses_session_state (codes "select 1" ++ b';' ∷ set_part)
      ≡ (query_uses_session_state (codes "select 1") || query_uses_session_state set_part))
    × ((query_uses_session_state set_part ≡ true)
        ↔ IsSessionText (map to_lower (strip_leading_comments (trim set_part))))
    × IsBare (strip_leading_comments (trim set_part))
batch-uses_state_example = batch-uses_state (codes "select 1") set_part set_part set_part-IsOne

-- On the read port a write is refused and a read is sent on.
abbrev reads : List Loop.Event
reads =
    Loop.client world (query (codes "delete from t"))
    ∷ Loop.client world (query (codes "select 1"))
    ∷ Loop.upstream world (ready TxStatus.idle)
    ∷ []

rounds-IsReading_example :
    All (λ a. is_read_action a ≡ true) (rounds reads (record fresh { port = Port.read })).0
rounds-IsReading_example = rounds-IsReading reads (record fresh { port = Port.read }) (refl, refl)
