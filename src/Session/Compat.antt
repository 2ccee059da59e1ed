-- ===== src/Session/Compat.antt =====
-- `handleCompatSQL`, `sendCompatError`, `handleCompatReadyForQuery` and `resetCompatState` of
-- internal/server/session/session.go. AcquireUpstreamLease and the connection to the client are
-- outside: a call takes what they answer. Messages that could not be queued for the client are only
-- logged, so that the flush alone decides. The empty string as a class counts as `unknown`.
use grunyas.Prelude.{
  ℕ, String, str_eq, Bool, true, false, not, ◌&&◌, Option, none, some, List, [], ◌∷◌, if◌then◌else◌,
}
use grunyas.Prelude.Assoc.{Assoc}
use grunyas.Classifier.Text.{Text}
use grunyas.Classifier.Statement.{Port, Traffic, TxState, Class, Statement, classify}
use grunyas.Session.Boundary.{is_commit, is_rollback}
use grunyas.Session.Window.{PostWriteWindow, is_active, remaining_ms}

-- The messages of the client; `extended` is one that carries no SQL text, other than Sync.
pub data Message : Type 0 where
  query : Text → Message
  parse : String → Text → Message
  sync terminate extended : Message

-- What is sent to the client.
pub data Reply : Type 0 where
  error fatal : String → String → Reply
  command_complete : String → Reply
  ready_for_query : ℕ → Reply

pub record State : Type 0 where
  pub tx_state : TxState
  pub first_class : Traffic
  pub upstream : Bool
  pub leased_node_id : String
  pub leased_role : String
  pub window : PostWriteWindow
  pub awaiting_rollback_result : Bool
  pub prepared : Option (Assoc Class)

pub record Lease : Type 0 where
  pub node_id : String
  pub role : String

-- What AcquireUpstreamLease is called with.
pub record LeaseCall : Type 0 where
  pub sql : Text
  pub window_active : Bool
  pub window_remaining_ms : ℕ

-- What the call finds: the clock, the lease if there is one, the code and the text of the error if
-- there is none, and whether messages to the client can be queued and flushed, and those to the
-- upstream sent.
pub record World : Type 0 where
  pub now : ℕ
  pub acquire : LeaseCall → Option Lease
  pub refusal_code : String
  pub refusal_text : String
  pub send_works : Bool
  pub flush_works : Bool
  pub upstream_works : Bool

-- The results `handled` and whether there is an error, with the messages to the client and whether
-- the rejection was recorded.
pub record Handled : Type 0 where
  pub handled : Bool
  pub failed : Bool
  pub replies : List Reply
  pub rejection : Bool

abbrev pub forward : Handled
forward = record { handled = false; failed = false; replies = []; rejection = false }

abbrev pub swallow : Handled
swallow = record { handled = true; failed = false; replies = []; rejection = false }

abbrev pub no_lease : Handled
no_lease = record { handled = false; failed = true; replies = []; rejection = false }

-- After replies and a flush, which if it fails leaves the message to the caller.
abbrev pub answer : World → Bool → List Reply → Handled
answer w rejection replies = record {
  handled = w.flush_works;
  failed = false;
  replies = replies;
  rejection = rejection;
}

abbrev pub is_write : Traffic → Bool
is_write Traffic.write = true
is_write _ = false

abbrev pub is_idle : TxState → Bool
is_idle TxState.idle = true
is_idle _ = false

-- In a failed transaction.
unfoldable pub handle_failed : World → Message → State → Handled × State
handle_failed w (query sql) s =
    if is_rollback sql then (forward, record s { awaiting_rollback_result = true }) else (
      answer w false (
          error "25P02"
            "[grunyas] current transaction is aborted, commands ignored until end of transaction block"
          ∷ ready_for_query b'E'
          ∷ []),
      s,
    )
handle_failed w (parse name sql) s = (swallow, s)
handle_failed w sync s = (answer w false (ready_for_query b'E' ∷ []), s)
handle_failed w terminate s = (forward, s)
handle_failed w extended s = (swallow, s)

unfoldable pub lease_call : World → Text → State → LeaseCall
lease_call w sql s = record {
  sql = sql;
  window_active = is_active s.window w.now;
  window_remaining_ms = remaining_ms s.window w.now;
}

unfoldable pub with_lease : Lease → State → State
with_lease lease s = record s {
  upstream = true;
  leased_node_id = lease.node_id;
  leased_role = lease.role;
}

-- A message without a text.
unfoldable pub handle_plain : World → State → Handled × State
unfolding lease_call with_lease
handle_plain w s = if s.upstream then (forward, s) else elim (w.acquire (lease_call w [] s)) [
  | none ↦ (no_lease, s)
  | some lease ↦ (forward, with_lease lease s)
]

-- A write while the lease is on a replica.
unfoldable pub is_reclassified : Text → Class → State → Bool
is_reclassified sql cls s =
    s.upstream
    && (str_eq s.leased_role "replica"
        && (is_write cls.type && (not (is_commit sql) && not (is_rollback sql))))

-- if isRollback(sql) { sess.awaitingRollbackResult = true }
unfoldable pub track_rollback : Text → State → State
track_rollback sql s = if is_rollback sql then record s { awaiting_rollback_result = true } else s

-- The state of the transaction after a statement that goes to a lease that was there.
unfoldable pub inherit : Class → State → State
inherit cls s =
    if is_write cls.type
    then record s { tx_state = TxState.in_transaction_write }
    else if is_idle s.tx_state
    then record s { tx_state = TxState.in_transaction_read }
    else s

-- A statement, with the state after its classification.
unfoldable pub handle_first : World → Text → Class → State → Handled × State
unfolding lease_call with_lease track_rollback
handle_first w sql cls s = elim (w.acquire (lease_call w sql s)) [
  | none ↦ (no_lease, s)
  | some lease ↦ (
    forward,
    track_rollback sql (record (with_lease lease s) {
      first_class = cls.type;
      tx_state =
          if is_write cls.type then TxState.in_transaction_write else TxState.in_transaction_read;
    }),
  )
]

-- A statement, with the replies of a rejection: those of Parse, or those of Query.
unfoldable pub handle_statement : World → List Reply → Text → Class → State → Handled × State
unfolding is_reclassified handle_first inherit track_rollback
handle_statement w replies sql cls s =
    if is_reclassified sql cls s
    then (answer w true replies, record s { tx_state = TxState.in_failed_transaction })
    else if s.upstream
    then (forward, track_rollback sql (inherit cls s))
    else handle_first w sql cls s

abbrev pub rejection_error : Reply
rejection_error =
    error "25006" "[grunyas] write attempted in transaction leased to replica (compat port)"

abbrev pub query_rejection : List Reply
query_rejection = rejection_error ∷ ready_for_query b'E' ∷ []

abbrev pub parse_rejection : List Reply
parse_rejection = rejection_error ∷ []

-- `Classify` with the session's transaction and its map, which it may change.
unfoldable pub classify_compat : Statement → State → Class × State
classify_compat stmt s =
    let (cls, sess) =
      classify stmt (record { port = Port.compat; tx_state = s.tx_state; prepared = s.prepared }) in
    (cls, record s { prepared = sess.prepared })

unfoldable pub handle_live : World → Message → State → Handled × State
unfolding handle_plain handle_statement classify_compat
handle_live w (query sql) s =
    let (cls, s') = classify_compat (record { name = ""; sql = sql }) s in
    handle_statement w query_rejection sql cls s'
handle_live w (parse name sql) s =
    let (cls, s') = classify_compat (record { name = name; sql = sql }) s in
    handle_statement w parse_rejection sql cls s'
handle_live w sync s = handle_plain w s
handle_live w terminate s = handle_plain w s
handle_live w extended s = handle_plain w s

abbrev pub is_failed : TxState → Bool
is_failed TxState.in_failed_transaction = true
is_failed _ = false

unfoldable pub handle_compat_sql : World → Message → State → Handled × State
unfolding handle_failed handle_live
handle_compat_sql w msg s =
    if is_failed s.tx_state then handle_failed w msg s else handle_live w msg s

unfoldable pub reset_compat_state : State → State
reset_compat_state s = record s {
  tx_state = TxState.idle;
  first_class = Traffic.unknown;
  leased_node_id = "";
  leased_role = "";
  awaiting_rollback_result = false;
}

-- The status of a ReadyForQuery; another byte changes nothing, as 'T' does.
pub data TxStatus : Type 0 where
  idle in_transaction failed : TxStatus

unfoldable pub open_window : ℕ → State → State
open_window now s =
    if not s.awaiting_rollback_result && (is_write s.first_class && str_eq s.leased_role "primary")
    then record s { window = record s.window { opened_at = some now } }
    else s

unfoldable pub handle_ready_for_query : ℕ → TxStatus → State → State
unfolding open_window reset_compat_state
handle_ready_for_query now TxStatus.idle s = reset_compat_state (open_window now s)
handle_ready_for_query now in_transaction s = s
handle_ready_for_query now failed s = record s {
  tx_state = TxState.in_failed_transaction;
  first_class = Traffic.unknown;
}
