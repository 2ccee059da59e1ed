-- ===== src/Session/Loop.antt =====
-- `Run` of internal/server/session/session.go, with `acquireUpstream`, `releaseUpstream` and
-- `messaging.Process`: the loop over the messages of the client and of the upstream. The connection
-- held is the field `upstream`. A message of the upstream comes only while one is held, since its
-- read loop ends with it. A return of `Run` sets `ended`.
use grunyas.Prelude.{
  ℕ, Bool, true, false, not, ◌&&◌, ◌||◌, Option, none, some, List, [], ◌∷◌, ◌++◌, if◌then◌else◌,
}
use grunyas.Classifier.Text.{Text}
use grunyas.Classifier.Statement.{Port, TxState, classify}
use grunyas.Session.Boundary.{is_transaction_start}
use grunyas.Messaging.SessionState.{query_uses_session_state}
use grunyas.Session.Compat.{
  Message, query, parse, terminate, Reply, error, fatal, command_complete, ready_for_query, State,
  World, Handled, TxStatus, in_transaction, handle_compat_sql, handle_ready_for_query, is_write,
  with_lease,
}

pub data PoolMode : Type 0 where
  session transaction : PoolMode

-- A message of the server: ReadyForQuery, one after which the loop flushes, or another.
pub data Backend : Type 0 where
  ready : TxStatus → Backend
  flushed other : Backend

-- What the session does to the outside.
pub data Action : Type 0 where
  reply : Reply → Action
  pass : Backend → Action
  send : Message → Action
  acquire release reject_read reject_compat : Action

pub record Loop : Type 0 where
  pub port : Port
  pub pool_mode : PoolMode
  pub pending_begin : Option Text
  pub swallowing : Bool
  pub ended : Bool
  pub compat : State

abbrev pub is_compat : Port → Bool
is_compat Port.compat = true
is_compat _ = false

abbrev pub is_read : Port → Bool
is_read Port.read = true
is_read _ = false

abbrev pub is_transaction_mode : PoolMode → Bool
is_transaction_mode transaction = true
is_transaction_mode session = false

abbrev pub is_none {ℓ} : {A : Type ℓ} → Option A → Bool
is_none none = true
is_none (some a) = false

abbrev pub sql_of : Message → Text
sql_of (query sql) = sql
sql_of (parse name sql) = sql
sql_of _ = []

abbrev pub replies : List Reply → List Action
replies [] = []
replies (r ∷ rs) = reply r ∷ replies rs

-- The actions so far, and the state.
abbrev pub Result : Type 0
Result = List Action × Loop

abbrev pub held : Loop → Bool
held l = l.compat.upstream

-- `releaseUpstream`; whether the connection goes back or is killed is the pool's.
unfoldable pub release_upstream : List Action → Loop → Result
release_upstream out l =
    if held l
    then (out ++ (release ∷ []), record l { compat = record l.compat { upstream = false } })
    else (out, l)

-- A return of `Run`, with its deferred calls.
unfoldable pub finish : List Action → Loop → Result
unfolding release_upstream
finish out l = release_upstream out (record l { ended = true })

-- Replies to the client, after which the loop goes on if they are flushed.
unfoldable pub answer_and : World → List Action → Loop → Result
unfolding finish
answer_and w out l = if w.flush_works then (out, l) else finish out l

-- The check on the read port: a fresh session state, and no name.
unfoldable pub is_read_port_write : Port → Message → Bool
is_read_port_write port m =
    is_read port
    && is_write
        (classify (record { name = ""; sql = sql_of m })
          (record { port = Port.read; tx_state = TxState.idle; prepared = none })).0.type

abbrev pub read_rejection : List Action
read_rejection =
    reply (error "25006" "[grunyas] write attempted on read port")
    ∷ reply (ready_for_query b'I')
    ∷ []

unfoldable pub reject_read_write : World → Loop → Result
unfolding finish
reject_read_write w l =
    if w.flush_works then (read_rejection ++ (reject_read ∷ []), l) else finish read_rejection l

-- A query that starts a transaction on the compat port while no start is pending.
unfoldable pub buffers_begin : Message → Loop → Bool
buffers_begin (query sql) l =
    is_compat l.port && (is_transaction_start sql && is_none l.pending_begin)
buffers_begin _ l = false

abbrev pub begin_answer : List Action
begin_answer = reply (command_complete "BEGIN") ∷ reply (ready_for_query b'T') ∷ []

abbrev pub buffered : Message → Loop → Loop
buffered m l = record l { pending_begin = some (sql_of m) }

unfoldable pub buffer_begin : World → Message → Loop → Result
unfolding finish answer_and
buffer_begin w m l =
    if w.send_works then answer_and w begin_answer (buffered m l) else finish [] (buffered m l)

-- `acquireUpstream` on the write and the read port: the actions and whether there is an error.
unfoldable pub acquire_upstream : World → Loop → List Action × Bool × Loop
unfolding with_lease
acquire_upstream w l =
    if held l
    then ([], false, l)
    else elim (w.acquire (record { sql = []; window_active = false; window_remaining_ms = 0 })) [
      | none ↦ ([], true, l)
      | some lease ↦
          (acquire ∷ [], false, record l { compat = record l.compat { upstream = true } })
    ]

-- What a call of handleCompatSQL does: it takes a connection if there was none and now is one.
unfoldable pub compat_actions : Handled → State → State → List Action
compat_actions h s s' =
    (if not s.upstream && s'.upstream then acquire ∷ [] else [])
    ++ ((if h.rejection then reject_compat ∷ [] else []) ++ replies h.replies)

-- An error of the acquisition.
abbrev pub fatal_answer : World → List Action
fatal_answer w = reply (fatal w.refusal_code w.refusal_text) ∷ []

abbrev pub refused_begin : World → List Action
refused_begin w = reply (error w.refusal_code w.refusal_text) ∷ reply (ready_for_query b'I') ∷ []

unfoldable pub refuse : World → List Action → Loop → Result
unfolding answer_and finish
refuse w out l = elim l.pending_begin [
  | none ↦ finish (out ++ fatal_answer w) l
  | some sql ↦ answer_and w (out ++ refused_begin w) (record l { pending_begin = none })
]

-- `messaging.Process`: whether the message needs the session mode.
unfoldable pub needs_session : Message → Bool
needs_session (query sql) = query_uses_session_state sql
needs_session _ = false

-- The buffered start of a transaction and the message, to the upstream.
abbrev pub sent_begin : Option Text → List Action
sent_begin none = []
sent_begin (some sql) = send (query sql) ∷ []

abbrev pub after_forward : Message → Loop → Loop
after_forward m l = record l {
  swallowing = not (is_none l.pending_begin) || l.swallowing;
  pending_begin = none;
  pool_mode = if needs_session m then session else l.pool_mode;
}

-- A message that cannot be sent and one that cannot be flushed end the session alike.
unfoldable pub forward_message : World → List Action → Message → Loop → Result
unfolding finish
forward_message w out m l =
    if w.upstream_works
    then (out ++ (sent_begin l.pending_begin ++ (send m ∷ [])), after_forward m l)
    else finish out l

-- With a connection or an error.
unfoldable pub with_upstream : World → Message → List Action → Bool → Bool → Loop → Result
unfolding refuse forward_message
with_upstream w m out failed handled l =
    if failed then refuse w out l else if handled then (out, l) else forward_message w out m l

unfoldable pub route_message : World → Message → Loop → Result
unfolding acquire_upstream compat_actions with_upstream
route_message w m l =
    if is_compat l.port
    then (let (h, s) = handle_compat_sql w m l.compat in
        with_upstream w m (compat_actions h l.compat s) h.failed h.handled
          (record l { compat = s }))
    else let (out, failed, l') = acquire_upstream w l in with_upstream w m out failed false l'

abbrev pub is_terminate : Message → Bool
is_terminate terminate = true
is_terminate _ = false

-- The case of a message from the client.
unfoldable pub on_client : World → Message → Loop → Result
unfolding finish is_read_port_write reject_read_write buffers_begin buffer_begin route_message
on_client w m l =
    if is_terminate m
    then finish [] l
    else if is_read_port_write l.port m
    then reject_read_write w l
    else if buffers_begin m l
    then buffer_begin w m l
    else route_message w m l

abbrev pub is_idle_ready : Backend → Bool
is_idle_ready (ready TxStatus.idle) = true
is_idle_ready _ = false

abbrev pub needs_flush : Backend → Bool
needs_flush other = false
needs_flush _ = true

abbrev pub begin_failed : List Action
begin_failed =
    reply (error "25P02" "[grunyas] upstream BEGIN failed; transaction aborted")
    ∷ reply (ready_for_query b'I')
    ∷ []

-- While the answer to a buffered start of a transaction is kept from the client.
unfoldable pub swallow_message : World → Backend → Loop → Result
unfolding answer_and
swallow_message w (ready in_transaction) l = ([], record l { swallowing = false })
swallow_message w (ready _) l = answer_and w begin_failed (record l { swallowing = false })
swallow_message w flushed l = ([], l)
swallow_message w other l = ([], l)

-- The compat port's book-keeping of a message, in transaction mode.
unfoldable pub track : ℕ → Backend → Loop → Loop
unfolding handle_ready_for_query
track now (ready status) l =
    if is_compat l.port && is_transaction_mode l.pool_mode
    then record l { compat = handle_ready_for_query now status l.compat }
    else l
track now flushed l = l
track now other l = l

-- A message that is sent on to the client.
unfoldable pub pass_message : World → Backend → Loop → Result
unfolding finish track release_upstream
pass_message w b l =
    if not w.send_works
    then finish [] l
    else if needs_flush b && not w.flush_works
    then finish (pass b ∷ []) l
    else let l' = track w.now b l in
      if is_transaction_mode l.pool_mode && is_idle_ready b
      then release_upstream (pass b ∷ []) l'
      else (pass b ∷ [], l')

-- The case of a message from the upstream.
unfoldable pub on_upstream : World → Backend → Loop → Result
unfolding swallow_message pass_message
on_upstream w b l = if l.swallowing then swallow_message w b l else pass_message w b l

pub data Event : Type 0 where
  client : World → Message → Event
  upstream : World → Backend → Event
  give_back stop : Event

-- One round; `stop` is an error of a connection or the end of the context, and `give_back` the request
-- that Close sends before it ends the context. A session that has ended takes no more messages, and without a connection there is none from the upstream.
unfoldable pub round : Event → Loop → Result
unfolding on_client on_upstream release_upstream finish
round e l = if l.ended then ([], l) else elim e [
  | client w m ↦ on_client w m l
  | upstream w b ↦ if held l then on_upstream w b l else ([], l)
  | give_back ↦ release_upstream [] l
  | stop ↦ finish [] l
]

unfoldable pub rounds : List Event → Loop → Result
unfolding round
rounds [] l = ([], l)
rounds (e ∷ es) l =
    let (out, l') = round e l in let (more, l'') = rounds es l' in (out ++ more, l'')
