-- ===== src/Session/ReadPort.antt =====
-- What the loop of internal/server/session/session.go sends to the upstream on the read port.
use grunyas.Prelude.{
  ◌≡◌, refl, Bool, true, false, not, ◌&&◌, none, List, [], ◌∷◌, ◌++◌, arith, if-holds, case-holds,
  All, All-append, ℕ,
}
use grunyas.Classifier.Text.{Text}
use grunyas.Classifier.Statement.{Port, TxState, classify}
use grunyas.Session.Compat.{
  is_write, Message, query, parse, sync, terminate, extended, World, in_transaction, failed,
  TxStatus, query, parse,
}
use grunyas.Session.Loop.{
  sql_of, read_rejection, begin_failed, fatal_answer, Action, pass, send, release, Loop, Result,
  Event, client, upstream, give_back, stop, Backend, ready, flushed, other, held, is_compat,
  is_read, is_transaction_mode, is_idle_ready, needs_flush, is_terminate, is_read_port_write,
  buffers_begin, release_upstream, finish, answer_and, reject_read_write, acquire_upstream, refuse,
  forward_message, with_upstream, route_message, on_client, swallow_message, pass_message, track,
  on_upstream, round, rounds,
}

-- A text that the classifier takes for a write on the read port.
abbrev pub is_write_text : Text → Bool
is_write_text sql =
    is_write
      (classify (record { name = ""; sql = sql })
        (record { port = Port.read; tx_state = TxState.idle; prepared = none })).0.type

-- No write by its keyword, and no message without a text, which counts as a write.
abbrev pub is_read_action : Action → Bool
is_read_action (send m) = not (is_write_text (sql_of m))
is_read_action _ = true

abbrev IsReading : List Action → Type 0
IsReading = All (λ a. is_read_action a ≡ true)

abbrev pub IsReadSession : Loop → Type 0
IsReadSession l = (is_read l.port ≡ true) × (l.pending_begin ≡ none)

abbrev IsReadResult : Result → Type 0
IsReadResult (out, l) = IsReading out × IsReadSession l

read_not_compat : (p : Port) → is_read p ≡ true → is_compat p ≡ false
read_not_compat Port.write e = refl
read_not_compat Port.read e = refl
read_not_compat Port.compat e = cc
read_not_compat (Port.other p) e = refl

release_upstream-IsReadResult :
    (out : List Action) (l : Loop) → IsReadResult (out, l) → IsReadResult (release_upstream out l)
unfolding release_upstream
release_upstream-IsReadResult out l (a, s) =
    if-holds IsReadResult (held l)
      (λ h. (All-append (λ a. is_read_action a ≡ true) out (release ∷ []) a (refl, tt), s))
      (λ h. (a, s))

finish-IsReadResult :
    (out : List Action) (l : Loop) → IsReadResult (out, l) → IsReadResult (finish out l)
unfolding finish
finish-IsReadResult out l r = release_upstream-IsReadResult out (record l { ended = true }) r

answer_and-IsReadResult :
    (w : World) (out : List Action) (l : Loop)
    → IsReadResult (out, l)
    → IsReadResult (answer_and w out l)
unfolding answer_and
answer_and-IsReadResult w out l r =
    if-holds IsReadResult w.flush_works (λ f. r) (λ f. finish-IsReadResult out l r)

reject_read_write-IsReadResult :
    (w : World) (l : Loop) → IsReadSession l → IsReadResult (reject_read_write w l)
unfolding reject_read_write
reject_read_write-IsReadResult w l s =
    if-holds IsReadResult w.flush_works (λ f. ((refl, (refl, (refl, tt))), s))
      (λ f. finish-IsReadResult read_rejection l ((refl, (refl, tt)), s))

with_upstream-IsReadResult :
    (w : World) (m : Message) (out : List Action) (refused : Bool) (l : Loop)
    → is_write_text (sql_of m) ≡ false
    → IsReadResult (out, l)
    → IsReadResult (with_upstream w m out refused false l)
unfolding with_upstream refuse forward_message
with_upstream-IsReadResult w m out refused l r (a, (p, b)) =
    if-holds IsReadResult refused
      (λ f.
        case-holds IsReadResult l.pending_begin
          (λ n.
            finish-IsReadResult (out ++ fatal_answer w) l
              (All-append (λ a. is_read_action a ≡ true) out (fatal_answer w) a (refl, tt), (p, b)))
          (λ sql n. absurd (ground (arith, n, b))))
      λ f.
        if-holds IsReadResult w.upstream_works
          (λ u. (
            All-append (λ a. is_read_action a ≡ true) out _ a (rw b (ground (arith, r), tt)),
            (p, refl),
          ))
          (λ u. finish-IsReadResult out l (a, (p, b)))

acquire_upstream-IsReadResult :
    (w : World) (l : Loop)
    → IsReadSession l
    → let (out, refused, l') = acquire_upstream w l in IsReadResult (out, l')
unfolding acquire_upstream
acquire_upstream-IsReadResult w l s =
    if-holds (λ (r : List Action × Bool × Loop). IsReadResult (r.0, r.2)) (held l) (λ u. (tt, s))
      λ u.
        case-holds (λ (r : List Action × Bool × Loop). IsReadResult (r.0, r.2)) (w.acquire _)
          (λ k. (tt, s)) (λ lease k. ((refl, tt), s))

route_message-IsReadResult :
    (w : World) (m : Message) (l : Loop)
    → is_write_text (sql_of m) ≡ false
    → IsReadSession l
    → IsReadResult (route_message w m l)
unfolding route_message
route_message-IsReadResult w m l r s =
    if-holds IsReadResult (is_compat l.port)
      (λ c. absurd (ground (arith, c, read_not_compat l.port s.0)))
      λ c.
        let a = acquire_upstream w l in
        with_upstream-IsReadResult w m a.0 a.1 a.2 r (acquire_upstream-IsReadResult w l s)

buffers_begin-compat :
    (m : Message) (l : Loop) → is_compat l.port ≡ false → buffers_begin m l ≡ false
unfolding buffers_begin
buffers_begin-compat (query sql) l c = ground (arith, c)
buffers_begin-compat (parse name sql) l c = refl
buffers_begin-compat sync l c = refl
buffers_begin-compat terminate l c = refl
buffers_begin-compat extended l c = refl

same_check :
    (p : Port) (m : Message)
    → is_read p ≡ true
    → is_read_port_write p m ≡ false
    → is_write_text (sql_of m) ≡ false
unfolding is_read_port_write
same_check p m e r = ground (arith, e, r)

on_client-IsReadResult :
    (w : World) (m : Message) (l : Loop) → IsReadSession l → IsReadResult (on_client w m l)
unfolding on_client
on_client-IsReadResult w m l s =
    if-holds IsReadResult (is_terminate m) (λ t. finish-IsReadResult [] l (tt, s))
      λ t.
        if-holds IsReadResult (is_read_port_write l.port m)
          (λ r. reject_read_write-IsReadResult w l s)
          λ r.
            if-holds IsReadResult (buffers_begin m l)
              (λ b.
                absurd (ground (arith, b, buffers_begin-compat m l (read_not_compat l.port s.0))))
              λ b. route_message-IsReadResult w m l (same_check l.port m s.0 r) s

swallow_message-IsReadResult :
    (w : World) (b : Backend) (l : Loop) → IsReadSession l → IsReadResult (swallow_message w b l)
unfolding swallow_message
swallow_message-IsReadResult w (ready TxStatus.idle) l s =
    answer_and-IsReadResult w begin_failed (record l { swallowing = false }) ((refl, (refl, tt)), s)
swallow_message-IsReadResult w (ready in_transaction) l s = (tt, s)
swallow_message-IsReadResult w (ready failed) l s =
    answer_and-IsReadResult w begin_failed (record l { swallowing = false }) ((refl, (refl, tt)), s)
swallow_message-IsReadResult w flushed l s = (tt, s)
swallow_message-IsReadResult w other l s = (tt, s)

track-IsReadSession :
    (now : ℕ) (b : Backend) (l : Loop) → IsReadSession l → IsReadSession (track now b l)
unfolding track
track-IsReadSession now (ready status) l s =
    if-holds IsReadSession (is_compat l.port && is_transaction_mode l.pool_mode) (λ c. s) (λ c. s)
track-IsReadSession now flushed l s = s
track-IsReadSession now other l s = s

pass_message-IsReadResult :
    (w : World) (b : Backend) (l : Loop) → IsReadSession l → IsReadResult (pass_message w b l)
unfolding pass_message
pass_message-IsReadResult w b l s =
    if-holds IsReadResult (not w.send_works) (λ f. finish-IsReadResult [] l (tt, s))
      λ f.
        if-holds IsReadResult (needs_flush b && not w.flush_works)
          (λ g. finish-IsReadResult (pass b ∷ []) l ((refl, tt), s))
          λ g.
            let t = track-IsReadSession w.now b l s in
            if-holds IsReadResult (is_transaction_mode l.pool_mode && is_idle_ready b)
              (λ d. release_upstream-IsReadResult (pass b ∷ []) (track w.now b l) ((refl, tt), t))
              (λ d. ((refl, tt), t))

round-IsReadResult : (e : Event) (l : Loop) → IsReadSession l → IsReadResult (round e l)
unfolding round on_upstream
round-IsReadResult (client w m) l s =
    if-holds IsReadResult l.ended (λ n. (tt, s)) (λ n. on_client-IsReadResult w m l s)
round-IsReadResult (upstream w b) l s =
    if-holds IsReadResult l.ended (λ n. (tt, s))
      λ n.
        if-holds IsReadResult (held l)
          (λ u.
            if-holds IsReadResult l.swallowing (λ c. swallow_message-IsReadResult w b l s)
              (λ c. pass_message-IsReadResult w b l s))
          (λ u. (tt, s))
round-IsReadResult give_back l s =
    if-holds IsReadResult l.ended (λ n. (tt, s)) (λ n. release_upstream-IsReadResult [] l (tt, s))
round-IsReadResult stop l s =
    if-holds IsReadResult l.ended (λ n. (tt, s)) (λ n. finish-IsReadResult [] l (tt, s))

-- A session of the read port with no start of a transaction kept back: whatever the client, the
-- upstream and the pool do, each message that goes to the upstream is one whose text the classifier
-- does not take for a write.
pub rounds-IsReading :
    (es : List Event) (l : Loop)
    → IsReadSession l
    → All (λ a. is_read_action a ≡ true) (rounds es l).0
unfolding rounds
rounds-IsReading [] l s = tt
rounds-IsReading (e ∷ es) l s =
    let (a, t) = round-IsReadResult e l s in
    All-append (λ a. is_read_action a ≡ true) (round e l).0 (rounds es (round e l).1).0 a
      (rounds-IsReading es (round e l).1 t)
