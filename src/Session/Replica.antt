-- ===== src/Session/Replica.antt =====
-- What `handleCompatSQL` of internal/server/session/session.go lets through to a replica.
use grunyas.Prelude.{
  All-append, ◌≡◌, Bool, true, false, not, ◌||◌, List, [], ◌∷◌, arith, All, Bool-cases, if-holds,
  str_eq, inl, inr,
}
use grunyas.Classifier.Text.{Text}
use grunyas.Classifier.Statement.{Class, Statement, classify, classify_by_keyword, cached, remember}
use grunyas.Session.Boundary.{is_commit, is_rollback}
use grunyas.Session.Compat.{
  query_rejection, parse_rejection, Message, query, parse, sync, terminate, extended, State, World,
  Handled, TxStatus, in_transaction, failed, handle_compat_sql, handle_failed, handle_live,
  handle_ready_for_query, is_failed, is_write, handle_plain, handle_statement, classify_compat,
  is_reclassified, track_rollback, inherit, Reply,
}
use grunyas.Session.Failed.{Event, client, server, forwarded, step, run}

-- The session holds a lease on a replica.
abbrev pub OnReplica : State → Type 0
OnReplica s = (s.upstream ≡ true) × (str_eq s.leased_role "replica" ≡ true)

-- A flush that works, and a status that does not end the transaction.
abbrev pub keeps_lease : Event → Bool
keeps_lease (client w m) = w.flush_works
keeps_lease (server now TxStatus.idle) = false
keeps_lease (server now in_transaction) = true
keeps_lease (server now failed) = true

-- A query that its keyword shows as no write, or that ends the transaction; or another message.
abbrev pub is_allowed : Message → Bool
is_allowed (query sql) =
    not (is_write (classify_by_keyword sql).type) || (is_commit sql || is_rollback sql)
is_allowed _ = true

write_by_keyword :
    (sql : Text) (s : State)
    → is_write (classify_by_keyword sql).type ≡ true
    → is_write (classify_compat (record { name = ""; sql = sql }) s).0.type ≡ true
unfolding classify_compat classify cached remember
write_by_keyword sql s h = ground (arith, h)

statement-OnReplica :
    (w : World) (replies : List Reply) (sql : Text) (cls : Class) (s : State)
    → OnReplica s
    → OnReplica (handle_statement w replies sql cls s).1
unfolding handle_statement track_rollback inherit is_reclassified
statement-OnReplica w replies sql cls s (u, r) = (ground (arith, u, r), ground (arith, u, r))

statement-allowed :
    (w : World) (replies : List Reply) (sql : Text) (cls : Class) (s : State)
    → OnReplica s
    → w.flush_works ≡ true
    → is_write cls.type ≡ true
    → (is_commit sql || is_rollback sql) ≡ false
    → (handle_statement w replies sql cls s).0.handled ≡ true
unfolding handle_statement is_reclassified
statement-allowed w replies sql cls s (u, r) f c b = ground (arith, u, r, f, c, b)

-- A statement after its classification, with the replies of a rejection.
statement_after-OnReplica :
    (w : World) (replies : List Reply) (stmt : Statement) (s : State)
    → OnReplica s
    → OnReplica
        (handle_statement w replies stmt.sql
          (classify_compat stmt s).0
          (classify_compat stmt s).1).1
statement_after-OnReplica w replies stmt s h =
    statement-OnReplica w replies stmt.sql (classify_compat stmt s).0 (classify_compat stmt s).1
      (unfold classify_compat in h)

plain-OnReplica : (w : World) (s : State) → OnReplica s → OnReplica (handle_plain w s).1
unfolding handle_plain
plain-OnReplica w s (u, r) = (ground (arith, u, r), ground (arith, u, r))

failed-OnReplica :
    (w : World) (m : Message) (s : State) → OnReplica s → OnReplica (handle_failed w m s).1
unfolding handle_failed
failed-OnReplica w (query sql) s h =
    if-holds (λ (r : Handled × State). OnReplica r.1) (is_rollback sql) (λ b. h) (λ b. h)
failed-OnReplica w (parse name sql) s h = h
failed-OnReplica w sync s h = h
failed-OnReplica w terminate s h = h
failed-OnReplica w extended s h = h

live-OnReplica :
    (w : World) (m : Message) (s : State) → OnReplica s → OnReplica (handle_live w m s).1
unfolding handle_live
live-OnReplica w (query sql) s h =
    statement_after-OnReplica w query_rejection (record { name = ""; sql = sql }) s h
live-OnReplica w (parse name sql) s h =
    statement_after-OnReplica w parse_rejection (record { name = name; sql = sql }) s h
live-OnReplica w sync s h = plain-OnReplica w s h
live-OnReplica w terminate s h = plain-OnReplica w s h
live-OnReplica w extended s h = plain-OnReplica w s h

handle-OnReplica :
    (w : World) (m : Message) (s : State) → OnReplica s → OnReplica (handle_compat_sql w m s).1
unfolding handle_compat_sql
handle-OnReplica w m s h =
    if-holds (λ (r : Handled × State). OnReplica r.1) (is_failed s.tx_state)
      (λ f. failed-OnReplica w m s h) (λ f. live-OnReplica w m s h)

-- A query that is not allowed is handled by the session itself.
query-handled :
    (w : World) (sql : Text) (s : State)
    → OnReplica s
    → w.flush_works ≡ true
    → is_allowed (query sql) ≡ false
    → (handle_compat_sql w (query sql) s).0.handled ≡ true
unfolding handle_compat_sql handle_failed handle_live
query-handled w sql s h f a =
    let stmt : Statement = record { name = ""; sql = sql } in
    let c : is_write (classify_by_keyword sql).type ≡ true = ground (arith, a) in
    let b : (is_commit sql || is_rollback sql) ≡ false = ground (arith, a) in
    if-holds (λ (r : Handled × State). r.0.handled ≡ true) (is_failed s.tx_state)
      (λ t. ground (arith, f, b))
      (λ t.
        statement-allowed w query_rejection sql (classify_compat stmt s).0
          (classify_compat stmt s).1 (unfold classify_compat in h) f (write_by_keyword sql s c) b)

forwarded-allowed :
    (m : Message) (h : Handled)
    → (is_allowed m ≡ false → h.handled ≡ true)
    → All (λ m. is_allowed m ≡ true) (forwarded m h)
forwarded-allowed m h f =
    if-holds (All (λ m. is_allowed m ≡ true)) (h.handled || h.failed) (λ d. tt)
      λ d. elim (Bool-cases (is_allowed m)) [
        | inl a ↦ (a, tt)
        | inr a ↦ absurd (ground (arith, d, f a))
      ]

message-handled :
    (w : World) (m : Message) (s : State)
    → OnReplica s
    → w.flush_works ≡ true
    → is_allowed m ≡ false
    → (handle_compat_sql w m s).0.handled ≡ true
message-handled w (query sql) s h f a = query-handled w sql s h f a
message-handled w (parse name sql) s h f a = absurd (ground (arith, a))
message-handled w sync s h f a = absurd (ground (arith, a))
message-handled w terminate s h f a = absurd (ground (arith, a))
message-handled w extended s h f a = absurd (ground (arith, a))

step-Replica :
    (e : Event) (s : State)
    → keeps_lease e ≡ true
    → OnReplica s
    → All (λ m. is_allowed m ≡ true) (step e s).0 × OnReplica (step e s).1
unfolding step handle_ready_for_query
step-Replica (server now TxStatus.idle) s k h = absurd (ground (arith, k))
step-Replica (server now in_transaction) s k h = (tt, h)
step-Replica (server now failed) s k h = (tt, h)
step-Replica (client w m) s k h = (
  forwarded-allowed m (handle_compat_sql w m s).0 (message-handled w m s h k),
  handle-OnReplica w m s h,
)

-- While the session holds a lease on a replica, each query that is let through to the upstream is no
-- write by its keyword, or is a COMMIT or a ROLLBACK, whatever messages the session is called with,
-- as long as replies can be flushed and the server does not report that the transaction has ended;
-- and the session keeps the lease.
pub replica_run_has_no_write :
    (es : List Event) (s : State)
    → All (λ e. keeps_lease e ≡ true) es
    → OnReplica s
    → All (λ m. is_allowed m ≡ true) (run es s).0 × OnReplica (run es s).1
unfolding run
replica_run_has_no_write [] s k h = (tt, h)
replica_run_has_no_write (e ∷ es) s (k, ks) h =
    let (out, h') = step-Replica e s k h in
    let (more, h'') = replica_run_has_no_write es (step e s).1 ks h' in
    (All-append (λ m. is_allowed m ≡ true) (step e s).0 (run es (step e s).1).0 out more, h'')
