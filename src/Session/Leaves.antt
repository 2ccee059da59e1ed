-- ===== src/Session/Leaves.antt =====
-- What a call of handleCompatSQL in internal/server/session/session.go leaves of the connection.
use grunyas.Prelude.{◌≡◌, refl, true, false, not, ◌&&◌, ◌||◌, List, arith, if-holds, case-holds}
use grunyas.Classifier.Text.{Text}
use grunyas.Classifier.Statement.{Class, Statement}
use grunyas.Session.Compat.{
  query, parse, sync, terminate, extended, query_rejection, parse_rejection, is_reclassified,
  track_rollback, inherit, with_lease, lease_call, Message, Reply, State, World, Handled, is_failed,
  handle_compat_sql, handle_failed, handle_live, handle_plain, handle_statement, handle_first,
  classify_compat,
}

-- The part of the state that tells whether a failed transaction has its connection.
abbrev pub IsHeld : State → Type 0
IsHeld s = (s.upstream || not (is_failed s.tx_state)) ≡ true

-- What a call of handleCompatSQL leaves.
abbrev pub Leaves : State → Handled × State → Type 0
Leaves s (h, s') =
    IsHeld s'
    × ((s.upstream && not s'.upstream) ≡ false)
    × ((h.handled || (h.failed || s'.upstream)) ≡ true)

handle_plain-Leaves :
    (w : World) (s : State) → IsHeld s → is_failed s.tx_state ≡ false → Leaves s (handle_plain w s)
unfolding handle_plain
handle_plain-Leaves w s i f =
    if-holds (Leaves s) s.upstream (λ u. (ground (arith, u), ground (arith, u), ground (arith, u)))
      λ u.
        case-holds (Leaves s) (w.acquire _) (λ n. (i, ground (arith, u), refl))
          (λ lease n. (refl, ground (arith, u), refl))

handle_first-Leaves :
    (w : World) (sql : Text) (cls : Class) (s : State)
    → IsHeld s
    → s.upstream ≡ false
    → Leaves s (handle_first w sql cls s)
unfolding handle_first with_lease track_rollback
handle_first-Leaves w sql cls s i u =
    case-holds (Leaves s) (w.acquire (lease_call w sql s)) (λ n. (i, ground (arith, u), refl))
      (λ lease n. (ground (arith, u), ground (arith, u), ground (arith, u)))

handle_statement-Leaves :
    (w : World) (rs : List Reply) (sql : Text) (cls : Class) (s : State)
    → IsHeld s
    → Leaves s (handle_statement w rs sql cls s)
unfolding handle_statement is_reclassified track_rollback inherit
handle_statement-Leaves w rs sql cls s i =
    if-holds (Leaves s) (is_reclassified sql cls s)
      (λ r.
        let u = reclassified_held sql cls s r in
        (ground (arith, u), ground (arith, u), ground (arith, u)))
      λ r.
        if-holds (Leaves s) s.upstream
          (λ u. (ground (arith, u), ground (arith, u), ground (arith, u)))
          (λ u. handle_first-Leaves w sql cls s i u)
  where
    reclassified_held :
        (sql : Text) (cls : Class) (s : State)
        → is_reclassified sql cls s ≡ true
        → s.upstream ≡ true
    reclassified_held sql cls s r = ground (arith, r)

statement_after-Leaves :
    (w : World) (rs : List Reply) (stmt : Statement) (s : State)
    → IsHeld s
    → Leaves s
        (handle_statement w rs stmt.sql (classify_compat stmt s).0 (classify_compat stmt s).1)
unfolding classify_compat
statement_after-Leaves w rs stmt s i =
    handle_statement-Leaves w rs stmt.sql (classify_compat stmt s).0 (classify_compat stmt s).1 i

handle_live-Leaves :
    (w : World) (m : Message) (s : State)
    → IsHeld s
    → is_failed s.tx_state ≡ false
    → Leaves s (handle_live w m s)
unfolding handle_live classify_compat
handle_live-Leaves w (query sql) s i f =
    statement_after-Leaves w query_rejection (record { name = ""; sql = sql }) s i
handle_live-Leaves w (parse name sql) s i f =
    statement_after-Leaves w parse_rejection (record { name = name; sql = sql }) s i
handle_live-Leaves w sync s i f = handle_plain-Leaves w s i f
handle_live-Leaves w terminate s i f = handle_plain-Leaves w s i f
handle_live-Leaves w extended s i f = handle_plain-Leaves w s i f

handle_failed-Leaves :
    (w : World) (m : Message) (s : State) → s.upstream ≡ true → Leaves s (handle_failed w m s)
unfolding handle_failed
handle_failed-Leaves w (query sql) s u = (ground (arith, u), ground (arith, u), ground (arith, u))
handle_failed-Leaves w (parse name sql) s u = (ground (arith, u), ground (arith, u), refl)
handle_failed-Leaves w sync s u = (ground (arith, u), ground (arith, u), ground (arith, u))
handle_failed-Leaves w terminate s u = (ground (arith, u), ground (arith, u), ground (arith, u))
handle_failed-Leaves w extended s u = (ground (arith, u), ground (arith, u), refl)

pub handle_compat_sql-Leaves :
    (w : World) (m : Message) (s : State) → IsHeld s → Leaves s (handle_compat_sql w m s)
unfolding handle_compat_sql
handle_compat_sql-Leaves w m s i =
    if-holds (Leaves s) (is_failed s.tx_state)
      (λ f. handle_failed-Leaves w m s (ground (arith, i, f))) (λ f. handle_live-Leaves w m s i f)
