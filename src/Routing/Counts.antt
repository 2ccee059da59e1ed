-- ===== src/Routing/Counts.antt =====
-- How the operations of internal/routing/pipeline.go count: each decision has one outcome.
use grunyas.Prelude.{
  ℕ, ◌+◌, ◌≡◌, refl, String, Option, none, some, arith, ◌&&◌, ◌||◌, if-holds, case-holds,
}
use grunyas.Decisions.Events.{Stamp, Event}
use grunyas.Classifier.Statement.{Class}
use grunyas.Topology.Types.{Err}
use grunyas.Routing.Pipeline.{Pipeline, emit_event, rejected}
use grunyas.Routing.Request.{
  LeaseRequest, LeaseResult, Acquired, Reads, connection, failed, consistency_of_none,
  is_write_class, is_read_class,
}
use grunyas.Topology.View.{PoolLookup, pool, missing, pool_for, primary}
use grunyas.Routing.Filter.{is_write_port, is_compat_port}
use grunyas.Routing.Lease.{
  fallback_event, on_acquired, on_pool, reject, take_connection, fall_back, no_eligible, on_empty,
  split_brain,
}

abbrev pub answered : Pipeline → ℕ
answered p = p.decisions_leased + (p.decisions_rejected + p.decisions_fallback)

abbrev pub to_publish : Pipeline → ℕ
to_publish p = elim p.decisions_bus [ none ↦ 0 | some _ ↦ 1 ]

-- One more outcome, and one more event where there is a bus.
abbrev pub Answers : Pipeline → Pipeline → Type 0
Answers p p' =
    (p'.decisions_total ≡ p.decisions_total)
    × (answered p' ≡ answered p + 1)
    × (p'.published_total ≡ p.published_total + to_publish p)
    × (to_publish p' ≡ to_publish p)

pub emit_event-Answers :
    (stamp : Stamp) (e : Event) (p p' : Pipeline)
    → p'.decisions_total ≡ p.decisions_total
    → answered p' ≡ answered p + 1
    → p'.published_total ≡ p.published_total
    → to_publish p' ≡ to_publish p
    → Answers p (emit_event stamp e p')
unfolding emit_event
emit_event-Answers stamp e p p' t a s b =
    (ground (arith, t), ground (arith, a), ground (arith, s, b), ground (arith, b))

module _ {U : Type 0} (acquire : String → Acquired U) (stamp : Stamp) (reads : Reads) where
  abbrev Answered : Pipeline → LeaseResult U × Pipeline → Type 0
  Answered p (r, p') = Answers p p'

  pub reject-Answers :
      (node_id code message : String) (cause : Option Err) (reason : String) (e : Event)
      (p : Pipeline)
      → Answered p (reject acquire stamp reads node_id code message cause reason e p)
  unfolding reject
  reject-Answers node_id code message cause reason e p =
      emit_event-Answers stamp (record e { outcome = rejected code reason }) p
        (record p { decisions_rejected = p.decisions_rejected + 1 }) refl (omega arith) refl refl

  on_acquired-Answers :
      (chosen : String) (e granted : Event) (p p' : Pipeline) (r : Acquired U)
      → Answers p (emit_event stamp granted p')
      → Answered p (on_acquired acquire stamp reads chosen e granted p p' r)
  unfolding on_acquired
  on_acquired-Answers chosen e granted p p' (failed err) h =
      reject-Answers chosen "53300" "[grunyas] pool saturated" (some err) "pool:acquisition_failed"
        e p
  on_acquired-Answers chosen e granted p p' (connection upstream) h = h

  pub on_pool-Answers :
      (chosen : String) (e granted : Event) (p p' : Pipeline) (l : PoolLookup)
      → Answers p (emit_event stamp granted p')
      → Answered p (on_pool acquire stamp reads chosen e granted p p' l)
  unfolding on_pool
  on_pool-Answers chosen e granted p p' (missing err) h =
      reject-Answers chosen "57P03" "[grunyas] no upstream available" (some err)
        "pool_lookup_failed" e p
  on_pool-Answers chosen e granted p p' (pool name) h =
      on_acquired-Answers chosen e granted p p' (acquire name) h

  no_eligible-Answers :
      (req : LeaseRequest) (cls : Class) (e : Event) (p : Pipeline)
      → Answered p (no_eligible acquire stamp reads req cls e p)
  unfolding no_eligible
  no_eligible-Answers req cls e p =
      let e' = record e { consistency = consistency_of_none req cls } in
      if-holds (Answered p)
        (is_write_port req.port || (is_compat_port req.port && is_write_class cls))
        (λ w. reject-Answers "" "57P03" "[grunyas] no primary available" none "no_primary" e' p)
        (λ w.
          reject-Answers "" "57P03" "[grunyas] no eligible replica available" none
            "no_eligible_replica" e' p)

  fall_back-Answers :
      (chosen : String) (e : Event) (p : Pipeline)
      → Answered p (fall_back acquire stamp reads chosen e p)
  unfolding fall_back take_connection
  fall_back-Answers chosen e p =
      on_pool-Answers chosen (fallback_event chosen e) (fallback_event chosen e) p
        (record p { decisions_fallback = p.decisions_fallback + 1 })
        (pool_for reads.pool_at.topology chosen)
        (emit_event-Answers stamp _ p (record p { decisions_fallback = p.decisions_fallback + 1 })
          refl (omega arith) refl refl)

  pub on_empty-Answers :
      (req : LeaseRequest) (cls : Class) (e : Event) (p : Pipeline)
      → Answered p (on_empty acquire stamp reads req cls e p)
  unfolding on_empty
  on_empty-Answers req cls e p =
      if-holds (Answered p) (is_compat_port req.port && is_read_class cls)
        (λ r.
          case-holds (Answered p) (primary reads.primary_at.now reads.primary_at.topology)
            (λ n. no_eligible-Answers req cls e p) (λ nv n. fall_back-Answers nv.id e p))
        (λ r. no_eligible-Answers req cls e p)

  pub split_brain-Answers :
      (e : Event) (p : Pipeline) → Answered p (split_brain acquire stamp reads e p)
  unfolding split_brain
  split_brain-Answers e p =
      emit_event-Answers stamp _ p (record p { decisions_rejected = p.decisions_rejected + 1 }) refl
        (omega arith) refl refl
