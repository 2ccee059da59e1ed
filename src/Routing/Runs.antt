-- ===== src/Routing/Runs.antt =====
-- Any run of the operations of internal/routing/pipeline.go that make a decision.
use grunyas.Prelude.{
  subst, sym, ◌+◌, ◌≡◌, refl, String, Option, none, some, arith, List, [], ◌∷◌, length, ap,
}
use grunyas.Classifier.Text.{Text}
use grunyas.Decisions.Events.{Stamp}
use grunyas.Routing.Pipeline.{Pipeline, reject_read_port_write, reject_compat_reclassification}
use grunyas.Routing.Request.{LeaseRequest, LeaseResult, Acquired, Reads}
use grunyas.Routing.Lease.{lease}
use grunyas.Routing.Counts.{emit_event-Answers}
use grunyas.Routing.Ledger.{Answers-Decided, Decided-Decided, Decided, lease-Settles}

-- An operation on the pipeline that makes a decision.
pub data Call (U : Type 0) : Type 0 where
  leasing : (String → Acquired U) → Stamp → Reads → LeaseRequest → Call U
  read_port_write : Stamp → Text → String → Call U
  compat_reclassification : Stamp → Text → String → Call U

module _ {U : Type 0} where
  abbrev pipeline_of : Option (LeaseResult U × Pipeline) → Option Pipeline
  pipeline_of none = none
  pipeline_of (some (result, p)) = some p

  unfoldable pub call : Call U → Pipeline → Option Pipeline
  unfolding reject_read_port_write reject_compat_reclassification
  call (leasing acquire stamp reads req) p = pipeline_of (lease acquire stamp reads req p)
  call (read_port_write stamp sql mode) p = some (reject_read_port_write stamp sql mode p).1
  call (compat_reclassification stamp sql mode) p =
      some (reject_compat_reclassification stamp sql mode p).1

  unfoldable pub calls : List (Call U) → Pipeline → Option Pipeline
  unfolding call
  calls [] p = some p
  calls (c ∷ cs) p = elim (call c p) [ none ↦ none | some p' ↦ calls cs p' ]

  call-Decided :
      (c : Call U) (p : Pipeline) → (p' : Pipeline) × (call c p ≡ some p') × Decided 1 p p'
  unfolding call reject_read_port_write reject_compat_reclassification
  call-Decided (leasing acquire stamp reads req) p =
      let ((result, p'), e, answers) = lease-Settles acquire stamp reads req p in
      (p', ap pipeline_of e, Answers-Decided p p p' (refl, refl, refl, refl) answers)
  call-Decided (read_port_write stamp sql mode) p = (
    _,
    refl,
    Answers-Decided p p (reject_read_port_write stamp sql mode p).1 (refl, refl, refl, refl)
        (emit_event-Answers stamp (reject_read_port_write stamp sql mode p).0
          (record p { decisions_total = p.decisions_total + 1 })
          (record p {
            decisions_total = p.decisions_total + 1;
            decisions_rejected = p.decisions_rejected + 1;
          })
          refl (omega arith) refl refl),
  )
  call-Decided (compat_reclassification stamp sql mode) p = (
    _,
    refl,
    Answers-Decided p p (reject_compat_reclassification stamp sql mode p).1 (refl, refl, refl, refl)
        (emit_event-Answers stamp (reject_compat_reclassification stamp sql mode p).0
          (record p { decisions_total = p.decisions_total + 1 })
          (record p {
            decisions_total = p.decisions_total + 1;
            decisions_rejected = p.decisions_rejected + 1;
            compat_reclassification_rejections = p.compat_reclassification_rejections + 1;
          })
          refl (omega arith) refl refl),
  )

  -- No run of decisions panics, and each decision is counted once: the total and the sum of the
  -- outcomes (leased, rejected, fallback) grow by the number of calls, and the published events grow
  -- by as many if there is a bus, and else stay.
  pub calls-Decided :
      (cs : List (Call U)) (p : Pipeline)
      → (p' : Pipeline) × (calls cs p ≡ some p') × Decided (length cs) p p'
  unfolding calls
  calls-Decided [] p = (p, refl, (omega arith, omega arith, omega arith, refl))
  calls-Decided (c ∷ cs) p =
      let (q, e, d) = call-Decided c p in
      let (r, e', d') = calls-Decided cs q in
      (
        r,
        subst
            (λ o.
              ◌≡◌ {A = Option Pipeline} (elim o [ none ↦ none | some p' ↦ calls cs p' ]) (some r))
            (sym e) e',
        Decided-Decided (length cs) p q r d d',
      )
