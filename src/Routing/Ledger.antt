-- ===== src/Routing/Ledger.antt =====
-- The counts of internal/routing/pipeline.go over any run of its operations.
use grunyas.Prelude.{
  is_nil, ℕ, ◌+◌, ◌≡◌, refl, String, Option, none, some, arith, ◌&&◌, not, if-holds, List, [], ◌∷◌,
  length, if◌then◌else◌, ◌*◌, suc, ap,
}
use grunyas.Decisions.Events.{Stamp, Event}
use grunyas.Classifier.Statement.{Class, Port}
use grunyas.Topology.View.{nodes, pool_for}
use grunyas.Routing.Pipeline.{Pipeline, is_valid_port, classify_for, classification_of}
use grunyas.Routing.Filter.{is_write_port, eligible_nodes, filter_candidates}
use grunyas.Routing.Select.{select_node}
use grunyas.Routing.Turns.{select_node-Picks}
use grunyas.Routing.Request.{
  LeaseRequest, LeaseResult, Acquired, Reads, new_event, query_of, active_policies, consistency_of,
}
use grunyas.Routing.Lease.{
  take_connection, primary_id, leased_event, on_selected, is_none, on_eligible, on_empty,
  store_eligible, split_brain, lease,
}
use grunyas.Routing.Counts.{
  answered, to_publish, Answers, emit_event-Answers, on_pool-Answers, reject-Answers,
  on_empty-Answers, split_brain-Answers,
}

-- The counts of two pipelines agree.
abbrev pub Same : Pipeline → Pipeline → Type 0
Same p q =
    (q.decisions_total ≡ p.decisions_total)
    × (answered q ≡ answered p)
    × (q.published_total ≡ p.published_total)
    × (to_publish q ≡ to_publish p)

Same-Answers : (p q r : Pipeline) → Same p q → Answers q r → Answers p r
Same-Answers p q r (t, a, s, b) (t', a', s', b') =
    (omega (arith, t, t'), omega (arith, a, a'), omega (arith, s, s', b), omega (arith, b, b'))

store_eligible-Same : (port : Port) (n : ℕ) (p : Pipeline) → Same p (store_eligible port n p)
unfolding store_eligible
store_eligible-Same port n p = (ground arith, ground arith, ground arith, ground arith)

module _ {U : Type 0} (acquire : String → Acquired U) (stamp : Stamp) (reads : Reads) where
  -- There is a result, and it answers one request.
  abbrev pub Settles : Pipeline → Option (LeaseResult U × Pipeline) → Type 0
  Settles p o = (r : LeaseResult U × Pipeline) × (o ≡ some r) × Answers p r.1

  on_selected-Settles :
      (req : LeaseRequest) (cls : Class) (e : Event) (p : Pipeline) (id : String)
      → Settles p (on_selected acquire stamp reads req cls e p (some id))
  unfolding on_selected take_connection
  on_selected-Settles req cls e p id =
      let granted = record (leased_event id e) { consistency = consistency_of req cls } in
      let p' = record p { decisions_leased = p.decisions_leased + 1 } in
      (
        take_connection acquire stamp reads id (leased_event id e) granted p p',
        refl,
        on_pool-Answers acquire stamp reads id (leased_event id e) granted p p'
            (pool_for reads.pool_at.topology id)
            (emit_event-Answers stamp granted p p' refl (omega arith) refl refl),
      )

  on_eligible-Settles :
      (first : String) (others : List String) (req : LeaseRequest) (cls : Class) (e : Event)
      (p : Pipeline)
      → Settles p (on_eligible acquire stamp reads (first ∷ others) req cls e p)
  unfolding on_eligible
  on_eligible-Settles first others req cls e p =
      let found = primary_id reads in
      let (id, chosen, m) = select_node-Picks first others req.port found p.read_rr in
      if-holds (Settles p) (is_write_port req.port && is_none found)
        (λ s.
          (split_brain acquire stamp reads e p, refl, split_brain-Answers acquire stamp reads e p))
        (λ s. rw chosen (
          on_selected-Settles req cls e
            (record p { read_rr = (select_node (first ∷ others) req.port found p.read_rr).1 }) id))

  after_filter-Settles :
      (eligible : List String) (req : LeaseRequest) (cls : Class) (e : Event) (p : Pipeline)
      → Settles p (
          if is_nil eligible
          then some (on_empty acquire stamp reads req cls e p)
          else on_eligible acquire stamp reads eligible req cls e p)
  after_filter-Settles [] req cls e p = (
    on_empty acquire stamp reads req cls e p,
    refl,
    on_empty-Answers acquire stamp reads req cls e p,
  )
  after_filter-Settles (first ∷ others) req cls e p = on_eligible-Settles first others req cls e p

  Same-Settles :
      (p q : Pipeline) (o : Option (LeaseResult U × Pipeline))
      → Same p q
      → Settles q o
      → Settles p o
  Same-Settles p q o s (r, e, a) = (r, e, Same-Answers p q r.1 s a)

  pub lease-Settles :
      (req : LeaseRequest) (p : Pipeline)
      → Settles
          (record p { decisions_total = p.decisions_total + 1 })
          (lease acquire stamp reads req p)
  unfolding lease
  lease-Settles req p0 =
      let p = record p0 { decisions_total = p0.decisions_total + 1 } in
      let cls = classify_for req.port req.sql in
      let found = nodes reads.nodes_at.now reads.nodes_at.topology in
      let e = record (new_event req) { classification = some (classification_of cls req.sql) } in
      let candidates =
        filter_candidates (query_of req cls) p.names p.policy_eng
          reads.cluster_at.topology.cluster_id found in
      let e' = record e {
        candidates = candidates;
        policies_active = active_policies p.policy_eng candidates;
      } in
      let eligible = eligible_nodes candidates in
      if-holds (Settles p) (not (is_valid_port req.port))
        (λ v. (
          _,
          refl,
          reject-Answers acquire stamp reads "" "0A000" "[grunyas] invalid port" none "invalid_port"
              (new_event req) p,
        ))
        λ v.
          if-holds (Settles p) (is_nil found)
            (λ n. (
              _,
              refl,
              reject-Answers acquire stamp reads "" "57P03" "[grunyas] no upstream available" none
                  "no_nodes" e p,
            ))
            λ n.
              Same-Settles p (store_eligible req.port (length eligible) p) _
                (store_eligible-Same req.port (length eligible) p)
                (after_filter-Settles eligible req cls e'
                  (store_eligible req.port (length eligible) p))

-- As many more decisions, with one outcome each, and one event each where there is a bus.
abbrev pub Decided : ℕ → Pipeline → Pipeline → Type 0
Decided n p p' =
    (p'.decisions_total ≡ p.decisions_total + n)
    × (answered p' ≡ answered p + n)
    × (p'.published_total ≡ p.published_total + n * to_publish p)
    × (to_publish p' ≡ to_publish p)

pub Answers-Decided :
    (p q p' : Pipeline)
    → Same p q
    → Answers (record q { decisions_total = q.decisions_total + 1 }) p'
    → Decided 1 p p'
Answers-Decided p q p' (t', a', s', b') (t, a, s, b) =
    (omega (arith, t, t'), omega (arith, a, a'), omega (arith, s, s', b'), omega (arith, b, b'))

pub Decided-Decided :
    (n : ℕ) (p q r : Pipeline) → Decided 1 p q → Decided n q r → Decided (suc n) p r
Decided-Decided n p q r (t, a, s, b) (t', a', s', b') = (
  omega (arith, t, t'),
  omega (arith, a, a'),
  omega (arith, s, s', ap (λ x. n * x) b),
  omega (arith, b, b'),
)
