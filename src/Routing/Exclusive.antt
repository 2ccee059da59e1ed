-- ===== src/Routing/Exclusive.antt =====
-- A result of `Lease` in internal/routing/pipeline.go is a connection or an error.
use grunyas.Prelude.{
  is_nil, case-holds, if-holds, String, Option, none, some, ◌≡◌, refl, not, ◌&&◌, ◌||◌, List,
  length, ◌+◌,
}
use grunyas.Topology.View.{PoolLookup, pool, missing, pool_for, primary, nodes}
use grunyas.Classifier.Statement.{Class}
use grunyas.Decisions.Events.{Stamp, Event}
use grunyas.Routing.Filter.{eligible_nodes, filter_candidates, is_write_port, is_compat_port}
use grunyas.Routing.Select.{select_node}
use grunyas.Routing.Pipeline.{Pipeline, is_valid_port, classify_for, classification_of}
use grunyas.Routing.Request.{
  LeaseRequest, LeaseResult, Acquired, connection, failed, Reads, new_event, query_of,
  active_policies, consistency_of, is_write_class, is_read_class,
}
use grunyas.Routing.Lease.{
  reject, on_acquired, on_pool, take_connection, fall_back, no_eligible, on_empty, split_brain,
  on_selected, on_eligible, store_eligible, lease, primary_id, is_none, leased_event,
  fallback_event,
}

module _ {U : Type 0} (acquire : String → Acquired U) (stamp : Stamp) (reads : Reads) where
  abbrev pub IsExclusive : LeaseResult U × Pipeline → Type 0
  IsExclusive (r, p) = is_none r.upstream ≡ not (is_none r.error)

  abbrev pub IsExclusiveIf : Option (LeaseResult U × Pipeline) → Type 0
  IsExclusiveIf none = Unit
  IsExclusiveIf (some r) = IsExclusive r

  on_pool-IsExclusive :
      (chosen : String) (e granted : Event) (p p' : Pipeline) (l : PoolLookup)
      → IsExclusive (on_pool acquire stamp reads chosen e granted p p' l)
  unfolding on_pool on_acquired reject
  on_pool-IsExclusive chosen e granted p p' (missing err) = refl
  on_pool-IsExclusive chosen e granted p p' (pool name) = acquired (acquire name)
    where
      acquired :
          (a : Acquired U) → IsExclusive (on_acquired acquire stamp reads chosen e granted p p' a)
      acquired (failed err) = refl
      acquired (connection upstream) = refl

  no_eligible-IsExclusive :
      (req : LeaseRequest) (cls : Class) (e : Event) (p : Pipeline)
      → IsExclusive (no_eligible acquire stamp reads req cls e p)
  unfolding no_eligible reject
  no_eligible-IsExclusive req cls e p =
      if-holds IsExclusive
        (is_write_port req.port || (is_compat_port req.port && is_write_class cls)) (λ w. refl)
        (λ w. refl)

  on_empty-IsExclusive :
      (req : LeaseRequest) (cls : Class) (e : Event) (p : Pipeline)
      → IsExclusive (on_empty acquire stamp reads req cls e p)
  unfolding on_empty fall_back take_connection
  on_empty-IsExclusive req cls e p =
      if-holds IsExclusive (is_compat_port req.port && is_read_class cls)
        (λ r.
          case-holds IsExclusive (primary reads.primary_at.now reads.primary_at.topology)
            (λ n. no_eligible-IsExclusive req cls e p)
            λ nv found.
              on_pool-IsExclusive nv.id (fallback_event nv.id e) (fallback_event nv.id e) p
                (record p { decisions_fallback = p.decisions_fallback + 1 })
                (pool_for reads.pool_at.topology nv.id))
        (λ r. no_eligible-IsExclusive req cls e p)

  on_selected-IsExclusiveIf :
      (req : LeaseRequest) (cls : Class) (e : Event) (p : Pipeline) (o : Option String)
      → IsExclusiveIf (on_selected acquire stamp reads req cls e p o)
  unfolding on_selected take_connection
  on_selected-IsExclusiveIf req cls e p none = tt
  on_selected-IsExclusiveIf req cls e p (some id) =
      on_pool-IsExclusive id (leased_event id e)
        (record (leased_event id e) { consistency = consistency_of req cls }) p
        (record p { decisions_leased = p.decisions_leased + 1 })
        (pool_for reads.pool_at.topology id)

  on_eligible-IsExclusiveIf :
      (eligible : List String) (req : LeaseRequest) (cls : Class) (e : Event) (p : Pipeline)
      → IsExclusiveIf (on_eligible acquire stamp reads eligible req cls e p)
  unfolding on_eligible split_brain
  on_eligible-IsExclusiveIf eligible req cls e p =
      let found = primary_id reads in
      let s = select_node eligible req.port found p.read_rr in
      if-holds IsExclusiveIf (is_write_port req.port && is_none found) (λ b. refl)
        (λ b. on_selected-IsExclusiveIf req cls e (record p { read_rr = s.1 }) s.0)

  -- Whatever a lease reads, its result holds a connection exactly when it holds no error.
  pub lease-IsExclusiveIf :
      (req : LeaseRequest) (p : Pipeline) → IsExclusiveIf (lease acquire stamp reads req p)
  unfolding lease reject
  lease-IsExclusiveIf req p0 =
      let p = record p0 { decisions_total = p0.decisions_total + 1 } in
      let cls = classify_for req.port req.sql in
      let found = nodes reads.nodes_at.now reads.nodes_at.topology in
      let e = record (new_event req) { classification = some (classification_of cls req.sql) } in
      let candidates =
        filter_candidates (query_of req cls) p.names p.policy_eng
          reads.cluster_at.topology.cluster_id found in
      let e' = record e {
        candidates = candidates;
        policies_active = active_policies p.policy_eng candidates;
      } in
      let eligible = eligible_nodes candidates in
      let p' = store_eligible req.port (length eligible) p in
      if-holds IsExclusiveIf (not (is_valid_port req.port)) (λ v. refl)
        λ v.
          if-holds IsExclusiveIf (is_nil found) (λ n. refl)
            λ n.
              if-holds IsExclusiveIf (is_nil eligible) (λ m. on_empty-IsExclusive req cls e' p')
                (λ m. on_eligible-IsExclusiveIf eligible req cls e' p')
