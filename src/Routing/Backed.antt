-- ===== src/Routing/Backed.antt =====
-- The node of a connection that `Lease` of internal/routing/pipeline.go gives out.
use grunyas.Prelude.{
  Option-cases, sym, subst, ℕ, is_nil, case-holds, if-holds, String, Option, none, some, ◌≡◌, refl,
  ap, ◌⊎◌, inl, inr, true, List, [], ◌∷◌, length, not, ◌&&◌, ◌||◌, if◌then◌else◌, ◌+◌, sym,
  Option-cases,
}
use grunyas.Topology.View.{PoolLookup, pool, missing, pool_for, primary, nodes}
use grunyas.Classifier.Statement.{Class, Port}
use grunyas.Decisions.Events.{Stamp, Event, decision}
use grunyas.Decisions.Bus.{Bus, publish}
use grunyas.Topology.State.{Topology}
use grunyas.Prelude.Assoc
use grunyas.Routing.Filter.{
  eligible_nodes, filter_candidates, is_write_port, is_compat_port, is_read_port,
}
use grunyas.Routing.Select.{select_node, member}
use grunyas.Routing.Turns.{select_node-Picks}
use grunyas.Routing.Pipeline.{
  Pipeline, emit_event, is_valid_port, classify_for, classification_of, emit_event,
}
use grunyas.Routing.Request.{
  LeaseRequest, LeaseResult, Acquired, connection, failed, Reads, new_event, query_of,
  active_policies, consistency_of, is_write_class, is_read_class,
}
use grunyas.Routing.Lease.{
  reject, on_acquired, on_pool, take_connection, fall_back, no_eligible, on_empty, split_brain,
  on_selected, on_eligible, store_eligible, lease, primary_id, id_of, is_none, leased_event,
  fallback_event,
}

-- The event names the node, and lists it as eligible or is a fallback to the primary.
abbrev pub Explains : Reads → Event → String → Type 0
Explains reads e id =
    (e.outcome.node_id ≡ id)
    × ((member id (eligible_nodes e.candidates) ≡ true)
        ⊎ ((e.outcome.kind ≡ "fallback") × (primary_id reads ≡ some id)))

-- The bus after the publication of one event, where there is a bus.
abbrev pub sent_on : Stamp → Event → Option Bus → Option Bus
sent_on stamp e none = none
sent_on stamp e (some b) = some (publish stamp (decision e) b)

emit_event-sent_on :
    (stamp : Stamp) (e : Event) (p : Pipeline)
    → (emit_event stamp e p).decisions_bus ≡ sent_on stamp e p.decisions_bus
unfolding emit_event
emit_event-sent_on stamp e p = elim (Option-cases p.decisions_bus) [
  | inl absent ↦ rw (emit_event, absent) absent
  | inr (b, found) ↦ rw (emit_event, found) refl
]

store_eligible-decisions_bus :
    (port : Port) (n : ℕ) (p : Pipeline) → (store_eligible port n p).decisions_bus ≡ p.decisions_bus
unfolding store_eligible
store_eligible-decisions_bus port n p =
    if-holds (λ (q : Pipeline). q.decisions_bus ≡ p.decisions_bus)
      (is_read_port port || is_compat_port port) (λ r. refl) (λ r. refl)

-- The pool that was found is that of the node.
abbrev IsPoolOf : String → PoolLookup → Type 0
IsPoolOf id (missing err) = Unit
IsPoolOf id (pool name) = name ≡ id

pool_for-IsPoolOf : (t : Topology) (id : String) → IsPoolOf id (pool_for t id)
unfolding pool_for
pool_for-IsPoolOf t id =
    case-holds (IsPoolOf id) (Assoc.get id t.nodes) (λ n. tt) (λ ns found. refl)

module _ {U : Type 0} (acquire : String → Acquired U) (stamp : Stamp) (reads : Reads) where
  -- What is said of a result that names the node `id`, where the bus was `before` and is `after`:
  -- its connection comes from the pool of that node, its event explains the choice, and that event
  -- is the one that was published.
  abbrev pub IsBacked : Option Bus → Option Bus → Option U → Option Event → String → Type 0
  IsBacked before after none told id = Unit
  IsBacked before after (some u) none id = ⊥
  IsBacked before after (some u) (some e) id =
      (acquire id ≡ connection u) × Explains reads e id × (after ≡ sent_on stamp e before)

  abbrev Backed : Option Bus → LeaseResult U × Pipeline → Type 0
  Backed before (r, p) = IsBacked before p.decisions_bus r.upstream r.decision r.node_id

  on_acquired-Backed :
      (chosen : String) (e granted : Event) (p p' : Pipeline) (r : Acquired U)
      → acquire chosen ≡ r
      → Explains reads granted chosen
      → Backed p'.decisions_bus (on_acquired acquire stamp reads chosen e granted p p' r)
  unfolding on_acquired reject
  on_acquired-Backed chosen e granted p p' (failed err) a h = tt
  on_acquired-Backed chosen e granted p p' (connection upstream) a h =
      (a, h, emit_event-sent_on stamp granted p')

  on_pool-Backed :
      (chosen : String) (e granted : Event) (p p' : Pipeline) (l : PoolLookup)
      → IsPoolOf chosen l
      → Explains reads granted chosen
      → Backed p'.decisions_bus (on_pool acquire stamp reads chosen e granted p p' l)
  unfolding on_pool reject
  on_pool-Backed chosen e granted p p' (missing err) l h = tt
  on_pool-Backed chosen e granted p p' (pool name) l h =
      on_acquired-Backed chosen e granted p p' (acquire name) (ap acquire (sym l)) h

  no_eligible-Backed :
      (req : LeaseRequest) (cls : Class) (e : Event) (p : Pipeline)
      → Backed p.decisions_bus (no_eligible acquire stamp reads req cls e p)
  unfolding no_eligible reject
  no_eligible-Backed req cls e p =
      if-holds (Backed p.decisions_bus)
        (is_write_port req.port || (is_compat_port req.port && is_write_class cls)) (λ w. tt)
        (λ w. tt)

  on_empty-Backed :
      (req : LeaseRequest) (cls : Class) (e : Event) (p : Pipeline)
      → Backed p.decisions_bus (on_empty acquire stamp reads req cls e p)
  unfolding on_empty fall_back take_connection
  on_empty-Backed req cls e p =
      if-holds (Backed p.decisions_bus) (is_compat_port req.port && is_read_class cls)
        (λ r.
          case-holds (Backed p.decisions_bus)
            (primary reads.primary_at.now reads.primary_at.topology)
            (λ n. no_eligible-Backed req cls e p)
            λ nv found.
              on_pool-Backed nv.id (fallback_event nv.id e) (fallback_event nv.id e) p
                (record p { decisions_fallback = p.decisions_fallback + 1 })
                (pool_for reads.pool_at.topology nv.id)
                (pool_for-IsPoolOf reads.pool_at.topology nv.id) (refl, inr (refl, ap id_of found)))
        (λ r. no_eligible-Backed req cls e p)

  -- There is a result, and a connection in it is explained.
  abbrev pub Gives : Option Bus → Option (LeaseResult U × Pipeline) → Type 0
  Gives before o = (r : LeaseResult U × Pipeline) × (o ≡ some r) × Backed before r

  Gives-subst :
      {a b : Option Bus} (o : Option (LeaseResult U × Pipeline)) → a ≡ b → Gives a o → Gives b o
  Gives-subst o e g = subst (λ x. Gives x o) e g

  on_eligible-Gives :
      (first : String) (others : List String) (req : LeaseRequest) (cls : Class) (e : Event)
      (p : Pipeline)
      → eligible_nodes e.candidates ≡ first ∷ others
      → Gives p.decisions_bus (on_eligible acquire stamp reads (first ∷ others) req cls e p)
  unfolding on_eligible on_selected take_connection split_brain
  on_eligible-Gives first others req cls e p listed =
      let found = primary_id reads in
      let (id, chosen, m) = select_node-Picks first others req.port found p.read_rr in
      let p' = record p { read_rr = (select_node (first ∷ others) req.port found p.read_rr).1 } in
      let granted = record (leased_event id e) { consistency = consistency_of req cls } in
      let p'' = record p' { decisions_leased = p.decisions_leased + 1 } in
      if-holds (Gives p.decisions_bus) (is_write_port req.port && is_none found)
        (λ s. (split_brain acquire stamp reads e p, refl, tt))
        (λ s. (
          take_connection acquire stamp reads id (leased_event id e) granted p' p'',
          ap (on_selected acquire stamp reads req cls e p') chosen,
          on_pool-Backed id (leased_event id e) granted p' p'' (pool_for reads.pool_at.topology id)
              (pool_for-IsPoolOf reads.pool_at.topology id) (refl, inl (rw listed m)),
        ))

  after_filter-Gives :
      (eligible : List String) (req : LeaseRequest) (cls : Class) (e : Event) (p : Pipeline)
      → eligible_nodes e.candidates ≡ eligible
      → Gives p.decisions_bus (
          if is_nil eligible
          then some (on_empty acquire stamp reads req cls e p)
          else on_eligible acquire stamp reads eligible req cls e p)
  after_filter-Gives [] req cls e p listed =
      (on_empty acquire stamp reads req cls e p, refl, on_empty-Backed req cls e p)
  after_filter-Gives (first ∷ others) req cls e p listed =
      on_eligible-Gives first others req cls e p listed

  -- A lease gives a result. When it gives out a connection, the connection comes from the pool of
  -- the node that the result names; the event of the result names that node, and either lists it as
  -- eligible or is a fallback to the primary; and what the call publishes, where there is a bus, is
  -- that event and nothing else.
  pub lease-Gives :
      (req : LeaseRequest) (p : Pipeline) → Gives p.decisions_bus (lease acquire stamp reads req p)
  unfolding lease reject
  lease-Gives req p0 =
      let p = record p0 { decisions_total = p0.decisions_total + 1 } in
      let cls = classify_for req.port req.sql in
      let found = nodes reads.nodes_at.now reads.nodes_at.topology in
      let e = record (new_event req) { classification = some (classification_of cls req.sql) } in
      let candidates =
        filter_candidates (query_of req cls) p.names p.policy_eng
          reads.cluster_at.topology.cluster_id found in
      let e' = record e {
        candidates = candidates;
        policies_active = active_policies p.policy_eng candidates;
      } in
      let eligible = eligible_nodes candidates in
      if-holds (Gives p0.decisions_bus) (not (is_valid_port req.port)) (λ v. (_, refl, tt))
        λ v.
          if-holds (Gives p0.decisions_bus) (is_nil found) (λ n. (_, refl, tt))
            λ n. Gives-subst _ (store_eligible-decisions_bus req.port (length eligible) p) (
              after_filter-Gives eligible req cls e' (store_eligible req.port (length eligible) p)
                refl)
