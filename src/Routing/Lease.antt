-- ===== src/Routing/Lease.antt =====
-- `Lease` of internal/routing/pipeline.go. The topology is read four times, each under its own
-- lock, so each read has its own state and clock. A connection comes from the pool of the chosen
-- node: `acquire` stands for its AcquireDbConnection. `none` is a panic.
use grunyas.Prelude.{
  is_nil, ℕ, ◌+◌, String, Option, none, some, Bool, true, false, not, ◌&&◌, ◌||◌, List, length,
  if◌then◌else◌,
}
use grunyas.Classifier.Statement.{Port, Class}
use grunyas.Topology.Types.{NodeView, Err}
use grunyas.Topology.View.{nodes, primary, PoolLookup, pool_for, pool, missing}
use grunyas.Decisions.Events.{Stamp, Event}
use grunyas.Routing.Filter.{
  filter_candidates, eligible_nodes, is_write_port, is_read_port, is_compat_port,
}
use grunyas.Routing.Select.{select_node}
use grunyas.Routing.Request.{
  LeaseRequest, LeaseResult, Reads, Acquired, connection, failed, active_policies, query_of,
  is_write_class, is_read_class, consistency_of, consistency_of_none, new_event,
}
use grunyas.Routing.Pipeline.{
  Pipeline, is_valid_port, emit_event, classify_for, classification_of, rejected, with_mode,
}

abbrev pub is_none {ℓ} : {A : Type ℓ} → Option A → Bool
is_none none = true
is_none (some a) = false

unfoldable pub store_eligible : Port → ℕ → Pipeline → Pipeline
store_eligible port n p =
    if is_read_port port || is_compat_port port
    then record p { eligible_set_read = n }
    else record p { eligible_set_write = n }

abbrev pub fallback_event : String → Event → Event
fallback_event chosen event = record event {
  outcome = record {
    kind = "fallback";
    node_id = chosen;
    sql_state = "";
    reason = "empty_eligible_set";
  };
  consistency = with_mode "linearizable";
}

abbrev pub leased_event : String → Event → Event
leased_event chosen event = record event {
  outcome = record { kind = "leased"; node_id = chosen; sql_state = ""; reason = "" };
}

abbrev pub id_of : Option NodeView → Option String
id_of none = none
id_of (some nv) = some nv.id

-- The identifier of the primary, if there is one.
abbrev pub primary_id : Reads → Option String
primary_id reads = id_of (primary reads.primary_at.now reads.primary_at.topology)

module _ {U : Type 0} (acquire : String → Acquired U) (stamp : Stamp) (reads : Reads) where
  -- The four lines that each rejection ends with, for a result that has named `node_id` so far.
  unfoldable pub reject :
      String → String → String → Option Err → String → Event → Pipeline → LeaseResult U × Pipeline
  reject node_id code message cause reason event p =
      let event' = record event { outcome = rejected code reason } in
      (
        record {
          upstream = none;
          node_id = node_id;
          decision = some event';
          error = some (record { code = code; message = message; cause = cause });
        },
        emit_event stamp event' (record p { decisions_rejected = p.decisions_rejected + 1 }),
      )

  -- After AcquireDbConnection on the chosen node; `event` is the event so far, and `granted` and
  -- `p'` are the event and the pipeline of a lease that is given out.
  unfoldable pub on_acquired :
      String → Event → Event → Pipeline → Pipeline → Acquired U → LeaseResult U × Pipeline
  unfolding reject
  on_acquired chosen event granted p p' (failed err) =
      reject chosen "53300" "[grunyas] pool saturated" (some err) "pool:acquisition_failed" event p
  on_acquired chosen event granted p p' (connection upstream) = (
    record { upstream = some upstream; node_id = chosen; decision = some granted; error = none },
    emit_event stamp granted p',
  )

  -- After PoolFor.
  unfoldable pub on_pool :
      String → Event → Event → Pipeline → Pipeline → PoolLookup → LeaseResult U × Pipeline
  unfolding reject on_acquired
  on_pool chosen event granted p p' (missing err) =
      reject chosen "57P03" "[grunyas] no upstream available" (some err) "pool_lookup_failed" event
        p
  on_pool chosen event granted p p' (pool name) =
      on_acquired chosen event granted p p' (acquire name)

  unfoldable pub take_connection :
      String → Event → Event → Pipeline → Pipeline → LeaseResult U × Pipeline
  unfolding on_pool
  take_connection chosen event granted p p' =
      on_pool chosen event granted p p' (pool_for reads.pool_at.topology chosen)

  unfoldable pub fall_back : String → Event → Pipeline → LeaseResult U × Pipeline
  unfolding take_connection
  fall_back chosen event p =
      let event' = fallback_event chosen event in
      take_connection chosen event' event' p
        (record p { decisions_fallback = p.decisions_fallback + 1 })

  unfoldable pub no_eligible : LeaseRequest → Class → Event → Pipeline → LeaseResult U × Pipeline
  unfolding reject consistency_of_none
  no_eligible req cls event p =
      let event' = record event { consistency = consistency_of_none req cls } in
      if is_write_port req.port || (is_compat_port req.port && is_write_class cls)
      then reject "" "57P03" "[grunyas] no primary available" none "no_primary" event' p
      else reject "" "57P03" "[grunyas] no eligible replica available" none "no_eligible_replica"
          event' p

  -- The branch of `Lease` for an empty eligible set.
  unfoldable pub on_empty : LeaseRequest → Class → Event → Pipeline → LeaseResult U × Pipeline
  unfolding fall_back no_eligible
  on_empty req cls event p =
      if is_compat_port req.port && is_read_class cls
      then elim (primary reads.primary_at.now reads.primary_at.topology) [
        | none ↦ no_eligible req cls event p
        | some nv ↦ fall_back nv.id event p
      ]
      else no_eligible req cls event p

  -- More than one primary is observed, or none: the result keeps its zero value for the decision.
  unfoldable pub split_brain : Event → Pipeline → LeaseResult U × Pipeline
  split_brain event p =
      let event' = record event {
        outcome = rejected "57P03" "no_primary";
        consistency = with_mode "linearizable";
      } in
      (
        record {
          upstream = none;
          node_id = "";
          decision = none;
          error =
              some (record {
                code = "57P03";
                message = "[grunyas] no primary available";
                cause = none;
              });
        },
        emit_event stamp event' (record p { decisions_rejected = p.decisions_rejected + 1 }),
      )

  -- After `selectNode`, which has moved the counter of turns.
  unfoldable pub on_selected :
      LeaseRequest → Class → Event → Pipeline → Option String → Option (LeaseResult U × Pipeline)
  unfolding take_connection consistency_of
  on_selected req cls event p none = none
  on_selected req cls event p (some chosen) =
      let event' = leased_event chosen event in
      some (
        take_connection chosen event' (record event' { consistency = consistency_of req cls }) p
          (record p { decisions_leased = p.decisions_leased + 1 }))

  -- The rest of `Lease` after the test of the eligible set, which is not empty.
  unfoldable pub on_eligible :
      List String → LeaseRequest → Class → Event → Pipeline → Option (LeaseResult U × Pipeline)
  unfolding on_selected select_node split_brain
  on_eligible eligible req cls event p =
      let found = primary_id reads in
      if is_write_port req.port && is_none found
      then some (split_brain event p)
      else let (selected, rr) = select_node eligible req.port found p.read_rr in
        on_selected req cls event (record p { read_rr = rr }) selected

  unfoldable pub lease : LeaseRequest → Pipeline → Option (LeaseResult U × Pipeline)
  unfolding reject on_empty on_eligible query_of active_policies filter_candidates eligible_nodes
      new_event
  lease req p0 =
      let p = record p0 { decisions_total = p0.decisions_total + 1 } in
      if not (is_valid_port req.port)
      then some (reject "" "0A000" "[grunyas] invalid port" none "invalid_port" (new_event req) p)
      else let cls = classify_for req.port req.sql in
        let event = record (new_event req) {
          classification = some (classification_of cls req.sql);
        } in
        let found = nodes reads.nodes_at.now reads.nodes_at.topology in
        if is_nil found
        then some (reject "" "57P03" "[grunyas] no upstream available" none "no_nodes" event p)
        else let candidates =
            filter_candidates (query_of req cls) p.names p.policy_eng
              reads.cluster_at.topology.cluster_id found in
          let event' = record event {
            candidates = candidates;
            policies_active = active_policies p.policy_eng candidates;
          } in
          let eligible = eligible_nodes candidates in
          let p' = store_eligible req.port (length eligible) p in
          if is_nil eligible
          then some (on_empty req cls event' p')
          else on_eligible eligible req cls event' p'
