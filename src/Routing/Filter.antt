-- ===== src/Routing/Filter.antt =====
-- `filterCandidates` and `eligibleNodes` of internal/routing/pipeline.go. The calls of the engine
-- read one state of it. `none` for the engine is the nil pointer.
use grunyas.Prelude.{
  is_nil, String, str_eq, Option, none, some, Bool, true, false, not, ◌&&◌, ◌||◌, List, [], ◌∷◌,
  ◌++◌, if◌then◌else◌,
}
use grunyas.Topology.Types.{Role, NodeView, is_primary, is_replica, is_unknown}
use grunyas.Policy.Engine.{Engine, evaluate_policy_state, instances_of}
use grunyas.Policy.Types.{Instance}
use grunyas.Classifier.Statement.{Traffic, Port}
use grunyas.Decisions.Events.{Candidate}

-- The names that `NewPipeline` caches, and what a lease asks for. `traffic` is `none` for "".
pub record PolicyNames : Type 0 where
  pub health : String
  pub lag : String
  pub saturation : String

pub record Query : Type 0 where
  pub port : Port
  pub traffic : Option Traffic
  pub window_active : Bool

abbrev pub is_write : Option Traffic → Bool
is_write (some Traffic.write) = true
is_write _ = false

abbrev pub is_read : Option Traffic → Bool
is_read (some Traffic.read) = true
is_read _ = false

abbrev pub is_write_port : Port → Bool
is_write_port Port.write = true
is_write_port _ = false

abbrev pub is_read_port : Port → Bool
is_read_port Port.read = true
is_read_port _ = false

abbrev pub is_compat_port : Port → Bool
is_compat_port Port.compat = true
is_compat_port _ = false

-- The first instance by name with the template; the three policyDefault…NameOrFirst.
unfoldable pub name_or_first : String → String → List Instance → String
name_or_first template fallback [] = fallback
name_or_first template fallback (inst ∷ rest) =
    if str_eq inst.template template then inst.name else name_or_first template fallback rest

unfoldable pub policy_names : Engine → PolicyNames
unfolding name_or_first
policy_names e =
    let insts = instances_of e in
    record {
      health = name_or_first "health-filter" "default-health-filter" insts;
      lag = name_or_first "lag-filter" "default-lag-filter" insts;
      saturation =
          name_or_first "pool-saturation-rejection" "default-pool-saturation-rejection" insts;
    }

unfoldable pub ask : Option Engine → String → String → Bool × String
ask none name node_id = (true, "")
ask (some e) name node_id = evaluate_policy_state e name node_id

abbrev pub needs_window_primary : Query → Bool
needs_window_primary q = is_compat_port q.port && (is_read q.traffic && q.window_active)

abbrev pub needs_primary : Query → Bool
needs_primary q = is_write_port q.port || (is_compat_port q.port && is_write q.traffic)

abbrev pub needs_replica : Query → Bool
needs_replica q = is_read_port q.port || (is_compat_port q.port && is_read q.traffic)

unfoldable pub role_reasons : Query → Role → List String
role_reasons q role =
    if needs_window_primary q
    then (if is_unknown role
        then "role:unknown" ∷ []
        else if not (is_primary role)
        then "post_write_window:primary_only" ∷ []
        else [])
    else if needs_primary q && not (is_primary role)
    then (if is_unknown role then "role:unknown" ∷ [] else "role:not_primary" ∷ [])
    else if needs_replica q && not (is_replica role)
    then (if is_unknown role then "role:unknown" ∷ [] else "role:not_replica" ∷ [])
    else []

-- A policy that rejects gives its condition, or the reason that stands for it.
unfoldable pub policy_reason : Bool × String → String → List String
policy_reason (eligible, condition) otherwise =
    if eligible then [] else if str_eq condition "" then otherwise ∷ [] else condition ∷ []

unfoldable pub reasons_for : Query → PolicyNames → Option Engine → String → NodeView → List String
unfolding role_reasons policy_reason ask
reasons_for q names engine cluster_id nv =
    let mismatch =
      if not (str_eq nv.system_id "") && not (str_eq nv.system_id cluster_id)
      then "system_id:mismatch" ∷ []
      else [] in
    let lag =
      if is_write q.traffic
      then []
      else policy_reason (ask engine names.lag nv.id) "lag:policy_active" in
    mismatch
    ++ (role_reasons q nv.observed_role
        ++ (policy_reason (ask engine names.health nv.id) "liveness:not_up"
            ++ (lag ++ policy_reason (ask engine names.saturation nv.id) "pool:saturated")))

unfoldable pub candidate : Query → PolicyNames → Option Engine → String → NodeView → Candidate
unfolding reasons_for
candidate q names engine cluster_id nv =
    let reasons = reasons_for q names engine cluster_id nv in
    record { node_id = nv.id; eligible = is_nil reasons; reasons = reasons }

unfoldable pub filter_candidates :
    Query → PolicyNames → Option Engine → String → List NodeView → List Candidate
unfolding candidate
filter_candidates q names engine cluster_id [] = []
filter_candidates q names engine cluster_id (nv ∷ rest) =
    candidate q names engine cluster_id nv ∷ filter_candidates q names engine cluster_id rest

unfoldable pub eligible_nodes : List Candidate → List String
eligible_nodes [] = []
eligible_nodes (c ∷ rest) =
    if c.eligible then c.node_id ∷ eligible_nodes rest else eligible_nodes rest
