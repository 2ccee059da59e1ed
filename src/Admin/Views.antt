-- ===== src/Admin/Views.antt =====
-- The views of internal/admin/admin.go. A handler reads the clock for the topology and for a view at
-- one time, `now`; a JSON object is the record of its values, whose times are not printed.
use Prim.Native.String.{compare}
use text.Mathlib.Text.{is_lt}
use grunyas.Prelude.{
  ℕ, ◌+◌, ◌-◌, ◌/◌, String, str_eq, Bool, true, false, not, ◌&&◌, Option, none, some, List, [], ◌∷◌,
  map, ltb, if◌then◌else◌,
}
use grunyas.Prelude.Int.{ℤ}
use grunyas.Prelude.Assoc.{Assoc}
use grunyas.Topology.Types.{
  Role, role_string, liveness_string, lag_state_string, Err, NodeView, is_primary, is_unknown,
}
use grunyas.Topology.State.{Topology}
use grunyas.Topology.View.{nodes, node, primary}
use grunyas.Policy.Types.{State, active, state_string, Instance, PerNodeState}
use grunyas.Policy.Engine.{Engine, instances_of, candidate_states}

-- Tests on roles: !=
abbrev pub same_role : Role → Role → Bool
same_role Role.unknown Role.unknown = true
same_role Role.primary Role.primary = true
same_role Role.replica Role.replica = true
same_role _ _ = false

unfoldable pub liveness_state : ℕ → NodeView → String
liveness_state now nv = elim nv.last_probe_at [
  | none ↦ "unknown"
  | some at ↦ if ltb nv.liveness_max_age_ms ((now - at) / 1_000_000) then "stale" else "fresh"
]

pub record NodeJson : Type 0 where
  pub id : String
  pub host : String
  pub port : ℕ
  pub declared_role : String
  pub observed_role : String
  pub role_disagreement : Bool
  pub liveness : String
  pub liveness_state : String
  pub system_identifier : String
  pub system_identifier_match : Bool
  pub replication_lag_state : String
  pub last_probe_at : Option ℕ
  pub last_lag_sample_at : Option ℕ
  pub replication_lag_ms : Option ℤ
  pub last_probe_error : Option Err

abbrev pub role_disagreement : NodeView → Bool
role_disagreement nv =
    not (is_unknown nv.observed_role) && not (same_role nv.observed_role nv.declared_role)

unfoldable pub node_view_to_json : ℕ → Topology → NodeView → NodeJson
unfolding liveness_state role_string liveness_string lag_state_string
node_view_to_json now t nv = record {
  id = nv.id;
  host = nv.host;
  port = nv.port;
  declared_role = role_string nv.declared_role;
  observed_role = role_string nv.observed_role;
  role_disagreement = role_disagreement nv;
  liveness = liveness_string nv.liveness;
  liveness_state = liveness_state now nv;
  system_identifier = nv.system_id;
  system_identifier_match = not (str_eq nv.system_id "") && str_eq nv.system_id t.cluster_id;
  replication_lag_state = lag_state_string nv.replication_lag_state;
  last_probe_at = nv.last_probe_at;
  last_lag_sample_at = nv.last_lag_sample_at;
  replication_lag_ms = nv.replication_lag_ms;
  last_probe_error = nv.last_probe_err;
}

-- sort.Slice by the key of an element; elements with equal keys may stand in any order there.
unfoldable pub insert_by {ℓ} : {A : Type ℓ} → (A → String) → A → List A → List A
insert_by key a [] = a ∷ []
insert_by key a (x ∷ xs) =
    let rest = insert_by key a xs in
    if is_lt (compare (key x) (key a)) then x ∷ rest else a ∷ x ∷ xs

unfoldable pub sort_by {ℓ} : {A : Type ℓ} → (A → String) → List A → List A
unfolding insert_by
sort_by key [] = []
sort_by key (a ∷ rest) = insert_by key a (sort_by key rest)

unfoldable pub node_views_to_json : ℕ → Topology → List NodeView → List NodeJson
unfolding node_view_to_json sort_by
node_views_to_json now t nvs = sort_by (λ (j : NodeJson). j.id) (map (node_view_to_json now t) nvs)

unfoldable pub handle_nodes_list : ℕ → Topology → List NodeJson
unfolding node_views_to_json
handle_nodes_list now t = node_views_to_json now t (nodes now t)

-- `none` is the reply 404.
unfoldable pub handle_node_by_id : ℕ → Topology → String → Option NodeJson
unfolding node_view_to_json
handle_node_by_id now t id = elim (node now t id) [
  | none ↦ none
  | some nv ↦ some (node_view_to_json now t nv)
]

-- The loop of `handleState` over the nodes.
unfoldable pub count_primaries : List NodeView → ℕ
count_primaries [] = 0
count_primaries (nv ∷ rest) =
    let n = count_primaries rest in if is_primary nv.observed_role then n + 1 else n

pub record ClusterJson : Type 0 where
  pub system_identifier : String
  pub primary : String
  pub split_brain : Bool

-- The branches on `Primary`, with the result of the loop.
abbrev pub cluster_json : Topology → ℕ → Option NodeView → ClusterJson
cluster_json t primaries (some p) = record {
  system_identifier = t.cluster_id;
  primary = p.id;
  split_brain = false;
}
cluster_json t primaries none = record {
  system_identifier = t.cluster_id;
  primary = "";
  split_brain = ltb 1 primaries;
}

unfoldable pub cluster_of : ℕ → Topology → ClusterJson
unfolding count_primaries
cluster_of now t = cluster_json t (count_primaries (nodes now t)) (primary now t)

pub record CandidateJson : Type 0 where
  pub node_id : String
  pub state : String
  pub entered_state_at : Option ℕ
  pub last_observation_reason : Option String

abbrev pub is_active_state : State → Bool
is_active_state active = true
is_active_state _ = false

unfoldable pub candidate_of : String × PerNodeState → CandidateJson
unfolding state_string
candidate_of (node_id, cs) = record {
  node_id = node_id;
  state = state_string cs.state;
  entered_state_at = cs.entered_at;
  last_observation_reason =
      if is_active_state cs.state && not (str_eq cs.last_condition "")
      then some cs.last_condition
      else none;
}

pub record PolicyJson : Type 0 where
  pub name : String
  pub template : String
  pub scope : String
  pub parameters : Assoc ℤ
  pub dwell_ms : ℕ
  pub release_ms : ℕ
  pub candidates : List CandidateJson

unfoldable pub policy_view : Engine → Instance → PolicyJson
unfolding candidate_of sort_by candidate_states
policy_view e inst = record {
  name = inst.name;
  template = inst.template;
  scope = inst.scope;
  parameters = inst.parameters;
  dwell_ms = inst.timing.dwell_ms;
  release_ms = inst.timing.release_ms;
  candidates =
      sort_by (λ (c : CandidateJson). c.node_id) (map candidate_of (candidate_states e inst.name));
}

-- A nil engine is `none`.
unfoldable pub policy_views : Option Engine → List PolicyJson
unfolding policy_view instances_of
policy_views none = []
policy_views (some e) = map (policy_view e) (instances_of e)

-- The loop of `handlePolicyByName`, whose `none` is the reply 404.
unfoldable pub policy_named : Engine → String → List Instance → Option PolicyJson
unfolding policy_view
policy_named e name [] = none
policy_named e name (inst ∷ rest) =
    let found = policy_named e name rest in
    if str_eq inst.name name then some (policy_view e inst) else found

unfoldable pub handle_policy_by_name : Option Engine → String → Option PolicyJson
unfolding policy_named instances_of
handle_policy_by_name none name = none
handle_policy_by_name (some e) name = policy_named e name (instances_of e)
