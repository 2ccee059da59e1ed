-- ===== src/Topology/View.antt =====
-- The readers of internal/topology/topology.go. A reader takes the time once, as `now`.
use grunyas.Prelude.{
  ℕ, ◌-◌, ◌/◌, String, str_eq, Option, none, some, Bool, true, false, ◌&&◌, List, [], ◌∷◌, ltb,
  if◌then◌else◌,
}
use grunyas.Prelude.Assoc
use grunyas.Prelude.Assoc.{Assoc}
use grunyas.Topology.Types.{Role, Liveness, LagState, Err, node_not_found, NodeView, is_replica}
use grunyas.Topology.State.{NodeState, Topology}

unfoldable pub role_from_string : String → Role × Bool
role_from_string s =
    if str_eq s "primary"
    then (Role.primary, true)
    else if str_eq s "replica"
    then (Role.replica, true)
    else (Role.unknown, false)

-- !at.IsZero() && now.Sub(at).Milliseconds() > max_age_ms
unfoldable pub is_older : ℕ → Option ℕ → ℕ → Bool
is_older now none max_age_ms = false
is_older now (some at) max_age_ms = ltb max_age_ms ((now - at) / 1_000_000)

abbrev pub is_fresh : LagState → Bool
is_fresh LagState.fresh = true
is_fresh _ = false

unfoldable pub node_view : ℕ → Topology → String → NodeState → NodeView
unfolding role_from_string
node_view now t id ns =
    let (role, _) = role_from_string ns.config.declared_role in
    let recorded = if ns.permanently_down then Liveness.down else ns.liveness in
    record {
      id = id;
      host = ns.config.host;
      port = ns.config.port;
      declared_role = role;
      observed_role =
          if is_older now ns.last_probe_at t.observed_role_max_age_ms
          then Role.unknown
          else ns.observed_role;
      liveness =
          if is_older now ns.last_probe_at t.liveness_max_age_ms
          then Liveness.unknown
          else recorded;
      system_id = ns.system_id;
      last_probe_at = ns.last_probe_at;
      last_probe_err = ns.last_probe_err;
      replication_lag_ms = ns.replication_lag_ms;
      replication_lag_state =
          if is_fresh ns.replication_lag_state
            && is_older now ns.last_lag_sample_at t.replication_lag_max_age_ms
          then LagState.stale
          else ns.replication_lag_state;
      last_lag_sample_at = ns.last_lag_sample_at;
      liveness_max_age_ms = t.liveness_max_age_ms;
      observed_role_max_age_ms = t.observed_role_max_age_ms;
      replication_lag_max_age_ms = t.replication_lag_max_age_ms;
    }

-- The loop of `Nodes`.
unfoldable pub views : ℕ → Topology → Assoc NodeState → List NodeView
views now t [] = []
views now t ((id, ns) ∷ rest) = node_view now t id ns ∷ views now t rest

unfoldable pub nodes : ℕ → Topology → List NodeView
unfolding views
nodes now t = views now t t.nodes

unfoldable pub node : ℕ → Topology → String → Option NodeView
node now t id = elim (Assoc.get id t.nodes) [ none ↦ none | some ns ↦ some (node_view now t id ns) ]

-- The loop of `Primary`: the primary seen so far, and `none` as soon as there is a second.
unfoldable pub sole_primary :
    Assoc NodeState → Option (String × NodeState) → Option (String × NodeState)
sole_primary [] seen = seen
sole_primary ((id, ns) ∷ rest) seen =
    let next : Option (String × NodeState) = elim seen [
      | none ↦ sole_primary rest (some (id, ns))
      | some first ↦ none
    ] in
    let skip = sole_primary rest seen in
    if ns.permanently_down
    then skip
    else elim ns.observed_role [ Role.primary ↦ next | Role.replica ↦ skip | Role.unknown ↦ skip ]

unfoldable pub primary : ℕ → Topology → Option NodeView
unfolding sole_primary
primary now t = elim (sole_primary t.nodes none) [
  | none ↦ none
  | some (id, ns) ↦ some (node_view now t id ns)
]

-- The loop of `Replicas`.
unfoldable pub replica_views : ℕ → Topology → Assoc NodeState → List NodeView
replica_views now t [] = []
replica_views now t ((id, ns) ∷ rest) =
    let others = replica_views now t rest in
    if ns.permanently_down
    then others
    else if is_replica ns.observed_role
    then node_view now t id ns ∷ others
    else others

unfoldable pub replicas : ℕ → Topology → List NodeView
unfolding replica_views
replicas now t = replica_views now t t.nodes

-- The manager of a node's pool is named by the node.
pub data PoolLookup : Type 0 where
  pool : String → PoolLookup
  missing : Err → PoolLookup

unfoldable pub pool_for : Topology → String → PoolLookup
pool_for t id = elim (Assoc.get id t.nodes) [
  | none ↦ missing (node_not_found id)
  | some ns ↦ pool id
]
