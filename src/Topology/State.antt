-- ===== src/Topology/State.antt =====
-- The state of internal/topology/topology.go. The pool manager and the probe of a node have no
-- field: the node's name stands for its pool, and the probe is a caller of the sink.
use grunyas.Prelude.{ℕ, ◌*◌, String, Option, none, Bool, false, List, [], ◌∷◌, ltb, if◌then◌else◌}
use grunyas.Prelude.Int.{ℤ}
use grunyas.Prelude.Assoc
use grunyas.Prelude.Assoc.{Assoc}
use grunyas.Topology.Types.{Role, Liveness, LagState, Err}

-- The fields of config.NodeConfig that the topology reads.
pub record NodeConfig : Type 0 where
  pub id : String
  pub host : String
  pub port : ℕ
  pub declared_role : String

pub record ProbeConfig : Type 0 where
  pub interval_ms : ℕ
  pub liveness_failure_count : ℕ
  pub liveness_max_age_ms : ℕ
  pub role_max_age_ms : ℕ
  pub lag_max_age_ms : ℕ

pub record NodeState : Type 0 where
  pub config : NodeConfig
  pub observed_role : Role
  pub liveness : Liveness
  pub system_id : String
  pub last_probe_at : Option ℕ
  pub last_probe_err : Option Err
  pub permanently_down : Bool
  pub replication_lag_ms : Option ℤ
  pub replication_lag_state : LagState
  pub last_lag_sample_at : Option ℕ

pub record Topology : Type 0 where
  pub nodes : Assoc NodeState
  pub cluster_id : String
  pub sys_id_err : Option Err
  pub liveness_max_age_ms : ℕ
  pub observed_role_max_age_ms : ℕ
  pub replication_lag_max_age_ms : ℕ

unfoldable pub max_age_or_default : ℕ → ℕ → ℕ
max_age_or_default val fallback = if ltb 0 val then val else fallback

unfoldable pub initial_node : NodeConfig → NodeState
initial_node nc = record {
  config = nc;
  observed_role = Role.unknown;
  liveness = Liveness.unknown;
  system_id = "";
  last_probe_at = none;
  last_probe_err = none;
  permanently_down = false;
  replication_lag_ms = none;
  replication_lag_state = LagState.not_applicable;
  last_lag_sample_at = none;
}

-- The loop of `New` over cfg.Nodes; `pool.New` and `probe.New` return no error.
unfoldable pub add_nodes : List NodeConfig → Assoc NodeState → Assoc NodeState
unfolding initial_node
add_nodes [] m = m
add_nodes (nc ∷ rest) m = add_nodes rest (Assoc.put nc.id (initial_node nc) m)

unfoldable pub new : ProbeConfig → List NodeConfig → Topology
unfolding add_nodes max_age_or_default
new cfg nodes = record {
  nodes = add_nodes nodes [];
  cluster_id = "";
  sys_id_err = none;
  liveness_max_age_ms = max_age_or_default cfg.liveness_max_age_ms (cfg.interval_ms * 2);
  observed_role_max_age_ms = max_age_or_default cfg.role_max_age_ms (cfg.interval_ms * 5);
  replication_lag_max_age_ms = max_age_or_default cfg.lag_max_age_ms (cfg.interval_ms * 2);
}
