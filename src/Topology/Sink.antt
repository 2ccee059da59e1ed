-- ===== src/Topology/Sink.antt =====
-- The probe.Sink methods of internal/topology/topology.go. Each takes the lock of the topology and
-- that of the node, so a method is one step. `now` is the reading of time.Now() that it makes.
use grunyas.Prelude.{
  ℕ, String, str_eq, Option, none, some, Bool, true, false, List, [], ◌∷◌, if◌then◌else◌,
}
use grunyas.Prelude.Int.{ℤ}
use grunyas.Prelude.Assoc
use grunyas.Probe.Types as Probe
use grunyas.Topology.Types.{Role, Liveness, LagState, Err, node_not_found, system_id_mismatch}
use grunyas.Topology.State.{NodeState, Topology}

-- The pointer to a node's state: a write to it is seen in the map. A node that is not there is
-- left alone.
unfoldable pub modify : String → (NodeState → NodeState) → Topology → Topology
modify id f t = elim (Assoc.get id t.nodes) [
  | none ↦ t
  | some ns ↦ record t { nodes = Assoc.put id (f ns) t.nodes }
]

unfoldable pub of_probe_liveness : Probe.Liveness → Liveness
of_probe_liveness Probe.Liveness.up = Liveness.up
of_probe_liveness Probe.Liveness.degraded = Liveness.degraded
of_probe_liveness Probe.Liveness.down = Liveness.down
of_probe_liveness Probe.Liveness.unknown = Liveness.unknown

abbrev pub is_up : Probe.Liveness → Bool
is_up Probe.Liveness.up = true
is_up _ = false

-- The body of `UpdateLiveness` under the node's lock.
unfoldable pub set_liveness : ℕ → Probe.Liveness → Option Err → NodeState → NodeState
unfolding of_probe_liveness
set_liveness now l err ns =
    if ns.permanently_down
    then if is_up l then ns else record ns { last_probe_at = some now; last_probe_err = err }
    else record ns {
      liveness = of_probe_liveness l;
      last_probe_at = some now;
      last_probe_err = err;
    }

unfoldable pub update_liveness : ℕ → String → Probe.Liveness → Option Err → Topology → Topology
unfolding set_liveness
update_liveness now id l err t = modify id (set_liveness now l err) t

unfoldable pub of_probe_role : Probe.Role → Role
of_probe_role Probe.Role.primary = Role.primary
of_probe_role Probe.Role.replica = Role.replica
of_probe_role Probe.Role.unknown = Role.unknown

unfoldable pub update_observed_role : String → Probe.Role → Topology → Topology
unfolding of_probe_role
update_observed_role id role t =
    modify id (λ ns. record ns { observed_role = of_probe_role role }) t

unfoldable pub exclude : NodeState → NodeState
exclude ns = record ns { permanently_down = true; liveness = Liveness.down }

unfoldable pub verify : String → NodeState → NodeState
verify sid ns = record ns { system_id = sid }

-- The first identifier becomes the cluster's; a node that reports another is excluded for good. The
-- method takes the lock of the identifier and then that of the node; it is one step, since an
-- identifier that is set stays and only the node's own probe makes this call for the node.
unfoldable pub update_system_id : String → String → Topology → Topology × Option Err
unfolding exclude verify
update_system_id id sid t = elim (Assoc.get id t.nodes) [
  | none ↦ (t, some (node_not_found id))
  | some ns ↦
      if str_eq t.cluster_id ""
      then (modify id (verify sid) (record t { cluster_id = sid }), none)
      else if str_eq sid t.cluster_id
      then (modify id (verify sid) t, none)
      else (
        record (modify id exclude t) { sys_id_err = some (system_id_mismatch id sid t.cluster_id) },
        some (system_id_mismatch id sid t.cluster_id),
      )
]

unfoldable pub update_lag : String → ℤ → ℕ → Topology → Topology
update_lag id lag_ms sampled_at t =
    modify id
      (λ ns. record ns {
        replication_lag_ms = some lag_ms;
        replication_lag_state = LagState.fresh;
        last_lag_sample_at = some sampled_at;
      })
      t

unfoldable pub mark_lag_idle : String → ℕ → Topology → Topology
mark_lag_idle id sampled_at t =
    modify id
      (λ ns. record ns {
        replication_lag_ms = none;
        replication_lag_state = LagState.idle;
        last_lag_sample_at = some sampled_at;
      })
      t

-- The reason is only logged.
unfoldable pub mark_lag_unknown : String → Err → ℕ → Topology → Topology
mark_lag_unknown id reason sampled_at t =
    modify id
      (λ ns. record ns {
        replication_lag_ms = none;
        replication_lag_state = LagState.unknown;
        last_lag_sample_at = some sampled_at;
      })
      t

-- A call of the interface probe.Sink, with what the clock shows where the method reads it.
pub data SinkCall : Type 0 where
  liveness : ℕ → String → Probe.Liveness → Option Err → SinkCall
  observed_role : String → Probe.Role → SinkCall
  system_id : String → String → SinkCall
  lag : String → ℤ → ℕ → SinkCall
  lag_idle : String → ℕ → SinkCall
  lag_unknown : String → Err → ℕ → SinkCall

unfoldable pub deliver : SinkCall → Topology → Topology
unfolding update_liveness update_observed_role update_system_id update_lag mark_lag_idle
    mark_lag_unknown
deliver (liveness now id l err) t = update_liveness now id l err t
deliver (observed_role id role) t = update_observed_role id role t
deliver (system_id id sid) t = (update_system_id id sid t).0
deliver (lag id ms at) t = update_lag id ms at t
deliver (lag_idle id at) t = mark_lag_idle id at t
deliver (lag_unknown id reason at) t = mark_lag_unknown id reason at t

-- The calls of all probes, in the order in which the locks let them through.
unfoldable pub deliver_all : List SinkCall → Topology → Topology
deliver_all [] t = t
deliver_all (c ∷ cs) t = deliver_all cs (deliver c t)
