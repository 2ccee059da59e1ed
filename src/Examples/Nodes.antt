-- ===== src/Examples/Nodes.antt =====
-- Two nodes, of which the second turns out to belong to another cluster, and rounds of their probes.
use grunyas.Prelude.{
  not, ◌&&◌, eq_iff, String, ◌≡◌, ◌≤◌, ◌⊎◌, ◌≢◌, refl, inl, inr, true, false, none, some, List, [],
  ◌∷◌, arith, All, keep,
}
use grunyas.Prelude.Int.{pos}
use grunyas.Prelude.Assoc
use grunyas.Topology.Types.{is_primary, Role, Liveness, LagState, Err, driver}
use grunyas.Topology.State.{NodeConfig, ProbeConfig, NodeState, Topology, new}
use grunyas.Topology.View.{is_fresh, node, node_view, nodes, primary, replicas}
use grunyas.Topology.Sink.{SinkCall, deliver_all, update_system_id}
use grunyas.Topology.Identity.{IsConsistent}
use grunyas.Topology.Shutout.{foreign_node_shut_out, IsNotUp, IsOther}
use grunyas.Topology.Agreement.{shown_ids_agree}
use grunyas.Topology.Primary.{
  is_recent, primary-only, node_view_current, shows_up as is_up, only, view_of, serves_as_primary,
}
use grunyas.Probe.Types as Probe
use grunyas.Probe.Round.{Probe, Round, err, probe_once, probe_rounds, threshold}
use grunyas.Probe.Failures.{Hangs, refusals_reach_threshold, hanging_server_stays_up}

abbrev config_a : NodeConfig
config_a = record { id = "a"; host = "db-a"; port = 5432; declared_role = "primary" }

abbrev config_b : NodeConfig
config_b = record { id = "b"; host = "db-b"; port = 5432; declared_role = "replica" }

abbrev probing : ProbeConfig
probing = record {
  interval_ms = 1000;
  liveness_failure_count = 3;
  liveness_max_age_ms = 0;
  role_max_age_ms = 0;
  lag_max_age_ms = 0;
}

abbrev node_a : NodeState
node_a = record {
  config = config_a;
  observed_role = Role.primary;
  liveness = Liveness.up;
  system_id = "7001";
  last_probe_at = some 0;
  last_probe_err = none;
  permanently_down = false;
  replication_lag_ms = none;
  replication_lag_state = LagState.not_applicable;
  last_lag_sample_at = none;
}

abbrev node_b : NodeState
node_b = record node_a { config = config_b; observed_role = Role.replica; system_id = "" }

abbrev pub pair : Topology
pair = record {
  nodes = ("a", node_a) ∷ ("b", node_b) ∷ [];
  cluster_id = "7001";
  sys_id_err = none;
  liveness_max_age_ms = 2000;
  observed_role_max_age_ms = 5000;
  replication_lag_max_age_ms = 2000;
}

pair-IsConsistent : IsConsistent pair
unfolding Assoc.get
pair-IsConsistent = record { agree = (inr refl, (inl refl, tt)); unique = (refl, (refl, tt)) }

pair_b : Assoc.get "b" pair.nodes ≡ some node_b
unfolding Assoc.get
pair_b = refl

abbrev Differ : String → String → Type 0
Differ s t = s ≢ t

named : Differ "7001" ""
named = λ e. absurd (ground (arith, (eq_iff "7001" "").1 e))

foreign : Differ "9999" "7001"
foreign = λ e. absurd (ground (arith, (eq_iff "9999" "7001").1 e))

abbrev later_calls : List SinkCall
later_calls =
    SinkCall.liveness 5 "b" Probe.Liveness.up none
    ∷ SinkCall.observed_role "b" Probe.Role.primary
    ∷ SinkCall.lag "b" (pos 3) 5
    ∷ []

foreign_node_shut_out_example :
    IsNotUp (node 6 (deliver_all later_calls (update_system_id "b" "9999" pair).0) "b")
    × IsOther "b" (primary 6 (deliver_all later_calls (update_system_id "b" "9999" pair).0))
    × All
        (λ v. v.id ≢ "b")
        (replicas 6 (deliver_all later_calls (update_system_id "b" "9999" pair).0))
foreign_node_shut_out_example =
    foreign_node_shut_out "b" "9999" pair node_b later_calls 6 pair-IsConsistent pair_b named
      foreign

shown_ids_agree_example :
    All
      (λ v.
        (v.system_id ≡ "")
        ⊎ (v.system_id
            ≡ (deliver_all later_calls (new probing (config_a ∷ config_b ∷ []))).cluster_id))
      (nodes 6 (deliver_all later_calls (new probing (config_a ∷ config_b ∷ []))))
shown_ids_agree_example = shown_ids_agree probing (config_a ∷ config_b ∷ []) later_calls 6

primary-only_example : primary 6 pair ≡ view_of 6 pair (only (keep serves_as_primary pair.nodes))
primary-only_example = primary-only 6 pair

node_view_current_example :
    (is_up (node_view 6 pair "a" node_a).liveness ≡ (
      is_up node_a.liveness
      && (not node_a.permanently_down && is_recent 6 node_a.last_probe_at 2000)))
    × (is_primary (node_view 6 pair "a" node_a).observed_role
        ≡ (is_primary node_a.observed_role && is_recent 6 node_a.last_probe_at 5000))
    × (is_fresh (node_view 6 pair "a" node_a).replication_lag_state
        ≡ (is_fresh node_a.replication_lag_state && is_recent 6 node_a.last_lag_sample_at 2000))
node_view_current_example = node_view_current 6 pair "a" node_a

abbrev probe_b : Probe
probe_b = record { id = "b"; failures_allowed = 3; conn = true; failure_count = 0 }

abbrev refused : Err
refused = driver "connection refused"

abbrev lost : Err
lost = driver "timeout"

abbrev refusal : Round
refusal = record {
  now = 7;
  existing_ping = some lost;
  connect = some refused;
  ping = some lost;
  in_recovery = err lost;
  system_id = err lost;
  lag = err lost;
}

abbrev hang : Round
hang = record refusal { connect = none }

refusals_reach_threshold_example :
    (probe_once refusal
      (probe_rounds (refusal ∷ refusal ∷ []) probe_b pair).0
      (probe_rounds (refusal ∷ refusal ∷ []) probe_b pair).1).1
    ≡ SinkCall.liveness 7 "b" Probe.Liveness.down (some refused) ∷ []
unfolding threshold
refusals_reach_threshold_example =
    refusals_reach_threshold (refusal ∷ refusal ∷ []) refusal probe_b pair
      (((refused, refl), (lost, refl)), (((refused, refl), (lost, refl)), tt))
      ((refused, refl), (lost, refl))

three : 2 ≤ threshold probe_b
unfolding threshold
three = omega arith

hangs : Hangs hang
hangs = (refl, (lost, refl), (lost, refl))

hanging_server_stays_up_example :
    (probe_once hang
      (probe_rounds (hang ∷ hang ∷ []) probe_b pair).0
      (probe_rounds (hang ∷ hang ∷ []) probe_b pair).1).1
    ≡ SinkCall.liveness 7 "b" Probe.Liveness.up (some lost) ∷ []
hanging_server_stays_up_example =
    hanging_server_stays_up (hang ∷ hang ∷ []) hang probe_b pair (hangs, (hangs, tt))
      (refl, (lost, refl), (lost, refl)) three

small : 100 ≤ 3200
small = omega arith

large : 3200 ≤ 5000
large = omega arith
