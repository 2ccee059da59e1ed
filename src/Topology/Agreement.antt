-- ===== src/Topology/Agreement.antt =====
-- The system identifiers that the readers of internal/topology/topology.go show.
use grunyas.Prelude.{ℕ, ◌≡◌, ◌⊎◌, List, [], ◌∷◌, All}
use grunyas.Prelude.Assoc.{Assoc, Every}
use grunyas.Topology.State.{NodeConfig, ProbeConfig, NodeState, Topology, new}
use grunyas.Topology.View.{node_view, views, nodes}
use grunyas.Topology.Sink.{SinkCall, deliver_all}
use grunyas.Topology.Identity.{Agrees, deliver_all-IsConsistent, new-IsConsistent}

views-agree :
    (now : ℕ) (t : Topology) (m : Assoc NodeState)
    → Every (Agrees t.cluster_id) m
    → All (λ v. (v.system_id ≡ "") ⊎ (v.system_id ≡ t.cluster_id)) (views now t m)
unfolding views node_view
views-agree now t [] h = tt
views-agree now t ((id, ns) ∷ m) (a, h) = (a, views-agree now t m h)

-- Whatever the probes deliver to a new topology, each node that it shows has no system identifier or
-- that of the cluster: the identifier of a foreign server is never shown.
pub shown_ids_agree :
    (cfg : ProbeConfig) (ncs : List NodeConfig) (cs : List SinkCall) (now : ℕ)
    → let t = deliver_all cs (new cfg ncs) in
      All (λ v. (v.system_id ≡ "") ⊎ (v.system_id ≡ t.cluster_id)) (nodes now t)
unfolding nodes
shown_ids_agree cfg ncs cs now =
    let t = deliver_all cs (new cfg ncs) in
    views-agree now t t.nodes
      (deliver_all-IsConsistent cs (new cfg ncs) (new-IsConsistent cfg ncs)).agree
