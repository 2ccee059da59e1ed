-- ===== src/Topology/Identity.antt =====
-- How the sink keeps the cluster's system identifier and the nodes that disagree with it.
use grunyas.Prelude.{
  String, str_eq, eq_iff, ◌≡◌, ◌⊎◌, inl, inr, refl, some, Option-cases, Bool-cases, List, [], ◌∷◌,
  arith,
}
use grunyas.Prelude.Assoc
use grunyas.Prelude.Assoc.{Assoc, Every, Every-put, Every-get, Every-map, IsUnique, IsUnique-put}
use grunyas.Topology.State.{
  NodeConfig, ProbeConfig, NodeState, Topology, new, add_nodes, initial_node,
}
use grunyas.Topology.Sink.{
  SinkCall, liveness, observed_role, system_id, lag, lag_idle, lag_unknown, modify, verify, exclude,
  set_liveness, update_system_id, deliver, deliver_all,
}

-- The map of nodes after a change of one node.
pub modify_cases :
    (Q : Assoc NodeState → Type 0) (id : String) (f : NodeState → NodeState) (t : Topology)
    → Q t.nodes
    → ((ns : NodeState) → Assoc.get id t.nodes ≡ some ns → Q (Assoc.put id (f ns) t.nodes))
    → Q (modify id f t).nodes
unfolding modify
modify_cases Q id f t missing found = elim (Option-cases (Assoc.get id t.nodes)) [
  | inl e ↦ rw (e, modify) missing
  | inr (ns, e) ↦ rw (e, modify) (found ns e)
]

-- An invariant of the entries that the change of a single node keeps.
modify-Every :
    (P : String → NodeState → Type 0) (id : String) (f : NodeState → NodeState) (t : Topology)
    → ((ns : NodeState) → P id ns → P id (f ns))
    → Every P t.nodes
    → Every P (modify id f t).nodes
modify-Every P id f t keeps h =
    modify_cases (Every P) id f t h
      λ ns e. Every-put P id (f ns) t.nodes (keeps ns (Every-get P id t.nodes h e)) h

modify-IsUnique :
    (id : String) (f : NodeState → NodeState) (t : Topology)
    → IsUnique t.nodes
    → IsUnique (modify id f t).nodes
modify-IsUnique id f t h = modify_cases IsUnique id f t h λ ns e. IsUnique-put id (f ns) t.nodes h

cluster_id-modify :
    (id : String) (f : NodeState → NodeState) (t : Topology)
    → (modify id f t).cluster_id ≡ t.cluster_id
unfolding modify
cluster_id-modify id f t = ground arith

-- A node that agrees with the cluster, or that has not been verified.
abbrev pub Agrees : String → String → NodeState → Type 0
Agrees cluster id ns = (ns.system_id ≡ "") ⊎ (ns.system_id ≡ cluster)

-- What holds of a topology between two calls of the sink.
pub record IsConsistent (t : Topology) : Type 0 where
  pub agree : Every (Agrees t.cluster_id) t.nodes
  pub unique : IsUnique t.nodes

abbrev KeepsId : (NodeState → NodeState) → Type 0
KeepsId f = (ns : NodeState) → (f ns).system_id ≡ ns.system_id

modify-IsConsistent :
    (id : String) (f : NodeState → NodeState) (t : Topology)
    → KeepsId f
    → IsConsistent t
    → IsConsistent (modify id f t)
modify-IsConsistent id f t same h = record {
  agree =
      rw cluster_id-modify
        (modify-Every (Agrees t.cluster_id) id f t (λ ns a. ground (arith, same ns, a)) h.agree);
  unique = modify-IsUnique id f t h.unique;
}

-- The first identifier: no node has been verified before it, so all agree with it.
adopt-IsConsistent :
    (sid : String) (t : Topology)
    → t.cluster_id ≡ ""
    → IsConsistent t
    → IsConsistent (record t { cluster_id = sid })
adopt-IsConsistent sid t empty h = record {
  agree =
      Every-map (Agrees t.cluster_id) (Agrees sid) t.nodes (λ id ns a. ground (arith, a, empty))
        h.agree;
  unique = h.unique;
}

verify-IsConsistent :
    (id sid : String) (t : Topology)
    → sid ≡ t.cluster_id
    → IsConsistent t
    → IsConsistent (modify id (verify sid) t)
unfolding verify
verify-IsConsistent id sid t e h = record {
  agree = rw cluster_id-modify (modify-Every (Agrees t.cluster_id) id _ t (λ ns a. inr e) h.agree);
  unique = modify-IsUnique id _ t h.unique;
}

pub update_system_id-IsConsistent :
    (id sid : String) (t : Topology) → IsConsistent t → IsConsistent (update_system_id id sid t).0
unfolding update_system_id
update_system_id-IsConsistent id sid t h = elim (Option-cases (Assoc.get id t.nodes)) [
  | inl e ↦ rw (e, update_system_id) h
  | inr (ns, e) ↦ elim (Bool-cases (str_eq t.cluster_id "")) [
    | inl first ↦
        rw (e, first, update_system_id)
          (verify-IsConsistent id sid (record t { cluster_id = sid }) refl
            (adopt-IsConsistent sid t ((eq_iff _ _).0 first) h))
    | inr later ↦ elim (Bool-cases (str_eq sid t.cluster_id)) [
      | inl same ↦
          rw (e, later, same, update_system_id)
            (verify-IsConsistent id sid t ((eq_iff _ _).0 same) h)
      | inr other ↦
          let c = modify-IsConsistent id exclude t (unfold exclude in λ ns. refl) h in
          rw (e, later, other, update_system_id) (record { agree = c.agree; unique = c.unique })
    ]
  ]
]

-- Each call of the sink keeps the verified nodes in agreement with the cluster.
pub deliver-IsConsistent :
    (c : SinkCall) (t : Topology) → IsConsistent t → IsConsistent (deliver c t)
unfolding deliver set_liveness
deliver-IsConsistent (liveness now id l err) t h =
    modify-IsConsistent id (set_liveness now l err) t (λ ns. ground arith) h
deliver-IsConsistent (observed_role id role) t h = modify-IsConsistent id _ t (λ ns. refl) h
deliver-IsConsistent (system_id id sid) t h = update_system_id-IsConsistent id sid t h
deliver-IsConsistent (lag id ms at) t h = modify-IsConsistent id _ t (λ ns. refl) h
deliver-IsConsistent (lag_idle id at) t h = modify-IsConsistent id _ t (λ ns. refl) h
deliver-IsConsistent (lag_unknown id reason at) t h = modify-IsConsistent id _ t (λ ns. refl) h

pub deliver_all-IsConsistent :
    (cs : List SinkCall) (t : Topology) → IsConsistent t → IsConsistent (deliver_all cs t)
unfolding deliver_all
deliver_all-IsConsistent [] t h = h
deliver_all-IsConsistent (c ∷ cs) t h =
    deliver_all-IsConsistent cs (deliver c t) (deliver-IsConsistent c t h)

Unverified : String → NodeState → Type 0
Unverified id ns = ns.system_id ≡ ""

add_nodes-Every :
    (ncs : List NodeConfig) (m : Assoc NodeState)
    → Every Unverified m
    → Every Unverified (add_nodes ncs m)
unfolding add_nodes Unverified
add_nodes-Every [] m h = h
add_nodes-Every (nc ∷ rest) m h =
    add_nodes-Every rest _ (Every-put Unverified nc.id (initial_node nc) m refl h)

add_nodes-IsUnique :
    (ncs : List NodeConfig) (m : Assoc NodeState) → IsUnique m → IsUnique (add_nodes ncs m)
unfolding add_nodes
add_nodes-IsUnique [] m h = h
add_nodes-IsUnique (nc ∷ rest) m h = add_nodes-IsUnique rest _ (IsUnique-put nc.id _ m h)

pub new-IsConsistent : (cfg : ProbeConfig) (ncs : List NodeConfig) → IsConsistent (new cfg ncs)
unfolding new Unverified
new-IsConsistent cfg ncs = record {
  agree =
      Every-map Unverified (Agrees "") (add_nodes ncs []) (λ id ns e. inl e)
        (add_nodes-Every ncs [] tt);
  unique = add_nodes-IsUnique ncs [] tt;
}
