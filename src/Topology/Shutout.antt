-- ===== src/Topology/Shutout.antt =====
-- What the readers of the topology show of a node that a foreign system identifier has excluded.
use grunyas.Prelude.{
  ℕ, String, eq_iff, ◌≡◌, ◌≢◌, inl, inr, Option, none, some, Bool-cases, true, List, [], ◌∷◌, arith,
  subst, sym, All,
}
use grunyas.Prelude.Assoc
use grunyas.Prelude.Assoc.{Assoc, Every, Every-of_get, IsUnique, get-put}
use grunyas.Topology.Types.{Role, Liveness, NodeView}
use grunyas.Topology.State.{NodeState, Topology}
use grunyas.Topology.View.{node, node_view, primary, sole_primary, replicas, replica_views}
use grunyas.Topology.Identity.{
  IsConsistent, deliver_all-IsConsistent, update_system_id-IsConsistent,
}
use grunyas.Topology.Exclusion.{IsDown, IsExcluded, deliver_all-IsExcluded}
use grunyas.Topology.Sink.{SinkCall, modify, exclude, update_system_id, deliver_all}

-- No entry of this name is in service.
abbrev OutOfService : String → String → NodeState → Type 0
OutOfService id k ns = k ≡ id → ns.permanently_down ≡ true

OutOfService-all :
    (id : String) (t : Topology)
    → IsConsistent t
    → IsExcluded id t
    → Every (OutOfService id) t.nodes
OutOfService-all id t c h =
    Every-of_get (OutOfService id) t.nodes c.unique
      λ k ns e same. subst IsDown e (subst (λ j. IsDown (Assoc.get j t.nodes)) (sym same) h)

abbrev NotNamed : String → Option (String × NodeState) → Type 0
NotNamed id none = Unit
NotNamed id (some (k, ns)) = k ≢ id

by_role :
    (id : String) (skip next : Option (String × NodeState)) (r : Role)
    → NotNamed id skip
    → NotNamed id next
    → NotNamed id (elim r [ Role.unknown ↦ skip | Role.primary ↦ next | Role.replica ↦ skip ])
by_role id skip next Role.unknown s n = s
by_role id skip next Role.primary s n = n
by_role id skip next Role.replica s n = s

by_seen :
    (id : String) (go : Option (String × NodeState)) (seen : Option (String × NodeState))
    → NotNamed id go
    → NotNamed id (elim seen [ none ↦ go | some first ↦ none ])
by_seen id go none h = h
by_seen id go (some first) h = tt

sole_primary-NotNamed :
    (id : String) (m : Assoc NodeState) (seen : Option (String × NodeState))
    → Every (OutOfService id) m
    → NotNamed id seen
    → NotNamed id (sole_primary m seen)
unfolding sole_primary
sole_primary-NotNamed id [] seen h s = s
sole_primary-NotNamed id ((k, ns) ∷ m) seen (out, h) s = elim (Bool-cases ns.permanently_down) [
  | inl gone ↦ rw gone (sole_primary-NotNamed id m seen h s)
  | inr serves ↦
      let other : k ≢ id = λ e. cc (out e, serves) in
      rw serves (
        by_role id _ _ ns.observed_role (sole_primary-NotNamed id m seen h s)
          (by_seen id _ seen (sole_primary-NotNamed id m (some (k, ns)) h other)))
]

-- The view, if there is one, is of another node.
abbrev pub IsOther : String → Option NodeView → Type 0
IsOther id none = Unit
IsOther id (some v) = v.id ≢ id

-- The node is known, and is not shown as up.
abbrev pub IsNotUp : Option NodeView → Type 0
IsNotUp none = ⊥
IsNotUp (some v) = v.liveness ≢ Liveness.up

shown :
    (now : ℕ) (id : String) (t : Topology) (o : Option (String × NodeState))
    → NotNamed id o
    → IsOther id (elim o [ none ↦ none | some (k, ns) ↦ some (node_view now t k ns) ])
unfolding node_view
shown now id t none h = tt
shown now id t (some (k, ns)) h = h

primary-IsOther :
    (now : ℕ) (id : String) (t : Topology)
    → Every (OutOfService id) t.nodes
    → IsOther id (primary now t)
unfolding primary node_view
primary-IsOther now id t h =
    shown now id t (sole_primary t.nodes none) (sole_primary-NotNamed id t.nodes none h tt)

replica_views-IsOther :
    (now : ℕ) (id : String) (t : Topology) (m : Assoc NodeState)
    → Every (OutOfService id) m
    → All (λ v. v.id ≢ id) (replica_views now t m)
unfolding replica_views node_view
replica_views-IsOther now id t [] h = tt
replica_views-IsOther now id t ((k, ns) ∷ m) (out, h) =
    ground (arith, out, replica_views-IsOther now id t m h)

node-IsNotUp : (now : ℕ) (id : String) (t : Topology) → IsExcluded id t → IsNotUp (node now t id)
unfolding node node_view
node-IsNotUp now id t h = ground (arith, h)

foreign-IsExcluded :
    (id sid : String) (t : Topology) {ns : NodeState}
    → Assoc.get id t.nodes ≡ some ns
    → t.cluster_id ≢ ""
    → sid ≢ t.cluster_id
    → IsExcluded id (update_system_id id sid t).0
unfolding update_system_id modify exclude
foreign-IsExcluded id sid t {ns} known named foreign = ground (
  arith,
  known,
  named,
  foreign,
  eq_iff t.cluster_id "",
  eq_iff sid t.cluster_id,
  get-put id id (exclude ns) t.nodes,
  eq_iff id id,
)

-- Let a known node report a system identifier other than the one that the cluster has adopted.
-- Whatever the probes deliver afterwards, and at whatever time, the node stays known, it is never
-- shown as up, it is not the primary, and it is not among the replicas.
pub foreign_node_shut_out :
    (id sid : String) (t : Topology) (ns : NodeState) (cs : List SinkCall) (now : ℕ)
    → IsConsistent t
    → Assoc.get id t.nodes ≡ some ns
    → t.cluster_id ≢ ""
    → sid ≢ t.cluster_id
    → let u = deliver_all cs (update_system_id id sid t).0 in
      IsNotUp (node now u id) × IsOther id (primary now u) × All (λ v. v.id ≢ id) (replicas now u)
unfolding replicas
foreign_node_shut_out id sid t ns cs now c known named foreign =
    let t' = (update_system_id id sid t).0 in
    let u = deliver_all cs t' in
    let gone = deliver_all-IsExcluded cs id t' (foreign-IsExcluded id sid t known named foreign) in
    let out =
      OutOfService-all id u
        (deliver_all-IsConsistent cs t' (update_system_id-IsConsistent id sid t c)) gone in
    (
      node-IsNotUp now id u gone,
      primary-IsOther now id u out,
      replica_views-IsOther now id u u.nodes out,
    )
