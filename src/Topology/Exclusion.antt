-- ===== src/Topology/Exclusion.antt =====
-- A node that reports a foreign system identifier is excluded, and no later call takes it back.
use grunyas.Prelude.{
  String, str_eq, eq_iff, ◌≡◌, inl, inr, refl, Option, none, some, Option-cases, Bool-cases, true,
  List, [], ◌∷◌, arith, subst, sym,
}
use grunyas.Prelude.Assoc
use grunyas.Prelude.Assoc.{Assoc, get-put}
use grunyas.Topology.State.{NodeState, Topology}
use grunyas.Topology.Identity.{modify_cases}
use grunyas.Topology.Sink.{
  SinkCall, liveness, observed_role, system_id, lag, lag_idle, lag_unknown, modify, verify, exclude,
  set_liveness, update_system_id, deliver, deliver_all,
}

-- The state that a look-up has found is permanently down.
abbrev pub IsDown : Option NodeState → Type 0
IsDown none = ⊥
IsDown (some ns) = ns.permanently_down ≡ true

abbrev pub IsExcluded : String → Topology → Type 0
IsExcluded id t = IsDown (Assoc.get id t.nodes)

abbrev KeepsDown : (NodeState → NodeState) → Type 0
KeepsDown f = (ns : NodeState) → ns.permanently_down ≡ true → (f ns).permanently_down ≡ true

IsDown-put :
    (id j : String) (f : NodeState → NodeState) (ns : NodeState) (m : Assoc NodeState)
    → KeepsDown f
    → Assoc.get id m ≡ some ns
    → IsDown (Assoc.get j m)
    → IsDown (Assoc.get j (Assoc.put id (f ns) m))
IsDown-put id j f ns m keeps found h = rw get-put (elim (Bool-cases (str_eq id j)) [
  | inl e ↦ rw e (
      keeps ns
        (subst IsDown found (subst (λ k. IsDown (Assoc.get k m)) (sym ((eq_iff id j).0 e)) h)))
  | inr e ↦ rw e h
])

modify-IsExcluded :
    (id j : String) (f : NodeState → NodeState) (t : Topology)
    → KeepsDown f
    → IsExcluded j t
    → IsExcluded j (modify id f t)
modify-IsExcluded id j f t keeps h =
    modify_cases (λ m. IsDown (Assoc.get j m)) id f t h
      λ ns e. IsDown-put id j f ns t.nodes keeps e h

update_system_id-IsExcluded :
    (id sid j : String) (t : Topology) → IsExcluded j t → IsExcluded j (update_system_id id sid t).0
unfolding update_system_id exclude verify
update_system_id-IsExcluded id sid j t h = elim (Option-cases (Assoc.get id t.nodes)) [
  | inl e ↦ rw (e, update_system_id) h
  | inr (ns, e) ↦ elim (Bool-cases (str_eq t.cluster_id "")) [
    | inl first ↦
        rw (e, first, update_system_id)
          (modify-IsExcluded id j (verify sid) (record t { cluster_id = sid }) (λ n d. d) h)
    | inr later ↦ elim (Bool-cases (str_eq sid t.cluster_id)) [
      | inl same ↦
          rw (e, later, same, update_system_id) (modify-IsExcluded id j (verify sid) t (λ n d. d) h)
      | inr other ↦
          rw (e, later, other, update_system_id) (modify-IsExcluded id j exclude t (λ n d. refl) h)
    ]
  ]
]

deliver-IsExcluded :
    (c : SinkCall) (j : String) (t : Topology) → IsExcluded j t → IsExcluded j (deliver c t)
unfolding deliver set_liveness
deliver-IsExcluded (liveness now id l err) j t h =
    modify-IsExcluded id j (set_liveness now l err) t (λ ns d. ground (arith, d)) h
deliver-IsExcluded (observed_role id role) j t h = modify-IsExcluded id j _ t (λ n d. d) h
deliver-IsExcluded (system_id id sid) j t h = update_system_id-IsExcluded id sid j t h
deliver-IsExcluded (lag id ms at) j t h = modify-IsExcluded id j _ t (λ n d. d) h
deliver-IsExcluded (lag_idle id at) j t h = modify-IsExcluded id j _ t (λ n d. d) h
deliver-IsExcluded (lag_unknown id reason at) j t h = modify-IsExcluded id j _ t (λ n d. d) h

pub deliver_all-IsExcluded :
    (cs : List SinkCall) (j : String) (t : Topology)
    → IsExcluded j t
    → IsExcluded j (deliver_all cs t)
unfolding deliver_all
deliver_all-IsExcluded [] j t h = h
deliver_all-IsExcluded (c ∷ cs) j t h =
    deliver_all-IsExcluded cs j (deliver c t) (deliver-IsExcluded c j t h)
