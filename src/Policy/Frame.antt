-- ===== src/Policy/Frame.antt =====
-- What one evaluation of a node changes, and what it leaves.
use grunyas.Prelude.{
  ℕ, String, str_eq, eq_iff, ◌≡◌, Option, none, some, Option-cases, Bool, [], ◌∷◌, inl, inr, arith,
  if◌then◌else◌, subst, ◌&&◌, ◌∙◌,
}
use grunyas.Prelude.Assoc
use grunyas.Prelude.Assoc.{Assoc, get-put, Every, IsUnique, Every-map}
use grunyas.Topology.Types.{NodeView}
use grunyas.Policy.Types.{Instance, PerNodeState}
use grunyas.Policy.Evaluators.{Verdict}
use grunyas.Policy.Machine.{advance}
use grunyas.Policy.Engine.{
  Engine, transition, verdict, or_initial, find_state, evaluate_instance, evaluate_instances,
}
use grunyas.Policy.Total.{
  IsPresent, HasStates, Returns, Extends, evaluate_instance-Extends, Returns-more,
}

-- The state of policy `p` for a node after one round with this instance and verdict.
abbrev pub after_verdict :
    ℕ → String → Engine → String → Instance → Option Verdict → Option PerNodeState
after_verdict now id e p inst none = find_state e p id
after_verdict now id e p inst (some (reject, reason)) =
    some (advance inst.timing now reject reason (or_initial (find_state e p id)))

abbrev pub updated : ℕ → NodeView → Bool → Engine → String → Option Instance → Option PerNodeState
updated now nv saturated e p none = find_state e p nv.id
updated now nv saturated e p (some inst) =
    after_verdict now nv.id e p inst (verdict inst nv saturated)

-- The state of policy `p` for node `m` after an evaluation of `nv` by the instances.
abbrev pub expected :
    ℕ → NodeView → Bool → Engine → Assoc Instance → String → String → Option PerNodeState
expected now nv saturated e insts p m =
    if str_eq m nv.id then updated now nv saturated e p (Assoc.get p insts) else find_state e p m

transition-find :
    (now : ℕ) (name : String) (inst : Instance) (id : String) (reject : Bool) (reason : String)
    (e : Engine) (p m : String)
    → IsPresent (Assoc.get name e.states)
    → Returns
        (λ e'. find_state e' p m ≡ (
          if str_eq name p && str_eq id m
          then some (advance inst.timing now reject reason (or_initial (find_state e name id)))
          else find_state e p m))
        (transition now name inst id (reject, reason) e)
unfolding transition find_state
transition-find now name inst id reject reason e p m h =
    elim (Option-cases (Assoc.get name e.states)) [
      | inl absent ↦ absurd (subst IsPresent absent h)
      | inr (pm, found) ↦
          let pns = or_initial (Assoc.get id pm) in
          let pm' = Assoc.put id (advance inst.timing now reject reason pns) pm in
          rw (found, transition)
            (ground (
              arith,
              found,
              get-put name p pm' e.states,
              get-put id m (advance inst.timing now reject reason pns) pm,
              eq_iff name p,
              eq_iff id m,
            ))
    ]

round-find :
    (now : ℕ) (id : String) (name : String) (inst : Instance) (e : Engine) (p m : String)
    (o : Option Verdict)
    → IsPresent (Assoc.get name e.states)
    → Returns
        (λ e'. find_state e' p m ≡ (
          if str_eq name p && str_eq id m
          then after_verdict now id e name inst o
          else find_state e p m))
        (elim o [ none ↦ some (e, []) | some v ↦ transition now name inst id v e ])
round-find now id name inst e p m none h = ground (arith, eq_iff name p, eq_iff id m)
round-find now id name inst e p m (some (reject, reason)) h =
    transition-find now name inst id reject reason e p m h

pub evaluate_instance-find :
    (now : ℕ) (nv : NodeView) (saturated : Bool) (name : String) (inst : Instance) (e : Engine)
    (p m : String)
    → IsPresent (Assoc.get name e.states)
    → Returns
        (λ e'. find_state e' p m ≡ (
          if str_eq name p && str_eq nv.id m
          then updated now nv saturated e name (some inst)
          else find_state e p m))
        (evaluate_instance now nv saturated name inst e)
unfolding evaluate_instance
evaluate_instance-find now nv saturated name inst e p m h =
    round-find now nv.id name inst e p m (verdict inst nv saturated) h

-- The states for policy `p` after the first round decide those after the rest.
expected-step :
    (now : ℕ) (nv : NodeView) (saturated : Bool) (name : String) (inst : Instance)
    (rest : Assoc Instance) (e e' : Engine) (p m : String)
    → Assoc.get name rest ≡ none
    → find_state e' p m ≡ (
        if str_eq name p && str_eq nv.id m
        then updated now nv saturated e name (some inst)
        else find_state e p m)
    → find_state e' p nv.id ≡ (
        if str_eq name p && str_eq nv.id nv.id
        then updated now nv saturated e name (some inst)
        else find_state e p nv.id)
    → expected now nv saturated e' rest p m ≡ expected now nv saturated e ((name, inst) ∷ rest) p m
unfolding Assoc.get
expected-step now nv saturated name inst rest e e' p m absent at_m at_id =
    ground (
      arith,
      absent,
      at_m,
      at_id,
      eq_iff name p,
      eq_iff m nv.id,
      eq_iff nv.id m,
      eq_iff nv.id nv.id,
    )

pub evaluate_instances-find :
    (now : ℕ) (nv : NodeView) (saturated : Bool) (insts : Assoc Instance) (e : Engine)
    (p m : String)
    → IsUnique insts
    → Every (HasStates e) insts
    → Returns
        (λ e'. find_state e' p m ≡ expected now nv saturated e insts p m)
        (evaluate_instances now nv saturated insts e)
unfolding evaluate_instances Assoc.get
evaluate_instances-find now nv saturated [] e p m u h = ground (arith, eq_iff m nv.id)
evaluate_instances-find now nv saturated ((name, inst) ∷ rest) e p m (absent, u) (q, h) =
    let round = evaluate_instance now nv saturated name inst e in
    elim (Option-cases round) [
      | inl panic ↦ absurd (
          subst (Returns (Extends e)) panic
            (evaluate_instance-Extends now nv saturated name inst e q))
      | inr ((e', events), found) ↦
          let x : Extends e e' =
            subst (Returns (Extends e)) found
              (evaluate_instance-Extends now nv saturated name inst e q) in
          let at_m =
            subst (Returns _) found (evaluate_instance-find now nv saturated name inst e p m q) in
          let at_id =
            subst (Returns _) found
              (evaluate_instance-find now nv saturated name inst e p nv.id q) in
          let step = expected-step now nv saturated name inst rest e e' p m absent at_m at_id in
          rw (found, evaluate_instances)
            (Returns-more (λ e''. find_state e'' p m ≡ expected now nv saturated e' rest p m) _
              events (evaluate_instances now nv saturated rest e') (λ e'' f. f ∙ step)
              (evaluate_instances-find now nv saturated rest e' p m u
                (Every-map (HasStates e) (HasStates e') rest (λ k i. x.kept k) h)))
    ]
