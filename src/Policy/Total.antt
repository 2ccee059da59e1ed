-- ===== src/Policy/Total.antt =====
-- The engine never writes to a nil map: each instance has its map of states.
use grunyas.Prelude.{
  ℕ, String, str_eq, eq_iff, ◌≡◌, refl, Option, none, some, Option-cases, Bool, Bool-cases, List,
  [], ◌∷◌, inl, inr, subst, ◌∙◌, ◌++◌, sym,
}
use grunyas.Prelude.Assoc
use grunyas.Prelude.Assoc.{Assoc, get-put, Every, Every-put, Every-map}
use grunyas.Topology.Types.{NodeView}
use grunyas.Policy.Types.{Instance, TransitionEvent}
use grunyas.Policy.Evaluators.{Verdict}
use grunyas.Policy.Engine.{
  Engine, add_instances, ensure_default, ensure_defaults, new_engine, transition, verdict,
  evaluate_instance, default_health, default_lag, default_saturation, evaluate_instances,
  evaluate_node,
}

abbrev pub IsPresent {ℓ} : {A : Type ℓ} → Option A → Type 0
IsPresent none = ⊥
IsPresent (some a) = Unit

abbrev pub HasStates : Engine → String → Instance → Type 0
HasStates e name inst = IsPresent (Assoc.get name e.states)

-- Each instance of the engine has a map of states.
abbrev pub IsWellFormed : Engine → Type 0
IsWellFormed e = Every (HasStates e) e.instances

IsPresent-put {ℓ} :
    {V : Type ℓ} (k j : String) (v : V) (m : Assoc V)
    → IsPresent (Assoc.get j m)
    → IsPresent (Assoc.get j (Assoc.put k v m))
IsPresent-put k j v m h =
    rw get-put (elim (Bool-cases (str_eq k j)) [ inl e ↦ rw e tt | inr e ↦ rw e h ])

IsPresent-put_self {ℓ} :
    {V : Type ℓ} (k : String) (v : V) (m : Assoc V) → IsPresent (Assoc.get k (Assoc.put k v m))
IsPresent-put_self k v m = rw (get-put, (eq_iff k k).1 refl) tt

IsWellFormed-add :
    (inst : Instance) (e : Engine)
    → IsWellFormed e
    → IsWellFormed (record e {
      instances = Assoc.put inst.name inst e.instances;
      states = Assoc.put inst.name [] e.states;
    })
IsWellFormed-add inst e h =
    Every-put (λ k i. IsPresent (Assoc.get k (Assoc.put inst.name [] e.states))) inst.name inst
      e.instances (IsPresent-put_self inst.name [] e.states)
      (Every-map (HasStates e) (λ k i. IsPresent (Assoc.get k (Assoc.put inst.name [] e.states)))
        e.instances (λ k i p. IsPresent-put inst.name k [] e.states p) h)

add_instances-IsWellFormed :
    (insts : List Instance) (e : Engine) → IsWellFormed e → IsWellFormed (add_instances insts e)
unfolding add_instances
add_instances-IsWellFormed [] e h = h
add_instances-IsWellFormed (inst ∷ rest) e h =
    add_instances-IsWellFormed rest _ (IsWellFormed-add inst e h)

ensure_default-IsWellFormed :
    (inst : Instance) (e : Engine) → IsWellFormed e → IsWellFormed (ensure_default inst e)
unfolding ensure_default
ensure_default-IsWellFormed inst e h = elim (Option-cases (Assoc.get inst.name e.instances)) [
  | inl absent ↦ rw (absent, ensure_default) (IsWellFormed-add inst e h)
  | inr (i, found) ↦ rw (found, ensure_default) h
]

pub new_engine-IsWellFormed :
    (insts : List Instance) (has_bus : Bool) → IsWellFormed (new_engine insts has_bus)
unfolding new_engine ensure_defaults
new_engine-IsWellFormed insts has_bus = ensure_default-IsWellFormed default_saturation _ (
    ensure_default-IsWellFormed default_lag _
      (ensure_default-IsWellFormed default_health _ (add_instances-IsWellFormed insts _ tt)))

-- The call does not panic, and its engine satisfies `Q`.
abbrev pub Returns : (Engine → Type 0) → Option (Engine × List TransitionEvent) → Type 0
Returns Q none = ⊥
Returns Q (some (e, events)) = Q e

-- No instance and no map of states is lost.
pub record Extends (e e' : Engine) : Type 0 where
  pub same : e'.instances ≡ e.instances
  pub kept : (j : String) → IsPresent (Assoc.get j e.states) → IsPresent (Assoc.get j e'.states)

transition-Extends :
    (now : ℕ) (name : String) (inst : Instance) (node_id : String) (v : Verdict) (e : Engine)
    → IsPresent (Assoc.get name e.states)
    → Returns (Extends e) (transition now name inst node_id v e)
unfolding transition
transition-Extends now name inst node_id (reject, reason) e h =
    elim (Option-cases (Assoc.get name e.states)) [
      | inl absent ↦ absurd (subst IsPresent absent h)
      | inr (pm, found) ↦
          rw (found, transition)
            (record { same = refl; kept = λ j p. IsPresent-put name j _ e.states p })
    ]

pub evaluate_instance-Extends :
    (now : ℕ) (nv : NodeView) (saturated : Bool) (name : String) (inst : Instance) (e : Engine)
    → IsPresent (Assoc.get name e.states)
    → Returns (Extends e) (evaluate_instance now nv saturated name inst e)
unfolding evaluate_instance
evaluate_instance-Extends now nv saturated name inst e h =
    elim (Option-cases (verdict inst nv saturated)) [
      | inl skip ↦ rw (skip, evaluate_instance) (record { same = refl; kept = λ j p. p })
      | inr (v, found) ↦
          rw (found, evaluate_instance) (transition-Extends now name inst nv.id v e h)
    ]

Extends-trans : {a b c : Engine} → Extends a b → Extends b c → Extends a c
Extends-trans ab bc = record { same = bc.same ∙ ab.same; kept = λ j p. bc.kept j (ab.kept j p) }

-- The loop, from what its rest returns.
pub Returns-more :
    (P Q : Engine → Type 0) (events : List TransitionEvent)
    (r : Option (Engine × List TransitionEvent))
    → ((e : Engine) → P e → Q e)
    → Returns P r
    → Returns Q (elim r [ none ↦ none | some (e'', more) ↦ some (e'', events ++ more) ])
Returns-more P Q events none f h = h
Returns-more P Q events (some (e, more)) f h = f e h

evaluate_instances-Extends :
    (now : ℕ) (nv : NodeView) (saturated : Bool) (insts : Assoc Instance) (e : Engine)
    → Every (HasStates e) insts
    → Returns (Extends e) (evaluate_instances now nv saturated insts e)
unfolding evaluate_instances
evaluate_instances-Extends now nv saturated [] e h = record { same = refl; kept = λ j p. p }
evaluate_instances-Extends now nv saturated ((name, inst) ∷ rest) e (p, h) =
    let first = evaluate_instance-Extends now nv saturated name inst e p in
    elim (Option-cases (evaluate_instance now nv saturated name inst e)) [
      | inl panic ↦ absurd (subst (Returns (Extends e)) panic first)
      | inr ((e', events), found) ↦
          let x : Extends e e' = subst (Returns (Extends e)) found first in
          rw (found, evaluate_instances)
            (Returns-more (Extends e') (Extends e) events
              (evaluate_instances now nv saturated rest e') (λ e''. Extends-trans x)
              (evaluate_instances-Extends now nv saturated rest e'
                (Every-map (HasStates e) (HasStates e') rest (λ k i. x.kept k) h)))
    ]

IsWellFormed-Extends : (e e' : Engine) → IsWellFormed e → Extends e e' → IsWellFormed e'
IsWellFormed-Extends e e' h x =
    subst (Every (HasStates e')) (sym x.same)
      (Every-map (HasStates e) (HasStates e') e.instances (λ k i. x.kept k) h)

Returns-map :
    (P Q : Engine → Type 0) (r : Option (Engine × List TransitionEvent))
    → ((e : Engine) → P e → Q e)
    → Returns P r
    → Returns Q r
Returns-map P Q none f h = h
Returns-map P Q (some (e, events)) f h = f e h

-- The evaluation of a node does not panic, and it leaves each instance with its map of states.
pub evaluate_node_total :
    (now : ℕ) (nv : NodeView) (saturated : Bool) (e : Engine)
    → IsWellFormed e
    → Returns IsWellFormed (evaluate_node now nv saturated e)
unfolding evaluate_node
evaluate_node_total now nv saturated e h =
    Returns-map (Extends e) IsWellFormed (evaluate_instances now nv saturated e.instances e)
      (λ e'. IsWellFormed-Extends e e' h)
      (evaluate_instances-Extends now nv saturated e.instances e h)
