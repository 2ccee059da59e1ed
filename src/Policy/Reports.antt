-- ===== src/Policy/Reports.antt =====
-- The transition events of `EvaluateNode` in internal/policy/engine.go, and what it leaves alone.
use mathlib.Core.List.{append-nil}
use grunyas.Prelude.{
  ap, ℕ, ◌+◌, String, str_eq, eq_iff, ◌≡◌, refl, Option, none, some, Option-cases, Bool, not, ◌&&◌,
  List, [], ◌∷◌, ◌++◌, length, length-append, keep, inl, inr, arith, if◌then◌else◌, subst, ◌∙◌,
  Bool-cases,
}
use grunyas.Prelude.Assoc
use grunyas.Prelude.Assoc.{Assoc, Every, IsUnique, Every-map}
use grunyas.Topology.Types.{NodeView}
use grunyas.Policy.Types.{Instance, PerNodeState, TransitionEvent, state_string}
use grunyas.Policy.Evaluators.{Verdict}
use grunyas.Policy.Machine.{advance, same_state}
use grunyas.Policy.Engine.{
  Engine, transition, verdict, or_initial, find_state, evaluate_instance, evaluate_instances,
  evaluate_node,
}
use grunyas.Policy.Total.{
  IsWellFormed, IsPresent, HasStates, Returns, Extends, evaluate_instance-Extends,
}
use grunyas.Policy.Frame.{expected, evaluate_instance-find, evaluate_instances-find, updated}

abbrev pub is_of : String → TransitionEvent → Bool
is_of p event = str_eq event.policy_name p

-- The event of a policy whose state for a node goes from `old` to `new`, where it is another one
-- and there is a bus.
abbrev pub told :
    Bool → String → Instance → String → String → PerNodeState → PerNodeState → List TransitionEvent
told has_bus p inst id reason old new =
    if not (same_state new.state old.state) && has_bus
    then record {
      policy_name = p;
      template = inst.template;
      scope = inst.scope;
      node_id = id;
      from_state = state_string old.state;
      to_state = state_string new.state;
      reason = reason;
    }
      ∷ []
    else []

abbrev pub told_verdict :
    ℕ
    → String
    → Bool
    → String
    → Instance
    → Option PerNodeState
    → Option Verdict
    → List TransitionEvent
told_verdict now id has_bus p inst old none = []
told_verdict now id has_bus p inst old (some (reject, reason)) =
    told has_bus p inst id reason (or_initial old)
      (advance inst.timing now reject reason (or_initial old))

-- The events of policy `p` in an evaluation of `nv`, from the state of `p` for it.
abbrev pub reported :
    ℕ
    → NodeView
    → Bool
    → Bool
    → String
    → Option PerNodeState
    → Option Instance
    → List TransitionEvent
reported now nv saturated has_bus p old none = []
reported now nv saturated has_bus p old (some inst) =
    told_verdict now nv.id has_bus p inst old (verdict inst nv saturated)

-- What a round, or some rounds, of the loop leave alone and count, and the events of policy `p`.
abbrev pub Reports : Engine → String → List TransitionEvent → Engine → List TransitionEvent → Type 0
Reports e p own e' events =
    (e'.instances ≡ e.instances)
    × (e'.has_bus ≡ e.has_bus)
    × (e'.transitions_published ≡ e.transitions_published + length events)
    × (keep (is_of p) events ≡ own)

-- The call does not panic, and its engine and its events satisfy `Q`.
abbrev pub Yields :
    (Engine → List TransitionEvent → Type 0) → Option (Engine × List TransitionEvent) → Type 0
Yields Q none = ⊥
Yields Q (some (e, events)) = Q e events

keep-told :
    (has_bus : Bool) (name : String) (inst : Instance) (id reason : String) (old new : PerNodeState)
    (p : String)
    → keep (is_of p) (told has_bus name inst id reason old new)
      ≡ (if str_eq name p then told has_bus name inst id reason old new else [])
keep-told has_bus name inst id reason old new p =
    elim (Bool-cases (not (same_state new.state old.state) && has_bus)) [
      | inl b ↦ rw b refl
      | inr b ↦ rw b (ground arith)
    ]

length-told :
    (has_bus : Bool) (name : String) (inst : Instance) (id reason : String) (old new : PerNodeState)
    (n : ℕ)
    → (if not (same_state new.state old.state) && has_bus then n + 1 else n)
      ≡ n + length (told has_bus name inst id reason old new)
length-told has_bus name inst id reason old new n =
    elim (Bool-cases (not (same_state new.state old.state) && has_bus)) [
      | inl b ↦ rw b refl
      | inr b ↦ rw b (omega arith)
    ]

transition-Reports :
    (now : ℕ) (name : String) (inst : Instance) (id : String) (v : Verdict) (e : Engine)
    (p : String)
    → IsPresent (Assoc.get name e.states)
    → Yields
        (Reports e p (
          if str_eq name p
          then told_verdict now id e.has_bus name inst (find_state e name id) (some v)
          else []))
        (transition now name inst id v e)
unfolding transition find_state
transition-Reports now name inst id (reject, reason) e p h =
    elim (Option-cases (Assoc.get name e.states)) [
      | inl absent ↦ absurd (subst IsPresent absent h)
      | inr (pm, found) ↦
          let old = or_initial (Assoc.get id pm) in
          let new = advance inst.timing now reject reason old in
          rw (found, transition)
            (
              refl,
              refl,
              length-told e.has_bus name inst id reason old new e.transitions_published,
              rw (found, find_state) (keep-told e.has_bus name inst id reason old new p),
            )
    ]

evaluate_instance-Reports :
    (now : ℕ) (nv : NodeView) (saturated : Bool) (name : String) (inst : Instance) (e : Engine)
    (p : String)
    → IsPresent (Assoc.get name e.states)
    → Yields
        (Reports e p (
          if str_eq name p
          then reported now nv saturated e.has_bus name (find_state e name nv.id) (some inst)
          else []))
        (evaluate_instance now nv saturated name inst e)
unfolding evaluate_instance
evaluate_instance-Reports now nv saturated name inst e p h =
    elim (Option-cases (verdict inst nv saturated)) [
      | inl skip ↦ rw (skip, evaluate_instance) (refl, refl, omega arith, ground arith)
      | inr (v, found) ↦
          rw (found, evaluate_instance) (transition-Reports now name inst nv.id v e p h)
    ]

keep-append :
    (p : String) (events more : List TransitionEvent)
    → keep (is_of p) (events ++ more) ≡ keep (is_of p) events ++ keep (is_of p) more
keep-append p [] more = refl
keep-append p (event ∷ events) more = ground (arith, keep-append p events more)

-- A first round and the rest of the loop.
Reports-append :
    (e e' e'' : Engine) (p : String) (first rest all : List TransitionEvent)
    (events more : List TransitionEvent)
    → Reports e p first e' events
    → Reports e' p rest e'' more
    → first ++ rest ≡ all
    → Reports e p all e'' (events ++ more)
Reports-append e e' e'' p first rest all events more (s, b, n, k) (s', b', n', k') h = (
  s' ∙ s,
  b' ∙ b,
  omega (arith, n, n', length-append events more),
  keep-append p events more ∙ cc (k, k', h),
)

-- The events of the first round and of the rest are those of the whole loop.
reported-step :
    (now : ℕ) (nv : NodeView) (saturated : Bool) (name : String) (inst : Instance)
    (rest : Assoc Instance) (e e' : Engine) (p : String)
    → Assoc.get name rest ≡ none
    → e'.has_bus ≡ e.has_bus
    → find_state e' p nv.id ≡ (
        if str_eq name p && str_eq nv.id nv.id
        then updated now nv saturated e name (some inst)
        else find_state e p nv.id)
    → (if str_eq name p
          then reported now nv saturated e.has_bus name (find_state e name nv.id) (some inst)
          else [])
        ++ reported now nv saturated e'.has_bus p (find_state e' p nv.id) (Assoc.get p rest)
      ≡ reported now nv saturated e.has_bus p
          (find_state e p nv.id)
          (Assoc.get p ((name, inst) ∷ rest))
unfolding Assoc.get
reported-step now nv saturated name inst rest e e' p absent bus at_id =
    elim (Bool-cases (str_eq name p)) [
      | inl b ↦
          let same : name ≡ p = (eq_iff name p).0 b in
          rw (b, subst (λ q. Assoc.get q rest ≡ none) same absent, append-nil)
            (ap (λ q. reported now nv saturated e.has_bus q (find_state e q nv.id) (some inst))
              same)
      | inr b ↦
          let same : find_state e' p nv.id ≡ find_state e p nv.id = ground (arith, at_id, b) in
          rw (b, same, bus) refl
    ]

-- The loop, from what its rest yields.
Yields-more :
    (P Q : Engine → List TransitionEvent → Type 0) (events : List TransitionEvent)
    (r : Option (Engine × List TransitionEvent))
    → ((e : Engine) (more : List TransitionEvent) → P e more → Q e (events ++ more))
    → Yields P r
    → Yields Q (elim r [ none ↦ none | some (e'', more) ↦ some (e'', events ++ more) ])
Yields-more P Q events none f h = h
Yields-more P Q events (some (e, more)) f h = f e more h

evaluate_instances-Reports :
    (now : ℕ) (nv : NodeView) (saturated : Bool) (insts : Assoc Instance) (e : Engine) (p : String)
    → IsUnique insts
    → Every (HasStates e) insts
    → Yields
        (Reports e p
          (reported now nv saturated e.has_bus p (find_state e p nv.id) (Assoc.get p insts)))
        (evaluate_instances now nv saturated insts e)
unfolding evaluate_instances Assoc.get
evaluate_instances-Reports now nv saturated [] e p u h = (refl, refl, omega arith, refl)
evaluate_instances-Reports now nv saturated ((name, inst) ∷ rest) e p (absent, u) (q, h) =
    let round = evaluate_instance now nv saturated name inst e in
    elim (Option-cases round) [
      | inl panic ↦ absurd (
          subst (Returns (Extends e)) panic
            (evaluate_instance-Extends now nv saturated name inst e q))
      | inr ((e', events), found) ↦
          let x : Extends e e' =
            subst (Returns (Extends e)) found
              (evaluate_instance-Extends now nv saturated name inst e q) in
          let at_id =
            subst (Returns _) found
              (evaluate_instance-find now nv saturated name inst e p nv.id q) in
          let first =
            subst (Yields _) found (evaluate_instance-Reports now nv saturated name inst e p q) in
          let more =
            evaluate_instances-Reports now nv saturated rest e' p u
              (Every-map (HasStates e) (HasStates e') rest (λ k i. x.kept k) h) in
          rw (found, evaluate_instances)
            (Yields-more _ _ events (evaluate_instances now nv saturated rest e')
              (λ e'' l m.
                Reports-append e e' e'' p _ _ _ events l first m
                  (reported-step now nv saturated name inst rest e e' p absent first.1 at_id))
              more)
    ]

-- What an evaluation of `nv` makes of the engine and reports: the state of policy `p` for node `m`
-- is the expected one, the instances and the bus are those of before, the counter of transitions
-- has grown by the number of events, and the events of `p` are those of its state for the node.
abbrev pub IsRound :
    ℕ → NodeView → Bool → Engine → String → String → Engine → List TransitionEvent → Type 0
IsRound now nv saturated e p m e' events =
    (find_state e' p m ≡ expected now nv saturated e e.instances p m)
    × Reports e p
        (reported now nv saturated e.has_bus p (find_state e p nv.id) (Assoc.get p e.instances)) e'
        events

Yields-both :
    (Q : Engine → Type 0) (R : Engine → List TransitionEvent → Type 0)
    (r : Option (Engine × List TransitionEvent))
    → Returns Q r
    → Yields R r
    → Yields (λ e events. Q e × R e events) r
Yields-both Q R none h k = k
Yields-both Q R (some (e, events)) h k = (h, k)

-- An evaluation of a node takes, for each policy with a known template, one step of the state
-- machine of that policy and node with the verdict of its template; the policies of another
-- template and the states of all other nodes stay as they are, and so do the instances and the bus.
-- With a bus, a policy whose state has become another one is reported by one event, from the old
-- state to the new one, and no other event is; without a bus there is none. The counter of
-- transitions grows by the number of events.
pub evaluate_node-IsRound :
    (now : ℕ) (nv : NodeView) (saturated : Bool) (e : Engine) (p m : String)
    → IsUnique e.instances
    → IsWellFormed e
    → Yields (IsRound now nv saturated e p m) (evaluate_node now nv saturated e)
unfolding evaluate_node
evaluate_node-IsRound now nv saturated e p m u h =
    Yields-both (λ e'. find_state e' p m ≡ expected now nv saturated e e.instances p m) _
      (evaluate_node now nv saturated e)
      (evaluate_instances-find now nv saturated e.instances e p m u h)
      (evaluate_instances-Reports now nv saturated e.instances e p u h)
