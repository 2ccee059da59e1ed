-- ===== src/Policy/Engine.antt =====
-- internal/policy/engine.go: the engine over all policies and nodes. A method that takes the lock is
-- one step, and `now` is the reading of the clock in it. `none` is a panic, the write to a nil map.
use Prim.Native.String.{compare}
use text.Mathlib.Text.{is_lt}
use grunyas.Prelude.{
  ℕ, ◌+◌, String, str_eq, Option, none, some, Bool, true, not, ◌&&◌, List, [], ◌∷◌, ◌++◌,
  if◌then◌else◌,
}
use grunyas.Prelude.Int.{pos}
use grunyas.Prelude.Assoc
use grunyas.Prelude.Assoc.{Assoc}
use grunyas.Topology.Types.{NodeView}
use grunyas.Policy.Types.{State, clean, state_string, Instance, PerNodeState, TransitionEvent}
use grunyas.Policy.Evaluators.{Verdict, evaluate_health, evaluate_lag, pool_rejection_map}
use grunyas.Policy.Machine.{advance, initial, same_state, is_eligible_state}

pub record Engine : Type 0 where
  pub instances : Assoc Instance
  pub states : Assoc (Assoc PerNodeState)
  pub has_bus : Bool
  pub transitions_published : ℕ

-- The loop of `NewEngine` over the configured instances.
unfoldable pub add_instances : List Instance → Engine → Engine
add_instances [] e = e
add_instances (inst ∷ rest) e = add_instances rest (record e {
  instances = Assoc.put inst.name inst e.instances;
  states = Assoc.put inst.name [] e.states;
})

unfoldable pub ensure_default : Instance → Engine → Engine
ensure_default inst e = elim (Assoc.get inst.name e.instances) [
  | some _ ↦ e
  | none ↦ record e {
    instances = Assoc.put inst.name inst e.instances;
    states = Assoc.put inst.name [] e.states;
  }
]

abbrev pub default_health : Instance
default_health = record {
  name = "default-health-filter";
  template = "health-filter";
  scope = "cluster";
  parameters = [];
  timing = record { dwell_ms = 5000; release_ms = 5000 };
}

abbrev pub default_lag : Instance
default_lag = record {
  name = "default-lag-filter";
  template = "lag-filter";
  scope = "cluster";
  parameters = ("threshold_ms", pos 100) ∷ [];
  timing = record { dwell_ms = 5000; release_ms = 5000 };
}

abbrev pub default_saturation : Instance
default_saturation = record {
  name = "default-pool-saturation-rejection";
  template = "pool-saturation-rejection";
  scope = "cluster";
  parameters = [];
  timing = record { dwell_ms = 0; release_ms = 0 };
}

unfoldable pub ensure_defaults : Engine → Engine
unfolding ensure_default
ensure_defaults e =
    ensure_default default_saturation (ensure_default default_lag (ensure_default default_health e))

unfoldable pub new_engine : List Instance → Bool → Engine
unfolding add_instances ensure_defaults
new_engine instances has_bus = ensure_defaults (
    add_instances instances
      (record { instances = []; states = []; has_bus = has_bus; transitions_published = 0 }))

abbrev pub or_initial : Option PerNodeState → PerNodeState
or_initial none = initial
or_initial (some pns) = pns

unfoldable pub transition :
    ℕ → String → Instance → String → Verdict → Engine → Option (Engine × List TransitionEvent)
transition now policy_name inst node_id (reject, reason) e = elim (Assoc.get policy_name e.states) [
  | none ↦ none
  | some pm ↦
      let pns = or_initial (Assoc.get node_id pm) in
      let pns' = advance inst.timing now reject reason pns in
      let publish = not (same_state pns'.state pns.state) && e.has_bus in
      some (
        record e {
          states = Assoc.put policy_name (Assoc.put node_id pns' pm) e.states;
          transitions_published =
              if publish then e.transitions_published + 1 else e.transitions_published;
        },
        if publish
            then record {
              policy_name = policy_name;
              template = inst.template;
              scope = inst.scope;
              node_id = node_id;
              from_state = state_string pns.state;
              to_state = state_string pns'.state;
              reason = reason;
            }
              ∷ []
            else [],
      )
]

-- The `switch` on the template; `none` is its `default`, which goes on to the next instance.
unfoldable pub verdict : Instance → NodeView → Bool → Option Verdict
unfolding evaluate_health evaluate_lag pool_rejection_map
verdict inst nv saturated =
    if str_eq inst.template "health-filter"
    then some (evaluate_health nv)
    else if str_eq inst.template "lag-filter"
    then some (evaluate_lag nv inst.parameters)
    else if str_eq inst.template "pool-saturation-rejection"
    then some (pool_rejection_map saturated)
    else none

-- One round of the loop of `EvaluateNode`.
unfoldable pub evaluate_instance :
    ℕ → NodeView → Bool → String → Instance → Engine → Option (Engine × List TransitionEvent)
evaluate_instance now nv saturated name inst e = elim (verdict inst nv saturated) [
  | none ↦ some (e, [])
  | some v ↦ transition now name inst nv.id v e
]

unfoldable pub evaluate_instances :
    ℕ → NodeView → Bool → Assoc Instance → Engine → Option (Engine × List TransitionEvent)
evaluate_instances now nv saturated [] e = some (e, [])
evaluate_instances now nv saturated ((name, inst) ∷ rest) e =
    elim (evaluate_instance now nv saturated name inst e) [
      | none ↦ none
      | some (e', events) ↦ elim (evaluate_instances now nv saturated rest e') [
        | none ↦ none
        | some (e'', more) ↦ some (e'', events ++ more)
      ]
    ]

-- The clock is read once for all policies, where `transition` reads it for each.
unfoldable pub evaluate_node : ℕ → NodeView → Bool → Engine → Option (Engine × List TransitionEvent)
evaluate_node now nv saturated e = evaluate_instances now nv saturated e.instances e

-- The entry for a policy and a node, if there is one.
unfoldable pub find_state : Engine → String → String → Option PerNodeState
find_state e policy_name node_id = elim (Assoc.get policy_name e.states) [
  | none ↦ none
  | some pm ↦ Assoc.get node_id pm
]

unfoldable pub is_eligible : Engine → String → String → Bool
unfolding find_state
is_eligible e policy_name node_id = elim (find_state e policy_name node_id) [
  | none ↦ true
  | some pns ↦ is_eligible_state pns.state
]

unfoldable pub candidate_state : Engine → String → String → State × Option ℕ × String
unfolding find_state
candidate_state e policy_name node_id = elim (find_state e policy_name node_id) [
  | none ↦ (clean, none, "")
  | some pns ↦ (pns.state, pns.entered_at, pns.last_condition)
]

unfoldable pub evaluate_policy_state : Engine → String → String → Bool × String
unfolding find_state
evaluate_policy_state e policy_name node_id = elim (find_state e policy_name node_id) [
  | none ↦ (true, "")
  | some pns ↦ (is_eligible_state pns.state, pns.last_condition)
]

-- sort.Slice by name; the names are the keys of a map, so no two are equal.
unfoldable pub insert_by_name : Instance → List Instance → List Instance
insert_by_name inst [] = inst ∷ []
insert_by_name inst (x ∷ xs) =
    if is_lt (compare x.name inst.name) then x ∷ insert_by_name inst xs else inst ∷ x ∷ xs

unfoldable pub sorted_instances : Assoc Instance → List Instance
sorted_instances [] = []
sorted_instances ((name, inst) ∷ rest) = insert_by_name inst (sorted_instances rest)

unfoldable pub instances_of : Engine → List Instance
unfolding sorted_instances insert_by_name
instances_of e = sorted_instances e.instances

unfoldable pub candidate_states : Engine → String → Assoc PerNodeState
candidate_states e policy_name = elim (Assoc.get policy_name e.states) [ none ↦ [] | some pm ↦ pm ]
