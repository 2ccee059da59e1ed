-- ===== src/Routing/Observe.antt =====
-- `updatePolicyEvaluation` of internal/routing/pipeline.go, as the observation loop calls it, with no
-- map of saturated pools. The numbers of a pool's connections belong to the pool library, and each
-- evaluation reads the clock itself, so that both are given by node.
use grunyas.Prelude.{ℕ, String, Option, none, some, Bool, ◌&&◌, List, [], ◌∷◌, ◌++◌, ltb, leb}
use grunyas.Topology.Types.{NodeView}
use grunyas.Topology.State.{Topology}
use grunyas.Topology.View.{nodes}
use grunyas.Policy.Types.{TransitionEvent}
use grunyas.Policy.Engine.{Engine, evaluate_node, new_engine}
use grunyas.Policy.Types.{Instance}
use grunyas.Policy.Total.{IsWellFormed, Returns, evaluate_node_total, new_engine-IsWellFormed}

pub record PoolStats : Type 0 where
  pub acquired_conns : ℕ
  pub max_conns : ℕ

unfoldable pub is_saturated : PoolStats → Bool
is_saturated s = leb s.max_conns s.acquired_conns && ltb 0 s.max_conns

-- What the rest of the loop makes of an evaluation.
unfoldable pub and_then :
    (Engine → Option (Engine × List TransitionEvent))
    → Option (Engine × List TransitionEvent)
    → Option (Engine × List TransitionEvent)
and_then rest none = none
and_then rest (some (e, events)) = elim (rest e) [
  | none ↦ none
  | some (e', more) ↦ some (e', events ++ more)
]

unfoldable pub evaluate_views :
    (String → ℕ)
    → (String → PoolStats)
    → List NodeView
    → Engine
    → Option (Engine × List TransitionEvent)
unfolding and_then is_saturated
evaluate_views clock stats [] e = some (e, [])
evaluate_views clock stats (nv ∷ rest) e =
    and_then (evaluate_views clock stats rest)
      (evaluate_node (clock nv.id) nv (is_saturated (stats nv.id)) e)

unfoldable pub update_policy_evaluation :
    ℕ
    → (String → ℕ)
    → (String → PoolStats)
    → Topology
    → Engine
    → Option (Engine × List TransitionEvent)
unfolding evaluate_views
update_policy_evaluation now clock stats t e = evaluate_views clock stats (nodes now t) e

-- What one tick of the observation loop reads.
pub record Tick : Type 0 where
  pub now : ℕ
  pub clock : String → ℕ
  pub stats : String → PoolStats
  pub topology : Topology

-- The ticks one after another.
unfoldable pub observe_ticks : List Tick → Engine → Option (Engine × List TransitionEvent)
unfolding and_then
observe_ticks [] e = some (e, [])
observe_ticks (k ∷ ks) e =
    and_then (observe_ticks ks) (update_policy_evaluation k.now k.clock k.stats k.topology e)

and_then-Returns :
    (P : Engine → Type 0) (rest : Engine → Option (Engine × List TransitionEvent))
    (r : Option (Engine × List TransitionEvent))
    → Returns P r
    → ((e : Engine) → P e → Returns P (rest e))
    → Returns P (and_then rest r)
unfolding and_then
and_then-Returns P rest none h f = h
and_then-Returns P rest (some (e, events)) h f = with_events (rest e) (f e h)
  where
    with_events :
        (o : Option (Engine × List TransitionEvent))
        → Returns P o
        → Returns P (elim o [ none ↦ none | some (e', more) ↦ some (e', events ++ more) ])
    with_events none g = g
    with_events (some (e', more)) g = g

evaluate_views-Returns :
    (clock : String → ℕ) (stats : String → PoolStats) (nvs : List NodeView) (e : Engine)
    → IsWellFormed e
    → Returns IsWellFormed (evaluate_views clock stats nvs e)
unfolding evaluate_views
evaluate_views-Returns clock stats [] e h = h
evaluate_views-Returns clock stats (nv ∷ rest) e h =
    and_then-Returns IsWellFormed (evaluate_views clock stats rest)
      (evaluate_node (clock nv.id) nv (is_saturated (stats nv.id)) e)
      (evaluate_node_total (clock nv.id) nv (is_saturated (stats nv.id)) e h)
      (λ e' h'. evaluate_views-Returns clock stats rest e' h')

observe_from-Returns :
    (ks : List Tick) (e : Engine) → IsWellFormed e → Returns IsWellFormed (observe_ticks ks e)
unfolding observe_ticks update_policy_evaluation
observe_from-Returns [] e h = h
observe_from-Returns (k ∷ ks) e h =
    and_then-Returns IsWellFormed (observe_ticks ks)
      (update_policy_evaluation k.now k.clock k.stats k.topology e)
      (evaluate_views-Returns k.clock k.stats (nodes k.now k.topology) e h)
      (λ e' h'. observe_from-Returns ks e' h')

-- From a new engine, with any configured instances, no run of the observation loop panics, whatever
-- topologies, times and pools it finds, and it leaves each instance with its map of states.
pub observe_ticks-Returns :
    (insts : List Instance) (has_bus : Bool) (ks : List Tick)
    → Returns IsWellFormed (observe_ticks ks (new_engine insts has_bus))
observe_ticks-Returns insts has_bus ks =
    observe_from-Returns ks (new_engine insts has_bus) (new_engine-IsWellFormed insts has_bus)
