-- ===== src/Examples/Policies.antt =====
-- A node that fails for a while, and the engine with its default policies.
use grunyas.Prelude.{ℕ, String, ◌≡◌, refl, Bool, true, false, none, some, List, [], ◌∷◌, str_eq}
use grunyas.Prelude.Assoc
use grunyas.Prelude.Assoc.{IsUnique}
use grunyas.Topology.Types.{Role, Liveness, LagState, NodeView}
use grunyas.Policy.Types.{TemplateTiming, PerNodeState, active, millis}
use grunyas.Policy.Machine.{Observation, run, initial}
use grunyas.Policy.Engine.{Engine, evaluate_node, default_health, default_saturation}
use grunyas.Policy.Hysteresis.{
  out-rejected_for, back-accepted_for, run-Condition, ever_out, ever_back, rejected_for,
  accepted_for, Condition,
}
use grunyas.Policy.Total.{IsWellFormed}
use grunyas.Policy.Reports.{Yields, IsRound, evaluate_node-IsRound}

abbrev timing : TemplateTiming
timing = record { dwell_ms = 5; release_ms = 5 }

abbrev rejection : ℕ → Observation
rejection at = record { at = at; reject = true; reason = "liveness:down" }

abbrev acceptance : ℕ → Observation
acceptance at = record { at = at; reject = false; reason = "" }

abbrev failing : List Observation
failing = rejection 0 ∷ acceptance 1_000_000 ∷ rejection 2_000_000 ∷ rejection 8_000_000 ∷ []

out-rejected_for_example :
    ever_out timing initial failing ≡ rejected_for (millis timing.dwell_ms) none failing
out-rejected_for_example = out-rejected_for timing failing

abbrev held_out : PerNodeState
held_out = record { state = active; entered_at = some 0; last_condition = "liveness:down" }

abbrev recovering : List Observation
recovering = acceptance 0 ∷ rejection 1_000_000 ∷ acceptance 2_000_000 ∷ acceptance 7_000_000 ∷ []

back-accepted_for_example :
    ever_back timing held_out recovering ≡ accepted_for (millis timing.release_ms) none recovering
back-accepted_for_example = back-accepted_for timing held_out recovering refl

abbrev is_down : String → Bool
is_down c = str_eq c "liveness:down"

run-Condition_example :
    Condition is_down (run timing initial failing).state (run timing initial failing).last_condition
run-Condition_example = run-Condition is_down timing failing (refl, (refl, (refl, (refl, tt))))

abbrev pub down_view : NodeView
down_view = record {
  id = "b";
  host = "db-b";
  port = 5432;
  declared_role = Role.replica;
  observed_role = Role.replica;
  liveness = Liveness.down;
  system_id = "7001";
  last_probe_at = some 0;
  last_probe_err = none;
  replication_lag_ms = none;
  replication_lag_state = LagState.idle;
  last_lag_sample_at = some 0;
  liveness_max_age_ms = 2000;
  observed_role_max_age_ms = 5000;
  replication_lag_max_age_ms = 2000;
}

abbrev engine : Engine
engine = record {
  instances =
      ("default-health-filter", default_health)
      ∷ ("default-pool-saturation-rejection", default_saturation)
      ∷ [];
  states = ("default-health-filter", []) ∷ ("default-pool-saturation-rejection", []) ∷ [];
  has_bus = true;
  transitions_published = 0;
}

engine-IsUnique : IsUnique engine.instances
unfolding Assoc.get
engine-IsUnique = (refl, (refl, tt))

engine-IsWellFormed : IsWellFormed engine
unfolding Assoc.get
engine-IsWellFormed = (tt, (tt, tt))

evaluate_node-IsRound_example :
    Yields
      (IsRound 9 down_view true engine "default-health-filter" "b")
      (evaluate_node 9 down_view true engine)
evaluate_node-IsRound_example =
    evaluate_node-IsRound 9 down_view true engine "default-health-filter" "b" engine-IsUnique
      engine-IsWellFormed
