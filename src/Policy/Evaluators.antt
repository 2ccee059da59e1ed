-- ===== src/Policy/Evaluators.antt =====
-- internal/policy/evaluators.go
use grunyas.Prelude.{String, Option, none, some, Bool, true, false, if◌then◌else◌}
use grunyas.Prelude.Int.{ℤ, pos, ltb_ℤ}
use grunyas.Prelude.Assoc
use grunyas.Prelude.Assoc.{Assoc}
use grunyas.Topology.Types.{NodeView, Liveness, LagState, is_replica}

-- What an evaluator returns: whether to reject, and the reason.
abbrev pub Verdict : Type 0
Verdict = Bool × String

unfoldable pub evaluate_health : NodeView → Verdict
evaluate_health nv = elim nv.liveness [
  | Liveness.up ↦ (false, "")
  | Liveness.degraded ↦ (true, "liveness:degraded")
  | Liveness.down ↦ (true, "liveness:down")
  | Liveness.unknown ↦ (true, "liveness:unknown")
]

unfoldable pub threshold_ms : Assoc ℤ → ℤ
threshold_ms params = elim (Assoc.get "threshold_ms" params) [ none ↦ pos 100 | some v ↦ v ]

abbrev exceeds : ℤ → Option ℤ → Bool
exceeds threshold none = false
exceeds threshold (some lag) = ltb_ℤ threshold lag

-- The `switch` of the lag evaluator.
unfoldable pub lag_verdict : ℤ → Option ℤ → LagState → Verdict
lag_verdict threshold lag LagState.fresh =
    if exceeds threshold lag then (true, "lag:above_threshold") else (false, "")
lag_verdict threshold lag LagState.unknown = (true, "lag:unknown")
lag_verdict threshold lag LagState.stale = (true, "lag:unknown")
lag_verdict threshold lag LagState.idle = (true, "lag:idle")
lag_verdict threshold lag LagState.not_applicable = (false, "")

unfoldable pub evaluate_lag : NodeView → Assoc ℤ → Verdict
unfolding lag_verdict threshold_ms
evaluate_lag nv params =
    if is_replica nv.observed_role
    then lag_verdict (threshold_ms params) nv.replication_lag_ms nv.replication_lag_state
    else (false, "")

unfoldable pub pool_rejection_map : Bool → Verdict
pool_rejection_map true = (true, "pool:saturated")
pool_rejection_map false = (false, "")
