-- ===== src/Policy/Hysteresis.antt =====
-- When the state machine of a policy takes a node out of routing, and when it lets it back.
use grunyas.Prelude.{
  ℕ, ◌+◌, ◌≡◌, refl, Option, none, some, Bool, true, false, not, ◌||◌, List, [], ◌∷◌, arith, leb,
  if◌then◌else◌, ◌==◌, String, All,
}
use grunyas.Policy.Types.{
  clean, pending, TemplateTiming, PerNodeState, millis, active, releasing, State,
}
use grunyas.Policy.Machine.{Observation, observe, initial, is_eligible_state, run}

-- The node is out at the start of the run or after one of its observations.
unfoldable pub ever_out : TemplateTiming → PerNodeState → List Observation → Bool
ever_out timing pns [] = not (is_eligible_state pns.state)
ever_out timing pns (o ∷ os) =
    not (is_eligible_state pns.state) || ever_out timing (observe timing pns o) os

-- Some stretch of rejections without a break spans at least `d`. `since` is the start of the
-- stretch that is under way.
unfoldable pub rejected_for : ℕ → Option ℕ → List Observation → Bool
rejected_for d since [] = false
rejected_for d since (o ∷ os) =
    let start : ℕ = elim since [ none ↦ o.at | some s ↦ s ] in
    if o.reject
    then (leb (start + d) o.at || rejected_for d (some start) os)
    else rejected_for d none os

out_now :
    (timing : TemplateTiming) (pns : PerNodeState) (os : List Observation)
    → is_eligible_state pns.state ≡ false
    → ever_out timing pns os ≡ true
unfolding ever_out
out_now timing pns [] h = ground arith
out_now timing pns (o ∷ os) h = ground arith

-- A node that is in, with the start of its pending time if there is one.
abbrev Phase : Option ℕ → PerNodeState → Type 0
Phase none pns = pns.state ≡ clean
Phase (some s) pns = (pns.state ≡ pending) × (pns.entered_at ≡ some s)

ever_out-Phase :
    (timing : TemplateTiming) (os : List Observation) (pns : PerNodeState) (since : Option ℕ)
    → Phase since pns
    → ever_out timing pns os ≡ rejected_for (millis timing.dwell_ms) since os
unfolding ever_out rejected_for observe millis
ever_out-Phase timing [] pns none h = ground arith
ever_out-Phase timing [] pns (some s) h = ground arith
ever_out-Phase timing (o ∷ os) pns none h = ground (
  arith,
  out_now timing (observe timing pns o) os,
  ever_out-Phase timing os (observe timing pns o) none,
  ever_out-Phase timing os (observe timing pns o) (some o.at),
)
ever_out-Phase timing (o ∷ os) pns (some s) h = ground (
  arith,
  out_now timing (observe timing pns o) os,
  ever_out-Phase timing os (observe timing pns o) none,
  ever_out-Phase timing os (observe timing pns o) (some s),
)

-- A policy takes a node out of routing exactly when the policy has rejected the node at every
-- evaluation over a stretch that spans at least the dwell time.
pub out-rejected_for :
    (timing : TemplateTiming) (os : List Observation)
    → ever_out timing initial os ≡ rejected_for (millis timing.dwell_ms) none os
out-rejected_for timing os = ever_out-Phase timing os initial none refl

-- The node is in after one of the observations.
unfoldable pub ever_back : TemplateTiming → PerNodeState → List Observation → Bool
ever_back timing pns [] = is_eligible_state pns.state
ever_back timing pns (o ∷ os) =
    is_eligible_state pns.state || ever_back timing (observe timing pns o) os

-- Two evaluations at least `d` apart accept the node, and so do all that stand between them; with
-- `d` = 0 any two in a row do. `since` is the first of the stretch that is under way.
unfoldable pub accepted_for : ℕ → Option ℕ → List Observation → Bool
accepted_for d since [] = false
accepted_for d since (o ∷ os) = if o.reject then accepted_for d none os else elim since [
  | none ↦ accepted_for d (some o.at) os
  | some s ↦ (d == 0 || leb (s + d) o.at) || accepted_for d (some s) os
]

back_now :
    (timing : TemplateTiming) (pns : PerNodeState) (os : List Observation)
    → is_eligible_state pns.state ≡ true
    → ever_back timing pns os ≡ true
unfolding ever_back
back_now timing pns [] h = ground arith
back_now timing pns (o ∷ os) h = ground arith

-- A node that is out, with the start of its release time if there is one.
abbrev Outside : Option ℕ → PerNodeState → Type 0
Outside none pns = pns.state ≡ active
Outside (some s) pns = (pns.state ≡ releasing) × (pns.entered_at ≡ some s)

ever_back-Outside :
    (timing : TemplateTiming) (os : List Observation) (pns : PerNodeState) (since : Option ℕ)
    → Outside since pns
    → ever_back timing pns os ≡ accepted_for (millis timing.release_ms) since os
unfolding ever_back accepted_for observe millis
ever_back-Outside timing [] pns none h = ground arith
ever_back-Outside timing [] pns (some s) h = ground arith
ever_back-Outside timing (o ∷ os) pns none h =
    let pns' = observe timing pns o in
    ground (
      arith,
      back_now timing pns' os,
      ever_back-Outside timing os pns' none,
      ever_back-Outside timing os pns' (some o.at),
    )
ever_back-Outside timing (o ∷ os) pns (some s) h =
    let pns' = observe timing pns o in
    ground (
      arith,
      back_now timing pns' os,
      ever_back-Outside timing os pns' none,
      ever_back-Outside timing os pns' (some s),
    )

-- A policy lets a node that it holds out back in exactly when two evaluations at least the release
-- time apart, and all between them, accept the node (with no release time, two in a row).
pub back-accepted_for :
    (timing : TemplateTiming) (pns : PerNodeState) (os : List Observation)
    → pns.state ≡ active
    → ever_back timing pns os ≡ accepted_for (millis timing.release_ms) none os
back-accepted_for timing pns os h = ever_back-Outside timing os pns none h

-- What the recorded condition is, by state: `p` tells the reasons that a rejection may give.
abbrev pub Condition : (String → Bool) → State → String → Type 0
Condition p clean c = c ≡ ""
Condition p releasing c = c ≡ ""
Condition p pending c = p c ≡ true
Condition p active c = p c ≡ true

abbrev Justified : (String → Bool) → Observation → Type 0
Justified p o = (not o.reject || p o.reason) ≡ true

observe-Condition :
    (p : String → Bool) (timing : TemplateTiming) (o : Observation) (pns : PerNodeState)
    → Justified p o
    → Condition p pns.state pns.last_condition
    → Condition p (observe timing pns o).state (observe timing pns o).last_condition
unfolding observe
observe-Condition p timing o pns j c = ground (arith, j, c)

run_from-Condition :
    (p : String → Bool) (timing : TemplateTiming) (os : List Observation) (pns : PerNodeState)
    → All (Justified p) os
    → Condition p pns.state pns.last_condition
    → Condition p (run timing pns os).state (run timing pns os).last_condition
unfolding run
run_from-Condition p timing [] pns h c = c
run_from-Condition p timing (o ∷ os) pns (j, h) c =
    run_from-Condition p timing os (observe timing pns o) h (observe-Condition p timing o pns j c)

-- After any evaluations, a node that is pending or active carries a reason that some rejection may
-- give, and one that is clean or releasing carries no reason: so a releasing node, which is held
-- out, has the empty reason, and a pending one, which is routed to, has one that is not.
pub run-Condition :
    (p : String → Bool) (timing : TemplateTiming) (os : List Observation)
    → All (Justified p) os
    → Condition p (run timing initial os).state (run timing initial os).last_condition
run-Condition p timing os h = run_from-Condition p timing os initial h refl
