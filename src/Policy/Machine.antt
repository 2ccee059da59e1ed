-- ===== src/Policy/Machine.antt =====
-- The state machine in `transition` of internal/policy/engine.go, for one policy and one node.
use grunyas.Prelude.{
  ℕ, ◌+◌, String, Option, none, some, Bool, true, false, ◌||◌, List, [], ◌∷◌, leb, ◌==◌,
  if◌then◌else◌,
}
use grunyas.Policy.Types.{
  State, clean, pending, active, releasing, TemplateTiming, PerNodeState, millis,
}

-- now.Sub(entered_at) >= d: a difference of times can be negative, so the sum is compared. From the
-- zero time, `Sub` saturates at the longest duration.
unfoldable pub has_elapsed : ℕ → Option ℕ → ℕ → Bool
has_elapsed now none d = true
has_elapsed now (some at) d = leb (at + d) now

-- The new state and the fields that the `switch` writes, before `enteredAt` is set once more.
unfoldable pub switch : TemplateTiming → ℕ → Bool → String → PerNodeState → State → PerNodeState
unfolding has_elapsed millis
switch timing now true reason pns clean = record pns {
  state = if millis timing.dwell_ms == 0 then active else pending;
  entered_at = some now;
  last_condition = reason;
}
switch timing now false reason pns clean = pns
switch timing now true reason pns pending =
    if has_elapsed now pns.entered_at (millis timing.dwell_ms)
    then record pns { state = active; last_condition = reason }
    else pns
switch timing now false reason pns pending = record pns { state = clean; last_condition = "" }
switch timing now true reason pns active = pns
switch timing now false reason pns active = record pns {
  state = releasing;
  entered_at = some now;
  last_condition = "";
}
switch timing now true reason pns releasing = record pns { state = active; last_condition = reason }
switch timing now false reason pns releasing =
    if millis timing.release_ms == 0 || has_elapsed now pns.entered_at (millis timing.release_ms)
    then record pns { state = clean; last_condition = "" }
    else pns

abbrev pub same_state : State → State → Bool
same_state clean clean = true
same_state pending pending = true
same_state active active = true
same_state releasing releasing = true
same_state _ _ = false

abbrev is_clean : State → Bool
is_clean clean = true
is_clean _ = false

-- The write of `enteredAt` after a change of state.
unfoldable pub stamp : ℕ → State → PerNodeState → PerNodeState
stamp now old pns =
    if same_state pns.state old
    then pns
    else if is_clean pns.state
    then pns
    else record pns { entered_at = some now }

unfoldable pub advance : TemplateTiming → ℕ → Bool → String → PerNodeState → PerNodeState
unfolding switch stamp
advance timing now reject reason pns =
    stamp now pns.state (switch timing now reject reason pns pns.state)

-- One evaluation of a policy for a node: the time, whether it rejects, and why.
pub record Observation : Type 0 where
  pub at : ℕ
  pub reject : Bool
  pub reason : String

unfoldable pub observe : TemplateTiming → PerNodeState → Observation → PerNodeState
unfolding advance
observe timing pns o = advance timing o.at o.reject o.reason pns

-- The evaluations one after another.
unfoldable pub run : TemplateTiming → PerNodeState → List Observation → PerNodeState
run timing pns [] = pns
run timing pns (o ∷ os) = run timing (observe timing pns o) os

abbrev pub initial : PerNodeState
initial = record { state = clean; entered_at = none; last_condition = "" }

-- state != StateActive && state != StateReleasing
abbrev pub is_eligible_state : State → Bool
is_eligible_state clean = true
is_eligible_state pending = true
is_eligible_state active = false
is_eligible_state releasing = false
