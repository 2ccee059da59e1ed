-- ===== src/Policy/Types.antt =====
-- The types of internal/policy/engine.go. Times are nanoseconds, and the zero time is `none`.
use grunyas.Prelude.{ℕ, ◌*◌, String, Option}
use grunyas.Prelude.Int.{ℤ}
use grunyas.Prelude.Assoc.{Assoc}

pub data State : Type 0 where
  clean pending active releasing : State

unfoldable pub state_string : State → String
state_string clean = "clean"
state_string pending = "pending"
state_string active = "active"
state_string releasing = "releasing"

pub record TemplateTiming : Type 0 where
  pub dwell_ms : ℕ
  pub release_ms : ℕ

pub record Instance : Type 0 where
  pub name : String
  pub template : String
  pub scope : String
  pub parameters : Assoc ℤ
  pub timing : TemplateTiming

pub record PerNodeState : Type 0 where
  pub state : State
  pub entered_at : Option ℕ
  pub last_condition : String

pub record TransitionEvent : Type 0 where
  pub policy_name : String
  pub template : String
  pub scope : String
  pub node_id : String
  pub from_state : String
  pub to_state : String
  pub reason : String

-- time.Duration(ms) * time.Millisecond
unfoldable pub millis : ℕ → ℕ
millis ms = ms * 1_000_000
