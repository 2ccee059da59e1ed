-- ===== src/Decisions/Events.antt =====
-- The types of internal/decisions/events.go. The identifier and the time of an event are set by the
-- bus alone, so the fields stand in `Stamp`. The SQL text is a list of bytes.
use grunyas.Prelude.{ℕ, String, Option, Bool, List}
use grunyas.Classifier.Text.{Text}
use grunyas.Classifier.Statement.{Port, Traffic, Source}
use grunyas.Policy.Types as Policy

abbrev pub schema_version : String
schema_version = "1"

-- What `Publish` writes into an event.
pub record Stamp : Type 0 where
  pub event_id : String
  pub timestamp : ℕ

pub record Classification : Type 0 where
  pub type : Traffic
  pub source : Source
  pub sql : Text

pub record Candidate : Type 0 where
  pub node_id : String
  pub eligible : Bool
  pub reasons : List String

pub record Outcome : Type 0 where
  pub kind : String
  pub node_id : String
  pub sql_state : String
  pub reason : String

-- `LagThresholdMs` is set nowhere.
pub record Consistency : Type 0 where
  pub mode : String
  pub window_remaining_ms : Option ℕ

-- `none` for the stamp and for the classification is the zero value.
pub record Event : Type 0 where
  pub stamp : Option Stamp
  pub schema_version : String
  pub port : Port
  pub pool_mode : String
  pub lease_type : String
  pub classification : Option Classification
  pub candidates : List Candidate
  pub outcome : Outcome
  pub consistency : Option Consistency
  pub policies_active : List String
  pub origin : String

pub data Message : Type 0 where
  decision : Event → Message
  transition : Option Stamp → Policy.TransitionEvent → Message
