-- ===== src/Topology/Types.antt =====
-- internal/topology/types.go. A `time.Time` is a number of nanoseconds, and the zero time is `none`.
use grunyas.Prelude.{ℕ, String, Option, Bool, true, false}
use grunyas.Prelude.Int.{ℤ}

pub data Role : Type 0 where
  unknown primary replica : Role

unfoldable pub role_string : Role → String
role_string Role.primary = "primary"
role_string Role.replica = "replica"
role_string Role.unknown = "unknown"

pub data Liveness : Type 0 where
  unknown up degraded down : Liveness

unfoldable pub liveness_string : Liveness → String
liveness_string Liveness.up = "up"
liveness_string Liveness.degraded = "degraded"
liveness_string Liveness.down = "down"
liveness_string Liveness.unknown = "unknown"

pub data LagState : Type 0 where
  unknown fresh idle stale not_applicable : LagState

unfoldable pub lag_state_string : LagState → String
lag_state_string LagState.fresh = "fresh"
lag_state_string LagState.idle = "idle"
lag_state_string LagState.stale = "stale"
lag_state_string LagState.unknown = "unknown"
lag_state_string LagState.not_applicable = "not_applicable"

-- The errors that reach the topology: its own two, and those of the database driver by their text.
pub data Err : Type 0 where
  node_not_found : String → Err
  system_id_mismatch : String → String → String → Err
  driver : String → Err

pub record NodeView : Type 0 where
  pub id : String
  pub host : String
  pub port : ℕ
  pub declared_role : Role
  pub observed_role : Role
  pub liveness : Liveness
  pub system_id : String
  pub last_probe_at : Option ℕ
  pub last_probe_err : Option Err
  pub replication_lag_ms : Option ℤ
  pub replication_lag_state : LagState
  pub last_lag_sample_at : Option ℕ
  pub liveness_max_age_ms : ℕ
  pub observed_role_max_age_ms : ℕ
  pub replication_lag_max_age_ms : ℕ

-- The tests `==` of the source on its enumerations.
abbrev pub is_primary : Role → Bool
is_primary Role.primary = true
is_primary _ = false

abbrev pub is_replica : Role → Bool
is_replica Role.replica = true
is_replica _ = false

abbrev pub is_unknown : Role → Bool
is_unknown Role.unknown = true
is_unknown _ = false
