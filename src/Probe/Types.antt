-- ===== src/Probe/Types.antt =====
-- The types of internal/probe/probe.go.

pub data Liveness : Type 0 where
  unknown up degraded down : Liveness

pub data Role : Type 0 where
  unknown primary replica : Role
