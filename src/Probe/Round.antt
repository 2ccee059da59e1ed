-- ===== src/Probe/Round.antt =====
-- `probeOnce`, `getOrOpenConn`, `recordFailure` and the timer of `loop` in internal/probe/probe.go.
-- The database is not part of the repository: a round takes what it answers. Only the loop opens a
-- connection, so that no other is found when one has been opened. The calls of the sink are listed
-- in their order.
use grunyas.Prelude.{
  ℕ, ◌+◌, ◌*◌, String, Option, none, some, Bool, true, false, List, [], ◌∷◌, ltb, leb,
  if◌then◌else◌, ◌==◌,
}
use grunyas.Prelude.Int.{ℤ}
use grunyas.Probe.Types.{Role, Liveness}
use grunyas.Topology.Types.{Err}
use grunyas.Topology.State.{Topology}
use grunyas.Topology.Sink.{SinkCall, deliver, deliver_all, update_system_id}

-- `failures_allowed` is LivenessFailureCount; `conn` tells whether the pointer is set.
pub record Probe : Type 0 where
  pub id : String
  pub failures_allowed : ℕ
  pub conn : Bool
  pub failure_count : ℕ

pub data Reply (A : Type 0) : Type 0 where
  ok : A → Reply A
  err : Err → Reply A

-- The two columns of the query for the lag, which can be null.
pub record LagRow : Type 0 where
  pub lag_ms : Option ℤ
  pub last_replay_at : Option ℕ

-- What the database answers in one round, where it is asked, and what the clock shows.
pub record Round : Type 0 where
  pub now : ℕ
  pub existing_ping : Option Err
  pub connect : Option Err
  pub ping : Option Err
  pub in_recovery : Reply Bool
  pub system_id : Reply String
  pub lag : Reply LagRow

unfoldable pub get_or_open_conn : Round → Probe → Probe × Option Err
get_or_open_conn r p =
    let reconnected : Probe × Option Err = elim r.connect [
      | some e ↦ (record p { conn = false }, some e)
      | none ↦ (record p { conn = true; failure_count = 0 }, none)
    ] in
    let reused : Probe × Option Err = elim r.existing_ping [
      | none ↦ (p, none)
      | some e ↦ reconnected
    ] in
    if p.conn then reused else reconnected

unfoldable pub threshold : Probe → ℕ
threshold p = if p.failures_allowed == 0 then 3 else p.failures_allowed

unfoldable pub record_failure : ℕ → Err → Probe → Probe × List SinkCall
unfolding threshold
record_failure now e p =
    let p' = record p { failure_count = p.failure_count + 1 } in
    (
      p',
      SinkCall.liveness now p.id
            (if leb (threshold p) p'.failure_count then Liveness.down else Liveness.up) (some e)
          ∷ [],
    )

-- `closeConn` and `recordFailure`.
unfoldable pub close_and_fail : ℕ → Err → Probe → Probe × List SinkCall
unfolding record_failure
close_and_fail now e p = record_failure now e (record p { conn = false })

unfoldable pub role_of : Bool → Role
role_of true = Role.replica
role_of false = Role.primary

-- `classifyLagResult` and the report of it.
unfoldable pub lag_call : ℕ → String → Reply LagRow → SinkCall
lag_call now id (err e) = SinkCall.lag_unknown id e now
lag_call now id (ok row) = elim row.lag_ms [
  | none ↦ SinkCall.lag_idle id now
  | some ms ↦ elim row.last_replay_at [
    | none ↦ SinkCall.lag_idle id now
    | some at ↦ SinkCall.lag id ms now
  ]
]

abbrev pub prepend : List SinkCall → Probe × List SinkCall → Probe × List SinkCall
prepend [] (p, calls) = (p, calls)
prepend (c ∷ cs) (p, calls) = let (p', more) = prepend cs (p, calls) in (p', c ∷ more)

-- After the system identifier has been accepted.
unfoldable pub succeed : Round → Bool → Probe → Probe × List SinkCall
unfolding lag_call
succeed r recovery p =
    let alive = SinkCall.liveness r.now p.id Liveness.up none in
    (
      record p { failure_count = 0 },
      if recovery then lag_call r.now p.id r.lag ∷ alive ∷ [] else alive ∷ [],
    )

-- After the system identifier has been read; the topology is as the sink finds it.
unfoldable pub verify_id : Round → Bool → String → Probe → Topology → Probe × List SinkCall
unfolding succeed close_and_fail
verify_id r recovery sid p t =
    let rest : Probe × List SinkCall = elim (update_system_id p.id sid t).1 [
      | some e ↦ close_and_fail r.now e p
      | none ↦ succeed r recovery p
    ] in
    prepend (SinkCall.system_id p.id sid ∷ []) rest

-- After the role has been read.
unfoldable pub report_role : Round → Bool → Probe → Topology → Probe × List SinkCall
unfolding verify_id close_and_fail
report_role r recovery p t =
    let call = SinkCall.observed_role p.id (role_of recovery) in
    let rest : Probe × List SinkCall = elim r.system_id [
      | err e ↦ close_and_fail r.now e p
      | ok sid ↦ verify_id r recovery sid p (deliver call t)
    ] in
    prepend (call ∷ []) rest

-- With a connection.
unfoldable pub ask : Round → Probe → Topology → Probe × List SinkCall
unfolding report_role close_and_fail
ask r p t = elim r.ping [
  | some e ↦ close_and_fail r.now e p
  | none ↦ elim r.in_recovery [
    | err e ↦ close_and_fail r.now e p
    | ok recovery ↦ report_role r recovery p t
  ]
]

-- The probe after a round, and the calls that it makes.
unfoldable pub probe_once : Round → Probe → Topology → Probe × List SinkCall
unfolding ask record_failure get_or_open_conn
probe_once r p t =
    let (p', failed) = get_or_open_conn r p in
    elim failed [ some e ↦ record_failure r.now e p' | none ↦ ask r p' t ]

-- Rounds one after another, with the topology as the probe's own calls leave it.
unfoldable pub probe_rounds : List Round → Probe → Topology → Probe × Topology
unfolding probe_once
probe_rounds [] p t = (p, t)
probe_rounds (r ∷ rs) p t =
    let (p', calls) = probe_once r p t in probe_rounds rs p' (deliver_all calls t)

-- The timer of `loop`, in milliseconds: the wait after a round, and the next back-off.
unfoldable pub next_wait : ℕ → Bool → ℕ → ℕ × ℕ
next_wait interval_ms true backoff = (if ltb interval_ms 100 then 100 else interval_ms, 100)
next_wait interval_ms false backoff =
    (backoff, if ltb (backoff * 2) 5000 then backoff * 2 else 5000)
