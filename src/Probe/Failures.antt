-- ===== src/Probe/Failures.antt =====
-- The counter of failures of internal/probe/probe.go against the database as it is.
use grunyas.Prelude.{
  ℕ, ◌+◌, ◌≤◌, ◌≡◌, refl, Bool, true, false, none, some, List, [], ◌∷◌, arith, leb, All, length,
  if◌then◌else◌, ap,
}
use grunyas.Probe.Types.{Liveness}
use grunyas.Topology.Types.{Err}
use grunyas.Topology.State.{Topology}
use grunyas.Topology.Sink.{SinkCall, deliver_all}
use grunyas.Probe.Round.{
  Probe, Round, threshold, record_failure, close_and_fail, get_or_open_conn, ask, probe_once,
  probe_rounds, next_wait,
}

-- The report of a failed round.
abbrev pub report : Round → Err → Probe → ℕ → SinkCall
report r e p failures =
    SinkCall.liveness r.now p.id (if leb (threshold p) failures then Liveness.down else Liveness.up)
      (some e)

-- A server that refuses connections, and has dropped the one that was there.
abbrev pub Refuses : Round → Type 0
Refuses r = ((e : Err) × (r.connect ≡ some e)) × ((e : Err) × (r.existing_ping ≡ some e))

-- A server that accepts connections and then fails the first query.
abbrev pub Hangs : Round → Type 0
Hangs r =
    (r.connect ≡ none) × ((e : Err) × (r.ping ≡ some e)) × ((e : Err) × (r.existing_ping ≡ some e))

refused_once :
    (r : Round) (p : Probe) (t : Topology)
    → (refused : Refuses r)
    → probe_once r p t ≡ (
      record p { conn = false; failure_count = p.failure_count + 1 },
      report r refused.0.0 p (p.failure_count + 1) ∷ [],
    )
unfolding probe_once get_or_open_conn record_failure
refused_once r p t ((e, c), (e', x)) = ground (arith, c, x)

hung_once :
    (r : Round) (p : Probe) (t : Topology)
    → (hung : Hangs r)
    → probe_once r p t ≡ (record p { conn = false; failure_count = 1 }, report r hung.1.0 p 1 ∷ [])
unfolding probe_once get_or_open_conn ask close_and_fail record_failure
hung_once r p t (c, (e, q), (e', x)) = ground (arith, c, q, x)

-- The probe after refused rounds.
after_refusals :
    (rs : List Round) (p : Probe) (t : Topology)
    → All Refuses rs
    → ((probe_rounds rs p t).0.failure_count ≡ p.failure_count + length rs)
      × ((probe_rounds rs p t).0.id ≡ p.id)
      × ((probe_rounds rs p t).0.failures_allowed ≡ p.failures_allowed)
unfolding probe_rounds
after_refusals [] p t h = (omega arith, refl, refl)
after_refusals (r ∷ rs) p t (h, hs) =
    let p' = (probe_once r p t).0 in
    let t' = deliver_all (probe_once r p t).1 t in
    let (c, i, a) = after_refusals rs p' t' hs in
    let once = refused_once r p t h in
    (ground (arith, c, once), ground (arith, i, once), ground (arith, a, once))

-- A server that refuses connections is reported as down from the failure on that reaches the
-- threshold, counted from the failures so far, and as up with the error before that. Nothing else is
-- reported.
pub refusals_reach_threshold :
    (rs : List Round) (r : Round) (p : Probe) (t : Topology)
    → All Refuses rs
    → (refused : Refuses r)
    → (probe_once r (probe_rounds rs p t).0 (probe_rounds rs p t).1).1
      ≡ SinkCall.liveness r.now p.id
          (if leb (threshold p) (p.failure_count + length rs + 1)
            then Liveness.down
            else Liveness.up)
          (some refused.0.0)
        ∷ []
unfolding threshold
refusals_reach_threshold rs r p t hs h =
    let p' = (probe_rounds rs p t).0 in
    let (c, i, a) = after_refusals rs p t hs in
    let once = refused_once r p' (probe_rounds rs p t).1 h in cc (ap (λ x. x.1) once, c, i, a)

after-Hangs :
    (rs : List Round) (p : Probe) (t : Topology)
    → All Hangs rs
    → ((probe_rounds rs p t).0.id ≡ p.id)
      × ((probe_rounds rs p t).0.failures_allowed ≡ p.failures_allowed)
unfolding probe_rounds
after-Hangs [] p t h = (refl, refl)
after-Hangs (r ∷ rs) p t (h, hs) =
    let p' = (probe_once r p t).0 in
    let t' = deliver_all (probe_once r p t).1 t in
    let (i, a) = after-Hangs rs p' t' hs in
    let once = hung_once r p t h in (ground (arith, i, once), ground (arith, a, once))

-- A server that accepts connections but fails the first query is reported as up after any number of
-- rounds, if more than one failure is allowed: each new connection resets the counter.
pub hanging_server_stays_up :
    (rs : List Round) (r : Round) (p : Probe) (t : Topology)
    → All Hangs rs
    → (hung : Hangs r) → 2 ≤ threshold p
    → (probe_once r (probe_rounds rs p t).0 (probe_rounds rs p t).1).1
      ≡ SinkCall.liveness r.now p.id Liveness.up (some hung.1.0) ∷ []
unfolding threshold
hanging_server_stays_up rs r p t hs h two =
    let p' = (probe_rounds rs p t).0 in
    let (i, a) = after-Hangs rs p t hs in
    let once = ap (λ x. x.1) (hung_once r p' (probe_rounds rs p t).1 h) in
    let not_down : leb (threshold p) 1 ≡ false = ground (arith, two) in cc (once, i, a, not_down)

-- The wait after a round is never below 100 ms; while the connection fails it is the back-off, and
-- a back-off between 100 ms and 5 s is followed by another between them.
pub back_off_bounded :
    (interval : ℕ) (alive : Bool) (backoff : ℕ)
    → 100 ≤ backoff
    → backoff ≤ 5000
    → let (wait, next) = next_wait interval alive backoff in
      (100 ≤ wait) × (100 ≤ next) × (next ≤ 5000)
unfolding next_wait
back_off_bounded interval true backoff h k = (ground arith, omega arith, omega arith)
back_off_bounded interval false backoff h k = (h, ground (arith, h, k), ground (arith, h, k))
