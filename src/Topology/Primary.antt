-- ===== src/Topology/Primary.antt =====
-- `Primary` against its specification: the one serving node that is observed as primary.
use grunyas.Prelude.{
  ℕ, String, ◌+◌, ◌*◌, ltb, ◌≡◌, refl, Option, none, some, Bool, true, false, not, ◌&&◌, List, [],
  ◌∷◌, arith, keep,
}
use grunyas.Prelude.Assoc.{Assoc}
use grunyas.Topology.Types.{Liveness, NodeView, is_primary}
use grunyas.Topology.State.{NodeState, Topology}
use grunyas.Topology.View.{node_view, primary, sole_primary, is_older, is_fresh}

-- The nodes in service that are observed as primary.
abbrev pub serves_as_primary : String × NodeState → Bool
serves_as_primary (id, ns) = not ns.permanently_down && is_primary ns.observed_role

abbrev pub only {ℓ} : {A : Type ℓ} → List A → Option A
only [] = none
only (x ∷ []) = some x
only (x ∷ y ∷ rest) = none

abbrev cons_option {ℓ} : {A : Type ℓ} → Option A → List A → List A
cons_option none xs = xs
cons_option (some x) xs = x ∷ xs

sole_primary-only :
    (m : Assoc NodeState) (seen : Option (String × NodeState))
    → sole_primary m seen ≡ only (cons_option seen (keep serves_as_primary m))
unfolding sole_primary
sole_primary-only [] none = refl
sole_primary-only [] (some e) = refl
sole_primary-only ((id, ns) ∷ m) none =
    ground (arith, sole_primary-only m none, sole_primary-only m (some (id, ns)))
sole_primary-only ((id, ns) ∷ m) (some e) = ground (arith, sole_primary-only m (some e))

abbrev pub view_of : ℕ → Topology → Option (String × NodeState) → Option NodeView
view_of now t none = none
view_of now t (some (id, ns)) = some (node_view now t id ns)

-- The primary is the view of the only node that is observed as primary and is not permanently
-- down: with none or several such nodes there is no primary.
pub primary-only :
    (now : ℕ) (t : Topology) → primary now t ≡ view_of now t (only (keep serves_as_primary t.nodes))
unfolding primary
primary-only now t =
    rw (sole_primary-only t.nodes none, primary) (as_view (only (keep serves_as_primary t.nodes)))
  where
    as_view :
        (o : Option (String × NodeState))
        → ◌≡◌ {A = Option NodeView}
            (elim o [ none ↦ none | some (id, ns) ↦ some (node_view now t id ns) ])
            (view_of now t o)
    as_view none = refl
    as_view (some e) = refl

abbrev pub shows_up : Liveness → Bool
shows_up Liveness.up = true
shows_up _ = false

-- What was last recorded at `at` counts until one millisecond after the maximal age has passed; what
-- was never recorded has no age.
abbrev pub is_recent : ℕ → Option ℕ → ℕ → Bool
is_recent now none max_age_ms = true
is_recent now (some at) max_age_ms = ltb now (at + (max_age_ms + 1) * 1_000_000)

is_older-is_recent :
    (now : ℕ) (at : Option ℕ) (max_age_ms : ℕ)
    → is_older now at max_age_ms ≡ not (is_recent now at max_age_ms)
unfolding is_older
is_older-is_recent now none max_age_ms = refl
is_older-is_recent now (some at) max_age_ms = ground arith

-- A view shows a node as up exactly when its last report was up, the node is not permanently down
-- and the report is recent for the liveness age; as primary exactly when it was observed so and the
-- report is recent for the role age; and its lag as fresh exactly when the last sample was a number
-- that is recent for the lag age. Recent is what is younger than the age and one millisecond, or
-- has no time.
pub node_view_current :
    (now : ℕ) (t : Topology) (id : String) (ns : NodeState)
    → (shows_up (node_view now t id ns).liveness ≡ (
        shows_up ns.liveness
        && (not ns.permanently_down && is_recent now ns.last_probe_at t.liveness_max_age_ms)))
      × (is_primary (node_view now t id ns).observed_role ≡ (
          is_primary ns.observed_role && is_recent now ns.last_probe_at t.observed_role_max_age_ms))
      × (is_fresh (node_view now t id ns).replication_lag_state ≡ (
          is_fresh ns.replication_lag_state
          && is_recent now ns.last_lag_sample_at t.replication_lag_max_age_ms))
unfolding node_view
node_view_current now t id ns =
    let up = is_older-is_recent now ns.last_probe_at t.liveness_max_age_ms in
    let role = is_older-is_recent now ns.last_probe_at t.observed_role_max_age_ms in
    let lag = is_older-is_recent now ns.last_lag_sample_at t.replication_lag_max_age_ms in
    (ground (arith, up), ground (arith, role), ground (arith, lag))
