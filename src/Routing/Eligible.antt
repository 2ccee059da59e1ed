-- ===== src/Routing/Eligible.antt =====
-- When `filterCandidates` of internal/routing/pipeline.go lets a node through.
use grunyas.Prelude.{
  is_nil, String, str_eq, ◌≡◌, refl, Bool, true, false, ◌&&◌, ◌||◌, Option, none, some, List, [],
  ◌∷◌, ◌++◌, arith,
}
use grunyas.Topology.Types.{Role, NodeView, is_primary, is_replica}
use grunyas.Policy.Engine.{Engine}
use grunyas.Classifier.Statement.{Traffic, Port}
use grunyas.Routing.Filter.{
  Query, PolicyNames, ask, policy_reason, role_reasons, reasons_for, candidate, is_write,
}

-- The role that a lease wants of its node.
pub data Wanted : Type 0 where
  primary replica any : Wanted

abbrev pub compat_wants : Bool → Option Traffic → Wanted
compat_wants window none = Wanted.any
compat_wants window (some Traffic.write) = Wanted.primary
compat_wants true (some Traffic.read) = Wanted.primary
compat_wants false (some Traffic.read) = Wanted.replica
compat_wants window (some Traffic.unknown) = Wanted.any

abbrev pub wanted : Port → Option Traffic → Bool → Wanted
wanted Port.write traffic window = Wanted.primary
wanted Port.read traffic window = Wanted.replica
wanted Port.compat traffic window = compat_wants window traffic
wanted (Port.other s) traffic window = Wanted.any

abbrev pub fits : Wanted → Role → Bool
fits Wanted.any role = true
fits Wanted.primary role = is_primary role
fits Wanted.replica role = is_replica role

is_nil-append {ℓ} : {A : Type ℓ} (xs ys : List A) → is_nil (xs ++ ys) ≡ (is_nil xs && is_nil ys)
is_nil-append [] ys = refl
is_nil-append (x ∷ xs) ys = refl

is_nil-policy_reason : (v : Bool × String) (o : String) → is_nil (policy_reason v o) ≡ v.0
unfolding policy_reason
is_nil-policy_reason (eligible, condition) o = ground arith

is_nil-role_reasons :
    (port : Port) (traffic : Option Traffic) (window : Bool) (role : Role)
    → is_nil (role_reasons (record { port = port; traffic = traffic; window_active = window }) role)
      ≡ fits (wanted port traffic window) role
unfolding role_reasons
is_nil-role_reasons Port.write traffic window Role.unknown = refl
is_nil-role_reasons Port.write traffic window Role.primary = refl
is_nil-role_reasons Port.write traffic window Role.replica = refl
is_nil-role_reasons Port.read traffic window Role.unknown = refl
is_nil-role_reasons Port.read traffic window Role.primary = refl
is_nil-role_reasons Port.read traffic window Role.replica = refl
is_nil-role_reasons Port.compat traffic window role = ground arith
is_nil-role_reasons (Port.other s) traffic window role = refl

-- A node is eligible exactly when its system identifier is absent or the cluster's, it is observed
-- in the role that the port and the class want, and no policy rejects it, where the lag policy is
-- not asked for a write on the compat port.
pub candidate-eligible :
    (port : Port) (traffic : Option Traffic) (window : Bool) (names : PolicyNames)
    (engine : Option Engine) (cluster_id : String) (nv : NodeView)
    → (candidate
        (record { port = port; traffic = traffic; window_active = window })
        names
        engine
        cluster_id
        nv).eligible
      ≡ ((str_eq nv.system_id "" || str_eq nv.system_id cluster_id)
          && (fits (wanted port traffic window) nv.observed_role
              && ((ask engine names.health nv.id).0
                  && ((is_write traffic || (ask engine names.lag nv.id).0)
                      && (ask engine names.saturation nv.id).0))))
unfolding candidate reasons_for
candidate-eligible port traffic window names engine cluster_id nv =
    let q : Query = record { port = port; traffic = traffic; window_active = window } in
    let role = is_nil-role_reasons port traffic window nv.observed_role in
    let health = is_nil-policy_reason (ask engine names.health nv.id) "liveness:not_up" in
    let lag = is_nil-policy_reason (ask engine names.lag nv.id) "lag:policy_active" in
    let pool = is_nil-policy_reason (ask engine names.saturation nv.id) "pool:saturated" in
    simp (is_nil-append, role, health, pool) (ground (arith, lag))
