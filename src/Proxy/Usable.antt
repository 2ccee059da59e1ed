-- ===== src/Proxy/Usable.antt =====
-- The leases that internal/server/proxy/proxy.go gives to a session have a connection.
use grunyas.Prelude.{
  ℕ, String, Bool, false, not, Option, none, some, ◌≡◌, refl, ap, subst, case-holds, arith,
}
use grunyas.Prelude.Assoc.{Assoc}
use grunyas.Classifier.Text.{Text}
use grunyas.Classifier.Statement.{Port}
use grunyas.Topology.View.{primary, PoolLookup, pool_for, pool, missing}
use grunyas.Topology.Types.{role_string}
use grunyas.Decisions.Events.{Stamp}
use grunyas.Config.Types.{PortConfig}
use grunyas.Routing.Pipeline.{Pipeline}
use grunyas.Routing.Request.{LeaseResult, Acquired, connection, failed, Reads, Moment}
use grunyas.Routing.Lease.{is_none}
use grunyas.Routing.Backed.{lease-Gives}
use grunyas.Routing.Exclusive.{IsExclusiveIf, lease-IsExclusiveIf}
use grunyas.Proxy.Leases.{
  Leased, refused, leased, lease_of, connect, from_pool, direct_lease, after_lease,
  acquire_upstream_lease, lease_request,
}

-- An error, or a lease with a connection.
abbrev pub IsUsable : {U : Type 0} → Leased U → Type 0
IsUsable (refused e) = Unit
IsUsable {U} (leased l) = (u : U) × (l.client ≡ some u)

module _ {U : Type 0} (acquire : String → Acquired U) where
  lease_of-IsUsable :
      (m : Moment) (r : LeaseResult U)
      → is_none r.upstream ≡ not (is_none r.error)
      → IsUsable (lease_of acquire m r)
  unfolding lease_of
  lease_of-IsUsable m r e =
      case-holds IsUsable r.error (λ n. present r.upstream (ground (arith, e, n))) (λ err n. tt)
    where
      present : (o : Option U) → is_none o ≡ false → (u : U) × (o ≡ some u)
      present none e = cc
      present (some u) e = (u, refl)

  from_pool-IsUsable : (id role : String) (l : PoolLookup) → IsUsable (from_pool acquire id role l)
  unfolding from_pool connect
  from_pool-IsUsable id role (missing err) = tt
  from_pool-IsUsable id role (pool name) = connected (acquire name)
    where
      connected : (a : Acquired U) → IsUsable (connect acquire id role a)
      connected (failed err) = tt
      connected (connection upstream) = (upstream, refl)

  direct_lease-IsUsable : (o : Option Moment) → IsUsable (direct_lease acquire o)
  unfolding direct_lease
  direct_lease-IsUsable none = tt
  direct_lease-IsUsable (some m) =
      case-holds IsUsable (primary m.now m.topology) (λ n. tt)
        λ nv n. from_pool-IsUsable nv.id (role_string nv.observed_role) (pool_for m.topology nv.id)

  -- A call returns, with an error or with a lease that has a connection; with a pipeline and without.
  pub acquire_upstream_lease-IsUsable :
      (stamp : Stamp) (reads : Reads) (topo : Moment) (ports : Assoc PortConfig) (port : Port)
      (o : Option Pipeline) (sql : Text) (active : Bool) (remaining_ms : ℕ)
      → (a : Leased U × Option Pipeline) × (acquire_upstream_lease acquire stamp reads topo ports
            port o sql active remaining_ms
          ≡ some a)
        × IsUsable a.0
  unfolding acquire_upstream_lease
  acquire_upstream_lease-IsUsable stamp reads topo ports port none sql active remaining_ms =
      ((direct_lease acquire (some topo), none), refl, direct_lease-IsUsable (some topo))
  acquire_upstream_lease-IsUsable stamp reads topo ports port (some p) sql active remaining_ms =
      let req = lease_request ports port sql active remaining_ms in
      let (r, e, b) = lease-Gives acquire stamp reads req p in
      let x =
        subst (IsExclusiveIf acquire stamp reads) e
          (lease-IsExclusiveIf acquire stamp reads req p) in
      (
        (lease_of acquire topo r.0, some r.1),
        ap (after_lease acquire stamp reads topo) e,
        lease_of-IsUsable topo r.0 x,
      )
