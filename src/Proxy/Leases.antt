-- ===== src/Proxy/Leases.antt =====
-- `acquireUpstreamLeaseWithSQL` and what it uses of internal/server/proxy/proxy.go, over the pipeline.
use grunyas.Prelude.{ℕ, String, str_eq, Bool, Option, none, some, if◌then◌else◌}
use grunyas.Prelude.Assoc.{Assoc, get}
use grunyas.Classifier.Text.{Text}
use grunyas.Classifier.Statement.{Port}
use grunyas.Topology.Types.{Err, role_string}
use grunyas.Topology.View.{node, primary, PoolLookup, pool_for, pool, missing}
use grunyas.Decisions.Events.{Stamp}
use grunyas.Config.Types.{PortConfig}
use grunyas.Routing.Pipeline.{Pipeline}
use grunyas.Routing.Request.{
  LeaseRequest, LeaseResult, ProxyError, Acquired, connection, failed, Reads, Moment,
}
use grunyas.Routing.Lease.{lease}

-- The port's name in the configuration.
abbrev pub port_name : Port → String
port_name Port.write = "write"
port_name Port.read = "read"
port_name Port.compat = "compat"
port_name (Port.other name) = name

unfoldable pub pool_mode : Assoc PortConfig → Port → String
pool_mode ports port = elim (get (port_name port) ports) [ none ↦ "session" | some p ↦ p.pool_mode ]

unfoldable pub lease_type : Port → String → String
lease_type Port.write mode = mode
lease_type Port.read mode = if str_eq mode "session" then "session" else "transaction"
lease_type Port.compat mode = "transaction"
lease_type (Port.other name) mode = ""

unfoldable pub lease_request : Assoc PortConfig → Port → Text → Bool → ℕ → LeaseRequest
unfolding pool_mode lease_type
lease_request ports port sql active remaining_ms = record {
  port = port;
  pool_mode = pool_mode ports port;
  lease_type = lease_type port (pool_mode ports port);
  sql = sql;
  post_write_window_active = active;
  post_write_window_remaining_ms = remaining_ms;
}

-- The connection is an interface value, which is empty when the result has none.
pub record UpstreamLease (U : Type 0) : Type 0 where
  pub client : Option U
  pub node_id : String
  pub role : String

pub data Leased (U : Type 0) : Type 0 where
  refused : ProxyError → Leased U
  leased : UpstreamLease U → Leased U

-- The observed role of the node, when the topology knows it.
unfoldable pub role_at : Moment → String → String
role_at m id = elim (node m.now m.topology id) [
  | none ↦ "unknown"
  | some nv ↦ role_string nv.observed_role
]

module _ {U : Type 0} (acquire : String → Acquired U) where
  -- The result of the pipeline, with what the topology says of the node at that time.
  unfoldable pub lease_of : Moment → LeaseResult U → Leased U
  unfolding role_at
  lease_of m r = elim r.error [
    | some e ↦ refused e
    | none ↦
        leased (record { client = r.upstream; node_id = r.node_id; role = role_at m r.node_id })
  ]

  abbrev pub no_primary : Option Err → Leased U
  no_primary cause =
      refused (record { code = "57P03"; message = "[grunyas] no primary available"; cause = cause })

  unfoldable pub connect : String → String → Acquired U → Leased U
  connect id role (failed err) =
      refused (record { code = "53300"; message = "[grunyas] pool saturated"; cause = some err })
  connect id role (connection upstream) =
      leased (record { client = some upstream; node_id = id; role = role })

  unfoldable pub from_pool : String → String → PoolLookup → Leased U
  unfolding connect
  from_pool id role (missing err) = no_primary (some err)
  from_pool id role (pool name) = connect id role (acquire name)

  -- Without a pipeline: the primary, if there is a topology.
  unfoldable pub direct_lease : Option Moment → Leased U
  unfolding from_pool
  direct_lease none = no_primary none
  direct_lease (some m) = elim (primary m.now m.topology) [
    | none ↦ no_primary none
    | some nv ↦ from_pool nv.id (role_string nv.observed_role) (pool_for m.topology nv.id)
  ]

  module _ (stamp : Stamp) (reads : Reads) (topo : Moment) where
    abbrev pub after_lease : Option (LeaseResult U × Pipeline) → Option (Leased U × Option Pipeline)
    after_lease none = none
    after_lease (some (r, p)) = some (lease_of topo r, some p)

    -- For a proxy with a topology, which is `topo` when the role is read. `none` is a panic.
    unfoldable pub acquire_upstream_lease :
        Assoc PortConfig
        → Port
        → Option Pipeline
        → Text
        → Bool
        → ℕ
        → Option (Leased U × Option Pipeline)
    unfolding lease_request direct_lease lease_of
    acquire_upstream_lease ports port none sql active remaining_ms =
        some (direct_lease (some topo), none)
    acquire_upstream_lease ports port (some p) sql active remaining_ms =
        after_lease (lease acquire stamp reads (lease_request ports port sql active remaining_ms) p)
