-- ===== src/Proxy/Rejections.antt =====
-- `RejectReadPortWrite`, `RejectCompatReclassification`, `PublishDecisionEvent` and `PoolStats` of
-- internal/server/proxy/proxy.go.
use grunyas.Prelude.{◌≡◌, refl, String, Option, none, some, []}
use grunyas.Classifier.Text.{Text}
use grunyas.Classifier.Statement.{Port}
use grunyas.Decisions.Events.{Stamp, Event, Message}
use grunyas.Decisions.Bus.{Bus, publish}
use grunyas.Topology.View.{PoolLookup, pool, missing, primary, pool_for}
use grunyas.Routing.Pipeline.{
  Pipeline, classify_for, classification_of, rejected, with_mode, reject_read_port_write,
  reject_compat_reclassification,
}
use grunyas.Routing.Request.{Moment}
use grunyas.Admin.Pools.{DriverStats}

-- A proxy without a pipeline makes the event itself; no method counts or publishes then.
abbrev pub own_read_event : Text → String → Event
own_read_event sql mode = record {
  stamp = none;
  schema_version = "";
  port = Port.read;
  pool_mode = mode;
  lease_type = "transaction";
  classification = some (classification_of (classify_for Port.read sql) sql);
  candidates = [];
  outcome = rejected "25006" "read_port:write_attempted";
  consistency = none;
  policies_active = [];
  origin = "client";
}

abbrev pub own_compat_event : Text → String → Event
own_compat_event sql mode = record {
  stamp = none;
  schema_version = "";
  port = Port.compat;
  pool_mode = mode;
  lease_type = "transaction";
  classification = some (classification_of (classify_for Port.compat sql) sql);
  candidates = [];
  outcome = rejected "25006" "compat:reclassification";
  consistency = with_mode "bounded_staleness";
  policies_active = [];
  origin = "client";
}

abbrev pub keep_pipeline : Event × Pipeline → Event × Option Pipeline
keep_pipeline (e, p) = (e, some p)

unfoldable pub proxy_read_rejection :
    Stamp → Text → String → Option Pipeline → Event × Option Pipeline
unfolding reject_read_port_write
proxy_read_rejection stamp sql mode none = (own_read_event sql mode, none)
proxy_read_rejection stamp sql mode (some p) =
    keep_pipeline (reject_read_port_write stamp sql mode p)

unfoldable pub proxy_compat_rejection :
    Stamp → Text → String → Option Pipeline → Event × Option Pipeline
unfolding reject_compat_reclassification
proxy_compat_rejection stamp sql mode none = (own_compat_event sql mode, none)
proxy_compat_rejection stamp sql mode (some p) =
    keep_pipeline (reject_compat_reclassification stamp sql mode p)

unfoldable pub publish_decision_event : Stamp → Message → Option Bus → Option Bus
unfolding publish
publish_decision_event stamp event none = none
publish_decision_event stamp event (some bus) = some (publish stamp event bus)

abbrev pub no_stats : DriverStats
no_stats = record { total_conns = 0; acquired_conns = 0; idle_conns = 0; max_conns = 0 }

abbrev pub stats_of : (String → DriverStats) → PoolLookup → DriverStats
stats_of stats (missing err) = no_stats
stats_of stats (pool name) = stats name

unfoldable pub pool_stats : (String → DriverStats) → Option Moment → DriverStats
unfolding primary pool_for
pool_stats stats none = no_stats
pool_stats stats (some m) = elim (primary m.now m.topology) [
  | none ↦ no_stats
  | some nv ↦ stats_of stats (pool_for m.topology nv.id)
]

-- The event of a rejection does not depend on whether there is a pipeline, but for the schema version
-- of that on the compat port.
pub rejection_events :
    (stamp : Stamp) (sql : Text) (mode : String) (p : Pipeline)
    → ((proxy_read_rejection stamp sql mode (some p)).0
        ≡ (proxy_read_rejection stamp sql mode none).0)
      × (record (proxy_compat_rejection stamp sql mode (some p)).0 { schema_version = "" }
          ≡ (proxy_compat_rejection stamp sql mode none).0)
unfolding proxy_read_rejection proxy_compat_rejection
rejection_events stamp sql mode p = (refl, refl)
