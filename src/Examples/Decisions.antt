-- ===== src/Examples/Decisions.antt =====
-- A bus with one slow subscriber, and a pipeline without nodes.
use grunyas.Prelude.{
  ℕ, ◌+◌, String, ◌≡◌, true, false, none, some, List, [], ◌∷◌, length, if◌then◌else◌, str_eq, ◌&&◌,
  ◌||◌, Option,
}
use grunyas.Classifier.Text.{codes}
use grunyas.Classifier.Statement.{Traffic, Port}
use grunyas.Topology.Types.{driver}
use grunyas.Policy.Engine.{new_engine}
use grunyas.Decisions.Events.{Stamp, Message, decision}
use grunyas.Decisions.Bus.{
  Bus, new_bus, BusCall, publication, subscription, closing, late_send, receipt, steps,
  publish_open,
}
use grunyas.Decisions.Queues.{IsOrderly, bus_run-IsOrderly}
use grunyas.Decisions.Losses.{publish_open-counts, AreServed, waiting, drops_of}
use grunyas.Routing.Filter.{PolicyNames, candidate, is_write, ask}
use grunyas.Routing.Eligible.{candidate-eligible, wanted, fits}
use grunyas.Routing.Request.{LeaseRequest, Reads, Moment, Acquired, failed, connection, new_event}
use grunyas.Routing.Pipeline.{Pipeline, new_pipeline}
use grunyas.Routing.Runs.{
  Call, leasing, read_port_write, compat_reclassification, calls, calls-Decided,
}
use grunyas.Routing.Backed.{Gives, lease-Gives}
use grunyas.Routing.Lease.{lease}
use grunyas.Policy.Total.{IsWellFormed, Returns}
use grunyas.Routing.Observe.{Tick, observe_ticks, observe_ticks-Returns}
use grunyas.Routing.Ledger.{Decided}
use grunyas.Prelude.Assoc.{Assoc}
use grunyas.Config.Types.{PortConfig, default_write_port}
use grunyas.Proxy.Leases.{Leased, acquire_upstream_lease}
use grunyas.Proxy.Usable.{IsUsable, acquire_upstream_lease-IsUsable}
use grunyas.Examples.Nodes.{pair}
use grunyas.Examples.Policies.{down_view}

abbrev request : LeaseRequest
request = record {
  port = Port.write;
  pool_mode = "transaction";
  lease_type = "transaction";
  sql = codes "DELETE FROM t";
  post_write_window_active = false;
  post_write_window_remaining_ms = 0;
}

abbrev pub stamp : Stamp
stamp = record { event_id = "01"; timestamp = 5 }

abbrev pub message : Message
message = decision (new_event request)

abbrev bus_calls : List BusCall
bus_calls =
    subscription
    ∷ publication stamp message
    ∷ publication stamp message
    ∷ receipt 0
    ∷ closing
    ∷ late_send message
    ∷ []

bus_run-IsOrderly_example : IsOrderly (steps bus_calls (new_bus 2 1))
bus_run-IsOrderly_example = bus_run-IsOrderly bus_calls 2 1

abbrev busy : Bus
busy = record {
  subscribers = record { id = 0; ch = message ∷ []; drops = 3 } ∷ [];
  next_sub_id = 1;
  closed = false;
  max_subs = 2;
  buf_size = 1;
  dropped_otel_overflow = 0;
  dropped_sub_overflow = 3;
}

publish_open-counts_example :
    AreServed 1 message busy.subscribers (publish_open message busy).subscribers
    × (waiting (publish_open message busy).subscribers
          + drops_of (publish_open message busy).subscribers
        ≡ waiting busy.subscribers + drops_of busy.subscribers + length busy.subscribers)
    × ((publish_open message busy).dropped_sub_overflow + drops_of busy.subscribers
        ≡ busy.dropped_sub_overflow + drops_of (publish_open message busy).subscribers)
publish_open-counts_example = publish_open-counts message busy

abbrev names : PolicyNames
names = record {
  health = "default-health-filter";
  lag = "default-lag-filter";
  saturation = "default-pool-saturation-rejection";
}

candidate-eligible_example :
    (candidate
      (record { port = Port.compat; traffic = some Traffic.read; window_active = true })
      names
      (some (new_engine [] true))
      "7001"
      down_view).eligible
    ≡ ((str_eq down_view.system_id "" || str_eq down_view.system_id "7001")
        && (fits (wanted Port.compat (some Traffic.read) true) down_view.observed_role
            && ((ask (some (new_engine [] true)) names.health down_view.id).0
                && ((is_write (some Traffic.read)
                      || (ask (some (new_engine [] true)) names.lag down_view.id).0)
                    && (ask (some (new_engine [] true)) names.saturation down_view.id).0))))
candidate-eligible_example =
    candidate-eligible Port.compat (some Traffic.read) true names (some (new_engine [] true)) "7001"
      down_view

abbrev moment : Moment
moment = record { topology = pair; now = 6 }

abbrev reads : Reads
reads = record { nodes_at = moment; cluster_at = moment; primary_at = moment; pool_at = moment }

abbrev acquire : String → Acquired ℕ
acquire name = if str_eq name "a" then connection 1 else failed (driver "pool exhausted")

abbrev decisions : List (Call ℕ)
decisions =
    leasing acquire stamp reads request
    ∷ leasing acquire stamp reads (record request { port = Port.read; sql = codes "select 1" })
    ∷ leasing acquire stamp reads (record request { port = Port.other "admin" })
    ∷ read_port_write stamp (codes "DELETE FROM t") "transaction"
    ∷ compat_reclassification stamp (codes "DELETE FROM t") "transaction"
    ∷ []

calls-Decided_example :
    (p' : Pipeline) × (calls decisions
        (new_pipeline (some (new_engine [] true)) (some (new_bus 2 1)))
      ≡ some p')
    × Decided 5 (new_pipeline (some (new_engine [] true)) (some (new_bus 2 1))) p'
calls-Decided_example =
    calls-Decided decisions (new_pipeline (some (new_engine [] true)) (some (new_bus 2 1)))

lease-Gives_example :
    Gives acquire stamp reads
      (some (new_bus 2 1))
      (lease acquire stamp reads request (new_pipeline none (some (new_bus 2 1))))
unfolding new_pipeline
lease-Gives_example =
    lease-Gives acquire stamp reads request (new_pipeline none (some (new_bus 2 1)))

abbrev tick : Tick
tick = record {
  now = 6;
  clock = λ id. 7;
  stats = λ id. record { acquired_conns = 10; max_conns = 10 };
  topology = pair;
}

observe_ticks-Returns_example :
    Returns IsWellFormed (observe_ticks (tick ∷ tick ∷ []) (new_engine [] true))
observe_ticks-Returns_example = observe_ticks-Returns [] true (tick ∷ tick ∷ [])

abbrev write_ports : Assoc PortConfig
write_ports = ("write", default_write_port) ∷ []

acquire_upstream_lease-IsUsable_example :
    (a : Leased ℕ × Option Pipeline) × (acquire_upstream_lease acquire stamp reads moment
        write_ports Port.write
        (some (new_pipeline none none))
        (codes "select 1")
        false
        0
      ≡ some a)
    × IsUsable a.0
acquire_upstream_lease-IsUsable_example =
    acquire_upstream_lease-IsUsable acquire stamp reads moment write_ports Port.write
      (some (new_pipeline none none)) (codes "select 1") false 0
