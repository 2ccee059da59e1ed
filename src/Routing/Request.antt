-- ===== src/Routing/Request.antt =====
-- The request and the result of `Lease` in internal/routing/pipeline.go, with the parts of an event
-- that it computes.
use grunyas.Prelude.{ℕ, String, Option, none, some, Bool, true, false, List, [], ◌∷◌, if◌then◌else◌}
use grunyas.Classifier.Text.{Text}
use grunyas.Classifier.Statement.{Port, Traffic, Class}
use grunyas.Topology.Types.{Err}
use grunyas.Topology.State.{Topology}
use grunyas.Policy.Types.{State, Instance}
use grunyas.Policy.Engine.{Engine, candidate_state, instances_of}
use grunyas.Decisions.Events.{Candidate, Consistency, Event}
use grunyas.Routing.Filter.{Query, is_compat_port}
use grunyas.Routing.Pipeline.{no_outcome, with_mode}

pub record LeaseRequest : Type 0 where
  pub port : Port
  pub pool_mode : String
  pub lease_type : String
  pub sql : Text
  pub post_write_window_active : Bool
  pub post_write_window_remaining_ms : ℕ

pub record ProxyError : Type 0 where
  pub code : String
  pub message : String
  pub cause : Option Err

pub record LeaseResult (U : Type 0) : Type 0 where
  pub upstream : Option U
  pub node_id : String
  pub decision : Option Event
  pub error : Option ProxyError

pub record Moment : Type 0 where
  pub topology : Topology
  pub now : ℕ

-- What the calls Nodes, ClusterID, Primary and PoolFor find.
pub record Reads : Type 0 where
  pub nodes_at : Moment
  pub cluster_at : Moment
  pub primary_at : Moment
  pub pool_at : Moment

pub data Acquired (U : Type 0) : Type 0 where
  connection : U → Acquired U
  failed : Err → Acquired U

unfoldable pub some_active : Engine → String → List Candidate → Bool
some_active e name [] = false
some_active e name (c ∷ rest) =
    let others = some_active e name rest in
    elim (candidate_state e name c.node_id).0 [
      | State.active ↦ true
      | State.clean ↦ others
      | State.pending ↦ others
      | State.releasing ↦ others
    ]

unfoldable pub active_of : Engine → List Candidate → List Instance → List String
unfolding some_active
active_of e candidates [] = []
active_of e candidates (inst ∷ rest) =
    let others = active_of e candidates rest in
    if some_active e inst.name candidates then inst.name ∷ others else others

unfoldable pub active_policies : Option Engine → List Candidate → List String
unfolding active_of
active_policies none candidates = []
active_policies (some e) candidates = active_of e candidates (instances_of e)

unfoldable pub query_of : LeaseRequest → Class → Query
query_of req cls = record {
  port = req.port;
  traffic = if is_compat_port req.port then some cls.type else none;
  window_active = req.post_write_window_active;
}

abbrev pub is_write_class : Class → Bool
is_write_class cls = elim cls.type [ Traffic.write ↦ true | _ ↦ false ]

abbrev pub is_read_class : Class → Bool
is_read_class cls = elim cls.type [ Traffic.read ↦ true | _ ↦ false ]

-- The `switch` on the port for a lease that is given out.
unfoldable pub consistency_of : LeaseRequest → Class → Option Consistency
consistency_of req cls = elim req.port [
  | Port.read ↦ with_mode "bounded_staleness"
  | Port.write ↦ with_mode "linearizable"
  | Port.compat ↦
      if is_write_class cls
      then with_mode "linearizable"
      else if req.post_write_window_active
      then some (record {
        mode = "post_write_window";
        window_remaining_ms = some req.post_write_window_remaining_ms;
      })
      else with_mode "bounded_staleness"
  | Port.other s ↦ none
]

-- The `switch` on the port for an empty eligible set.
unfoldable pub consistency_of_none : LeaseRequest → Class → Option Consistency
consistency_of_none req cls = elim req.port [
  | Port.read ↦ with_mode "bounded_staleness"
  | Port.write ↦ with_mode "linearizable"
  | Port.compat ↦
      if is_write_class cls then with_mode "linearizable" else with_mode "bounded_staleness"
  | Port.other s ↦ none
]

unfoldable pub new_event : LeaseRequest → Event
new_event req = record {
  stamp = none;
  schema_version = "";
  port = req.port;
  pool_mode = req.pool_mode;
  lease_type = req.lease_type;
  classification = none;
  candidates = [];
  outcome = no_outcome;
  consistency = none;
  policies_active = [];
  origin = "client";
}
