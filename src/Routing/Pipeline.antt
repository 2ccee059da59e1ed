-- ===== src/Routing/Pipeline.antt =====
-- The state of `Pipeline` in internal/routing/pipeline.go and its operations on events and counts.
-- The counters of 64 bits are numbers without a bound; the histograms of durations stand in
-- Routing/Histogram.
use grunyas.Prelude.{ℕ, ◌+◌, String, Option, none, some, Bool, true, false, []}
use Prim.Native.String.{◌++◌ as ◌<>◌}
use grunyas.Prelude.Assoc
use grunyas.Prelude.Assoc.{Assoc}
use grunyas.Classifier.Text.{Text}
use grunyas.Classifier.Statement.{Port, Class, TxState, classify}
use grunyas.Classifier.Truncate.{truncate_sql}
use grunyas.Policy.Engine.{Engine}
use grunyas.Decisions.Events.{
  Stamp, Classification, Outcome, Consistency, Event, decision, schema_version,
}
use grunyas.Decisions.Bus.{Bus, publish}
use grunyas.Routing.Filter.{PolicyNames, policy_names}

pub record Pipeline : Type 0 where
  pub policy_eng : Option Engine
  pub decisions_bus : Option Bus
  pub names : PolicyNames
  pub read_rr : ℕ
  pub decisions_total : ℕ
  pub decisions_leased : ℕ
  pub decisions_rejected : ℕ
  pub decisions_fallback : ℕ
  pub published_total : ℕ
  pub eligible_set_read : ℕ
  pub eligible_set_write : ℕ
  pub compat_reclassification_rejections : ℕ
  pub decision_counters : Assoc ℕ

unfoldable pub new_pipeline : Option Engine → Option Bus → Pipeline
unfolding policy_names
new_pipeline eng bus = record {
  policy_eng = eng;
  decisions_bus = bus;
  names = elim eng [
    | none ↦ record { health = ""; lag = ""; saturation = "" }
    | some e ↦ policy_names e
  ];
  read_rr = 0;
  decisions_total = 0;
  decisions_leased = 0;
  decisions_rejected = 0;
  decisions_fallback = 0;
  published_total = 0;
  eligible_set_read = 0;
  eligible_set_write = 0;
  compat_reclassification_rejections = 0;
  decision_counters = [];
}

unfoldable pub is_valid_port : Port → Bool
is_valid_port Port.write = true
is_valid_port Port.read = true
is_valid_port Port.compat = true
is_valid_port (Port.other s) = false

-- The name of the port in the key of a counter.
unfoldable pub port_label : Port → String
port_label Port.write = "write"
port_label Port.read = "read"
port_label Port.compat = "compat"
port_label (Port.other s) = "invalid"

unfoldable pub counter_key : Event → String
unfolding port_label
counter_key e = port_label e.port <> (":" <> (e.outcome.kind <> (":" <> e.outcome.reason)))

-- loadOrStoreInt64(m, key).Add(1)
unfoldable pub count_one : String → Assoc ℕ → Assoc ℕ
count_one key m = elim (Assoc.get key m) [
  | none ↦ Assoc.put key 1 m
  | some n ↦ Assoc.put key (n + 1) m
]

unfoldable pub emit_event : Stamp → Event → Pipeline → Pipeline
unfolding counter_key count_one
emit_event stamp event p = elim p.decisions_bus [
  | none ↦ p
  | some bus ↦ record p {
    published_total = p.published_total + 1;
    decision_counters = count_one (counter_key event) p.decision_counters;
    decisions_bus = some (publish stamp (decision event) bus);
  }
]

-- The method `classify` of the pipeline.
unfoldable pub classify_for : Port → Text → Class
classify_for port sql =
    (classify (record { name = ""; sql = sql })
      (record { port = port; tx_state = TxState.idle; prepared = none })).0

unfoldable pub classification_of : Class → Text → Classification
classification_of cls sql = record {
  type = cls.type;
  source = cls.source;
  sql = truncate_sql sql 256;
}

abbrev pub no_outcome : Outcome
no_outcome = record { kind = ""; node_id = ""; sql_state = ""; reason = "" }

abbrev pub rejected : String → String → Outcome
rejected sql_state reason = record {
  kind = "rejected";
  node_id = "";
  sql_state = sql_state;
  reason = reason;
}

abbrev pub with_mode : String → Option Consistency
with_mode mode = some (record { mode = mode; window_remaining_ms = none })

unfoldable pub reject_read_port_write : Stamp → Text → String → Pipeline → Event × Pipeline
unfolding classify_for classification_of
reject_read_port_write stamp sql pool_mode p =
    let event : Event = record {
      stamp = none;
      schema_version = "";
      port = Port.read;
      pool_mode = pool_mode;
      lease_type = "transaction";
      classification = some (classification_of (classify_for Port.read sql) sql);
      candidates = [];
      outcome = rejected "25006" "read_port:write_attempted";
      consistency = none;
      policies_active = [];
      origin = "client";
    } in
    (
      event,
      emit_event stamp event (record p {
        decisions_total = p.decisions_total + 1;
        decisions_rejected = p.decisions_rejected + 1;
      }),
    )

unfoldable pub reject_compat_reclassification : Stamp → Text → String → Pipeline → Event × Pipeline
unfolding classify_for classification_of
reject_compat_reclassification stamp sql pool_mode p =
    let event : Event = record {
      stamp = none;
      schema_version = schema_version;
      port = Port.compat;
      pool_mode = pool_mode;
      lease_type = "transaction";
      classification = some (classification_of (classify_for Port.compat sql) sql);
      candidates = [];
      outcome = rejected "25006" "compat:reclassification";
      consistency = with_mode "bounded_staleness";
      policies_active = [];
      origin = "client";
    } in
    (
      event,
      emit_event stamp event (record p {
        decisions_total = p.decisions_total + 1;
        decisions_rejected = p.decisions_rejected + 1;
        compat_reclassification_rejections = p.compat_reclassification_rejections + 1;
      }),
    )
