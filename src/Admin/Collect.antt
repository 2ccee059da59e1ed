-- ===== src/Admin/Collect.antt =====
-- The collectors of internal/admin/admin.go. A scrape is the list of its samples, without those of the
-- build; `now` is the one reading of the clock. The maps of the snapshots are visited in their order.
use Prim.Native.Char.{Char, code}
use grunyas.Prelude.{
  ℕ, ◌+◌, ◌-◌, String, ◌==◌, Option, none, some, List, [], ◌∷◌, ◌++◌, length, if◌then◌else◌,
}
use grunyas.Prelude.Int.{ℤ}
use grunyas.Prelude.Assoc
use grunyas.Prelude.Assoc.{Assoc}
use grunyas.Topology.Types.{Liveness, role_string, liveness_string, NodeView}
use grunyas.Policy.Types.{state_string, Instance, PerNodeState}
use grunyas.Policy.Engine.{Engine, instances_of, candidate_states}
use grunyas.Decisions.Bus.{Bus, subscriber_count}
use grunyas.Routing.Pipeline.{Pipeline}
use grunyas.Routing.Histogram.{
  PortHistogram, duration_histogram_snapshot, duration_sum_snapshot, duration_count_snapshot,
}
use grunyas.Admin.Views.{role_disagreement}

-- The numbers of a sample: an age and the sum of a histogram are in
-- nanoseconds.
pub data Gauge : Type 0 where
  number age : ℕ → Gauge
  signed : ℤ → Gauge
  half not_a_number : Gauge
  histogram : (count sum : ℕ) → (buckets : List (ℕ × ℕ)) → Gauge

pub record Metric : Type 0 where
  pub name : String
  pub value : Gauge
  pub labels : List String

abbrev pub metric : String → Gauge → List String → Metric
metric name value labels = record { name = name; value = value; labels = labels }

-- counts[key]++
unfoldable pub increment_count : String → Assoc ℕ → Assoc ℕ
increment_count key counts = elim (Assoc.get key counts) [
  | none ↦ Assoc.put key 1 counts
  | some n ↦ Assoc.put key (n + 1) counts
]

abbrev pub no_roles : Assoc ℕ
no_roles = ("primary", 0) ∷ ("replica", 0) ∷ ("unknown", 0) ∷ []

abbrev pub no_liveness : Assoc ℕ
no_liveness = ("up", 0) ∷ ("degraded", 0) ∷ ("down", 0) ∷ ("unknown", 0) ∷ []

-- The counts that the loop over the nodes makes, by the label of a node.
unfoldable pub count_by : (NodeView → String) → List NodeView → Assoc ℕ → Assoc ℕ
unfolding increment_count
count_by label [] counts = counts
count_by label (nv ∷ rest) counts = count_by label rest (increment_count (label nv) counts)

unfoldable pub by_role : List NodeView → Assoc ℕ
unfolding count_by role_string
by_role nodes = count_by (λ nv. role_string nv.observed_role) nodes no_roles

unfoldable pub by_live : List NodeView → Assoc ℕ
unfolding count_by liveness_string
by_live nodes = count_by (λ nv. liveness_string nv.liveness) nodes no_liveness

abbrev pub liveness_val : Liveness → Gauge
liveness_val Liveness.up = number 1
liveness_val Liveness.degraded = half
liveness_val Liveness.down = number 0
liveness_val Liveness.unknown = not_a_number

abbrev pub age_sample : ℕ → String → String → Option ℕ → List Metric
age_sample now id property none = []
age_sample now id property (some at) =
    metric "grunyas_node_observation_age_seconds" (age (now - at)) (id ∷ property ∷ []) ∷ []

abbrev pub lag_sample : String → Option ℤ → List Metric
lag_sample id none = []
lag_sample id (some ms) = metric "grunyas_node_replication_lag_ms" (signed ms) (id ∷ []) ∷ []

-- One round of the loop.
unfoldable pub node_samples : ℕ → NodeView → List Metric
unfolding role_string
node_samples now nv =
    metric "grunyas_node_liveness" (liveness_val nv.liveness) (nv.id ∷ [])
    ∷ metric "grunyas_node_observed_role" (number 1) (nv.id ∷ role_string nv.observed_role ∷ [])
    ∷ metric "grunyas_node_role_disagreement" (number (if role_disagreement nv then 1 else 0))
        (nv.id ∷ [])
    ∷ (lag_sample nv.id nv.replication_lag_ms
        ++ (age_sample now nv.id "liveness" nv.last_probe_at
            ++ age_sample now nv.id "lag" nv.last_lag_sample_at))

unfoldable pub all_samples : ℕ → List NodeView → List Metric
unfolding node_samples
all_samples now [] = []
all_samples now (nv ∷ rest) = node_samples now nv ++ all_samples now rest

unfoldable pub count_samples : String → Assoc ℕ → List Metric
count_samples name [] = []
count_samples name ((label, n) ∷ rest) =
    metric name (number n) (label ∷ []) ∷ count_samples name rest

unfoldable pub collect_topology : ℕ → List NodeView → List Metric
unfolding all_samples count_samples by_role by_live
collect_topology now nodes =
    metric "grunyas_nodes_total" (number (length nodes)) []
    ∷ (all_samples now nodes
        ++ (count_samples "grunyas_nodes_by_role" (by_role nodes)
            ++ count_samples "grunyas_nodes_by_liveness" (by_live nodes)))

abbrev pub prepend : Char → Option (String × String) → Option (String × String)
prepend c none = none
prepend c (some (s, t)) = some (String.◌∷◌ c s, t)

-- The texts before and behind the first colon.
unfoldable pub cut : String → Option (String × String)
cut String.[] = none
cut (String.◌∷◌ c s) = let rest = cut s in if code c == b':' then some ("", s) else prepend c rest

-- strings.SplitN(key, ":", 3), and `none` for less than three parts.
unfoldable pub split_key : String → Option (String × String × String)
unfolding cut
split_key key = elim (cut key) [
  | none ↦ none
  | some (port, rest) ↦ elim (cut rest) [
    | none ↦ none
    | some (outcome, reason) ↦ some (port, outcome, reason)
  ]
]

-- The loop over the counters of decisions.
unfoldable pub decision_samples : Assoc ℕ → List Metric
unfolding split_key
decision_samples [] = []
decision_samples ((key, n) ∷ rest) = elim (split_key key) [
  | none ↦ decision_samples rest
  | some (port, outcome, reason) ↦
      metric "grunyas_routing_decisions_total" (number n) (port ∷ outcome ∷ reason ∷ [])
      ∷ decision_samples rest
]

abbrev pub state_samples : Instance → Assoc PerNodeState → List Metric
state_samples inst [] = []
state_samples inst ((node_id, cs) ∷ rest) =
    metric "grunyas_policy_state" (number 1)
      (inst.name ∷ inst.scope ∷ node_id ∷ state_string cs.state ∷ [])
    ∷ state_samples inst rest

unfoldable pub policy_samples : Engine → List Instance → List Metric
unfolding state_string candidate_states
policy_samples e [] = []
policy_samples e (inst ∷ rest) =
    state_samples inst (candidate_states e inst.name) ++ policy_samples e rest

abbrev pub policies_of : Option Engine → List Metric
policies_of none = []
policies_of (some e) = policy_samples e (instances_of e)

abbrev pub bus_samples : ℕ → Option Bus → List Metric
bus_samples published none = []
bus_samples published (some b) =
    metric "grunyas_decisions_subscribers" (number (subscriber_count b)) []
    ∷ metric "grunyas_decisions_published_total" (number published) []
    ∷ metric "grunyas_decisions_dropped_total" (number b.dropped_otel_overflow)
        ("otel_overflow" ∷ [])
    ∷ metric "grunyas_decisions_dropped_total" (number b.dropped_sub_overflow)
        ("subscriber_overflow" ∷ [])
    ∷ []

abbrev pub transition_samples : Option Engine → List Metric
transition_samples none = []
transition_samples (some e) =
    metric "grunyas_policy_transitions_published_total" (number e.transitions_published) [] ∷ []

abbrev or_zero : Option ℕ → ℕ
or_zero none = 0
or_zero (some n) = n

-- The loop over the snapshot of the histograms, with those of the sums and the counts.
unfoldable pub histogram_samples : Assoc (List (ℕ × ℕ)) → (sums counts : Assoc ℕ) → List Metric
histogram_samples [] sums counts = []
histogram_samples ((port, buckets) ∷ rest) sums counts =
    let others = histogram_samples rest sums counts in
    let count = or_zero (Assoc.get port counts) in
    if count == 0
    then others
    else metric "grunyas_routing_decision_duration_seconds"
        (histogram count (or_zero (Assoc.get port sums)) buckets) (port ∷ [])
      ∷ others

-- The collector of decisions over the pipeline, with its engine, its bus and its histograms.
unfoldable pub collect_decisions : Pipeline → Assoc PortHistogram → List Metric
unfolding decision_samples policy_samples instances_of subscriber_count histogram_samples
    duration_histogram_snapshot duration_sum_snapshot duration_count_snapshot
collect_decisions p durations =
    decision_samples p.decision_counters
    ++ (metric "grunyas_routing_eligible_set_size" (number p.eligible_set_read) ("read" ∷ [])
        ∷ metric "grunyas_routing_eligible_set_size" (number p.eligible_set_write) ("write" ∷ [])
        ∷ (histogram_samples (duration_histogram_snapshot durations)
              (duration_sum_snapshot durations) (duration_count_snapshot durations)
            ++ (policies_of p.policy_eng
                ++ (bus_samples p.published_total p.decisions_bus
                    ++ transition_samples p.policy_eng))))
