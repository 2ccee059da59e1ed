-- ===== src/Admin/Cluster.antt =====
-- What /state of internal/admin/admin.go says of the cluster.
use grunyas.Prelude.{
  ℕ, String, false, ◌≡◌, refl, arith, Option, none, some, List, [], ◌∷◌, length, keep, leb,
}
use grunyas.Prelude.Assoc.{Assoc, Every}
use grunyas.Topology.State.{NodeState, Topology}
use grunyas.Topology.View.{is_older, node_view, views, nodes}
use grunyas.Topology.Primary.{serves_as_primary, only, view_of, primary-only}
use grunyas.Admin.Views.{count_primaries, cluster_of, ClusterJson, cluster_json}

-- No node is permanently down, and every observed role is recent.
abbrev pub IsCurrent : ℕ → Topology → Assoc NodeState → Type 0
IsCurrent now t m =
    Every
      (λ id ns.
        (ns.permanently_down ≡ false)
        × (is_older now ns.last_probe_at t.observed_role_max_age_ms ≡ false))
      m

count_primaries-views :
    (now : ℕ) (t : Topology) (m : Assoc NodeState)
    → IsCurrent now t m
    → count_primaries (views now t m) ≡ length (keep serves_as_primary m)
unfolding count_primaries views node_view
count_primaries-views now t [] h = refl
count_primaries-views now t ((id, ns) ∷ m) ((d, a), h) =
    ground (arith, d, a, count_primaries-views now t m h)

abbrev pub name_of : Option (String × NodeState) → String
name_of none = ""
name_of (some (id, ns)) = id

abbrev Reports : ClusterJson → List (String × NodeState) → Type 0
Reports c serving = (c.split_brain ≡ leb 2 (length serving)) × (c.primary ≡ name_of (only serving))

by_number :
    (now : ℕ) (t : Topology) (serving : List (String × NodeState))
    → Reports (cluster_json t (length serving) (view_of now t (only serving))) serving
unfolding node_view
by_number now t [] = (ground arith, refl)
by_number now t (x ∷ []) = (ground arith, refl)
by_number now t (x ∷ y ∷ rest) = (ground arith, refl)

-- Where no node is permanently down and every observed role is recent, /state reports a split brain
-- exactly when at least two nodes are observed as primary, and names a primary exactly when there is
-- one.
pub cluster_of-serves_as_primary :
    (now : ℕ) (t : Topology)
    → IsCurrent now t t.nodes
    → ((cluster_of now t).split_brain ≡ leb 2 (length (keep serves_as_primary t.nodes)))
      × ((cluster_of now t).primary ≡ name_of (only (keep serves_as_primary t.nodes)))
unfolding cluster_of nodes
cluster_of-serves_as_primary now t h =
    rw (primary-only now t, count_primaries-views now t t.nodes h, cluster_of)
      (by_number now t (keep serves_as_primary t.nodes))
