-- ===== src/Admin/Pools.antt =====
-- `poolViews` of internal/admin/admin.go. The statistics of a node's pool are those of the driver, a
-- parameter.
use Prim.Native.String.{compare}
use text.Mathlib.Text.{is_lt}
use grunyas.Prelude.{
  ℕ, String, str_eq, Bool, ◌&&◌, ◌||◌, none, some, List, [], ◌∷◌, ◌++◌, if◌then◌else◌,
}
use grunyas.Prelude.Int.{ℤ, pos}
use grunyas.Prelude.Assoc.{Assoc}
use grunyas.Topology.Types.{NodeView}
use grunyas.Topology.State.{Topology}
use grunyas.Topology.View.{pool, missing, pool_for, primary, replicas}
use grunyas.Config.Types.{NodeConfig, PortConfig}

pub record DriverStats : Type 0 where
  pub total_conns : ℕ
  pub acquired_conns : ℕ
  pub idle_conns : ℕ
  pub max_conns : ℕ

pub record PoolJson : Type 0 where
  pub port : String
  pub node_id : String
  pub mode : String
  pub stats : DriverStats
  pub min_conns : ℤ

-- The switch on the port; a port that it does not know has no row.
unfoldable pub candidate_nodes : ℕ → Topology → String → List NodeView
unfolding primary replicas
candidate_nodes now t port_id =
    if str_eq port_id "write"
    then elim (primary now t) [ none ↦ [] | some p ↦ p ∷ [] ]
    else if str_eq port_id "read"
    then replicas now t
    else []

-- The loop over cfg.Nodes, from minConns = 0.
unfoldable pub min_conns_of : String → List NodeConfig → ℤ
min_conns_of id [] = pos 0
min_conns_of id (nc ∷ rest) =
    let others = min_conns_of id rest in if str_eq nc.id id then nc.pool.min_conns else others

abbrev pub mode_of : PortConfig → String
mode_of port = if str_eq port.pool_mode "" then "session" else port.pool_mode

module _ (pool_stats : String → DriverStats) (t : Topology) (configs : List NodeConfig) where
  -- The loop over the candidates of a port.
  unfoldable pub pool_rows : (port_id mode : String) → List NodeView → List PoolJson
  unfolding min_conns_of
  pool_rows port_id mode [] = []
  pool_rows port_id mode (nv ∷ rest) =
      let rows = pool_rows port_id mode rest in
      elim (pool_for t nv.id) [
        | missing e ↦ rows
        | pool name ↦
            record {
              port = port_id;
              node_id = nv.id;
              mode = mode;
              stats = pool_stats name;
              min_conns = min_conns_of nv.id configs;
            }
            ∷ rows
      ]

  unfoldable pub port_rows : ℕ → Assoc PortConfig → List PoolJson
  unfolding pool_rows candidate_nodes
  port_rows now [] = []
  port_rows now ((port_id, port) ∷ rest) =
      pool_rows port_id (mode_of port) (candidate_nodes now t port_id) ++ port_rows now rest

  abbrev row_lt : PoolJson → PoolJson → Bool
  row_lt a b =
      is_lt (compare a.port b.port) || (str_eq a.port b.port && is_lt (compare a.node_id b.node_id))

  -- sort.Slice by port, then node.
  unfoldable pub insert_row : PoolJson → List PoolJson → List PoolJson
  insert_row a [] = a ∷ []
  insert_row a (x ∷ xs) = let rest = insert_row a xs in if row_lt x a then x ∷ rest else a ∷ x ∷ xs

  unfoldable pub sort_rows : List PoolJson → List PoolJson
  unfolding insert_row
  sort_rows [] = []
  sort_rows (a ∷ rest) = insert_row a (sort_rows rest)

  unfoldable pub pool_views : ℕ → Assoc PortConfig → List PoolJson
  unfolding port_rows sort_rows
  pool_views now ports = sort_rows (port_rows now ports)
