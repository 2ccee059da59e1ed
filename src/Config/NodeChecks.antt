-- ===== src/Config/NodeChecks.antt =====
-- The loop of `Validate` of config/config.go over the nodes.
use grunyas.Prelude.{
  ℕ, ◌+◌, String, str_eq, Bool, not, ◌&&◌, ◌||◌, List, [], ◌∷◌, ◌++◌, if◌then◌else◌,
}
use grunyas.Prelude.Int.{pos, ltb_ℤ}
use grunyas.Classifier.Text.{codes}
use grunyas.Config.Types.{NodeConfig, NodeConnectionConfig, NodePoolConfig, lower_is}
use grunyas.Config.Problems.{
  Problem, check, is_negative, is_blank, seen, Endpoint, endpoint, same_endpoint, is_url_safe,
  of_node,
}

-- The identifier of a node, and the identifiers seen after it.
unfoldable pub validate_id : ℕ → List String → String → List Problem
validate_id i ids id =
    if is_blank id
    then of_node i "id is required" ∷ []
    else if seen str_eq id ids
    then of_node i "id is duplicate" ∷ []
    else check (not (is_url_safe (codes id))) (of_node i "id must be lowercase URL-safe (a-z0-9-)")

abbrev pub add_seen : String → List String → List String
add_seen s ss = if is_blank s || seen str_eq s ss then ss else s ∷ ss

abbrev pub validate_connection : ℕ → NodeConnectionConfig → List Problem
validate_connection i c =
    check (is_blank c.user) (of_node i "connection.user is required")
    ++ (check (is_blank c.database) (of_node i "connection.database is required")
        ++ (check (is_negative c.connect_timeout_seconds)
              (of_node i "connection.connect_timeout_seconds must be >= 0")
            ++ check (not (is_blank c.ssl_mode) && not (str_eq c.ssl_mode "disable"))
                (of_node i "connection.ssl_mode must be 'disable' in M1")))

abbrev pub validate_pool : ℕ → NodePoolConfig → List Problem
validate_pool i p =
    check (is_negative p.min_conns) (of_node i "pool.min_conns must be >= 0")
    ++ (check (ltb_ℤ p.max_conns (pos 1)) (of_node i "pool.max_conns must be > 0")
        ++ (check (ltb_ℤ p.max_conns p.min_conns)
              (of_node i "pool.min_conns must be <= pool.max_conns")
            ++ (check (is_negative p.max_conn_lifetime)
                  (of_node i "pool.max_conn_lifetime must be >= 0")
                ++ (check (is_negative p.max_conn_idle_time)
                      (of_node i "pool.max_conn_idle_time must be >= 0")
                    ++ check (is_negative p.health_check_period)
                        (of_node i "pool.health_check_period must be >= 0")))))

abbrev pub is_primary : NodeConfig → Bool
is_primary n = lower_is n.declared_role "primary"

-- The body of the loop over the nodes.
unfoldable pub validate_node : ℕ → List String → List Endpoint → NodeConfig → List Problem
unfolding validate_id
validate_node i ids hosts n =
    validate_id i ids n.id
    ++ (check (is_blank n.host) (of_node i "host is required")
        ++ (check (ltb_ℤ n.port (pos 1) || ltb_ℤ (pos 65535) n.port)
              (of_node i "port must be in the range 1-65535")
            ++ (check (seen same_endpoint (endpoint n) hosts)
                  (of_node i "host:port tuple is duplicate")
                ++ (check (not (is_primary n) && not (lower_is n.declared_role "replica"))
                      (of_node i "declared_role must be 'primary' or 'replica'")
                    ++ (validate_connection i n.connection ++ validate_pool i n.pool)))))

unfoldable pub validate_nodes : ℕ → List String → List Endpoint → List NodeConfig → List Problem
unfolding validate_node
validate_nodes i ids hosts [] = []
validate_nodes i ids hosts (n ∷ ns) =
    validate_node i ids hosts n
    ++ validate_nodes (i + 1) (add_seen n.id ids) (endpoint n ∷ hosts) ns

unfoldable pub primary_count : List NodeConfig → ℕ
primary_count [] = 0
primary_count (n ∷ ns) = let rest = primary_count ns in if is_primary n then rest + 1 else rest
