-- ===== src/Config/Validate.antt =====
-- `Validate` of config/config.go, with its loop over the policies.
use grunyas.Prelude.{
  ℕ, ◌+◌, String, str_eq, Bool, false, not, ◌&&◌, ◌||◌, none, some, List, [], ◌∷◌, ◌++◌, ◌==◌,
  is_nil, if◌then◌else◌,
}
use grunyas.Prelude.Int.{ℤ, pos, ltb_ℤ}
use grunyas.Prelude.Assoc.{Assoc, get}
use grunyas.Classifier.Text.{Text, codes}
use grunyas.Config.Types.{PortConfig, PolicyConfig, Config, lower_is}
use grunyas.Config.Problems.{Problem, check, is_negative, is_blank, seen, general, of_policy}
use grunyas.Config.ServerChecks.{
  validate_general, validate_admin, validate_ports, validate_auth, validate_server, validate_probe,
  validate_tokens,
}
use grunyas.Config.NodeChecks.{add_seen, validate_nodes, primary_count}

-- `isValidNodeScope`
unfoldable pub is_valid_node_scope : Text → Bool
is_valid_node_scope (a ∷ b ∷ c ∷ d ∷ e ∷ f ∷ s) =
    a == b'n' && (b == b'o' && (c == b'd' && (d == b'e' && e == b':')))
is_valid_node_scope _ = false

unfoldable pub validate_name : ℕ → List String → String → List Problem
validate_name i names name =
    if is_blank name
    then of_policy i "name is required" ∷ []
    else check (seen str_eq name names) (of_policy i "name is duplicate")

unfoldable pub validate_template : ℕ → String → List Problem
validate_template i t =
    if str_eq t "health-filter" || (str_eq t "lag-filter" || str_eq t "pool-saturation-rejection")
    then []
    else if is_blank t
    then of_policy i "template is required" ∷ []
    else of_policy i "template must be one of: health-filter, lag-filter, pool-saturation-rejection"
      ∷ []

unfoldable pub validate_policy : ℤ → ℕ → List String → PolicyConfig → List Problem
unfolding validate_name validate_template is_valid_node_scope
validate_policy interval i names p =
    validate_name i names p.name
    ++ (validate_template i p.template
        ++ (check
              (not (str_eq p.scope "cluster")
                && (not (is_blank p.scope) && not (is_valid_node_scope (codes p.scope))))
              (of_policy i "scope must be 'cluster' or 'node:<id>'")
            ++ (check (is_negative p.dwell_ms) (of_policy i "timing.dwell_ms must be >= 0")
                ++ (check (is_negative p.release_ms) (of_policy i "timing.release_ms must be >= 0")
                    ++ check (ltb_ℤ (pos 0) p.dwell_ms && ltb_ℤ p.dwell_ms interval)
                        (of_policy i "timing.dwell_ms must be >= probe.interval_ms")))))

unfoldable pub validate_policies : ℤ → ℕ → List String → List PolicyConfig → List Problem
unfolding validate_policy
validate_policies interval i names [] = []
validate_policies interval i names (p ∷ ps) =
    validate_policy interval i names p
    ++ validate_policies interval (i + 1) (add_seen p.name names) ps

unfoldable pub validate_compat : Assoc PortConfig → List Problem
validate_compat ports = elim (get "compat" ports) [
  | none ↦ []
  | some p ↦
      check (lower_is p.pool_mode "session")
        (general "server.ports.compat.pool_mode cannot be 'session'")
]

-- The problems that `Validate` reports; there is no error if there are none.
unfoldable pub validate : (level_ok host_port_ok : String → Bool) → Config → List Problem
unfolding validate_general validate_admin validate_ports validate_nodes primary_count
validate level_ok host_port_ok c =
    validate_general level_ok host_port_ok c
    ++ (validate_auth c.auth
        ++ (validate_admin level_ok host_port_ok c.server.admin
            ++ (validate_server c.server
                ++ (validate_ports level_ok host_port_ok c.server.ports
                    ++ (check (is_nil c.nodes) (general "nodes must contain at least one entry")
                        ++ (validate_nodes 0 [] [] c.nodes
                            ++ (check (not (primary_count c.nodes == 1))
                                  (general "exactly one node with declared_role='primary' required")
                                ++ (validate_probe c.probe
                                    ++ (validate_tokens c.server.admin_tokens
                                        ++ (validate_policies c.probe.interval_ms 0 [] c.policies
                                            ++ validate_compat c.server.ports))))))))))
