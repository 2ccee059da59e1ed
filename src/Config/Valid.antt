-- ===== src/Config/Valid.antt =====
-- What a configuration that `Validate` of config/config.go accepts is known to be.
use grunyas.Prelude.{
  ◌≡◌, refl, Bool, true, false, not, List, [], ◌∷◌, All, arith, str_eq, String, ◌⊎◌, inl, inr,
  Option, none, some, map, Bool-cases, Option-cases, is_nil, ◌==◌,
}
use grunyas.Prelude.Assoc.{Assoc, get, Every}
use grunyas.Config.Types.{
  PortConfig, NodeConfig, Config, lower_is, primary_node, get_write_port, ServerConfig,
}
use grunyas.Config.Problems.{is_negative, is_none, endpoint, same_endpoint}
use grunyas.Config.ServerChecks.{
  validate_general, validate_admin, validate_ports, validate_auth, validate_server, validate_probe,
  validate_tokens,
}
use grunyas.Config.NodeChecks.{is_primary, validate_nodes, primary_count}
use grunyas.Config.Validate.{validate, validate_policies, validate_compat}
use grunyas.Config.Seen.{
  append-nil, check-nil, check_append-nil, Distinct, Unseen-Distinct, str_same, endpoint_same,
}
use grunyas.Config.NodeFacts.{IsGoodNode, validate_nodes-nil}
use grunyas.Config.ListFacts.{IsGoodPort, IsGoodPolicy, validate_ports-nil, validate_policies-nil}

primary_node-count :
    (ns : List NodeConfig)
    → primary_count ns ≡ 1
    → (n : NodeConfig) × (primary_node ns ≡ some n) × (is_primary n ≡ true)
unfolding primary_count primary_node
primary_node-count [] e = cc
primary_node-count (n ∷ ns) e = elim (Bool-cases (is_primary n)) [
  | inl p ↦ (n, rw p refl, p)
  | inr p ↦ let (m, f, q) = primary_node-count ns (rw p at e) in (m, rw p f, q)
]

abbrev pub IsGoodCompat : Assoc PortConfig → Type 0
IsGoodCompat ports =
    (get "compat" ports ≡ none)
    ⊎ ((p : PortConfig) × (get "compat" ports ≡ some p) × (lower_is p.pool_mode "session" ≡ false))

validate_compat-nil : (ports : Assoc PortConfig) → validate_compat ports ≡ [] → IsGoodCompat ports
unfolding validate_compat
validate_compat-nil ports e = elim (Option-cases (get "compat" ports)) [
  | inl n ↦ inl n
  | inr (p, s) ↦ inr (p, s, check-nil _ _ (rw (s, validate_compat) at e))
]

-- What the proxy relies on.
abbrev pub IsConsistent : (String → Bool) → Config → Type 0
IsConsistent host_port_ok c =
    ((w : PortConfig) × (get_write_port c.server ≡ some w))
    × Every (λ id p. IsGoodPort host_port_ok p) c.server.ports
    × IsGoodCompat c.server.ports
    × All IsGoodNode c.nodes
    × Distinct (map (λ n. n.id) c.nodes)
    × Distinct (map endpoint c.nodes)
    × ((n : NodeConfig) × (primary_node c.nodes ≡ some n) × (is_primary n ≡ true))
    × (primary_count c.nodes ≡ 1)
    × All (IsGoodPolicy c.probe.interval_ms) c.policies
    × Distinct (map (λ p. p.name) c.policies)

write_port :
    (s : ServerConfig) → validate_server s ≡ [] → (w : PortConfig) × (get_write_port s ≡ some w)
unfolding get_write_port
write_port s e =
    let (a, e1) = check_append-nil (is_negative s.max_sessions) _ e in
    let (b, e2) = check_append-nil (is_negative s.client_idle_timeout) _ e1 in
    let (c, e3) = check_append-nil (is_negative s.keep_alive_timeout) _ e2 in
    let (d, e4) = check_append-nil (is_negative s.keep_alive_interval) _ e3 in
    let (f, e5) = check_append-nil (is_negative s.keep_alive_count) _ e4 in
    let (g, e6) = check_append-nil (is_negative s.startup_probe_timeout_seconds) _ e5 in
    let (h, e7) = check_append-nil (is_nil s.ports) _ e6 in
    found (get "write" s.ports) (check-nil _ _ e7)
  where
    found : (o : Option PortConfig) → is_none o ≡ false → (w : PortConfig) × (o ≡ some w)
    found none e = cc
    found (some w) e = (w, refl)

-- Whatever the parsers of other packages accept, a configuration without a problem has a write port; each
-- port has an address that the parser accepts, a pool mode, and the key and the certificate that its
-- mode of TLS needs; the compat port, if there is one, is not set to session mode; each node has an
-- identifier that is safe in an address, a host, a port from 1 to 65535, a role, and a pool of at
-- least one connection and no less than its minimum; identifiers differ, and so do addresses; one
-- node in all is declared as the primary, and PrimaryNode finds it; and policies have different
-- names and a dwell time that is zero or no shorter than the interval of the probes.
pub validate-IsConsistent :
    (level_ok host_port_ok : String → Bool) (c : Config)
    → validate level_ok host_port_ok c ≡ []
    → IsConsistent host_port_ok c
unfolding validate
validate-IsConsistent level_ok host_port_ok c e =
    let (a, e1) = append-nil (validate_general level_ok host_port_ok c) e in
    let (b, e2) = append-nil (validate_auth c.auth) e1 in
    let (d, e3) = append-nil (validate_admin level_ok host_port_ok c.server.admin) e2 in
    let (server, e4) = append-nil (validate_server c.server) e3 in
    let (ports, e5) = append-nil (validate_ports level_ok host_port_ok c.server.ports) e4 in
    let (f, e6) = check_append-nil (is_nil c.nodes) _ e5 in
    let (nodes, e7) = append-nil (validate_nodes 0 [] [] c.nodes) e6 in
    let (one, e8) = check_append-nil (not (primary_count c.nodes == 1)) _ e7 in
    let (g, e9) = append-nil (validate_probe c.probe) e8 in
    let (h, e10) = append-nil (validate_tokens c.server.admin_tokens) e9 in
    let (policies, compat) =
      append-nil (validate_policies c.probe.interval_ms 0 [] c.policies) e10 in
    let (good, ids, hosts) = validate_nodes-nil 0 [] [] c.nodes nodes in
    let (sound, names) = validate_policies-nil c.probe.interval_ms 0 [] c.policies policies in
    let count : primary_count c.nodes ≡ 1 = ground (arith, one) in
    (
      write_port c.server server,
      validate_ports-nil level_ok host_port_ok c.server.ports ports,
      validate_compat-nil c.server.ports compat,
      good,
      (Unseen-Distinct str_eq str_same [] (map (λ n. n.id) c.nodes) ids).1,
      (Unseen-Distinct same_endpoint endpoint_same [] (map endpoint c.nodes) hosts).1,
      primary_node-count c.nodes count,
      count,
      sound,
      (Unseen-Distinct str_eq str_same [] (map (λ p. p.name) c.policies) names).1,
    )
