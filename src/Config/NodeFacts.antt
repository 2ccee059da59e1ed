-- ===== src/Config/NodeFacts.antt =====
-- What a node is that `Validate` of config/config.go has no problem with.
use grunyas.Prelude.{
  ◌≡◌, refl, ◌≢◌, ap, sym, ◌∙◌, true, false, not, ◌||◌, ◌&&◌, List, [], ◌∷◌, All, arith, str_eq,
  eq_iff, String, ℕ, ◌≤◌, map, ◌+◌,
}
use grunyas.Prelude.Int.{ℤ, pos, negsuc, ltb_ℤ}
use grunyas.Classifier.Text.{codes}
use grunyas.Config.Types.{NodeConfig, lower_is, NodePoolConfig}
use grunyas.Config.Problems.{
  is_negative, is_blank, seen, Endpoint, endpoint, same_endpoint, is_url_safe,
}
use grunyas.Config.NodeChecks.{
  validate_id, add_seen, validate_connection, validate_pool, is_primary, validate_node,
  validate_nodes,
}
use grunyas.Config.Seen.{append-nil, check_append-nil, Unseen}

-- A node with a usable name and address, a role, and a pool of at least one connection.
abbrev pub IsGoodNode : NodeConfig → Type 0
IsGoodNode n =
    (n.id ≢ "")
    × (is_url_safe (codes n.id) ≡ true)
    × (n.host ≢ "")
    × ((p : ℕ) × (n.port ≡ pos p) × (1 ≤ p) × (p ≤ 65535))
    × ((is_primary n || lower_is n.declared_role "replica") ≡ true)
    × ((least most : ℕ) × (n.pool.min_conns ≡ pos least)
        × (n.pool.max_conns ≡ pos most)
        × (1 ≤ most)
        × (least ≤ most))

pub not_blank : (s : String) → is_blank s ≡ false → s ≢ ""
not_blank s e p = absurd (ground (arith, e, (eq_iff s "").1 p))

-- A key that is neither empty nor among those before joins them.
pub added :
    (s : String) (ss : List String)
    → is_blank s ≡ false
    → seen str_eq s ss ≡ false
    → add_seen s ss ≡ s ∷ ss
added s ss b u = ground (arith, b, u)

validate_id-nil :
    (i : ℕ) (ids : List String) (id : String)
    → validate_id i ids id ≡ []
    → (is_blank id ≡ false) × (seen str_eq id ids ≡ false) × (is_url_safe (codes id) ≡ true)
unfolding validate_id
validate_id-nil i ids id e = ground (arith, e)

validate_node-nil :
    (i : ℕ) (ids : List String) (hosts : List Endpoint) (n : NodeConfig)
    → validate_node i ids hosts n ≡ []
    → (is_blank n.id ≡ false)
      × (seen str_eq n.id ids ≡ false)
      × (seen same_endpoint (endpoint n) hosts ≡ false)
      × IsGoodNode n
unfolding validate_node
validate_node-nil i ids hosts n e =
    let (d, e1) = append-nil (validate_id i ids n.id) e in
    let (b, u, safe) = validate_id-nil i ids n.id d in
    let (host, e2) = check_append-nil (is_blank n.host) _ e1 in
    let (port, e3) = check_append-nil (ltb_ℤ n.port (pos 1) || ltb_ℤ (pos 65535) n.port) _ e2 in
    let (hp, e4) = check_append-nil (seen same_endpoint (endpoint n) hosts) _ e3 in
    let (role, e5) =
      check_append-nil (not (is_primary n) && not (lower_is n.declared_role "replica")) _ e4 in
    (
      b,
      u,
      hp,
      (
        not_blank n.id b,
        safe,
        not_blank n.host host,
        in_range n.port port,
        ground (arith, role),
        pool_sizes i n.pool (append-nil (validate_connection i n.connection) e5).1,
      ),
    )
  where
    in_range :
        (p : ℤ)
        → (ltb_ℤ p (pos 1) || ltb_ℤ (pos 65535) p) ≡ false
        → (m : ℕ) × (p ≡ pos m) × (1 ≤ m) × (m ≤ 65535)
    in_range (pos m) e = (m, refl, ground (arith, e), ground (arith, e))
    in_range (negsuc m) e = cc

    sizes :
        (a b : ℤ)
        → ltb_ℤ a (pos 0) ≡ false
        → ltb_ℤ b (pos 1) ≡ false
        → ltb_ℤ b a ≡ false
        → (least most : ℕ) × (a ≡ pos least) × (b ≡ pos most) × (1 ≤ most) × (least ≤ most)
    sizes (pos a) (pos b) d e f = (a, b, refl, refl, ground (arith, e), ground (arith, f))
    sizes (pos a) (negsuc b) d e f = cc
    sizes (negsuc a) b d e f = cc

    pool_sizes :
        (i : ℕ) (p : NodePoolConfig)
        → validate_pool i p ≡ []
        → (least most : ℕ) × (p.min_conns ≡ pos least)
          × (p.max_conns ≡ pos most)
          × (1 ≤ most)
          × (least ≤ most)
    pool_sizes i p e =
        let (a, e1) = check_append-nil (is_negative p.min_conns) _ e in
        let (b, e2) = check_append-nil (ltb_ℤ p.max_conns (pos 1)) _ e1 in
        let (c, e3) = check_append-nil (ltb_ℤ p.max_conns p.min_conns) _ e2 in
        sizes p.min_conns p.max_conns a b c

pub validate_nodes-nil :
    (i : ℕ) (ids : List String) (hosts : List Endpoint) (ns : List NodeConfig)
    → validate_nodes i ids hosts ns ≡ []
    → All IsGoodNode ns
      × Unseen str_eq ids (map (λ n. n.id) ns)
      × Unseen same_endpoint hosts (map endpoint ns)
unfolding validate_nodes
validate_nodes-nil i ids hosts [] e = (tt, tt, tt)
validate_nodes-nil i ids hosts (n ∷ ns) e =
    let (d, e') = append-nil (validate_node i ids hosts n) e in
    let (b, u, v, g) = validate_node-nil i ids hosts n d in
    let (good, us, vs) = validate_nodes-nil (i + 1) (n.id ∷ ids) (endpoint n ∷ hosts) ns (
      ap (λ s. validate_nodes (i + 1) s (endpoint n ∷ hosts) ns) (sym (added n.id ids b u)) ∙ e') in
    ((g, good), (u, us), (v, vs))
