-- ===== src/Config/ListFacts.antt =====
-- What a port and a policy are that `Validate` of config/config.go has no problem with.
use Prim.Native.Nat.{zero, suc}
use grunyas.Prelude.{
  ◌≡◌, refl, ◌≢◌, ap, sym, ◌∙◌, Bool, true, false, not, ◌||◌, ◌&&◌, List, [], ◌∷◌, All, arith,
  str_eq, String, ℕ, ◌⊎◌, inl, inr, Option, none, some, map, ◌+◌, suc,
}
use grunyas.Prelude.Int.{ℤ, pos, negsuc, ltb_ℤ}
use grunyas.Prelude.Assoc.{Assoc, Every}
use grunyas.Config.Types.{PortConfig, PolicyConfig, PoolMode, lower_is, pool_mode_from_string}
use grunyas.Config.Problems.{is_negative, is_blank, is_none, seen}
use grunyas.Config.ServerChecks.{validate_host_port, validate_ssl, validate_port, validate_ports}
use grunyas.Config.Validate.{validate_policies, validate_policy, validate_name, validate_template}
use grunyas.Config.Seen.{append-nil, check-nil, check_append-nil, Unseen}
use grunyas.Config.NodeFacts.{added, not_blank}

abbrev pub IsGoodPort : (String → Bool) → PortConfig → Type 0
IsGoodPort host_port_ok p =
    (host_port_ok p.listen_addr ≡ true)
    × ((m : PoolMode) × (pool_mode_from_string p.pool_mode ≡ some m))
    × (((is_blank p.ssl_mode || lower_is p.ssl_mode "never")
          || ((lower_is p.ssl_mode "optional" || lower_is p.ssl_mode "mandatory")
              && (not (is_blank p.ssl_cert) && not (is_blank p.ssl_key))))
        ≡ true)

abbrev pub IsGoodPolicy : ℤ → PolicyConfig → Type 0
IsGoodPolicy interval p =
    (p.name ≢ "") × ((p.dwell_ms ≡ pos 0) ⊎ (ltb_ℤ p.dwell_ms interval ≡ false))

validate_name-nil :
    (i : ℕ) (names : List String) (name : String)
    → validate_name i names name ≡ []
    → (is_blank name ≡ false) × (seen str_eq name names ≡ false)
unfolding validate_name
validate_name-nil i names name e = ground (arith, e)

pub validate_policies-nil :
    (interval : ℤ) (i : ℕ) (names : List String) (ps : List PolicyConfig)
    → validate_policies interval i names ps ≡ []
    → All (IsGoodPolicy interval) ps × Unseen str_eq names (map (λ p. p.name) ps)
unfolding validate_policies validate_policy
validate_policies-nil interval i names [] e = (tt, tt)
validate_policies-nil interval i names (p ∷ ps) e =
    let (d, e') = append-nil (validate_policy interval i names p) e in
    let (n, d1) = append-nil (validate_name i names p.name) d in
    let (b, u) = validate_name-nil i names p.name n in
    let (x, d2) = append-nil (validate_template i p.template) d1 in
    let (y, d3) = check_append-nil _ _ d2 in
    let (w, d4) = check_append-nil (is_negative p.dwell_ms) _ d3 in
    let (r, d5) = check_append-nil (is_negative p.release_ms) _ d4 in
    let (good, us) =
      validate_policies-nil interval (i + 1) (p.name ∷ names) ps
        (ap (λ s. validate_policies interval (i + 1) s ps) (sym (added p.name names b u)) ∙ e') in
    (((not_blank p.name b, dwells p.dwell_ms w (check-nil _ _ d5)), good), (u, us))
  where
    dwells :
        (dwell : ℤ)
        → ltb_ℤ dwell (pos 0) ≡ false
        → (ltb_ℤ (pos 0) dwell && ltb_ℤ dwell interval) ≡ false
        → (dwell ≡ pos 0) ⊎ (ltb_ℤ dwell interval ≡ false)
    dwells (pos zero) e f = inl refl
    dwells (pos (suc n)) e f = inr (ground (arith, f))
    dwells (negsuc n) e f = cc

pub validate_ports-nil :
    (level_ok host_port_ok : String → Bool) (ports : Assoc PortConfig)
    → validate_ports level_ok host_port_ok ports ≡ []
    → Every (λ id p. IsGoodPort host_port_ok p) ports
unfolding validate_ports validate_port validate_host_port validate_ssl
validate_ports-nil level_ok host_port_ok [] e = tt
validate_ports-nil level_ok host_port_ok ((id, p) ∷ ps) e =
    let (d, e') = append-nil (validate_port level_ok host_port_ok id p) e in
    let (a, d1) = append-nil (validate_host_port level_ok host_port_ok p.listen_addr _ _) d in
    let (m, d2) = check_append-nil _ _ d1 in
    (
      (ground (arith, a), parsed (pool_mode_from_string p.pool_mode) m, ground (arith, d2)),
      validate_ports-nil level_ok host_port_ok ps e',
    )
  where
    parsed : (o : Option PoolMode) → is_none o ≡ false → (m : PoolMode) × (o ≡ some m)
    parsed none e = cc
    parsed (some m) e = (m, refl)
