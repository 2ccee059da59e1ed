-- ===== src/Session/Modes.antt =====
-- How `Run` of internal/server/session/session.go takes the pool mode and the post-write window from
-- the configuration, and how that agrees with `poolMode` of internal/server/proxy/proxy.go.
use grunyas.Prelude.{
  String, str_eq, eq_iff, true, false, not, ◌≡◌, ◌≢◌, refl, sym, arith, Option, none, some,
  if◌then◌else◌,
}
use grunyas.Prelude.Assoc.{get}
use grunyas.Classifier.Statement.{Port}
use grunyas.Config.Types.{
  PoolMode, session, transaction, PortConfig, ServerConfig, pool_mode_from_string,
}
use grunyas.Proxy.Leases.{port_name, pool_mode}

abbrev pub mode_or : Option PoolMode → Option PoolMode → Option PoolMode
mode_or fallback none = fallback
mode_or fallback (some m) = some m

-- sess.poolMode; `none` is the empty mode.
unfoldable pub session_mode : ServerConfig → Port → Option PoolMode
unfolding pool_mode_from_string
session_mode s port = elim (get (port_name port) s.ports) [
  | none ↦ s.pool_mode
  | some p ↦
      if not (str_eq p.pool_mode "")
      then mode_or s.pool_mode (pool_mode_from_string p.pool_mode)
      else s.pool_mode
]

abbrev pub mode_text : PoolMode → String
mode_text session = "session"
mode_text transaction = "transaction"

mode_text-pool_mode_from_string :
    (s : String) (m : PoolMode) → s ≢ "" → pool_mode_from_string s ≡ some m → mode_text m ≡ s
unfolding pool_mode_from_string
mode_text-pool_mode_from_string s session n e =
    ground (arith, n, e, eq_iff s "", eq_iff s "session", eq_iff s "transaction")
mode_text-pool_mode_from_string s transaction n e =
    ground (arith, n, e, eq_iff s "", eq_iff s "session", eq_iff s "transaction")

-- On a port whose pool mode is set and valid, the session runs in that mode, and the proxy leases in
-- it; on a port whose pool mode is empty, the session runs in that of the server.
pub session_mode-pool_mode :
    (s : ServerConfig) (port : Port) (p : PortConfig) (m : PoolMode)
    → get (port_name port) s.ports ≡ some p
    → pool_mode_from_string p.pool_mode ≡ some m
    → (p.pool_mode ≢ "" → (session_mode s port ≡ some m) × (pool_mode s.ports port ≡ mode_text m))
      × (p.pool_mode ≡ "" → session_mode s port ≡ s.pool_mode)
unfolding session_mode pool_mode
session_mode-pool_mode s port p m e v = (
  λ n. (
    rw (e, session_mode)
        (let b : str_eq p.pool_mode "" ≡ false = ground (arith, n, eq_iff p.pool_mode "") in
          rw (v, b) refl),
    rw (e, pool_mode) (sym (mode_text-pool_mode_from_string p.pool_mode m n v)),
  ),
  λ n.
      rw (e, session_mode)
        (let b : str_eq p.pool_mode "" ≡ true = ground (arith, n, eq_iff p.pool_mode "") in
          rw b refl),
)
