-- ===== src/Config/ServerChecks.antt =====
-- The parts of `Validate` of config/config.go for the server, its ports and the credentials. The parsers of
-- other packages are parameters: `level_ok` for zap.ParseAtomicLevel and `host_port_ok` for
-- net.SplitHostPort.
use grunyas.Prelude.{
  String, str_eq, Bool, not, ◌&&◌, ◌||◌, List, [], ◌∷◌, ◌++◌, is_nil, if◌then◌else◌,
}
use grunyas.Prelude.Int.{pos, ltb_ℤ}
use grunyas.Prelude.Assoc.{Assoc, get}
use grunyas.Config.Types.{
  PortConfig, ProbeConfig, AuthConfig, AdminConfig, ServerConfig, Config, lower_is,
  pool_mode_from_string,
}
use grunyas.Config.Problems.{
  Problem, check, is_negative, is_blank, is_none, general, of_port, of_token,
}

module _ (level_ok host_port_ok : String → Bool) where
  unfoldable pub validate_general : Config → List Problem
  validate_general c =
      check (not (level_ok c.level)) (general "logging.level")
      ++ check (not (is_blank c.otlp_endpoint) && not (host_port_ok c.otlp_endpoint))
          (general "telemetry.otlp_endpoint must be host:port")

  unfoldable pub validate_host_port : String → Problem → Problem → List Problem
  validate_host_port value missing malformed =
      if is_blank value then missing ∷ [] else check (not (host_port_ok value)) malformed

  unfoldable pub validate_admin : AdminConfig → List Problem
  unfolding validate_host_port
  validate_admin a =
      validate_host_port a.listen_addr (general "server.admin.listen_addr is required")
        (general "server.admin.listen_addr must be formatted as host:port")
      ++ (check (a.tls_enabled && is_blank a.tls_cert_file)
            (general "server.admin.tls_cert_file is required when tls_enabled is true")
          ++ check (a.tls_enabled && is_blank a.tls_key_file)
              (general "server.admin.tls_key_file is required when tls_enabled is true"))

  -- The ssl_mode of a port.
  unfoldable pub validate_ssl : String → PortConfig → List Problem
  validate_ssl id p =
      if is_blank p.ssl_mode || lower_is p.ssl_mode "never"
      then []
      else if lower_is p.ssl_mode "optional" || lower_is p.ssl_mode "mandatory"
      then check (is_blank p.ssl_cert)
          (of_port id "ssl_cert is required when ssl_mode is optional or mandatory")
        ++ check (is_blank p.ssl_key)
            (of_port id "ssl_key is required when ssl_mode is optional or mandatory")
      else of_port id "ssl_mode must be one of: never, optional, mandatory" ∷ []

  unfoldable pub validate_port : String → PortConfig → List Problem
  unfolding validate_host_port validate_ssl
  validate_port id p =
      validate_host_port p.listen_addr (of_port id "listen_addr is required")
        (of_port id "listen_addr must be formatted as host:port")
      ++ (check (is_none (pool_mode_from_string p.pool_mode))
            (of_port id "pool_mode must be one of: session, transaction")
          ++ validate_ssl id p)

  unfoldable pub validate_ports : Assoc PortConfig → List Problem
  unfolding validate_port
  validate_ports [] = []
  validate_ports ((id, p) ∷ ps) = validate_port id p ++ validate_ports ps

abbrev pub validate_auth : AuthConfig → List Problem
validate_auth a =
    check
      (not (
        lower_is a.method "plain"
        || (lower_is a.method "md5" || lower_is a.method "scram-sha-256")))
      (general "auth.method must be one of: plain, md5, scram-sha-256")
    ++ (check (is_blank a.username) (general "auth.username is required")
        ++ check (is_blank a.password) (general "auth.password is required"))

abbrev pub validate_server : ServerConfig → List Problem
validate_server s =
    check (is_negative s.max_sessions) (general "server.max_sessions must be >= 0")
    ++ (check (is_negative s.client_idle_timeout)
          (general "server.client_idle_timeout must be >= 0")
        ++ (check (is_negative s.keep_alive_timeout)
              (general "server.keep_alive_timeout must be >= 0")
            ++ (check (is_negative s.keep_alive_interval)
                  (general "server.keep_alive_interval must be >= 0")
                ++ (check (is_negative s.keep_alive_count)
                      (general "server.keep_alive_count must be >= 0")
                    ++ (check (is_negative s.startup_probe_timeout_seconds)
                          (general "server.startup_probe_timeout_seconds must be >= 0")
                        ++ (check (is_nil s.ports) (general "server.ports is required")
                            ++ check (is_none (get "write" s.ports))
                                (general "server.ports.write is required")))))))

abbrev pub validate_probe : ProbeConfig → List Problem
validate_probe p =
    check (ltb_ℤ p.interval_ms (pos 100)) (general "probe.interval_ms must be >= 100")
    ++ (check (is_negative p.liveness_failure_count)
          (general "probe.liveness_failure_count must be >= 0")
        ++ (check (is_negative p.liveness_max_age_ms)
              (general "probe.liveness_max_age_ms must be >= 0")
            ++ check (is_negative p.role_max_age_ms)
                (general "probe.role_max_age_ms must be >= 0")))

unfoldable pub validate_tokens : Assoc String → List Problem
validate_tokens [] = []
validate_tokens ((token, role) ∷ ts) =
    check (is_blank token) (general "server.admin_tokens.tokens: token must not be empty")
    ++ (check (not (is_blank role) && not (str_eq role "admin"))
          (of_token token "role must be admin")
        ++ validate_tokens ts)
