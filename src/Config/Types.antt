-- ===== src/Config/Types.antt =====
-- The records of config/*.go, less the fields that nothing modelled reads: those of logging, of
-- telemetry and of the admin pages, and LagMaxAgeMs, PostWriteWindowMs, AutoUpgrade and
-- AcquireTimeoutSeconds; with the readers of config.go and server_config.go and `Normalize`.
use grunyas.Prelude.{
  ℕ, String, str_eq, Bool, false, not, ◌&&◌, Option, none, some, List, [], ◌∷◌, map, if◌then◌else◌,
  ◌==◌,
}
use grunyas.Prelude.Int.{ℤ, pos}
use grunyas.Prelude.Assoc.{Assoc, get}
use grunyas.Classifier.Text.{codes, to_lower, text_eq}

pub record PortConfig : Type 0 where
  pub listen_addr : String
  pub pool_mode : String
  pub ssl_mode : String
  pub ssl_cert : String
  pub ssl_key : String

pub record NodeConnectionConfig : Type 0 where
  pub user : String
  pub database : String
  pub connect_timeout_seconds : ℤ
  pub ssl_mode : String

pub record NodePoolConfig : Type 0 where
  pub min_conns : ℤ
  pub max_conns : ℤ
  pub max_conn_lifetime : ℤ
  pub max_conn_idle_time : ℤ
  pub health_check_period : ℤ

pub record NodeConfig : Type 0 where
  pub id : String
  pub host : String
  pub port : ℤ
  pub declared_role : String
  pub connection : NodeConnectionConfig
  pub pool : NodePoolConfig

pub record ProbeConfig : Type 0 where
  pub interval_ms : ℤ
  pub liveness_failure_count : ℤ
  pub liveness_max_age_ms : ℤ
  pub role_max_age_ms : ℤ

pub record PolicyConfig : Type 0 where
  pub name : String
  pub template : String
  pub scope : String
  pub dwell_ms : ℤ
  pub release_ms : ℤ

pub record AuthConfig : Type 0 where
  pub method : String
  pub username : String
  pub password : String

pub record AdminConfig : Type 0 where
  pub listen_addr : String
  pub tls_enabled : Bool
  pub tls_cert_file : String
  pub tls_key_file : String

pub data PoolMode : Type 0 where
  session transaction : PoolMode

-- The last five fields are the ones that `Normalize` derives from the write port.
pub record ServerConfig : Type 0 where
  pub admin : AdminConfig
  pub admin_addr : String
  pub max_sessions : ℤ
  pub client_idle_timeout : ℤ
  pub keep_alive_timeout : ℤ
  pub keep_alive_interval : ℤ
  pub keep_alive_count : ℤ
  pub startup_probe_timeout_seconds : ℤ
  pub ports : Assoc PortConfig
  pub admin_tokens : Assoc String
  pub max_subscribers : ℤ
  pub per_subscriber_buffer : ℤ
  pub listen_addr : String
  pub pool_mode : Option PoolMode
  pub ssl_mode : String
  pub ssl_cert : String
  pub ssl_key : String

pub record Config : Type 0 where
  pub server : ServerConfig
  pub nodes : List NodeConfig
  pub probe : ProbeConfig
  pub level : String
  pub otlp_endpoint : String
  pub auth : AuthConfig
  pub policies : List PolicyConfig

-- strings.ToLower(s) == w
abbrev pub lower_is : String → String → Bool
lower_is s w = text_eq (map to_lower (codes s)) (codes w)

unfoldable pub pool_mode_from_string : String → Option PoolMode
pool_mode_from_string s =
    if str_eq s ""
    then some session
    else if str_eq s "session"
    then some session
    else if str_eq s "transaction"
    then some transaction
    else none

unfoldable pub get_write_port : ServerConfig → Option PortConfig
get_write_port s = get "write" s.ports

unfoldable pub get_write_pool_mode : ServerConfig → PoolMode
unfolding get_write_port pool_mode_from_string
get_write_pool_mode s = elim (get_write_port s) [
  | none ↦ session
  | some port ↦ elim (pool_mode_from_string port.pool_mode) [ none ↦ session | some m ↦ m ]
]

-- `PrimaryNode`; the comparison without case is that of ASCII letters, as in
-- `validate_nodes`, though strings.EqualFold and strings.ToLower differ on some other letters.
unfoldable pub primary_node : List NodeConfig → Option NodeConfig
primary_node [] = none
primary_node (n ∷ ns) =
    let rest = primary_node ns in if lower_is n.declared_role "primary" then some n else rest

abbrev pub is_zero : ℤ → Bool
is_zero (pos n) = n == 0
is_zero _ = false

abbrev pub or_default : ℕ → ℤ → ℤ
or_default d n = if is_zero n then pos d else n

-- The part of `Normalize` for the write port.
unfoldable pub with_write_port : ServerConfig → ServerConfig
unfolding get_write_port get_write_pool_mode
with_write_port s = elim (get_write_port s) [
  | none ↦ s
  | some write ↦ record s {
    listen_addr = write.listen_addr;
    ssl_mode = write.ssl_mode;
    ssl_cert = write.ssl_cert;
    ssl_key = write.ssl_key;
    pool_mode = some (get_write_pool_mode s);
  }
]

unfoldable pub admin_listen_addr : ServerConfig → String
admin_listen_addr s =
    if str_eq s.admin.listen_addr "" && not (str_eq s.admin_addr "")
    then s.admin_addr
    else if str_eq s.admin.listen_addr ""
    then "127.0.0.1:5712"
    else s.admin.listen_addr

unfoldable pub normalize : ServerConfig → ServerConfig
unfolding with_write_port admin_listen_addr
normalize s = record (with_write_port s) {
  max_subscribers = or_default 64 s.max_subscribers;
  per_subscriber_buffer = or_default 256 s.per_subscriber_buffer;
  admin = record s.admin { listen_addr = admin_listen_addr s };
}

-- `defaultConfig`, before `Normalize`.
abbrev pub default_write_port : PortConfig
default_write_port = record {
  listen_addr = "127.0.0.1:5711";
  pool_mode = "session";
  ssl_mode = "never";
  ssl_cert = "";
  ssl_key = "";
}

abbrev pub default_server : ServerConfig
default_server = record {
  admin = record {
    listen_addr = "127.0.0.1:5712";
    tls_enabled = false;
    tls_cert_file = "";
    tls_key_file = "";
  };
  admin_addr = "127.0.0.1:5712";
  max_sessions = pos 1000;
  client_idle_timeout = pos 300;
  keep_alive_timeout = pos 15;
  keep_alive_interval = pos 15;
  keep_alive_count = pos 9;
  startup_probe_timeout_seconds = pos 10;
  ports = ("write", default_write_port) ∷ [];
  admin_tokens = [];
  max_subscribers = pos 0;
  per_subscriber_buffer = pos 0;
  listen_addr = "";
  pool_mode = none;
  ssl_mode = "";
  ssl_cert = "";
  ssl_key = "";
}

abbrev pub default_node : NodeConfig
default_node = record {
  id = "primary-1";
  host = "localhost";
  port = pos 5432;
  declared_role = "primary";
  connection = record {
    user = "postgres";
    database = "postgres";
    connect_timeout_seconds = pos 5;
    ssl_mode = "disable";
  };
  pool = record {
    min_conns = pos 2;
    max_conns = pos 10;
    max_conn_lifetime = pos 3600;
    max_conn_idle_time = pos 1800;
    health_check_period = pos 60;
  };
}

abbrev pub default_config : Config
default_config = record {
  server = default_server;
  nodes = default_node ∷ [];
  probe = record {
    interval_ms = pos 1000;
    liveness_failure_count = pos 3;
    liveness_max_age_ms = pos 5000;
    role_max_age_ms = pos 5000;
  };
  level = "info";
  otlp_endpoint = "";
  auth = record { method = "md5"; username = "postgres"; password = "postgres" };
  policies = [];
}
