-- ===== src/Config.antt =====
-- internal/config/config.go: the defaults and the validation of the configuration. What the package
-- asks of the system and of package net is the parameter `System`; a warning printed on the way is
-- left out.
pub mod Laws
use namedor.Common.{
  ℕ, ℤ, pos, negsuc, Bool, true, false, not, ◌&&◌, ◌||◌, Option, none, some, List, [], ◌∷◌,
  is_empty, is_none, is_zero, is_negative, is_positive, if◌then◌else◌, leb,
}
use namedor.Text.{Text, codes, text_eq, contains}
use namedor.Text.Decimal.{parse_int}

pub record DbConfig : Type 0 where
  pub driver : Text
  pub dsn : Text

pub record GeoIpConfig : Type 0 where
  pub enabled : Bool
  pub mmdb_path : Text
  pub reload_sec : ℤ
  pub use_ecs : Bool
  pub download_urls : List Text
  pub download_interval_sec : ℤ

pub record LogConfig : Type 0 where
  pub dns_verbose : Bool
  pub sql_debug : Bool

pub record PerformanceConfig : Type 0 where
  pub cache_size : ℤ
  pub dns_timeout_sec : ℤ
  pub forwarder_timeout_sec : ℤ

pub record AdminConfig : Type 0 where
  pub enabled : Bool
  pub username : Text
  pub password_hash : Text

pub record ReplicationConfig : Type 0 where
  pub replication_mode : Text
  pub master_url : Text
  pub sync_interval_sec : ℤ
  pub api_token : Text

pub record Config : Type 0 where
  pub listen : Text
  pub forwarder : Text
  pub enable_dnssec : Bool
  pub api_token : Text
  pub api_token_hash : Text
  pub rest_listen : Text
  pub tls_cert_file : Text
  pub tls_key_file : Text
  pub tls_reload_sec : ℤ
  pub allowed_cidrs : List Text
  pub auto_soa_on_missing : Bool
  pub default_ttl : ℕ
  pub db : DbConfig
  pub geoip : GeoIpConfig
  pub log : LogConfig
  pub performance : PerformanceConfig
  pub admin : AdminConfig
  pub replication : ReplicationConfig

-- os.Stat and os.MkdirAll without an error; net.SplitHostPort, net.ParseIP, net.ParseCIDR.
pub record System : Type 0 where
  pub stat : Text → Bool
  pub mkdir_all : Text → Bool
  pub split_host_port : Text → Option (Text × Text)
  pub is_ip : Text → Bool
  pub is_cidr : Text → Bool

-- The errors, each by the setting that it names.
pub data ConfigError : Type 0 where
  bad_yaml bad_address bad_port bad_host : ConfigError
  invalid_listen invalid_rest_listen : ConfigError → ConfigError
  invalid_forwarder driver_required dsn_required mmdb_path_required mmdb_path_missing : ConfigError
  bad_cache_size bad_dns_timeout bad_forwarder_timeout two_tokens bad_mode : ConfigError
  master_url_required bad_sync_interval tls_pair cert_file_missing key_file_missing bad_cidr :
      ConfigError

abbrev pub slave : Text
slave = codes "slave"

abbrev pub is_slave : Config → Bool
is_slave c = text_eq c.replication.replication_mode slave

unfoldable pub is_tls_enabled : Config → Bool
is_tls_enabled c = not (is_empty c.tls_cert_file) && not (is_empty c.tls_key_file)

unfoldable pub has_ip_acl : Config → Bool
has_ip_acl c = not (is_empty c.allowed_cidrs)

abbrev default_text : Text → Text → Text
default_text value s = if is_empty s then value else s

abbrev default_int : ℕ → ℤ → ℤ
default_int value z = if is_zero z then pos value else z

-- The defaults of Load, in its order; on a slave the web panel is off.
unfoldable pub apply_defaults : Config → Config
unfolding is_tls_enabled
apply_defaults c = record c {
  rest_listen = default_text (codes ":8080") c.rest_listen;
  listen = default_text (codes ":53") c.listen;
  performance = record {
    cache_size = default_int 1024 c.performance.cache_size;
    dns_timeout_sec = default_int 2 c.performance.dns_timeout_sec;
    forwarder_timeout_sec = default_int 2 c.performance.forwarder_timeout_sec;
  };
  replication = record c.replication {
    sync_interval_sec =
        if is_zero c.replication.sync_interval_sec && is_slave c
        then pos 60
        else c.replication.sync_interval_sec;
  };
  tls_reload_sec =
      if is_zero c.tls_reload_sec && is_tls_enabled c then pos 3600 else c.tls_reload_sec;
  admin = record c.admin { enabled = if is_slave c then false else c.admin.enabled };
}

abbrev fail_if : Bool → ConfigError → Option ConfigError
fail_if true e = some e
fail_if false e = none

-- The next check, where there is no error yet.
infixr 20 ◌and_then◌
abbrev pub ◌and_then◌ : Option ConfigError → Option ConfigError → Option ConfigError
none and_then next = next
(some e) and_then next = some e

abbrev wrap : (ConfigError → ConfigError) → Option ConfigError → Option ConfigError
wrap f none = none
wrap f (some e) = some (f e)

-- `port < 1 || port > 65535`
abbrev pub is_port : ℤ → Bool
is_port (pos n) = leb 1 n && leb n 65535
is_port (negsuc n) = false

module _ (sys : System) where
  unfoldable pub validate_host_port : Text → Text → Option ConfigError
  validate_host_port host port = elim (parse_int port) [
    | none ↦ some bad_port
    | some n ↦
        fail_if (not (is_port n)) bad_port
        and_then fail_if (not (is_empty host) && not (sys.is_ip host) && contains host (codes " "))
            bad_host
  ]

  unfoldable pub validate_addr : Text → Option ConfigError
  unfolding validate_host_port
  validate_addr addr = elim (sys.split_host_port addr) [
    | none ↦ some bad_address
    | some (host, port) ↦ validate_host_port host port
  ]

  unfoldable pub validate_host : Text → Option ConfigError
  validate_host addr =
      if sys.is_ip addr then none else fail_if (is_empty addr || contains addr (codes " ")) bad_host

  -- The mmdb directory is made where files are to be downloaded, and else must be there.
  unfoldable pub validate_geoip : GeoIpConfig → Option ConfigError
  validate_geoip g =
      fail_if (g.enabled && is_empty g.mmdb_path) mmdb_path_required
      and_then fail_if
          (g.enabled
            && not (is_empty g.mmdb_path)
            && not (
                if not (is_empty g.download_urls) && is_positive g.download_interval_sec
                then sys.mkdir_all g.mmdb_path
                else sys.stat g.mmdb_path))
          mmdb_path_missing

  unfoldable pub validate_performance : PerformanceConfig → Option ConfigError
  validate_performance p =
      fail_if (is_negative p.cache_size) bad_cache_size
      and_then fail_if (not (is_positive p.dns_timeout_sec)) bad_dns_timeout
      and_then fail_if (not (is_positive p.forwarder_timeout_sec)) bad_forwarder_timeout

  unfoldable pub known_mode : Text → Bool
  known_mode mode =
      is_empty mode
      || text_eq mode (codes "master")
      || text_eq mode slave
      || text_eq mode (codes "standalone")

  unfoldable pub validate_replication : ReplicationConfig → Option ConfigError
  unfolding known_mode
  validate_replication r =
      fail_if (not (known_mode r.replication_mode)) bad_mode
      and_then fail_if (text_eq r.replication_mode slave && is_empty r.master_url)
          master_url_required
      and_then fail_if (text_eq r.replication_mode slave && not (is_positive r.sync_interval_sec))
          bad_sync_interval

  unfoldable pub validate_tls : Config → Option ConfigError
  unfolding is_tls_enabled
  validate_tls c =
      fail_if
        ((not (is_empty c.tls_cert_file) && is_empty c.tls_key_file)
          || (is_empty c.tls_cert_file && not (is_empty c.tls_key_file)))
        tls_pair
      and_then fail_if (is_tls_enabled c && not (sys.stat c.tls_cert_file)) cert_file_missing
      and_then fail_if (is_tls_enabled c && not (sys.stat c.tls_key_file)) key_file_missing

  unfoldable pub validate_cidrs : List Text → Option ConfigError
  validate_cidrs [] = none
  validate_cidrs (cidr ∷ cidrs) =
      fail_if (not (sys.is_cidr cidr)) bad_cidr and_then validate_cidrs cidrs

  unfoldable pub validate : Config → Option ConfigError
  validate c =
      wrap invalid_listen (validate_addr c.listen)
      and_then wrap invalid_rest_listen (validate_addr c.rest_listen)
      and_then (if is_empty c.forwarder
          then none
          else wrap (λ _. invalid_forwarder) (validate_host c.forwarder))
      and_then fail_if (is_empty c.db.driver) driver_required
      and_then fail_if (is_empty c.db.dsn) dsn_required
      and_then validate_geoip c.geoip
      and_then validate_performance c.performance
      and_then fail_if (not (is_empty c.api_token) && not (is_empty c.api_token_hash)) two_tokens
      and_then validate_replication c.replication
      and_then validate_tls c
      and_then validate_cidrs c.allowed_cidrs

  -- Load, after the file has been read and unmarshalled.
  pub data Loaded : Type 0 where
    loaded : Config → Loaded
    refused : ConfigError → Loaded

  unfoldable pub load : Option Config → Loaded
  load none = refused bad_yaml
  load (some c) = elim (validate (apply_defaults c)) [
    | none ↦ loaded (apply_defaults c)
    | some e ↦ refused e
  ]
