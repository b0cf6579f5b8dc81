-- ===== src/Tests/ConfigTests.antt =====
-- Loading configurations.
use namedor.Common.{
  pos, ◌≡◌, refl, true, false, none, some, [], ◌∷◌, Option, is_zero, if◌then◌else◌,
}
use namedor.Text.{Text, codes, text_eq, contains}
use namedor.Text.Decimal.{parse_int}
use namedor.Config.{
  Config, System, is_slave, is_tls_enabled, apply_defaults, validate_host_port, validate_addr,
  validate_host, validate_geoip, validate_performance, known_mode, validate_replication,
  validate_tls, validate_cidrs, validate, loaded, load,
}
use namedor.Config.Laws.{IsUsable, load-IsUsable}

-- Addresses of the form `:port`, and no files.
abbrev split : Text → Option (Text × Text)
split [] = none
split (c ∷ s) = if text_eq (c ∷ []) (codes ":") then some ([], s) else none

abbrev pub system : System
system = record {
  stat = λ path. false;
  mkdir_all = λ path. false;
  split_host_port = split;
  is_ip = λ s. false;
  is_cidr = λ s. text_eq s (codes "10.0.0.0/8");
}

-- The configuration of a slave that leaves most settings to their defaults.
abbrev pub written : Config
written = record {
  listen = [];
  forwarder = codes "8.8.8.8";
  enable_dnssec = false;
  api_token = codes "devtoken";
  api_token_hash = [];
  rest_listen = [];
  tls_cert_file = [];
  tls_key_file = [];
  tls_reload_sec = pos 0;
  allowed_cidrs = codes "10.0.0.0/8" ∷ [];
  auto_soa_on_missing = true;
  default_ttl = 300;
  db = record { driver = codes "sqlite"; dsn = codes "namedot.db" };
  geoip = record {
    enabled = false;
    mmdb_path = [];
    reload_sec = pos 0;
    use_ecs = true;
    download_urls = [];
    download_interval_sec = pos 0;
  };
  log = record { dns_verbose = false; sql_debug = false };
  performance = record {
    cache_size = pos 0;
    dns_timeout_sec = pos 0;
    forwarder_timeout_sec = pos 0;
  };
  admin = record { enabled = true; username = codes "admin"; password_hash = [] };
  replication = record {
    replication_mode = codes "slave";
    master_url = codes "http://master:8080";
    sync_interval_sec = pos 0;
    api_token = [];
  };
}

accepted : load system (some written) ≡ loaded (apply_defaults written)
unfolding load validate validate_addr validate_host_port validate_host validate_geoip
    validate_performance known_mode validate_replication validate_tls validate_cidrs apply_defaults
    is_tls_enabled parse_int text_eq contains
accepted = refl

load-IsUsable_example :
    IsUsable system (apply_defaults written)
    × (is_slave (apply_defaults written) ≡ true → (apply_defaults written).admin.enabled ≡ false)
    × (is_zero (apply_defaults written).performance.cache_size ≡ false)
    × (load system (some (apply_defaults written)) ≡ loaded (apply_defaults written))
load-IsUsable_example = load-IsUsable system written (apply_defaults written) accepted
