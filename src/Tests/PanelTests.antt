-- ===== src/Tests/PanelTests.antt =====
-- A change through the web panel of a server whose configuration has been loaded.
use namedor.Common.{
  pos, ◌≡◌, ◌≢◌, refl, false, true, Option, none, some, List, [], ◌∷◌, length, arith, ap, sym, ◌∙◌,
}
use namedor.Text.{Text, codes, text_eq, has_prefix, contains}
use namedor.Text.Atoi.{parse_uint32, parse_max, scan_max}
use namedor.Text.Decimal.{parse_int}
use namedor.Assoc.{fetch, write}
use namedor.Config.{
  Config, is_slave, is_tls_enabled, apply_defaults, validate_host_port, validate_addr,
  validate_host, validate_geoip, validate_performance, known_mode, validate_replication,
  validate_tls, validate_cidrs, validate, loaded, load,
}
use namedor.Rest.Access.{MayConnect, passes_acl, allowed_nets, ip_allowed}
use namedor.Tests.Memory.{memory, tables, Tables}
use namedor.Tests.RestTests.{parse_cidr, parse_ip}
use namedor.Tests.WebTests.{panel}
use namedor.Tests.ConfigTests.{system, written}
use namedor.Web.Request.{Request, cookie, get_header, param}
use namedor.Web.Panel.{with_id, done}
use namedor.Web.Zones.{delete_zone}
use namedor.Web.Sessions.{
  Event, logs_in, sessions_after, handle, login, valid_login, new_session, authenticate,
  check_session, checked, csrf_ok, request_token, validate_origin, same_origin, same_referer,
}
use namedor.Web.Sessions.Laws.{MayChange}
use namedor.Web.Routes.{changes, zone_delete, serve_route, let_in, change_handler}
use namedor.Web.Routes.Served.{serve_panel, access_of, account_of, serve_panel-MayChange}

-- The configuration of a server of its own, with a password for the panel.
abbrev standalone : Config
standalone = record written {
  admin = record { enabled = true; username = codes "admin"; password_hash = codes "hash" };
  replication = record {
    replication_mode = codes "standalone";
    master_url = [];
    sync_interval_sec = pos 0;
    api_token = [];
  };
}

abbrev cfg : Config
cfg = apply_defaults standalone

abbrev client : Text
client = codes "10.1.2.3"

abbrev hostname : Text → Option Text
hostname s = none

-- Zone 1 is deleted.
abbrev request : Request
request = record {
  params = (codes "id", codes "1") ∷ [];
  query = [];
  form = [];
  headers =
      (codes "X-CSRF-Token", codes "t1") ∷ (codes "Origin", codes "https://ns.example.org") ∷ [];
  cookies = (codes "session", codes "s1") ∷ [];
  host = codes "ns.example.org";
}

abbrev events : List (Event text_eq (account_of cfg))
events =
    logs_in (codes "admin") (codes "hash")
      (record { session_id = codes "s1"; csrf_token = codes "t1"; created_at = 5; renewed_at = 5 })
    ∷ []

accepted : load system (some standalone) ≡ loaded cfg
unfolding load validate validate_addr validate_host_port validate_host validate_geoip
    validate_performance known_mode validate_replication validate_tls validate_cidrs apply_defaults
    is_tls_enabled parse_int text_eq contains
accepted = refl

zone_gone :
    (serve_panel parse_cidr parse_ip text_eq hostname memory panel cfg client 7
      (changes zone_delete)
      request
      (sessions_after text_eq (account_of cfg) events)
      tables).1.zones
    ≡ []
unfolding serve_panel passes_acl allowed_nets ip_allowed apply_defaults serve_route let_in
    change_handler delete_zone sessions_after handle login valid_login new_session authenticate
    check_session checked csrf_ok request_token validate_origin same_origin same_referer with_id
    done param cookie get_header fetch write text_eq has_prefix parse_uint32 parse_max scan_max
    namedor.Net.contains
zone_gone = refl

tables_moved :
    (serve_panel parse_cidr parse_ip text_eq hostname memory panel cfg client 7
      (changes zone_delete)
      request
      (sessions_after text_eq (account_of cfg) events)
      tables).1
    ≢ tables
tables_moved e =
    let some_left : length tables.zones ≡ 0 =
      ap (λ (t : Tables). length t.zones) (sym e) ∙ ap length zone_gone in
    omega arith

serve_panel-MayChange_example :
    (is_slave cfg ≡ false)
    × (cfg.admin.enabled ≡ true)
    × MayConnect parse_cidr parse_ip text_eq (access_of cfg) client
    × MayChange text_eq (account_of cfg) events 7 request
serve_panel-MayChange_example =
    serve_panel-MayChange parse_cidr parse_ip text_eq hostname memory panel system standalone cfg
      events client 7 (changes zone_delete) request tables accepted tables_moved
