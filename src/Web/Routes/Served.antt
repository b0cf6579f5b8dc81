-- ===== src/Web/Routes/Served.antt =====
-- The panel where it is served: NewServer of internal/server/rest/server.go registers its routes behind
-- the list of networks, and RegisterRoutes of internal/web/admin.go registers none where the panel
-- is not enabled, so that gin finds no route.
use namedor.Common.{
  ℕ, ◌≡◌, ◌≢◌, refl, Bool, true, false, not, Option, some, List, if◌then◌else◌, Bool-cases, inl,
  inr,
}
use namedor.Text.{Text}
use namedor.Net.{Addr, Prefix}
use namedor.Gorm.{Gorm}
use namedor.Config.{Config, System, is_slave, load, loaded}
use namedor.Config.Laws.{load-IsUsable}
use namedor.Rest.Access.{AccessConfig, passes_acl, MayConnect, passes_acl-MayConnect}
use namedor.Web.Request.{Request}
use namedor.Web.Sessions.{Account, Event, Sessions, Outcome, sessions_after}
use namedor.Web.Sessions.Laws.{MayChange}
use namedor.Web.Panel.{PanelDb, Reply}
use namedor.Web.Routes.{Route, serve_route}
use namedor.Web.Routes.Laws.{serve_route-MayChange}

pub data Served : Type 0 where
  denied no_route : Served
  answered : Outcome Reply → Served

-- What the configuration says of the API's access and of the panel's account.
abbrev pub access_of : Config → AccessConfig
access_of cfg = record {
  allowed_cidrs = cfg.allowed_cidrs;
  api_token = cfg.api_token;
  api_token_hash = cfg.api_token_hash;
}

abbrev pub account_of : Config → Account
account_of cfg = record { username = cfg.admin.username; password_hash = cfg.admin.password_hash }

module _ (parse_cidr : Text → Option Prefix) (parse_ip : Text → Option Addr)
    (compare_hash : Text → Text → Bool) (parse_hostname : Text → Option Text) (gorm : Gorm)
    (panel : PanelDb gorm) where
  open gorm use {Db}

  unfoldable pub serve_panel :
      Config → (client : Text) → ℕ → Route → Request → Sessions → Db → Served × Db × Sessions
  unfolding serve_route
  serve_panel cfg client now r req sessions db =
      if not (passes_acl parse_cidr parse_ip compare_hash (access_of cfg) client)
      then (denied, db, sessions)
      else if not cfg.admin.enabled
      then (no_route, db, sessions)
      else let (out, db', sessions') =
          serve_route parse_hostname gorm panel now r req sessions db in
        (answered out, db', sessions')

  module _ (sys : System) (c₀ cfg : Config) where
    enabled-no_slave :
        load sys (some c₀) ≡ loaded cfg → cfg.admin.enabled ≡ true → is_slave cfg ≡ false
    enabled-no_slave h on = elim (Bool-cases (is_slave cfg)) [
      | inl slave ↦ let off = (load-IsUsable sys c₀ cfg h).1 slave in cc
      | inr other ↦ other
    ]

    -- A server whose configuration has been loaded lets a request to its web panel change the database
    -- only if it is no slave, the panel is enabled, the list of networks, where there is one, lets
    -- the client's address in, and, after any log-ins, log-outs and requests, the request's cookie
    -- names a session that was opened with the user name and password of the configuration, has not
    -- been closed since and is at most a day old, it shows the token of that session, and its
    -- Origin and Referer, of which it has at least one, name the host of the request.
    pub serve_panel-MayChange :
        (events : List (Event compare_hash (account_of cfg))) (client : Text) (now : ℕ) (r : Route)
        (req : Request) (db : Db)
        → load sys (some c₀) ≡ loaded cfg
        → (serve_panel cfg client now r req
            (sessions_after compare_hash (account_of cfg) events)
            db).1
          ≢ db
        → (is_slave cfg ≡ false)
          × (cfg.admin.enabled ≡ true)
          × MayConnect parse_cidr parse_ip compare_hash (access_of cfg) client
          × MayChange compare_hash (account_of cfg) events now req
    unfolding serve_panel
    serve_panel-MayChange events client now r req db h moved =
        elim (Bool-cases (passes_acl parse_cidr parse_ip compare_hash (access_of cfg) client)) [
          | inr shut ↦ absurd (moved (rw (shut) refl))
          | inl open_ ↦ elim (Bool-cases cfg.admin.enabled) [
            | inr off ↦ absurd (moved (rw (open_, off) refl))
            | inl on ↦ (
              enabled-no_slave h on,
              on,
              passes_acl-MayConnect parse_cidr parse_ip compare_hash (access_of cfg) client open_,
              serve_route-MayChange parse_hostname gorm panel compare_hash (account_of cfg) events
                  now r req db (rw (open_, on) at moved),
            )
          ]
        ]
