-- ===== src/Web/Routes/Laws.antt =====
-- Who can change the database through the web panel.
use namedor.Common.{ℕ, ◌≡◌, ◌≢◌, refl, Option, none, some, List, Bool}
use namedor.Model.{Zone, Template}
use namedor.Text.{Text, codes}
use namedor.Gorm.{Gorm, Result, ok, err}
use namedor.Web.Request.{Request, cookie}
use namedor.Web.Sessions.{Session, Account, Event, authenticate, sessions_after, route}
use namedor.Web.Sessions.Laws.{MayChange, route-MayChange}
use namedor.Web.Panel.{PanelDb}
use namedor.Web.Panel.Answers.{with_id-All, found-All, Keeps, answer-Keeps}
use namedor.Web.Records.{edit_record_form, new_record_form}
use namedor.Web.Records.Shown.{list_records-Keeps}
use namedor.Web.Zones.{list_zones, new_zone_form, listed_zones}
use namedor.Web.Templates.{
  list_templates, new_template_form, new_template_record_form, listed_templates, view_template,
  edit_template_form, apply_template_form,
}
use namedor.Web.Routes.{
  Reading, zones, zone_new, records, record_new, record_edit, templates, template_new,
  template_view, template_edit, template_record_new, template_apply, Route, reads, changes,
  read_handler, change_handler, let_in, serve_route,
}

module _ (parse_hostname : Text → Option Text) (gorm : Gorm) (panel : PanelDb gorm) where
  open gorm use {Db}

  listed_zones-Keeps :
      (req : Request) (db : Db) (found : Result (List Zone))
      → Keeps db (listed_zones parse_hostname gorm panel req db found)
  unfolding listed_zones
  listed_zones-Keeps req db (err e) = answer-Keeps 500 _ db
  listed_zones-Keeps req db (ok rows) = answer-Keeps 200 _ db

  listed_templates-Keeps :
      (db : Db) (found : Result (List Template)) → Keeps db (listed_templates gorm panel db found)
  listed_templates-Keeps db (err e) = answer-Keeps 500 _ db
  listed_templates-Keeps db (ok rows) = answer-Keeps 200 _ db

  -- No page that is only read changes anything.
  read_handler-Keeps :
      (r : Reading) (req : Request) (db : Db)
      → Keeps db (read_handler parse_hostname gorm panel r req db)
  unfolding read_handler list_zones new_zone_form edit_record_form new_record_form list_templates
      new_template_form view_template edit_template_form new_template_record_form
      apply_template_form
  read_handler-Keeps zones req db = listed_zones-Keeps req db _
  read_handler-Keeps zone_new req db = answer-Keeps 200 _ db
  read_handler-Keeps records req db = list_records-Keeps gorm panel req db
  read_handler-Keeps record_new req db = answer-Keeps 200 _ db
  read_handler-Keeps record_edit req db =
      with_id-All (Keeps db) _ _ db _ (answer-Keeps 400 _ db) λ id.
        found-All (Keeps db) _ _ db _ (answer-Keeps 404 _ db)
          λ r. found-All (Keeps db) _ _ db _ (answer-Keeps 404 _ db) λ rs. answer-Keeps 200 _ db
  read_handler-Keeps templates req db = listed_templates-Keeps db (gorm.find_templates db)
  read_handler-Keeps template_new req db = answer-Keeps 200 _ db
  read_handler-Keeps template_view req db =
      with_id-All (Keeps db) _ _ db _ (answer-Keeps 400 _ db)
        λ id. found-All (Keeps db) _ _ db _ (answer-Keeps 404 _ db) λ t. answer-Keeps 200 _ db
  read_handler-Keeps template_edit req db =
      with_id-All (Keeps db) _ _ db _ (answer-Keeps 400 _ db)
        λ id. found-All (Keeps db) _ _ db _ (answer-Keeps 404 _ db) λ t. answer-Keeps 200 _ db
  read_handler-Keeps template_record_new req db = answer-Keeps 200 _ db
  read_handler-Keeps template_apply req db =
      found-All (Keeps db) _ _ db _ (answer-Keeps 404 _ db)
        λ t. found-All (Keeps db) _ _ db _ (answer-Keeps 404 _ db) λ zone. answer-Keeps 200 _ db

  let_in-reads :
      (r : Reading) (req : Request) (session : Option Session) (db : Db)
      → (let_in parse_hostname gorm panel (reads r) req session db).1 ≡ db
  unfolding let_in Keeps
  let_in-reads r req none db = refl
  let_in-reads r req (some session) db = read_handler-Keeps r req db

  module _ (compare_hash : Text → Text → Bool) (account : Account) where
    -- After any log-ins, log-outs and requests, a request to the web panel, on whichever of its
    -- routes, changes the database only if its cookie names a session that was opened with the user
    -- name and password of the configuration, has not been closed since and is at most a day old, it
    -- shows the token of that session, and its Origin and Referer, of which it has at least one,
    -- name the host of the request.
    pub serve_route-MayChange :
        (events : List (Event compare_hash account)) (now : ℕ) (r : Route) (req : Request) (db : Db)
        → (serve_route parse_hostname gorm panel now r req
            (sessions_after compare_hash account events)
            db).1
          ≢ db
        → MayChange compare_hash account events now req
    unfolding serve_route let_in
    serve_route-MayChange events now (reads r) req db moved = absurd (
        moved (
          let_in-reads r req
            (authenticate (cookie (codes "session") req) now
              (sessions_after compare_hash account events)).0
            db))
    serve_route-MayChange events now (changes r) req db moved =
        route-MayChange compare_hash account events now req
          (change_handler parse_hostname gorm panel r req) db (unfold route in moved)
