-- ===== src/Web/Routes.antt =====
-- RegisterRoutes of internal/web/admin.go: the routes of the panel but the dashboard and those of the
-- sessions, each with its method, path and handler, behind the checks that the table of routes names:
-- those that change something are behind csrfMiddleware too.
pub mod Laws
pub mod Served
use namedor.Common.{ℕ, Bool, true, false, Option, none, some}
use namedor.Text.{Text, codes}
use namedor.Gorm.{Gorm}
use namedor.Web.Request.{Request, cookie}
use namedor.Web.Sessions.{Session, Sessions, authenticate, Outcome, to_login, handled, checked}
use namedor.Web.Form.{Method, get, post, put, delete}
use namedor.Web.Panel.{PanelDb, Reply}
use namedor.Web.Records.{
  list_records, create_record, new_record_form, edit_record_form, update_record, delete_record,
}
use namedor.Web.Zones.{list_zones, new_zone_form, create_zone, delete_zone}
use namedor.Web.Templates.{
  list_templates, new_template_form, new_template_record_form, create_template, view_template,
  edit_template_form, update_template, delete_template, create_template_record,
  delete_template_record, apply_template_form, apply_template,
}

-- GET
pub data Reading : Type 0 where
  zones zone_new records record_new record_edit : Reading
  templates template_new template_view template_edit template_record_new template_apply : Reading

-- POST, PUT and DELETE
pub data Changing : Type 0 where
  zone_create zone_delete record_create record_update record_delete : Changing
  template_create template_update template_delete : Changing
  template_record_create template_record_delete template_applied : Changing

pub data Route : Type 0 where
  reads : Reading → Route
  changes : Changing → Route

-- gin's patterns, where `:id` stands for a part of the path.
unfoldable pub pattern_of : Route → Method × Text
pattern_of (reads zones) = (get, codes "/admin/zones")
pattern_of (reads zone_new) = (get, codes "/admin/zones/new")
pattern_of (changes zone_create) = (post, codes "/admin/zones")
pattern_of (changes zone_delete) = (delete, codes "/admin/zones/delete/:id")
pattern_of (reads records) = (get, codes "/admin/zones/:id/records")
pattern_of (reads record_new) = (get, codes "/admin/zones/:id/records/new")
pattern_of (changes record_create) = (post, codes "/admin/zones/:id/records")
pattern_of (reads record_edit) = (get, codes "/admin/records/:id/edit")
pattern_of (changes record_update) = (put, codes "/admin/records/:id")
pattern_of (changes record_delete) = (delete, codes "/admin/records/:id")
pattern_of (reads templates) = (get, codes "/admin/templates")
pattern_of (reads template_new) = (get, codes "/admin/templates/new")
pattern_of (changes template_create) = (post, codes "/admin/templates")
pattern_of (reads template_view) = (get, codes "/admin/templates/:id/view")
pattern_of (reads template_edit) = (get, codes "/admin/templates/:id/edit")
pattern_of (changes template_update) = (put, codes "/admin/templates/:id")
pattern_of (changes template_delete) = (delete, codes "/admin/templates/:id")
pattern_of (reads template_record_new) = (get, codes "/admin/templates/:id/records/new")
pattern_of (changes template_record_create) = (post, codes "/admin/templates/:id/records")
pattern_of (changes template_record_delete) = (delete, codes "/admin/templates/records/:id")
pattern_of (reads template_apply) = (get, codes "/admin/templates/:id/apply")
pattern_of (changes template_applied) = (post, codes "/admin/templates/:id/apply")

module _ (parse_hostname : Text → Option Text) (gorm : Gorm) (panel : PanelDb gorm) where
  open gorm use {Db}

  unfoldable pub read_handler : Reading → Request → Db → Reply × Db
  unfolding list_zones new_zone_form list_records new_record_form edit_record_form list_templates
      new_template_form view_template edit_template_form new_template_record_form
      apply_template_form
  read_handler zones = list_zones parse_hostname gorm panel
  read_handler zone_new = λ req. new_zone_form parse_hostname gorm panel
  read_handler records = list_records gorm panel
  read_handler record_new = new_record_form gorm panel
  read_handler record_edit = edit_record_form gorm panel
  read_handler templates = λ req. list_templates gorm panel
  read_handler template_new = λ req. new_template_form gorm panel
  read_handler template_view = view_template gorm panel
  read_handler template_edit = edit_template_form gorm panel
  read_handler template_record_new = new_template_record_form gorm panel
  read_handler template_apply = apply_template_form gorm panel

  unfoldable pub change_handler : Changing → Request → Db → Reply × Db
  change_handler zone_create = create_zone parse_hostname gorm panel
  change_handler zone_delete = delete_zone parse_hostname gorm panel
  change_handler record_create = create_record gorm panel
  change_handler record_update = update_record gorm panel
  change_handler record_delete = delete_record gorm panel
  change_handler template_create = create_template gorm panel
  change_handler template_update = update_template gorm panel
  change_handler template_delete = delete_template gorm panel
  change_handler template_record_create = create_template_record gorm panel
  change_handler template_record_delete = delete_template_record gorm panel
  change_handler template_applied = apply_template gorm panel

  -- Behind authMiddleware.
  unfoldable pub let_in : Route → Request → Option Session → Db → Outcome Reply × Db
  unfolding read_handler change_handler
  let_in (reads r) req none db = (to_login, db)
  let_in (reads r) req (some session) db =
      let (reply, db') = read_handler r req db in (handled reply, db')
  let_in (changes r) req session db = checked req (change_handler r req) session db

  unfoldable pub serve_route : ℕ → Route → Request → Sessions → Db → Outcome Reply × Db × Sessions
  unfolding let_in
  serve_route now r req sessions db =
      let (session, sessions') = authenticate (cookie (codes "session") req) now sessions in
      let (out, db') = let_in r req session db in (out, db', sessions')
