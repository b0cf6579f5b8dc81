-- ===== src/Web/Templates.antt =====
-- internal/web/templates_handlers.go: templates of records, and their application to a zone.
pub mod Shown
use namedor.Common.{
  ℕ, Bool, true, false, not, ◌||◌, Option, none, some, List, [], ◌∷◌, ◌++◌, is_empty, if◌then◌else◌,
}
use namedor.Text.{Text, codes, text_eq, has_suffix, trim_suffix, replace_all}
use namedor.Text.Atoi.{parse_uint32, uint32_value}
use namedor.Text.Decimal.{format_nat}
use namedor.Names.{dot, at_sign}
use namedor.Model.{Zone, RrSet, RData, Template, TemplateRecord}
use namedor.Gorm.{Gorm, Result, ok, err}
use namedor.Web.Request.{Request, param, post_form, query}
use namedor.Web.Form.{template_form, apply_form, new_template, new_template_record}
use namedor.Web.Panel.{
  PanelDb, geo_info, Row, Reply, Page, blank, message, redirect, form_page, templates_page,
  template_view, template_edit, template_preview, answer, with_id, found, done, string_ptr,
  append_id,
}
use namedor.Web.Records.{form_ttl, form_asn, find_or_create, list_records}

abbrev pub placeholder : Text
placeholder = codes "{domain}"

-- The domain of a zone, which stands for the placeholder.
unfoldable pub domain_of : Zone → Text
domain_of zone = trim_suffix zone.name dot

unfoldable pub filled : Text → Text → Text
filled domain s = replace_all s placeholder domain

-- A name with its final dot: the one that applyTemplate stores.
unfoldable pub applied_name : Text → Text → Text
unfolding filled
applied_name domain name = let s = filled domain name in if has_suffix s dot then s else s ++ dot

-- The name that applyTemplateForm shows before.
unfoldable pub preview_name : Zone → Text → Text
unfolding filled domain_of
preview_name zone name =
    let s = filled (domain_of zone) name in
    if text_eq s at_sign then zone.name else if has_suffix s dot then s else s ++ dot

unfoldable pub preview_rows : Zone → List TemplateRecord → List Row
unfolding preview_name filled domain_of
preview_rows zone [] = []
preview_rows zone (t ∷ records) =
    record {
      name = preview_name zone t.name;
      type = t.type;
      ttl = t.ttl;
      geo = geo_info none none none none;
      content = filled (domain_of zone) t.content;
      id = t.id;
    }
    ∷ preview_rows zone records

unfoldable pub template_rows : List TemplateRecord → List Row
template_rows [] = []
template_rows (t ∷ records) =
    record {
      name = t.name;
      type = t.type;
      ttl = t.ttl;
      geo = geo_info t.country t.continent t.asn t.subnet;
      content = t.content;
      id = t.id;
    }
    ∷ template_rows records

-- The record of the zone that a record of the template gives.
unfoldable pub applied_record : ℕ → Text → TemplateRecord → RData
unfolding filled
applied_record rr_set_id domain t = record {
  id = 0;
  rr_set_id = rr_set_id;
  content = filled domain t.content;
  country = t.country;
  continent = t.continent;
  asn = t.asn;
  subnet = t.subnet;
  deleted = false;
}

unfoldable pub form_template_record : ℕ → Request → TemplateRecord
unfolding form_ttl form_asn string_ptr
form_template_record template_id req = record {
  id = 0;
  template_id = template_id;
  name = post_form (codes "name") req;
  type = post_form (codes "type") req;
  ttl = form_ttl (post_form (codes "ttl") req);
  content = post_form (codes "data") req;
  country = string_ptr (post_form (codes "country") req);
  continent = string_ptr (post_form (codes "continent") req);
  asn = form_asn (post_form (codes "asn") req);
  subnet = string_ptr (post_form (codes "subnet") req);
  deleted = false;
}

module _ (gorm : Gorm) (panel : PanelDb gorm) where
  open gorm use {Db}

  abbrev bad_template : Page
  bad_template = message (codes "Invalid template ID")

  abbrev no_template : Text
  no_template = codes "Template not found"

  abbrev pub listed_templates : Db → Result (List Template) → Reply × Db
  listed_templates db (err e) = answer 500 (message (codes "Error loading templates")) db
  listed_templates db (ok templates) = answer 200 (templates_page templates) db

  unfoldable pub list_templates : Db → Reply × Db
  list_templates db = listed_templates db (gorm.find_templates db)

  unfoldable pub create_template : Request → Db → Reply × Db
  create_template req db =
      let name = post_form (codes "name") req in
      if is_empty name
      then answer 400 (message (codes "Template name is required")) db
      else done
          (gorm.create_template
            (record {
              id = 0;
              name = name;
              description = post_form (codes "description") req;
              deleted = false;
              records = [];
            })
            db)
          (codes "Error creating template: %s")
          (λ t db'.
            answer 200 (redirect (codes "/admin/templates/" ++ format_nat t.id ++ codes "/edit"))
              db')

  unfoldable pub view_template : Request → Db → Reply × Db
  unfolding template_rows
  view_template req db = with_id (parse_uint32 (param (codes "id") req)) bad_template db λ id.
      found (panel.template_with_records id db) no_template db
        (λ t. answer 200 (template_view t (template_rows t.records)) db)

  unfoldable pub edit_template_form : Request → Db → Reply × Db
  unfolding template_rows template_form
  edit_template_form req db = with_id (parse_uint32 (param (codes "id") req)) bad_template db λ id.
      found (panel.template_with_records id db) no_template db (λ t.
        answer 200
          (template_edit (template_form id t)
            (codes "/admin/templates/" ++ format_nat id ++ codes "/records/new")
            (template_rows t.records))
          db)

  unfoldable pub new_template_form : Db → Reply × Db
  unfolding new_template
  new_template_form db = answer 200 (form_page new_template) db

  unfoldable pub new_template_record_form : Request → Db → Reply × Db
  unfolding new_template_record
  new_template_record_form req db =
      answer 200 (form_page (new_template_record (param (codes "id") req))) db

  unfoldable pub update_template : Request → Db → Reply × Db
  unfolding edit_template_form
  update_template req db = with_id (parse_uint32 (param (codes "id") req)) bad_template db λ id.
      found (panel.template_by_id id db) no_template db λ t.
        if is_empty (post_form (codes "name") req)
        then answer 400 (message (codes "Template name is required")) db
        else done
            (gorm.save_template
              (record t {
                name = post_form (codes "name") req;
                description = post_form (codes "description") req;
              })
              db)
            (codes "Error updating template: %s") (λ _ db'. edit_template_form req db')

  unfoldable pub delete_template : Request → Db → Reply × Db
  delete_template req db = with_id (parse_uint32 (param (codes "id") req)) blank db λ id.
      done (panel.delete_template_by_id id db) (codes "Error deleting template")
        (λ _ db'. answer 200 blank db')

  unfoldable pub create_template_record : Request → Db → Reply × Db
  unfolding form_template_record edit_template_form
  create_template_record req db =
      with_id (parse_uint32 (param (codes "id") req)) bad_template db λ id.
        if is_empty (post_form (codes "name") req)
          || is_empty (post_form (codes "type") req)
          || is_empty (post_form (codes "data") req)
        then answer 400 (message (codes "Name, type, and data are required")) db
        else done (gorm.create_template_record (form_template_record id req) db)
            (codes "Error creating record: %s") (λ _ db'. edit_template_form (append_id id req) db')

  unfoldable pub delete_template_record : Request → Db → Reply × Db
  delete_template_record req db = with_id (parse_uint32 (param (codes "id") req)) blank db λ id.
      done (panel.delete_template_record_by_id id db) (codes "Error deleting record")
        (λ _ db'. answer 200 blank db')

  unfoldable pub apply_template_form : Request → Db → Reply × Db
  unfolding preview_rows apply_form
  apply_template_form req db =
      found (panel.template_with_records (uint32_value (param (codes "id") req)) db) no_template db
        λ t.
          found (panel.zone_by_id (uint32_value (query (codes "zone_id") req)) db)
            (codes "Zone not found") db
            (λ zone.
              answer 200
                (template_preview
                  (apply_form (param (codes "id") req) (query (codes "zone_id") req) t) t zone
                  (preview_rows zone t.records))
                db)

  -- One round of the loop of applyTemplate: what fails is left out.
  abbrev record_added : Text → TemplateRecord → Result RrSet × Db → Db
  record_added domain t (err e, db) = db
  record_added domain t (ok set, db) = (panel.create_record (applied_record set.id domain t) db).1

  unfoldable pub apply_record : ℕ → Text → TemplateRecord → Db → Db
  unfolding applied_name applied_record find_or_create
  apply_record zone_id domain t db =
      record_added domain t
        (find_or_create gorm panel zone_id (applied_name domain t.name) t.type t.ttl db)

  unfoldable pub apply_records : ℕ → Text → List TemplateRecord → Db → Db
  unfolding apply_record
  apply_records zone_id domain [] db = db
  apply_records zone_id domain (t ∷ records) db =
      apply_records zone_id domain records (apply_record zone_id domain t db)

  unfoldable pub apply_template : Request → Db → Reply × Db
  unfolding apply_records domain_of
  apply_template req db = with_id (parse_uint32 (param (codes "id") req)) bad_template db λ id.
      with_id (parse_uint32 (query (codes "zone_id") req)) (message (codes "Invalid zone ID")) db
        λ zone_id. found (panel.template_with_records id db) no_template db λ t.
          found (panel.zone_by_id zone_id db) (codes "Zone not found") db λ zone.
            list_records gorm panel (append_id zone_id req)
              (apply_records zone_id (domain_of zone) t.records db)
