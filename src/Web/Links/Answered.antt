-- ===== src/Web/Links/Answered.antt =====
-- The actions of whatever the routes of the panel answer.
use namedor.Common.{
  Bool, true, false, if◌then◌else◌, ◌==◌, refl, ℕ, List, ◌++◌, All, All-append, Option, Bool-cases,
  inl, inr,
}
use namedor.Text.{Text, codes, replace_all, replace_from, has_prefix}
use namedor.Text.Atoi.{uint32_value}
use namedor.Text.Decimal.{format_nat}
use namedor.Model.{Zone, RrSet, RData, Template}
use namedor.Gorm.{Gorm, Result, ok, err}
use namedor.Web.Request.{Request, param, query, post_form}
use namedor.Web.Form.{Form, get}
use namedor.Web.Pages.{Paging}
use namedor.Web.Panel.{
  SetFilter, Row, ZoneRow, PanelDb, Reply, Page, answer, with_id, found, done, form_page,
  template_edit, records_page, zones_page, templates_page, message, blank,
}
use namedor.Web.Panel.Answers.{with_id-All, found-All, done-All}
use namedor.Web.Records.{
  listed, list_in, list_records, new_record_form, edit_record_form, add_in, create_record,
  update_ttl, form_ttl, update_in, update_record, delete_record,
}
use namedor.Web.Zones.{listed_zones, list_zones, new_zone_form, create_zone, delete_zone}
use namedor.Web.Templates.{
  listed_templates, list_templates, new_template_form, new_template_record_form, create_template,
  view_template, edit_template_form, update_template, delete_template, create_template_record,
  delete_template_record, apply_template_form, apply_template,
}
use namedor.Web.Routes.{
  Route, reads, changes, pattern_of, read_handler, change_handler, Reading, Changing, zones,
  zone_new, records, record_new, record_edit, templates, template_new, template_view, template_edit,
  template_record_new, template_apply, zone_create, zone_delete, record_create, record_update,
  record_delete, template_create, template_update, template_delete, template_record_create,
  template_record_delete, template_applied,
}
use namedor.Web.Links.{
  above_records, above_zones, records_link, zones_link, linked_pages, actions, record_actions,
  zone_actions, template_actions, template_record_actions, of_rows, form_actions,
}
use namedor.Web.Links.Reached.{
  IsPart, Reaches, fill, at_number, All-of_rows, All-linked, record_actions-All, zone_actions-All,
  template_actions-All, template_record_actions-All, edit_form-All, new_record-All, new_zone-All,
  new_template-All, template_form-All, new_template_record-All, apply_form-All,
  records_link-Reaches, zones_link-Reaches,
}

module _ (escape : Text → Text) where
  -- Every form and button of the page leads to a route.
  unfoldable pub Leads : {Db : Type 0} → Reply × Db → Type 0
  Leads out = All Reaches (actions escape out.0.page)

  answer-Leads :
      {Db : Type 0} (status : ℕ) (page : Page) (db : Db)
      → All Reaches (actions escape page)
      → Leads (answer status page db)
  unfolding Leads
  answer-Leads status page db h = h

  records_page-All :
      (zone_id : ℕ) (zone : Zone) (filter : SetFilter) (rows : List Row) (paging : Paging)
      → All Reaches (actions escape (records_page zone_id zone filter rows paging))
  unfolding actions above_records above_zones fill replace_all replace_from has_prefix pattern_of
  records_page-All zone_id zone filter rows paging =
      let back = at_number (reads zones) 0 _ refl in
      let list = at_number (reads records) zone_id _ refl in
      (
        back,
        (
          at_number (reads record_new) zone_id _ refl,
          (
            list,
            (
              list,
              All-append Reaches (of_rows record_actions rows) _
                  (All-of_rows record_actions record_actions-All rows)
                  (All-linked (records_link escape zone_id filter)
                    (records_link-Reaches escape zone_id filter) (linked_pages paging)),
            ),
          ),
        ),
      )

  zones_page-All :
      (search : Text) (rows : List ZoneRow) (paging : Paging)
      → All Reaches (actions escape (zones_page search rows paging))
  unfolding actions above_records above_zones fill replace_all replace_from has_prefix pattern_of
  zones_page-All text rows paging =
      let list = at_number (reads zones) 0 _ refl in
      (
        list,
        (
          list,
          All-append Reaches (of_rows zone_actions rows) _
              (All-of_rows zone_actions zone_actions-All rows)
              (All-linked (zones_link escape text) (zones_link-Reaches escape text)
                (linked_pages paging)),
        ),
      )

  template_edit-All :
      (form : Form) (id : ℕ) (rows : List Row)
      → All Reaches (form_actions form)
      → All Reaches (
          actions escape (
            template_edit form
              (codes "/admin/templates/" ++ format_nat id ++ codes "/records/new")
              rows))
  unfolding actions fill replace_all replace_from has_prefix pattern_of
  template_edit-All form id rows h = All-append Reaches (form_actions form) _ h (
    at_number (reads template_record_new) id _ refl,
    All-of_rows template_record_actions template_record_actions-All rows,
  )

  templates_url : Reaches (get, codes "/admin/templates")
  unfolding fill replace_all replace_from has_prefix pattern_of
  templates_url = at_number (reads templates) 0 _ refl

  edit_url : (id : ℕ) → Reaches (get, codes "/admin/templates/" ++ format_nat id ++ codes "/edit")
  unfolding fill replace_all replace_from has_prefix pattern_of
  edit_url id = at_number (reads template_edit) id _ refl

  module _ (parse_hostname : Text → Option Text) (gorm : Gorm) (panel : PanelDb gorm) where
    open gorm use {Db}

    message-Leads : (status : ℕ) (key : Text) (db : Db) → Leads (answer status (message key) db)
    unfolding Leads actions
    message-Leads status key db = tt

    blank-Leads : (status : ℕ) (db : Db) → Leads (answer status blank db)
    unfolding Leads actions
    blank-Leads status db = tt

    form-Leads :
        (form : Form) (db : Db)
        → All Reaches (form_actions form)
        → Leads (answer 200 (form_page form) db)
    unfolding Leads actions
    form-Leads form db h = h

    -- A handler that reads a number in the path and a row.
    found-Leads :
        {A : Type 0} (o : Result A) (key : Text) (db : Db) (next : A → Reply × Db)
        → ((a : A) → Leads (next a))
        → Leads (found o key db next)
    found-Leads o key db next h = found-All Leads o key db next (message-Leads 404 key db) h

    numbered-Leads :
        (o : Option ℕ) (key : Text) (db : Db) (next : ℕ → Reply × Db)
        → ((id : ℕ) → Leads (next id))
        → Leads (with_id o (message key) db next)
    numbered-Leads o key db next h =
        with_id-All Leads o (message key) db next (message-Leads 400 key db) h

    done-Leads :
        {A : Type 0} (o : Result A × Db) (key : Text) (next : A → Db → Reply × Db)
        → ((a : A) (db : Db) → Leads (next a db))
        → Leads (done o key next)
    done-Leads o key next h = done-All Leads o key next (message-Leads 500 key) h

    listed-Leads :
        (req : Request) (zone_id : ℕ) (db : Db) (zone : Zone) (sets : Result (List RrSet))
        → Leads (listed gorm panel req zone_id db zone sets)
    unfolding listed
    listed-Leads req zone_id db zone (err e) = message-Leads 500 _ db
    listed-Leads req zone_id db zone (ok sets) =
        answer-Leads 200 _ db (records_page-All zone_id zone _ _ _)

    list_records-Leads : (req : Request) (db : Db) → Leads (list_records gorm panel req db)
    unfolding list_records list_in
    list_records-Leads req db =
        numbered-Leads _ _ db _
          λ zone_id. found-Leads _ _ db _ λ zone. listed-Leads req zone_id db zone _

    listed_zones-Leads :
        (req : Request) (db : Db) (zones : Result (List Zone))
        → Leads (listed_zones parse_hostname gorm panel req db zones)
    unfolding listed_zones
    listed_zones-Leads req db (err e) = message-Leads 500 _ db
    listed_zones-Leads req db (ok found) = answer-Leads 200 _ db (zones_page-All _ _ _)

    listed_templates-Leads :
        (db : Db) (found : Result (List Template)) → Leads (listed_templates gorm panel db found)
    unfolding actions
    listed_templates-Leads db (err e) = message-Leads 500 _ db
    listed_templates-Leads db (ok rows) =
        answer-Leads 200 (templates_page rows) db
          (All-of_rows template_actions template_actions-All rows)

    edit_template_form-Leads :
        (req : Request) (db : Db) → Leads (edit_template_form gorm panel req db)
    unfolding edit_template_form
    edit_template_form-Leads req db = numbered-Leads _ _ db _ λ id.
        found-Leads _ _ db _
          λ t. answer-Leads 200 _ db (template_edit-All _ id _ (template_form-All id t))

    update_ttl-Leads :
        (ttl : ℕ) (req : Request) (set : Result RrSet) (db : Db)
        → Leads (update_ttl gorm panel ttl req set db)
    unfolding update_ttl
    update_ttl-Leads ttl req (err e) db = list_records-Leads _ db
    update_ttl-Leads ttl req (ok set) db = elim (Bool-cases (ttl == set.ttl)) [
      | inl e ↦ rw (e) (list_records-Leads _ db)
      | inr e ↦ rw (e) (done-Leads _ _ _ λ a db'. list_records-Leads _ db')
    ]

    save_or_refuse :
        (b : Bool) (key : Text) (db : Db) (out : Reply × Db)
        → Leads out
        → Leads (if b then answer 400 (message key) db else out)
    save_or_refuse true key db out h = message-Leads 400 key db
    save_or_refuse false key db out h = h

    list_zones-Leads :
        (req : Request) (db : Db) → Leads (list_zones parse_hostname gorm panel req db)
    unfolding list_zones
    list_zones-Leads req db = listed_zones-Leads req db _

    update_in-Leads : (req : Request) (db : Db) (r : RData) → Leads (update_in gorm panel req db r)
    unfolding update_in
    update_in-Leads req db r = save_or_refuse _ _ db _ (
        done-Leads _ _ _ λ a db'.
          update_ttl-Leads (form_ttl (post_form (codes "ttl") req)) req
            (panel.rrset_by_id (uint32_value (post_form (codes "rrset_id") req)) db') db')

    add_in-Leads :
        (req : Request) (zone_id : ℕ) (db : Db) (zone : Zone)
        → Leads (add_in gorm panel req zone_id db zone)
    unfolding add_in
    add_in-Leads req zone_id db zone =
        save_or_refuse _ _ db _
          (done-Leads _ _ _ λ set db'. done-Leads _ _ _ λ r db''. list_records-Leads _ db'')

    deleted-Leads :
        (id : Option ℕ) (remove : ℕ → Result (Unit {0}) × Db) (key : Text) (db : Db)
        → Leads (with_id id blank db λ n. done (remove n) key (λ _ db'. answer 200 blank db'))
    deleted-Leads id remove key db =
        with_id-All Leads id blank db _ (blank-Leads 400 db)
          λ n. done-Leads (remove n) key _ λ _ db'. blank-Leads 200 db'

    -- What gin has matched: the number of the path, which the forms of new records put into their
    -- addresses, is a part of a path. The form that applies a template does this with the zone of the
    -- query too.
    abbrev pub Matched : Route → Request → Type 0
    Matched (reads record_new) req = IsPart (param (codes "id") req)
    Matched (reads template_record_new) req = IsPart (param (codes "id") req)
    Matched (reads template_apply) req =
        IsPart (param (codes "id") req) × IsPart (query (codes "zone_id") req)
    Matched r req = Unit

    -- The handler behind the checks of the route.
    abbrev pub handler : Route → Request → Db → Reply × Db
    handler (reads r) = read_handler parse_hostname gorm panel r
    handler (changes r) = change_handler parse_hostname gorm panel r

    read_handler-Leads :
        (r : Reading) (req : Request) (db : Db)
        → Matched (reads r) req
        → Leads (read_handler parse_hostname gorm panel r req db)
    unfolding read_handler list_zones new_zone_form edit_record_form new_record_form list_templates
        new_template_form view_template new_template_record_form apply_template_form actions
    read_handler-Leads zones req db h = list_zones-Leads req db
    read_handler-Leads zone_new req db h = form-Leads _ db new_zone-All
    read_handler-Leads records req db h = list_records-Leads req db
    read_handler-Leads record_new req db h = form-Leads _ db (new_record-All _ h)
    read_handler-Leads record_edit req db h = numbered-Leads _ _ db _ λ id.
        found-Leads _ _ db _ λ r. found-Leads _ _ db _ λ rs. form-Leads _ db (edit_form-All id r rs)
    read_handler-Leads templates req db h = listed_templates-Leads db _
    read_handler-Leads template_new req db h = form-Leads _ db new_template-All
    read_handler-Leads template_view req db h =
        numbered-Leads _ _ db _
          λ id. found-Leads _ _ db _ λ t. answer-Leads 200 _ db (templates_url, tt)
    read_handler-Leads template_edit req db h = edit_template_form-Leads req db
    read_handler-Leads template_record_new req db h = form-Leads _ db (new_template_record-All _ h)
    read_handler-Leads template_apply req db (h, k) =
        found-Leads _ _ db _
          λ t. found-Leads _ _ db _ λ zone. answer-Leads 200 _ db (apply_form-All _ _ t h k)

    change_handler-Leads :
        (r : Changing) (req : Request) (db : Db)
        → Leads (change_handler parse_hostname gorm panel r req db)
    unfolding change_handler create_zone delete_zone create_record update_record delete_record
        create_template update_template delete_template create_template_record
        delete_template_record apply_template actions
    change_handler-Leads zone_create req db =
        save_or_refuse _ _ db _ (done-Leads _ _ _ λ z db'. list_zones-Leads req db')
    change_handler-Leads zone_delete req db = deleted-Leads _ _ _ db
    change_handler-Leads record_create req db =
        numbered-Leads _ _ db _
          λ zone_id. found-Leads _ _ db _ λ zone. add_in-Leads req zone_id db zone
    change_handler-Leads record_update req db =
        numbered-Leads _ _ db _ λ id. found-Leads _ _ db _ λ r. update_in-Leads req db r
    change_handler-Leads record_delete req db = deleted-Leads _ _ _ db
    change_handler-Leads template_create req db =
        save_or_refuse _ _ db _
          (done-Leads _ _ _ λ t db'. answer-Leads 200 _ db' (edit_url t.id, tt))
    change_handler-Leads template_update req db = numbered-Leads _ _ db _ λ id.
        found-Leads _ _ db _
          λ t. save_or_refuse _ _ db _ (done-Leads _ _ _ λ u db'. edit_template_form-Leads req db')
    change_handler-Leads template_delete req db = deleted-Leads _ _ _ db
    change_handler-Leads template_record_create req db =
        numbered-Leads _ _ db _
          λ id. save_or_refuse _ _ db _ (done-Leads _ _ _ λ u db'. edit_template_form-Leads _ db')
    change_handler-Leads template_record_delete req db = deleted-Leads _ _ _ db
    change_handler-Leads template_applied req db = numbered-Leads _ _ db _ λ id.
        numbered-Leads _ _ db _
          λ zone_id. found-Leads _ _ db _ λ t. found-Leads _ _ db _ λ zone. list_records-Leads _ _

    -- No page of the panel has a dead link: whatever a route answers, every form, button and redirection
    -- of its page has the method and the address of a route in the table, the parts of the path
    -- being numbers or, for the forms of new records and the one that applies a template, parts of
    -- the request. For these three pages the request's number, and the zone of the query, are not
    -- empty and have no slash or question mark.
    pub handler-Leads :
        (r : Route) (req : Request) (db : Db) → Matched r req → Leads (handler r req db)
    handler-Leads (reads r) req db h = read_handler-Leads r req db h
    handler-Leads (changes r) req db h = change_handler-Leads r req db
