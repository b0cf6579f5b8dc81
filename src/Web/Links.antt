-- ===== src/Web/Links.antt =====
-- Where the forms and buttons of the pages of internal/web lead: the method and the address of each,
-- in the order of the page. url.QueryEscape is a parameter. The selector of templates, which a script
-- of dashboard.html makes, is left out.
pub mod Reached
pub mod Answered
use namedor.Common.{
  ℕ, ◌+◌, ◌-◌, Bool, true, false, Option, none, some, List, [], ◌∷◌, ◌++◌, map, if◌then◌else◌,
}
use namedor.Text.{Text, codes}
use namedor.Text.Decimal.{format_nat}
use namedor.Model.{Template}
use namedor.Web.Form.{Method, get, delete, Form}
use namedor.Web.Pages.{Link, current, button, dots, Paging}
use namedor.Web.Panel.{
  SetFilter, Row, ZoneRow, Page, blank, message, redirect, records_page, zones_page, form_page,
  templates_page, template_view, template_edit, template_preview,
}

abbrev pub Action : Type 0
Action = Method × Text

abbrev pub records_url : ℕ → Text
records_url zone_id = codes "/admin/zones/" ++ format_nat zone_id ++ codes "/records"

-- The buttons of the row of page links.
unfoldable pub buttons : List Link → List ℕ
buttons [] = []
buttons (current n ∷ links) = buttons links
buttons (button n ∷ links) = n ∷ buttons links
buttons (dots ∷ links) = buttons links

unfoldable pub linked_pages : Paging → List ℕ
unfolding buttons
linked_pages p =
    (if p.previous then (p.page - 1) ∷ [] else [])
    ++ (buttons p.links ++ (if p.next then (p.page + 1) ∷ [] else []))

-- The buttons and the form above the list of the records, and above the list of the zones.
unfoldable pub above_records : ℕ → List Action
above_records zone_id =
    (get, codes "/admin/zones")
    ∷ (get, codes "/admin/zones/" ++ format_nat zone_id ++ codes "/records/new")
    ∷ (get, records_url zone_id)
    ∷ (get, records_url zone_id)
    ∷ []

unfoldable pub above_zones : List Action
above_zones = (get, codes "/admin/zones") ∷ (get, codes "/admin/zones") ∷ []

unfoldable pub record_actions : Row → List Action
record_actions r =
    (get, codes "/admin/records/" ++ format_nat r.id ++ codes "/edit")
    ∷ (delete, codes "/admin/records/" ++ format_nat r.id)
    ∷ []

unfoldable pub zone_actions : ZoneRow → List Action
zone_actions r =
    (get, records_url r.zone.id)
    ∷ (delete, codes "/admin/zones/delete/" ++ format_nat r.zone.id)
    ∷ []

unfoldable pub template_actions : Template → List Action
template_actions t =
    (get, codes "/admin/templates/" ++ format_nat t.id ++ codes "/view")
    ∷ (get, codes "/admin/templates/" ++ format_nat t.id ++ codes "/edit")
    ∷ (delete, codes "/admin/templates/" ++ format_nat t.id)
    ∷ []

unfoldable pub template_record_actions : Row → List Action
template_record_actions r = (delete, codes "/admin/templates/records/" ++ format_nat r.id) ∷ []

abbrev below_action : Option Text → List Action
below_action none = []
below_action (some url) = (get, url) ∷ []

unfoldable pub form_actions : Form → List Action
form_actions f = (f.method, f.action) ∷ (get, f.cancel) ∷ below_action f.below

-- The actions of all rows.
unfoldable pub of_rows : {A : Type 0} → (A → List Action) → List A → List Action
of_rows f [] = []
of_rows f (a ∷ rows) = f a ++ of_rows f rows

module _ (escape : Text → Text) where
  unfoldable pub records_link : ℕ → SetFilter → ℕ → Action
  records_link zone_id filter n = (
    get,
    records_url zone_id
        ++ (codes "?page="
            ++ (format_nat n
                ++ (codes "&search="
                    ++ (escape filter.search ++ (codes "&type=" ++ escape filter.type))))),
  )

  unfoldable pub zones_link : (search : Text) → ℕ → Action
  zones_link search n =
      (get, codes "/admin/zones?page=" ++ (format_nat n ++ (codes "&search=" ++ escape search)))

  unfoldable pub actions : Page → List Action
  unfolding above_records above_zones of_rows record_actions zone_actions template_actions
      template_record_actions form_actions linked_pages records_link zones_link
  actions blank = []
  actions (message key) = []
  actions (redirect url) = (get, url) ∷ []
  actions (records_page zone_id zone filter rows paging) =
      above_records zone_id
      ++ (of_rows record_actions rows ++ map (records_link zone_id filter) (linked_pages paging))
  actions (zones_page search rows paging) =
      above_zones ++ (of_rows zone_actions rows ++ map (zones_link search) (linked_pages paging))
  actions (form_page form) = form_actions form
  actions (templates_page templates) = of_rows template_actions templates
  actions (template_view t rows) = (get, codes "/admin/templates") ∷ []
  actions (template_edit form add rows) =
      form_actions form ++ (get, add) ∷ of_rows template_record_actions rows
  actions (template_preview form t zone rows) = form_actions form
