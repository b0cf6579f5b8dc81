-- ===== src/Tests/WebTests.antt =====
-- The web panel at concrete inputs, over a database of two lists and one template.
use namedor.Common.{
  ℕ, ◌≡◌, ◌↔◌, ◌<◌, ◌≤◌, ◌^◌, refl, false, none, [], ◌∷◌, find, filter, not, ◌==◌, length, arith,
  if◌then◌else◌,
}
use namedor.Text.{codes, text_eq, trim_suffix, has_suffix, has_prefix, replace_all, replace_from}
use namedor.Text.Decimal.{format_nat}
use namedor.Text.Atoi.{parse_uint32, parse_max, scan_max}
use namedor.Assoc.{fetch}
use namedor.Model.{Template, TemplateRecord}
use namedor.Gorm.{not_found, ok, err}
use namedor.Tests.Memory.{memory, or_missing, tables, plain_record}
use namedor.Web.Request.{Request, param, query}
use namedor.Web.Panel.{PanelDb, with_id, found, append_id}
use namedor.Web.Records.{form_ttl, list_records, find_or_create}
use namedor.Web.Records.Bounds.{form_ttl_exact_iff}
use namedor.Web.Pages.{total_pages, page_count}
use namedor.Web.Pages.Bounds.{OnPage, page_offset-OnPage}
use namedor.Web.Templates.{
  domain_of, filled, applied_name, apply_template, apply_records, apply_record,
}
use namedor.Web.Templates.Shown.{apply_template-Shows}

abbrev template_record : TemplateRecord
template_record = record {
  id = 1;
  template_id = 1;
  name = codes "mail.{domain}";
  type = codes "A";
  ttl = 3600;
  content = codes "192.0.2.10";
  country = none;
  continent = none;
  asn = none;
  subnet = none;
  deleted = false;
}

abbrev template : Template
template = record {
  id = 1;
  name = codes "Mail Server";
  description = [];
  deleted = false;
  records = template_record ∷ [];
}

abbrev pub panel : PanelDb memory
panel = record {
  zone_by_id = λ id t. or_missing (find (λ z. z.id == id) t.zones);
  zone_with_records = λ id t. or_missing (find (λ z. z.id == id) t.zones);
  count_zones = λ search t. length t.zones;
  zones_page = λ search offset limit t. ok t.zones;
  count_rrsets = λ id f t. length (filter (λ s. s.zone_id == id) t.sets);
  rrsets_page = λ id f offset limit t. ok (filter (λ s. s.zone_id == id) t.sets);
  record_by_id = λ id t. if id == 1 then ok (plain_record (codes "192.0.2.1")) else err not_found;
  rrset_by_id = λ id t. or_missing (find (λ s. s.id == id) t.sets);
  create_record = λ r t. (ok r, t);
  save_record = λ r t. (ok r, t);
  delete_record = λ id t. (ok tt, t);
  delete_zone_by_id = λ id t. (ok tt, record t { zones = filter (λ z. not (z.id == id)) t.zones });
  template_by_id = λ id t. if id == 1 then ok template else err not_found;
  template_with_records = λ id t. if id == 1 then ok template else err not_found;
  delete_template_by_id = λ id t. (ok tt, t);
  delete_template_record_by_id = λ id t. (ok tt, t);
}

form_ttl_exact_iff_example :
    (form_ttl (codes "-7") < 2 ^ 32)
    × ((form_ttl (format_nat 4294967296) ≡ 4294967296) ↔ ((0 < 4294967296) × (4294967296 < 2 ^ 32)))
form_ttl_exact_iff_example = form_ttl_exact_iff (codes "-7") 4294967296 (omega arith)

page_offset-OnPage_example :
    (page : ℕ) × ((1 ≤ page) × (page ≤ page_count (total_pages 61)) × OnPage 60 page)
    × ((other : ℕ)
        → 1 ≤ other
        → other ≤ page_count (total_pages 61)
        → OnPage 60 other
        → other ≡ page)
page_offset-OnPage_example = page_offset-OnPage 61 60 (omega arith) (omega arith)

-- Template 1 is applied to zone 1.
abbrev apply_request : Request
apply_request = record {
  params = (codes "id", codes "1") ∷ [];
  query = (codes "zone_id", codes "1") ∷ [];
  form = [];
  headers = [];
  cookies = [];
  host = codes "panel.example.org";
}

applied : (apply_template memory panel apply_request tables).0.status ≡ 200
unfolding apply_template apply_records apply_record applied_name filled domain_of list_records
    with_id found param query fetch parse_uint32 parse_max scan_max text_eq find_or_create
    replace_all replace_from has_prefix trim_suffix append_id has_suffix
applied = refl

apply_template-Shows_example :
    (apply_template memory panel apply_request tables).0
    ≡ (list_records memory panel apply_request
        (apply_template memory panel apply_request tables).1).0
apply_template-Shows_example =
    apply_template-Shows memory panel apply_request (codes "1") tables
      (unfold fetch text_eq in refl) applied
