-- ===== src/Web/Records.antt =====
-- internal/web/records.go and records_edit.go: the records of a zone in the panel.
pub mod Bounds
pub mod Shown
pub mod Unchanged
use namedor.Common.{
  ℕ, zero, suc, ◌+◌, ◌^◌, ◌%◌, ℤ, pos, negsuc, Bool, true, false, not, ◌&&◌, ◌||◌, Option, none,
  some, List, [], ◌∷◌, ◌++◌, is_empty, if◌then◌else◌, map, ◌==◌,
}
use namedor.Text.{Text, codes, text_eq, to_upper, trim_space, equal_fold}
use namedor.Text.Atoi.{atoi, parse_uint32, uint32_value}
use namedor.Names.{to_fqdn, at_sign}
use namedor.Model.{Zone, RrSet, RData}
use namedor.Gorm.{Gorm, Result, ok, err}
use namedor.Web.Request.{Request, param, post_form, query, default_query}
use namedor.Web.Form.{edit_form, new_record}
use namedor.Web.Pages.{per_page, page_number, page_offset, paging}
use namedor.Web.Panel.{
  PanelDb, SetFilter, geo_info, Row, Reply, Page, blank, message, records_page, form_page, answer,
  with_id, found, done, string_ptr, int_ptr, append_id,
}

-- The TTL of a form, as it is stored: `uint32(ttl)` of what Atoi returns, or 300.
unfoldable pub ttl_of : ℤ → ℕ
ttl_of (pos zero) = 300
ttl_of (pos (suc n)) = suc n % 2 ^ 32
ttl_of (negsuc n) = 300

unfoldable pub form_ttl : Text → ℕ
unfolding ttl_of
form_ttl s = ttl_of (atoi s)

unfoldable pub form_asn : Text → Option ℤ
unfolding int_ptr
form_asn s = if is_empty s then none else int_ptr (atoi s)

-- "@" in the data of a CNAME is the apex of the zone.
unfoldable pub record_data : Text → Text → Text → Text
record_data type zone content =
    if equal_fold type (codes "CNAME") && text_eq (trim_space content) at_sign
    then to_fqdn at_sign zone
    else content

unfoldable pub record_rows : RrSet → List RData → List Row
record_rows rs [] = []
record_rows rs (r ∷ records) =
    record {
      name = rs.name;
      type = rs.type;
      ttl = rs.ttl;
      geo = geo_info r.country r.continent r.asn r.subnet;
      content = r.content;
      id = r.id;
    }
    ∷ record_rows rs records

unfoldable pub set_rows : List RrSet → List Row
unfolding record_rows
set_rows [] = []
set_rows (rs ∷ sets) = record_rows rs rs.records ++ set_rows sets

-- The filter as it is used: the type "ALL" is none.
unfoldable pub set_filter : Request → SetFilter
set_filter req =
    let type = to_upper (trim_space (query (codes "type") req)) in
    record {
      search = trim_space (query (codes "search") req);
      type = if text_eq type (codes "ALL") then [] else type;
    }

-- A record of a form.
unfoldable pub form_record : ℕ → Text → Request → RData
unfolding form_asn string_ptr
form_record rr_set_id content req = record {
  id = 0;
  rr_set_id = rr_set_id;
  content = content;
  country = string_ptr (post_form (codes "country") req);
  continent = string_ptr (post_form (codes "continent") req);
  asn = form_asn (post_form (codes "asn") req);
  subnet = string_ptr (post_form (codes "subnet") req);
  deleted = false;
}

module _ (gorm : Gorm) (panel : PanelDb gorm) where
  open gorm use {Db}

  -- The page of the sets that the query found.
  unfoldable pub listed : Request → ℕ → Db → Zone → Result (List RrSet) → Reply × Db
  unfolding set_filter set_rows
  listed req zone_id db zone (err e) = answer 500 (message (codes "Error loading records")) db
  listed req zone_id db zone (ok sets) =
      let page = page_number (default_query (codes "page") (codes "1") req) in
      let filter = set_filter req in
      answer 200
        (records_page zone_id zone filter (set_rows sets)
          (paging page (panel.count_rrsets zone_id filter db)))
        db

  unfoldable pub list_in : Request → ℕ → Db → Zone → Reply × Db
  unfolding listed
  list_in req zone_id db zone =
      let page = page_number (default_query (codes "page") (codes "1") req) in
      listed req zone_id db zone
        (panel.rrsets_page zone_id (set_filter req) (page_offset page) per_page db)

  unfoldable pub list_records : Request → Db → Reply × Db
  unfolding list_in
  list_records req db =
      with_id (parse_uint32 (param (codes "id") req)) (message (codes "Invalid zone ID")) db
        λ zone_id.
          found (panel.zone_by_id zone_id db) (codes "Zone not found") db (list_in req zone_id db)

  -- The set of that name and type, made where it cannot be read.
  unfoldable pub find_or_create : ℕ → Text → Text → ℕ → Db → Result RrSet × Db
  find_or_create zone_id name type ttl db = elim (gorm.first_rrset zone_id name type db) [
    | ok set ↦ (ok set, db)
    | err e ↦
        gorm.create_rrset
          (record {
            id = 0;
            zone_id = zone_id;
            name = name;
            type = type;
            ttl = ttl;
            records = [];
            deleted = false;
          })
          db
  ]

  unfoldable pub add_in : Request → ℕ → Db → Zone → Reply × Db
  unfolding find_or_create record_data form_record form_ttl
  add_in req zone_id db zone =
      let name = post_form (codes "name") req in
      let type = to_upper (post_form (codes "type") req) in
      let content = post_form (codes "data") req in
      if is_empty name || is_empty type || is_empty content
      then answer 400 (message (codes "Name, type, and data are required")) db
      else done
          (find_or_create zone_id (to_fqdn name zone.name) type
            (form_ttl (post_form (codes "ttl") req)) db)
          (codes "Error creating record set: %s")
          λ set db'.
            done
              (panel.create_record (form_record set.id (record_data type zone.name content) req)
                db')
              (codes "Error creating record: %s")
              (λ _ db''. list_records (append_id zone_id req) db'')

  unfoldable pub create_record : Request → Db → Reply × Db
  unfolding add_in
  create_record req db =
      with_id (parse_uint32 (param (codes "id") req)) (message (codes "Invalid zone ID")) db
        λ zone_id.
          found (panel.zone_by_id zone_id db) (codes "Zone not found") db (add_in req zone_id db)

  unfoldable pub delete_record : Request → Db → Reply × Db
  delete_record req db = with_id (parse_uint32 (param (codes "id") req)) blank db λ id.
      done (panel.delete_record id db) (codes "Error deleting record")
        (λ _ db'. answer 200 blank db')

  unfoldable pub edit_record_form : Request → Db → Reply × Db
  unfolding edit_form
  edit_record_form req db =
      with_id (parse_uint32 (param (codes "id") req)) (message (codes "Invalid record ID")) db λ id.
        found (panel.record_by_id id db) (codes "Record not found") db λ r.
          found (panel.rrset_by_id r.rr_set_id db) (codes "RRSet not found") db
            λ rs. answer 200 (form_page (edit_form id r rs)) db

  unfoldable pub new_record_form : Request → Db → Reply × Db
  unfolding new_record
  new_record_form req db = answer 200 (form_page (new_record (param (codes "id") req))) db

  -- The data of an update: for a CNAME, "@" is the apex of the set's zone, where that can be read.
  unfoldable pub updated_data : Result RrSet → Text → Db → Text
  updated_data (err e) content db = content
  updated_data (ok set) content db =
      if equal_fold set.type (codes "CNAME") && text_eq (trim_space content) at_sign
      then elim (panel.zone_by_id set.zone_id db) [
        | err e ↦ content
        | ok zone ↦ to_fqdn at_sign zone.name
      ]
      else content

  -- The end of updateRecord: the TTL of the set that the form names.
  unfoldable pub update_ttl : ℕ → Request → Result RrSet → Db → Reply × Db
  update_ttl ttl req (err e) db =
      list_records (append_id (uint32_value (post_form (codes "zone_id") req)) req) db
  update_ttl ttl req (ok set) db =
      if ttl == set.ttl
      then list_records (append_id (uint32_value (post_form (codes "zone_id") req)) req) db
      else done (gorm.save_rrset (record set { ttl = ttl }) db) (codes "Error updating TTL: %s")
          (λ _ db'.
            list_records (append_id (uint32_value (post_form (codes "zone_id") req)) req) db')

  unfoldable pub update_in : Request → Db → RData → Reply × Db
  unfolding updated_data update_ttl form_record form_ttl
  update_in req db r =
      let content = post_form (codes "data") req in
      let set_id = uint32_value (post_form (codes "rrset_id") req) in
      if is_empty content
      then answer 400 (message (codes "Data is required")) db
      else done
          (panel.save_record
            (record (form_record r.rr_set_id (updated_data (panel.rrset_by_id set_id db) content db)
              req) { id = r.id; deleted = r.deleted })
            db)
          (codes "Error updating record: %s")
          (λ _ db'.
            update_ttl (form_ttl (post_form (codes "ttl") req)) req (panel.rrset_by_id set_id db')
              db')

  unfoldable pub update_record : Request → Db → Reply × Db
  unfolding update_in
  update_record req db =
      with_id (parse_uint32 (param (codes "id") req)) (message (codes "Invalid record ID")) db
        λ id. found (panel.record_by_id id db) (codes "Record not found") db (update_in req db)
