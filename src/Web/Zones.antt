-- ===== src/Web/Zones.antt =====
-- internal/web/zones.go: the zones in the panel. url.Parse with Hostname is a parameter.
use namedor.Common.{
  ℕ, ◌+◌, false, Option, none, some, List, [], ◌∷◌, ◌++◌, is_empty, if◌then◌else◌, length,
}
use namedor.Text.{Text, codes, has_suffix, to_lower, trim_space, trim_prefix, before_any}
use namedor.Text.Atoi.{parse_uint32}
use namedor.Names.{dot}
use namedor.Model.{Zone, RrSet}
use namedor.Gorm.{Gorm, Result, ok, err}
use namedor.Web.Request.{Request, param, post_form, query, default_query}
use namedor.Web.Form.{new_zone}
use namedor.Web.Pages.{per_page, page_number, page_offset, paging}
use namedor.Web.Panel.{
  PanelDb, ZoneRow, Reply, blank, message, zones_page, form_page, answer, with_id, done,
}

-- The records of the sets of a zone.
unfoldable pub count_records : List RrSet → ℕ
count_records [] = 0
count_records (rs ∷ sets) = length rs.records + count_records sets

-- The name that createZone stores: with a final dot.
unfoldable pub stored_name : Text → Text
stored_name name = if has_suffix name dot then name else name ++ dot

module _ (parse_hostname : Text → Option Text) where
  abbrev hostname_or : Text → Option Text → Text
  hostname_or s none = s
  hostname_or s (some host) = host

  unfoldable pub clean_zone_search : Text → Text
  clean_zone_search search =
      let s = trim_space search in
      let bare = trim_prefix (trim_prefix s (codes "http://")) (codes "https://") in
      if is_empty s
      then []
      else to_lower
          (before_any (hostname_or bare (parse_hostname (codes "http://" ++ bare))) (codes "/?#"))

  module _ (gorm : Gorm) (panel : PanelDb gorm) where
    open gorm use {Db}

    -- A row counts the records that a second query finds; where that fails there are none.
    abbrev counted : Result Zone → ℕ
    counted (err e) = 0
    counted (ok zone) = count_records zone.rrsets

    unfoldable pub zone_rows : Db → List Zone → List ZoneRow
    unfolding count_records
    zone_rows db [] = []
    zone_rows db (z ∷ zones) =
        record { zone = z; record_count = counted (panel.zone_with_records z.id db) }
        ∷ zone_rows db zones

    -- The page of the zones that the query found.
    unfoldable pub listed_zones : Request → Db → Result (List Zone) → Reply × Db
    unfolding clean_zone_search zone_rows
    listed_zones req db (err e) = answer 500 (message (codes "Error loading zones")) db
    listed_zones req db (ok zones) =
        let page = page_number (default_query (codes "page") (codes "1") req) in
        let search = clean_zone_search (query (codes "search") req) in
        answer 200
          (zones_page search (zone_rows db zones) (paging page (panel.count_zones search db))) db

    unfoldable pub list_zones : Request → Db → Reply × Db
    unfolding listed_zones
    list_zones req db =
        let page = page_number (default_query (codes "page") (codes "1") req) in
        let search = clean_zone_search (query (codes "search") req) in
        listed_zones req db (panel.zones_page search (page_offset page) per_page db)

    unfoldable pub new_zone_form : Db → Reply × Db
    unfolding new_zone
    new_zone_form db = answer 200 (form_page new_zone) db

    unfoldable pub create_zone : Request → Db → Reply × Db
    unfolding list_zones stored_name
    create_zone req db =
        let name = post_form (codes "name") req in
        if is_empty name
        then answer 400 (message (codes "Zone name is required")) db
        else done
            (gorm.create_zone
              (record { id = 0; name = stored_name name; rrsets = []; deleted = false }) db)
            (codes "Error creating zone: %s") (λ _ db'. list_zones req db')

    unfoldable pub delete_zone : Request → Db → Reply × Db
    delete_zone req db = with_id (parse_uint32 (param (codes "id") req)) blank db λ id.
        done (panel.delete_zone_by_id id db) (codes "Error deleting zone")
          (λ _ db'. answer 200 blank db')
