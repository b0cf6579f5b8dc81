-- ===== src/Web/Records/Unchanged.antt =====
-- The form of a record that is posted as it was shown.
use namedor.Common.{
  ℕ, ap, sym, ◌∙◌, ◌≤◌, ◌<◌, ◌^◌, ◌≡◌, refl, true, false, ◌&&◌, arith, ℤ, zero, suc, is_empty, ◌==◌,
}
use namedor.Text.{Text, codes, text_eq, equal_fold, trim_space}
use namedor.Text.Decimal.{format_nat, format_int, IsInt64, format_int-IsWord}
use namedor.Text.Atoi.{
  atoi-format_nat, atoi-format_int, uint32_value, uint32_value-format_nat, parse_uint32-format_nat,
  max_uint32,
}
use namedor.Assoc.{fetch}
use namedor.Names.{at_sign}
use namedor.Model.{RrSet, RData}
use namedor.Gorm.{Gorm, ok}
use namedor.Web.Request.{Request, param, post_form}
use namedor.Web.Form.{edit_form, geo_fields, unchanged, posted, text_or_empty, int_or_0}
use namedor.Web.Panel.{
  PanelDb, Reply, done, form_page, answer, with_id, found, append_id, string_ptr, int_ptr,
}
use namedor.Web.Panel.Answers.{done_cong}
use namedor.Web.Records.{
  edit_record_form, list_records, update_record, update_in, update_ttl, updated_data, form_record,
  form_ttl, ttl_of, form_asn,
}

-- What the form saves of a record: a pointer to nothing becomes no pointer.
unfoldable pub normal : RData → RData
normal r = record r {
  country = string_ptr (text_or_empty r.country);
  continent = string_ptr (text_or_empty r.continent);
  asn = int_ptr (int_or_0 r.asn);
  subnet = string_ptr (text_or_empty r.subnet);
}

-- The numbers are in the ranges of their columns, and there is data, but no "@" for a CNAME.
abbrev pub IsEditable : ℕ → RData → RrSet → Type 0
IsEditable id r rs =
    (id ≤ max_uint32)
    × (rs.id ≤ max_uint32)
    × (rs.zone_id ≤ max_uint32)
    × (0 < rs.ttl)
    × (rs.ttl < 2 ^ 32)
    × IsInt64 (int_or_0 r.asn)
    × (is_empty r.content ≡ false)
    × ((equal_fold rs.type (codes "CNAME") && text_eq (trim_space r.content) at_sign) ≡ false)

-- A browser reads each of the texts of the form as it was written.
abbrev pub IsReadBack : (Text → Text) → RData → Type 0
IsReadBack as_read r =
    (as_read r.content ≡ r.content)
    × (as_read (text_or_empty r.country) ≡ text_or_empty r.country)
    × (as_read (text_or_empty r.continent) ≡ text_or_empty r.continent)
    × (as_read (text_or_empty r.subnet) ≡ text_or_empty r.subnet)

module _ (as_read : Text → Text) where
  abbrev FormOf : Request → ℕ → RData → RrSet → Type 0
  FormOf req id r rs = req.form ≡ unchanged as_read (edit_form id r rs)

  post_form-numbers :
      (req : Request) (id : ℕ) (r : RData) (rs : RrSet)
      → FormOf req id r rs
      → (post_form (codes "ttl") req ≡ format_nat rs.ttl)
        × (post_form (codes "asn") req ≡ format_int (int_or_0 r.asn))
        × (post_form (codes "zone_id") req ≡ format_nat rs.zone_id)
        × (post_form (codes "rrset_id") req ≡ format_nat rs.id)
  unfolding post_form fetch text_eq unchanged posted edit_form geo_fields format_int
  post_form-numbers req id r rs h = (rw (h) refl, rw (h) refl, rw (h) refl, rw (h) refl)

  post_form-texts :
      (req : Request) (id : ℕ) (r : RData) (rs : RrSet)
      → FormOf req id r rs
      → IsReadBack as_read r
      → (post_form (codes "data") req ≡ r.content)
        × (post_form (codes "country") req ≡ text_or_empty r.country)
        × (post_form (codes "continent") req ≡ text_or_empty r.continent)
        × (post_form (codes "subnet") req ≡ text_or_empty r.subnet)
  unfolding post_form fetch text_eq unchanged posted edit_form geo_fields
  post_form-texts req id r rs h (a, b, c, d) = (rw (h) a, rw (h) b, rw (h) c, rw (h) d)

form_asn-format_int : (z : ℤ) → IsInt64 z → form_asn (format_int z) ≡ int_ptr z
unfolding form_asn
form_asn-format_int z h =
    let word = format_int-IsWord z in rw (form_asn, word.some_byte, atoi-format_int z h) refl

form_ttl-format_nat : (n : ℕ) → 0 < n → n < 2 ^ 32 → form_ttl (format_nat n) ≡ n
unfolding form_ttl ttl_of
form_ttl-format_nat zero low high = omega arith
form_ttl-format_nat (suc n) low high =
    rw (form_ttl, atoi-format_nat (suc n) (omega arith)) (unfold ttl_of in omega arith)

module _ (as_read : Text → Text) (gorm : Gorm) (panel : PanelDb gorm) where
  open gorm use {Db}

  form_record-normal :
      (req : Request) (id : ℕ) (r : RData) (rs : RrSet)
      → FormOf as_read req id r rs
      → IsReadBack as_read r
      → IsInt64 (int_or_0 r.asn)
      → record (form_record r.rr_set_id r.content req) { id = r.id; deleted = r.deleted } ≡ normal r
  unfolding form_record normal
  form_record-normal req id r rs form back int =
      let (content, country, continent, subnet) = post_form-texts as_read req id r rs form back in
      let (ttl, asn, zone, set) = post_form-numbers as_read req id r rs form in
      rw (form_record, country, continent, subnet, asn, form_asn-format_int (int_or_0 r.asn) int)
        (unfold normal in refl)

  updated_data-same :
      (rs : RrSet) (content : Text) (db : Db)
      → (equal_fold rs.type (codes "CNAME") && text_eq (trim_space content) at_sign) ≡ false
      → updated_data gorm panel (ok rs) content db ≡ content
  unfolding updated_data
  updated_data-same rs content db h = rw (updated_data, h) refl

  update_ttl-same :
      (ttl : ℕ) (req : Request) (rs : RrSet) (db : Db)
      → ttl ≡ rs.ttl
      → update_ttl gorm panel ttl req (ok rs) db
        ≡ list_records gorm panel
            (append_id (uint32_value (post_form (codes "zone_id") req)) req)
            db
  unfolding update_ttl
  update_ttl-same ttl req rs db h =
      let same : (ttl == rs.ttl) ≡ true = ground arith in rw (update_ttl, same) refl

  -- The record is saved and the zone is listed.
  abbrev saved : Request → RData → RrSet → Db → Reply × Db
  saved req r rs db =
      done (panel.save_record (normal r) db) (codes "Error updating record: %s")
        (λ _ db'. list_records gorm panel (append_id rs.zone_id req) db')

  update_in-same :
      (req : Request) (id : ℕ) (r : RData) (rs : RrSet) (db : Db)
      → FormOf as_read req id r rs
      → IsReadBack as_read r
      → IsEditable id r rs
      → ((db : Db)
          → panel.rrset_by_id rs.id (panel.save_record (normal r) db).1
            ≡ panel.rrset_by_id rs.id db)
      → panel.rrset_by_id rs.id db ≡ ok rs
      → update_in gorm panel req db r ≡ saved req r rs db
  unfolding update_in
  update_in-same req id r rs db form back
        (id_fits, set_fits, zone_fits, low, high, int, some_data, no_apex) leaves read =
      let (content, country, continent, subnet) = post_form-texts as_read req id r rs form back in
      let (ttl, asn, zone, set) = post_form-numbers as_read req id r rs form in
      let number = uint32_value-format_nat rs.id set_fits in
      let whole = form_record-normal req id r rs form back int in
      let kept = updated_data-same rs r.content db no_apex in
      rw (update_in, content, some_data, set, number, read, kept, whole)
        (done_cong (panel.save_record (normal r) db) _ _ _ λ a.
          let fits : form_ttl (post_form (codes "ttl") req) ≡ rs.ttl =
            rw (ttl) (form_ttl-format_nat rs.ttl low high) in
          let there = leaves db ∙ read in
          rw
            (
              there,
              update_ttl-same (form_ttl (post_form (codes "ttl") req)) req rs
                  (panel.save_record (normal r) db).1 fits,
              zone,
              uint32_value-format_nat rs.zone_id zone_fits,
            )
            refl)

  -- PUT /admin/records/:id with the form that GET /admin/records/:id/edit shows for a record, posted as
  -- it is shown: it saves the record as it was, but that a pointer to an empty text or to 0 becomes no
  -- pointer, and answers with the list of the zone, without another statement, so that the TTL of the
  -- set stays. This holds where the numbers are in the ranges of their columns, the TTL is not 0, the
  -- record has data, which is not "@" for a CNAME, saving a record does not change what is read of
  -- its set, and a browser reads the four texts of the form as they were written.
  pub update_record-edit_form :
      (req : Request) (id : ℕ) (r : RData) (rs : RrSet) (db : Db)
      → param (codes "id") req ≡ format_nat id
      → panel.record_by_id id db ≡ ok r
      → panel.rrset_by_id rs.id db ≡ ok rs
      → rs.id ≡ r.rr_set_id
      → req.form ≡ unchanged as_read (edit_form id r rs)
      → IsReadBack as_read r
      → IsEditable id r rs
      → ((db : Db)
          → panel.rrset_by_id rs.id (panel.save_record (normal r) db).1
            ≡ panel.rrset_by_id rs.id db)
      → (edit_record_form gorm panel req db ≡ answer 200 (form_page (edit_form id r rs)) db)
        × (update_record gorm panel req db ≡ saved req r rs db)
  unfolding edit_record_form update_record with_id found
  update_record-edit_form req id r rs db path row set own form back fits leaves =
      let number = parse_uint32-format_nat id fits.0 in
      let set' : panel.rrset_by_id r.rr_set_id db ≡ ok rs =
        ap (λ n. panel.rrset_by_id n db) (sym own) ∙ set in
      (
        rw (path, number, row, set') refl,
        rw (path, number, row) (update_in-same req id r rs db form back fits leaves set),
      )
