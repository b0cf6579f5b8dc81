-- ===== src/Web/Records/Shown.antt =====
-- Which zone a handler of the panel shows once it has changed something.
use namedor.Common.{
  ℕ, ◌≡◌, ◌≢◌, refl, some, List, [], ◌∷◌, arith, Bool-cases, inl, inr, ◌==◌, is_empty,
}
use namedor.Text.{Text, codes}
use namedor.Text.Atoi.{uint32_value}
use namedor.Text.Decimal.{format_nat}
use namedor.Assoc.{fetch}
use namedor.Assoc.Laws.{fetch-append}
use namedor.Model.{Zone, RrSet, RData}
use namedor.Gorm.{Gorm, Result, ok, err}
use namedor.Web.Request.{Request, param, query, post_form, default_query}
use namedor.Web.Panel.{PanelDb, Reply, Page, answer, append_id}
use namedor.Web.Panel.Answers.{with_id-All, found-All, done-All, Keeps, answer-Keeps}
use namedor.Web.Records.{
  listed, list_in, list_records, update_record, update_in, update_ttl, form_ttl,
}

module _ (gorm : Gorm) (panel : PanelDb gorm) where
  open gorm use {Db}

  -- The number that a handler adds does not replace that of the path.
  pub list_records-append_id :
      (req : Request) (id : ℕ) (text : Text) (db : Db)
      → fetch (codes "id") req.params ≡ some text
      → list_records gorm panel (append_id id req) db ≡ list_records gorm panel req db
  unfolding list_records list_in append_id param query default_query
  list_records-append_id req id text db h =
      rw (fetch-append (codes "id") text req.params ((codes "id", format_nat id) ∷ []) h, h) refl

  listed-Keeps :
      (req : Request) (zone_id : ℕ) (db : Db) (zone : Zone) (sets : Result (List RrSet))
      → Keeps db (listed gorm panel req zone_id db zone sets)
  unfolding listed Keeps
  listed-Keeps req zone_id db zone (err e) = refl
  listed-Keeps req zone_id db zone (ok sets) = refl

  pub list_records-Keeps : (req : Request) (db : Db) → Keeps db (list_records gorm panel req db)
  unfolding list_records list_in
  list_records-Keeps req db = with_id-All (Keeps db) _ _ db _ (answer-Keeps 400 _ db) λ zone_id.
      found-All (Keeps db) _ _ db _ (answer-Keeps 404 _ db)
        λ zone. listed-Keeps req zone_id db zone _

  -- A page with the status 200 is that of the zone with the number of the path.
  unfoldable pub Shows : Request → Reply × Db → Type 0
  Shows req out = out.0.status ≡ 200 → out.0 ≡ (list_records gorm panel req out.1).0

  -- An answer with another status is no such page.
  pub answer-Shows :
      (req : Request) (status : ℕ) (page : Page) (db : Db)
      → status ≢ 200
      → Shows req (answer status page db)
  unfolding Shows
  answer-Shows req status page db other e = absurd (other e)

  pub list_records_added-Shows :
      (req : Request) (id : ℕ) (text : Text) (db : Db)
      → fetch (codes "id") req.params ≡ some text
      → Shows req (list_records gorm panel (append_id id req) db)
  unfolding Shows Keeps
  list_records_added-Shows req id text db h e =
      rw (list_records-append_id req id text db h, list_records-Keeps req db) refl

  update_ttl-Shows :
      (ttl : ℕ) (req : Request) (text : Text) (set : Result RrSet) (db : Db)
      → fetch (codes "id") req.params ≡ some text
      → Shows req (update_ttl gorm panel ttl req set db)
  unfolding update_ttl
  update_ttl-Shows ttl req text (err e) db h = list_records_added-Shows req _ text db h
  update_ttl-Shows ttl req text (ok set) db h = elim (Bool-cases (ttl == set.ttl)) [
    | inl same ↦ rw (same) (list_records_added-Shows req _ text db h)
    | inr other ↦ rw (other) (
        done-All (Shows req) _ _ _ (λ db'. answer-Shows req 500 _ db' λ e. omega arith)
          (λ _ db'. list_records_added-Shows req _ text db' h))
  ]

  update_in-Shows :
      (req : Request) (text : Text) (db : Db) (r : RData)
      → fetch (codes "id") req.params ≡ some text
      → Shows req (update_in gorm panel req db r)
  unfolding update_in
  update_in-Shows req text db r h = elim (Bool-cases (is_empty (post_form (codes "data") req))) [
    | inl blank ↦ rw (blank) (answer-Shows req 400 _ db λ e. omega arith)
    | inr filled ↦ rw (filled) (
        done-All (Shows req) _ _ _ (λ db'. answer-Shows req 500 _ db' λ e. omega arith)
          (λ _ db'.
            update_ttl-Shows (form_ttl (post_form (codes "ttl") req)) req text
              (panel.rrset_by_id (uint32_value (post_form (codes "rrset_id") req)) db') db' h))
  ]

  update_record_any-Shows :
      (req : Request) (text : Text) (db : Db)
      → fetch (codes "id") req.params ≡ some text
      → Shows req (update_record gorm panel req db)
  unfolding update_record
  update_record_any-Shows req text db h =
      with_id-All (Shows req) _ _ db _ (answer-Shows req 400 _ db λ e. omega arith) λ id.
        found-All (Shows req) _ _ db _ (answer-Shows req 404 _ db λ e. omega arith)
          λ r. update_in-Shows req text db r h

  -- A page that updateRecord answers with the status 200 is the list of the records of the zone that
  -- has the number of the record, whatever zone the record is in and whichever the form names.
  pub update_record-Shows :
      (req : Request) (text : Text) (db : Db)
      → fetch (codes "id") req.params ≡ some text
      → (update_record gorm panel req db).0.status ≡ 200
      → (update_record gorm panel req db).0
        ≡ (list_records gorm panel req (update_record gorm panel req db).1).0
  unfolding Shows
  update_record-Shows req text db h ok200 = update_record_any-Shows req text db h ok200
