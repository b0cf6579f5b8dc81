-- ===== src/Web/Templates/Shown.antt =====
-- What applyTemplate answers: the preview before it, and the page after it.
use namedor.Common.{◌≡◌, ◌≢◌, some, arith}
use namedor.Text.{Text, codes}
use namedor.Text.Laws.{text_eq_iff}
use namedor.Names.{at_sign}
use namedor.Assoc.{fetch}
use namedor.Model.{Zone}
use namedor.Gorm.{Gorm}
use namedor.Web.Request.{Request}
use namedor.Web.Panel.{PanelDb}
use namedor.Web.Records.{list_records}
use namedor.Web.Panel.Answers.{with_id-All, found-All}
use namedor.Web.Records.Shown.{Shows, answer-Shows, list_records_added-Shows}
use namedor.Web.Templates.{
  domain_of, filled, preview_name, applied_name, apply_records, apply_template,
}

-- The preview shows the name that applyTemplate stores, unless that of the template is "@" once it is
-- filled in.
preview_name-eq-applied_name :
    (zone : Zone) (name : Text)
    → filled (domain_of zone) name ≢ at_sign
    → preview_name zone name ≡ applied_name (domain_of zone) name
unfolding preview_name applied_name
preview_name-eq-applied_name zone name h =
    ground (arith, text_eq_iff (filled (domain_of zone) name) at_sign)

module _ (gorm : Gorm) (panel : PanelDb gorm) where
  open gorm use {Db}

  apply_template_any-Shows :
      (req : Request) (text : Text) (db : Db)
      → fetch (codes "id") req.params ≡ some text
      → Shows gorm panel req (apply_template gorm panel req db)
  unfolding apply_template
  apply_template_any-Shows req text db h =
      with_id-All (Shows gorm panel req) _ _ db _
        (answer-Shows gorm panel req 400 _ db λ e. omega arith)
        λ id.
          with_id-All (Shows gorm panel req) _ _ db _
            (answer-Shows gorm panel req 400 _ db λ e. omega arith)
            λ zone_id.
              found-All (Shows gorm panel req) _ _ db _
                (answer-Shows gorm panel req 404 _ db λ e. omega arith)
                λ t.
                  found-All (Shows gorm panel req) _ _ db _
                    (answer-Shows gorm panel req 404 _ db λ e. omega arith)
                    λ zone.
                      list_records_added-Shows gorm panel req zone_id text
                        (apply_records gorm panel zone_id (domain_of zone) t.records db) h

  -- Whatever the database holds, and for a path with a parameter id, a page that applyTemplate answers
  -- with the status 200 is the one that listRecords answers for the path: the records of the zone
  -- that has the number of the template, not of the zone of the query to which it has applied it.
  pub apply_template-Shows :
      (req : Request) (text : Text) (db : Db)
      → fetch (codes "id") req.params ≡ some text
      → (apply_template gorm panel req db).0.status ≡ 200
      → (apply_template gorm panel req db).0
        ≡ (list_records gorm panel req (apply_template gorm panel req db).1).0
  unfolding Shows
  apply_template-Shows req text db h ok200 = apply_template_any-Shows req text db h ok200
