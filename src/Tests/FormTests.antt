-- ===== src/Tests/FormTests.antt =====
-- The forms of the web panel at concrete inputs.
use namedor.Common.{◌≡◌, refl, some, none, [], ◌∷◌, arith}
use namedor.Text.{Text, codes, before_any, equal_fold, text_eq, trim_space}
use namedor.Text.Decimal.{format_nat}
use namedor.Assoc.{fetch}
use namedor.Model.{RData}
use namedor.Gorm.{ok}
use namedor.Web.Request.{Request, param}
use namedor.Web.Form.{edit_form, unchanged}
use namedor.Web.Panel.{PanelDb, answer, form_page, done, append_id}
use namedor.Web.Records.{edit_record_form, update_record, list_records}
use namedor.Web.Records.Unchanged.{update_record-edit_form, normal}
use namedor.Web.Routes.{reads, record_new}
use namedor.Web.Links.Answered.{Leads, handler, handler-Leads}
use namedor.Tests.Memory.{memory, tables, www_set, plain_record}
use namedor.Tests.WebTests.{panel}

-- What stands before a quotation mark.
abbrev as_read : Text → Text
as_read s = before_any s (34 ∷ [])

abbrev targeted : RData
targeted = record (plain_record (codes "192.0.2.1")) { rr_set_id = 7; country = some (codes "RU") }

abbrev with_target : PanelDb memory
with_target = record panel { record_by_id = λ id t. ok targeted }

abbrev posted_back : Request
posted_back = record {
  params = (codes "id", codes "1") ∷ [];
  query = [];
  form = unchanged as_read (edit_form 1 targeted www_set);
  headers = [];
  cookies = [];
  host = codes "panel.example.org";
}

update_record-edit_form_example :
    (edit_record_form memory with_target posted_back tables
      ≡ answer 200 (form_page (edit_form 1 targeted www_set)) tables)
    × (update_record memory with_target posted_back tables
        ≡ done
            (with_target.save_record (normal targeted) tables)
            (codes "Error updating record: %s")
            (λ _ db. list_records memory with_target (append_id 1 posted_back) db))
update_record-edit_form_example =
    update_record-edit_form as_read memory with_target posted_back 1 targeted www_set tables
      (unfold param fetch text_eq format_nat in refl) refl refl refl refl
      (unfold before_any in (refl, refl, refl, refl))
      (unfold equal_fold text_eq trim_space in
        (omega arith, omega arith, omega arith, omega arith, omega arith, omega arith, refl, refl))
      (λ db. refl)

abbrev asked : Request
asked = record posted_back { form = [] }

handler-Leads_example :
    Leads (λ s. s) (handler (λ s. s) (λ s. none) memory panel (reads record_new) asked tables)
handler-Leads_example =
    handler-Leads (λ s. s) (λ s. none) memory panel (reads record_new) asked tables
      (unfold param fetch text_eq in (refl, ((omega arith, omega arith), tt)))
