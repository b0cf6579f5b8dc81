-- ===== src/Web/Panel.antt =====
-- What the handlers of the panel share: the database calls beyond those of Gorm, and the answers. A
-- page is the data that its HTML shows; a message is the key of its text.
pub mod Answers
use namedor.Common.{
  ℕ, ℤ, pos, Bool, true, false, not, ◌&&◌, Option, none, some, List, [], ◌∷◌, ◌++◌, is_empty,
  is_zero, if◌then◌else◌,
}
use namedor.Text.{Text, codes}
use namedor.Text.Decimal.{format_nat}
use namedor.Model.{Zone, RrSet, RData, Template, TemplateRecord}
use namedor.Gorm.{Gorm, Result, ok, err}
use namedor.Web.Request.{Request}
use namedor.Web.Pages.{Paging}
use namedor.Web.Form.{Form}

-- The filter of listRecords: `name LIKE ? OR type LIKE ?`, and `type = ?`, where they are not empty.
pub record SetFilter : Type 0 where
  pub search : Text
  pub type : Text

pub record PanelDb (gorm : Gorm) : Type 0 where
  -- First(&zone, id), and with Preload("RRSets.Records")
  pub zone_by_id : ℕ → gorm.Db → Result Zone
  pub zone_with_records : ℕ → gorm.Db → Result Zone
  -- Count(&total), 0 where it fails, and Offset(o).Limit(n).Find(&zones)
  pub count_zones : (search : Text) → gorm.Db → ℕ
  pub zones_page : (search : Text) (offset : ℤ) (limit : ℕ) → gorm.Db → Result (List Zone)
  pub count_rrsets : (zone_id : ℕ) → SetFilter → gorm.Db → ℕ
  pub rrsets_page :
      (zone_id : ℕ) → SetFilter → (offset : ℤ) (limit : ℕ) → gorm.Db → Result (List RrSet)
  -- First(&record, id), First(&rrset, id)
  pub record_by_id : ℕ → gorm.Db → Result RData
  pub rrset_by_id : ℕ → gorm.Db → Result RrSet
  -- Create(&record), Save(&record), Delete(&RData{}, id)
  pub create_record : RData → gorm.Db → Result RData × gorm.Db
  pub save_record : RData → gorm.Db → Result RData × gorm.Db
  pub delete_record : ℕ → gorm.Db → Result (Unit {0}) × gorm.Db
  -- Delete(&Zone{}, id)
  pub delete_zone_by_id : ℕ → gorm.Db → Result (Unit {0}) × gorm.Db
  -- First(&template, id), and with Preload("Records")
  pub template_by_id : ℕ → gorm.Db → Result Template
  pub template_with_records : ℕ → gorm.Db → Result Template
  -- Delete(&Template{}, id), Delete(&TemplateRecord{}, id)
  pub delete_template_by_id : ℕ → gorm.Db → Result (Unit {0}) × gorm.Db
  pub delete_template_record_by_id : ℕ → gorm.Db → Result (Unit {0}) × gorm.Db

-- What a row says of the clients that a record is for.
pub data GeoInfo : Type 0 where
  default : GeoInfo
  by_country by_continent : Text → GeoInfo
  by_asn : ℤ → GeoInfo
  by_subnet : Text → GeoInfo

abbrev pub some_text : Option Text → Option Text
some_text none = none
some_text (some s) = if is_empty s then none else some s

abbrev pub some_number : Option ℤ → Option ℤ
some_number none = none
some_number (some n) = if is_zero n then none else some n

unfoldable pub geo_info :
    (country continent : Option Text) (asn : Option ℤ) (subnet : Option Text) → GeoInfo
geo_info country continent asn subnet = elim (some_text country) [
  | some s ↦ by_country s
  | none ↦ elim (some_text continent) [
    | some s ↦ by_continent s
    | none ↦ elim (some_number asn) [
      | some n ↦ by_asn n
      | none ↦ elim (some_text subnet) [ some s ↦ by_subnet s | none ↦ default ]
    ]
  ]
]

pub record Row : Type 0 where
  pub name : Text
  pub type : Text
  pub ttl : ℕ
  pub geo : GeoInfo
  pub content : Text
  pub id : ℕ

pub record ZoneRow : Type 0 where
  pub zone : Zone
  pub record_count : ℕ

pub data Page : Type 0 where
  blank : Page
  message : (key : Text) → Page
  redirect : Text → Page
  -- with the number of the path
  records_page : ℕ → Zone → SetFilter → List Row → Paging → Page
  zones_page : (search : Text) → List ZoneRow → Paging → Page
  form_page : Form → Page
  templates_page : List Template → Page
  template_view : Template → List Row → Page
  -- the form, what the button "+ Add Record" gets, and the records
  template_edit : Form → Text → List Row → Page
  template_preview : Form → Template → Zone → List Row → Page

pub record Reply : Type 0 where
  pub status : ℕ
  pub page : Page

abbrev pub answer : {Db : Type 0} → ℕ → Page → Db → Reply × Db
answer status page db = (record { status = status; page = page }, db)

-- An identifier that does not parse, and a row that is not found, end a handler.
unfoldable pub with_id : {Db : Type 0} → Option ℕ → Page → Db → (ℕ → Reply × Db) → Reply × Db
with_id none page db next = answer 400 page db
with_id (some id) page db next = next id

unfoldable pub found : {Db A : Type 0} → Result A → Text → Db → (A → Reply × Db) → Reply × Db
found (err e) key db next = answer 404 (message key) db
found (ok a) key db next = next a

-- A statement that fails ends a handler.
unfoldable pub done : {Db A : Type 0} → Result A × Db → Text → (A → Db → Reply × Db) → Reply × Db
done (err e, db) key next = answer 500 (message key) db
done (ok a, db) key next = next a db

-- stringPtr and intPtr
unfoldable pub string_ptr : Text → Option Text
string_ptr s = if is_empty s then none else some s

unfoldable pub int_ptr : ℤ → Option ℤ
int_ptr n = if is_zero n then none else some n

-- `c.Params = append(c.Params, gin.Param{Key: "id", Value: …})`
unfoldable pub append_id : ℕ → Request → Request
append_id id req = record req { params = req.params ++ (codes "id", format_nat id) ∷ [] }
