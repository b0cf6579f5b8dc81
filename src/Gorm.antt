-- ===== src/Gorm.antt =====
-- The database calls of the program, through gorm.io/gorm: an interface that the handlers take as a
-- parameter. `Db` is the contents of the database. A query that gorm answers with an error is `err`;
-- a statement hands back the contents after it, which an implementation may change as it likes: what
-- a theorem needs of the calls is a hypothesis of Gorm/Atomic.antt, Gorm/Store.antt, Gorm/Zones.antt,
-- Gorm/Templates.antt or Gorm/Restores.antt.
pub mod Atomic
pub mod Store
pub mod Zones
pub mod Templates
pub mod Restores
use namedor.Common.{ℕ, Bool, true, false, List, [], ◌∷◌, Option, ◌≡◌, ◌≢◌, refl, ◌⊎◌, inl, inr}
use namedor.Text.{Text}
use namedor.Model.{Zone, RrSet, Template, TemplateRecord}

-- gorm.ErrRecordNotFound, or any other error.
pub data DbError : Type 0 where
  not_found failed : DbError

pub data Result {ℓ} (A : Type ℓ) : Type ℓ where
  ok : A → Result A
  err : DbError → Result A

pub Result-cases {ℓ} :
    {A : Type ℓ} (r : Result A) → ((e : DbError) × (r ≡ err e)) ⊎ ((a : A) × (r ≡ ok a))
Result-cases (ok a) = inr (a, refl)
Result-cases (err e) = inl (e, refl)

-- A result that is no value is an error.
pub err_of_not_ok {ℓ} :
    {A : Type ℓ} (r : Result A) → ((a : A) → r ≢ ok a) → (e : DbError) × (r ≡ err e)
err_of_not_ok (ok a) h = absurd (h a refl)
err_of_not_ok (err e) h = (e, refl)

-- What First(&z, id) loads with a zone: Preload("RRSets"), Preload("RRSets.Records").
pub data Preload : Type 0 where
  no_sets sets_only sets_and_records : Preload

pub record Gorm : Type 1 where
  pub Db : Type 0
  -- Where("deleted_at IS NULL").Order("length(name) desc").Find(&zones)
  pub find_zones_by_length : Db → Result (List Zone)
  -- Find(&zs)
  pub find_zones : Db → Result (List Zone)
  -- First(&z, id), where the id is the text of a URL parameter
  pub first_zone : Preload → Text → Db → Result Zone
  -- Preload("Records").Where("zone_id = ? AND name = ? AND type = ?", …).First(&set)
  pub first_rrset : ℕ → Text → Text → Db → Result RrSet
  -- Preload("Records").Where("zone_id = ? AND id = ?", …).First(&set)
  pub first_rrset_by_id : ℕ → Text → Db → Result RrSet
  -- Preload("Records").Where("zone_id = ?", id).Find(&sets)
  pub find_rrsets : Text → Db → Result (List RrSet)
  -- Preload("Records").Where("zone_id = ? AND type = ?", id, "SOA").Limit(1).Find(&soa)
  pub find_soa : ℕ → Db → Result (Option RrSet)
  -- Create(&z), Create(&set) with the set's records
  pub create_zone : Zone → Db → Result Zone × Db
  pub create_rrset : RrSet → Db → Result RrSet × Db
  -- Save(&set) with the set's records
  pub save_rrset : RrSet → Db → Result RrSet × Db
  -- Where("rr_set_id = ?", id).Delete(&RData{})
  pub delete_records : ℕ → Db → Result (Unit {0}) × Db
  -- Where("zone_id = ?", id).Delete(&RrSet{})
  pub delete_rrsets : ℕ → Db → Result (Unit {0}) × Db
  -- Delete(&RrSet{}, "zone_id = ? AND id = ?", …)
  pub delete_rrset : ℕ → Text → Db → Result (Unit {0}) × Db
  -- Delete(&z)
  pub delete_zone : ℕ → Db → Result (Unit {0}) × Db
  -- Model(&RData{}).Where("id = ?", id).Update("data", data)
  pub update_data : ℕ → Text → Db → Result (Unit {0}) × Db
  -- Preload("RRSets.Records").Find(&zones), Preload("Records").Find(&templates)
  pub find_zones_with_records : Db → Result (List Zone)
  pub find_templates : Db → Result (List Template)
  -- Where("name = ?", name).First(&zone), and so for templates
  pub first_zone_named : Text → Db → Result Zone
  pub first_template_named : Text → Db → Result Template
  -- Model(&RRSet{}).Where("zone_id = ?", id).Pluck("id", &ids)
  pub rrset_ids : ℕ → Db → Result (List ℕ)
  -- Where("rr_set_id IN ?", ids).Delete(&RData{}), and with Unscoped()
  pub delete_records_of : List ℕ → Db → Result (Unit {0}) × Db
  pub purge_records_of : List ℕ → Db → Result (Unit {0}) × Db
  -- Unscoped().Where("zone_id = ?", id).Delete(&RRSet{})
  pub purge_rrsets : ℕ → Db → Result (Unit {0}) × Db
  -- Create(&t), Save(&t), Create(&rec)
  pub create_template : Template → Db → Result Template × Db
  pub save_template : Template → Db → Result Template × Db
  pub create_template_record : TemplateRecord → Db → Result TemplateRecord × Db
  -- Unscoped().Where("template_id = ?", id).Delete(&TemplateRecord{})
  pub purge_template_records : ℕ → Db → Result (Unit {0}) × Db
  -- Exec("DELETE FROM r_data"), and so for rr_sets and zones
  pub erase_records : Db → Result (Unit {0}) × Db
  pub erase_rrsets : Db → Result (Unit {0}) × Db
  pub erase_zones : Db → Result (Unit {0}) × Db
  -- Transaction(func(tx) error { … })
  pub transaction : (Db → Result (Unit {0}) × Db) → Db → Result (Unit {0}) × Db

-- Go's sequence of statements, each with `if err != nil { return err }`.
abbrev pub Tx {ℓ κ} : Type ℓ → Type κ → Type (ℓ ⊔ κ)
Tx S A = S → Result A × S

module _ {S A B : Type 0} where
  abbrev pub continue : Result A → (A → Tx S B) → Tx S B
  continue (ok a) f s = f a s
  continue (err e) f s = (err e, s)

  infixl 5 ◌>>=◌ ◌>>◌
  abbrev pub ◌>>=◌ : Tx S A → (A → Tx S B) → Tx S B
  ◌>>=◌ m f s = let (r, s') = m s in continue r f s'

  abbrev pub ◌>>◌ : Tx S A → Tx S B → Tx S B
  m >> k = m >>= λ _. k

module _ {S A : Type 0} where
  abbrev pub pure : A → Tx S A
  pure a s = (ok a, s)

abbrev pub when : {S : Type 0} → Bool → Tx S (Unit {0}) → Tx S (Unit {0})
when true m = m
when false m = pure tt

-- A query.
abbrev pub read : {S A : Type 0} → (S → Result A) → Tx S A
read f s = (f s, s)

-- `for _, x := range xs { if err := … ; err != nil { return err } }`
unfoldable pub each : {S A : Type 0} → (A → Tx S (Unit {0})) → List A → Tx S (Unit {0})
each f [] = pure tt
each f (x ∷ xs) = do f x; each f xs

-- A statement whose value is not used.
abbrev pub run : {S A : Type 0} → Tx S A → Tx S (Unit {0})
run m = do m; pure tt
