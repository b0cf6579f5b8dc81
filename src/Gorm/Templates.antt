-- ===== src/Gorm/Templates.antt =====
-- What gorm documents of the rows of templates and of their records.
use namedor.Common.{ℕ, ◌≡◌, ◌≢◌, Option, some, List, [], ◌∷◌, ◌++◌}
use namedor.Text.{Text}
use namedor.Model.{Template, TemplateRecord}
use namedor.Gorm.{Gorm, ok}
use namedor.Gorm.Store.{IsStore}
use namedor.Gorm.Zones.{KeepsZones}

-- What a statement writes is there after it, and the rows of other templates, and all zones, stay.
pub record KeepsTemplates (gorm : Gorm) (store : IsStore gorm) (keeps : KeepsZones gorm store)
    : Type 0 where
  -- the name and the description
  pub template_of : ℕ → gorm.Db → Option (Text × Text)
  pub records_of : ℕ → gorm.Db → List TemplateRecord
  pub first_template_named :
      (name : Text) (t : Template) (db : gorm.Db)
      → gorm.first_template_named name db ≡ ok t
      → (t.name ≡ name) × (template_of t.id db ≡ some (name, t.description))
  pub create_template :
      (t stored : Template) (db : gorm.Db)
      → (gorm.create_template t db).0 ≡ ok stored
      → template_of stored.id (gorm.create_template t db).1 ≡ some (t.name, t.description)
  pub save_template :
      (t stored : Template) (db : gorm.Db)
      → (gorm.save_template t db).0 ≡ ok stored
      → template_of t.id (gorm.save_template t db).1 ≡ some (t.name, t.description)
  pub purge_template_records :
      (id : ℕ) (db : gorm.Db)
      → (gorm.purge_template_records id db).0 ≡ ok tt
      → records_of id (gorm.purge_template_records id db).1 ≡ []
  pub create_template_record :
      (rec stored : TemplateRecord) (db : gorm.Db)
      → (gorm.create_template_record rec db).0 ≡ ok stored
      → records_of rec.template_id (gorm.create_template_record rec db).1
        ≡ records_of rec.template_id db ++ rec ∷ []
  -- the other rows
  pub others-create_template :
      (t : Template) (j : ℕ) (x : Text × Text) (db : gorm.Db)
      → template_of j db ≡ some x
      → (template_of j (gorm.create_template t db).1 ≡ some x)
        × (records_of j (gorm.create_template t db).1 ≡ records_of j db)
  pub others-save_template :
      (t : Template) (j : ℕ) (db : gorm.Db)
      → j ≢ t.id
      → (template_of j (gorm.save_template t db).1 ≡ template_of j db)
        × (records_of j (gorm.save_template t db).1 ≡ records_of j db)
  pub template_of-purge_template_records :
      (id j : ℕ) (db : gorm.Db)
      → template_of j (gorm.purge_template_records id db).1 ≡ template_of j db
  pub records_of-purge_template_records :
      (id j : ℕ) (db : gorm.Db)
      → j ≢ id
      → records_of j (gorm.purge_template_records id db).1 ≡ records_of j db
  pub template_of-create_template_record :
      (rec : TemplateRecord) (j : ℕ) (db : gorm.Db)
      → template_of j (gorm.create_template_record rec db).1 ≡ template_of j db
  pub records_of-create_template_record :
      (rec : TemplateRecord) (j : ℕ) (db : gorm.Db)
      → j ≢ rec.template_id
      → records_of j (gorm.create_template_record rec db).1 ≡ records_of j db
  -- the zones
  pub zones-create_template :
      (t : Template) (j : ℕ) (db : gorm.Db)
      → (keeps.name_of j (gorm.create_template t db).1 ≡ keeps.name_of j db)
        × (store.sets j (gorm.create_template t db).1 ≡ store.sets j db)
  pub zones-save_template :
      (t : Template) (j : ℕ) (db : gorm.Db)
      → (keeps.name_of j (gorm.save_template t db).1 ≡ keeps.name_of j db)
        × (store.sets j (gorm.save_template t db).1 ≡ store.sets j db)
  pub zones-purge_template_records :
      (id j : ℕ) (db : gorm.Db)
      → (keeps.name_of j (gorm.purge_template_records id db).1 ≡ keeps.name_of j db)
        × (store.sets j (gorm.purge_template_records id db).1 ≡ store.sets j db)
  pub zones-create_template_record :
      (rec : TemplateRecord) (j : ℕ) (db : gorm.Db)
      → (keeps.name_of j (gorm.create_template_record rec db).1 ≡ keeps.name_of j db)
        × (store.sets j (gorm.create_template_record rec db).1 ≡ store.sets j db)
