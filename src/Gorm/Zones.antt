-- ===== src/Gorm/Zones.antt =====
-- What gorm documents of the rows of several zones.
use namedor.Common.{ℕ, ◌≡◌, ◌≢◌, Option, some, List}
use namedor.Text.{Text}
use namedor.Model.{Zone, RrSet}
use namedor.Gorm.{Gorm, ok}
use namedor.Gorm.Store.{IsStore}

-- The number of a row is its own, and a statement on the sets of one zone
-- leaves the names and the sets of the others.
pub record KeepsZones (gorm : Gorm) (store : IsStore gorm) : Type 0 where
  pub name_of : ℕ → gorm.Db → Option Text
  pub first_zone_named :
      (name : Text) (z : Zone) (db : gorm.Db)
      → gorm.first_zone_named name db ≡ ok z
      → name_of z.id db ≡ some name
  pub create_zone :
      (zone z : Zone) (db : gorm.Db)
      → (gorm.create_zone zone db).0 ≡ ok z
      → name_of z.id (gorm.create_zone zone db).1 ≡ some zone.name
  pub name-create_zone :
      (zone : Zone) (j : ℕ) (name : Text) (db : gorm.Db)
      → name_of j db ≡ some name
      → name_of j (gorm.create_zone zone db).1 ≡ some name
  pub sets-create_zone :
      (zone : Zone) (j : ℕ) (db : gorm.Db)
      → store.sets j (gorm.create_zone zone db).1 ≡ store.sets j db
  pub name-purge_records_of :
      (ids : List ℕ) (j : ℕ) (db : gorm.Db)
      → name_of j (gorm.purge_records_of ids db).1 ≡ name_of j db
  pub sets-purge_records_of :
      (ids : List ℕ) (zone_id j : ℕ) (db : gorm.Db)
      → gorm.rrset_ids zone_id db ≡ ok ids
      → j ≢ zone_id
      → store.sets j (gorm.purge_records_of ids db).1 ≡ store.sets j db
  pub name-purge_rrsets :
      (zone_id j : ℕ) (db : gorm.Db) → name_of j (gorm.purge_rrsets zone_id db).1 ≡ name_of j db
  pub sets-purge_rrsets :
      (zone_id j : ℕ) (db : gorm.Db)
      → j ≢ zone_id
      → store.sets j (gorm.purge_rrsets zone_id db).1 ≡ store.sets j db
  pub name-create_rrset :
      (set : RrSet) (j : ℕ) (db : gorm.Db) → name_of j (gorm.create_rrset set db).1 ≡ name_of j db
  pub sets-create_rrset :
      (set : RrSet) (j : ℕ) (db : gorm.Db)
      → j ≢ set.zone_id
      → store.sets j (gorm.create_rrset set db).1 ≡ store.sets j db
