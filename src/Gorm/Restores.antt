-- ===== src/Gorm/Restores.antt =====
-- What gorm documents of the statements that a restoration from a file needs beyond those of zones.
use namedor.Common.{ℕ, ◌≡◌, ◌≢◌, ◌⊎◌, none, some, List, []}
use namedor.Text.{Text}
use namedor.Model.{Zone}
use namedor.Gorm.{Gorm, ok}
use namedor.Gorm.Store.{IsStore}
use namedor.Gorm.Zones.{KeepsZones}

-- A deletion in one zone leaves the names and the other zones, a new zone has a new number and
-- brings no name but its own, and what is erased is gone.
pub record KeepsRestored (gorm : Gorm) (store : IsStore gorm) (keeps : KeepsZones gorm store)
    : Type 0 where
  pub name-delete_records_of :
      (ids : List ℕ) (j : ℕ) (db : gorm.Db)
      → keeps.name_of j (gorm.delete_records_of ids db).1 ≡ keeps.name_of j db
  pub sets-delete_records_of :
      (ids : List ℕ) (zone_id j : ℕ) (db : gorm.Db)
      → gorm.rrset_ids zone_id db ≡ ok ids
      → j ≢ zone_id
      → store.sets j (gorm.delete_records_of ids db).1 ≡ store.sets j db
  pub name-delete_rrsets :
      (zone_id j : ℕ) (db : gorm.Db)
      → keeps.name_of j (gorm.delete_rrsets zone_id db).1 ≡ keeps.name_of j db
  pub sets-delete_rrsets :
      (zone_id j : ℕ) (db : gorm.Db)
      → j ≢ zone_id
      → store.sets j (gorm.delete_rrsets zone_id db).1 ≡ store.sets j db
  pub new_zone_number :
      (zone z : Zone) (db : gorm.Db)
      → (gorm.create_zone zone db).0 ≡ ok z
      → keeps.name_of z.id db ≡ none
  pub new_zone_name :
      (zone : Zone) (j : ℕ) (name : Text) (db : gorm.Db)
      → keeps.name_of j (gorm.create_zone zone db).1 ≡ some name
      → (name ≡ zone.name) ⊎ (keeps.name_of j db ≡ some name)
  pub erase_zones :
      (j : ℕ) (db : gorm.Db)
      → (gorm.erase_zones db).0 ≡ ok tt
      → keeps.name_of j (gorm.erase_zones db).1 ≡ none
  pub sets-erase_zones :
      (j : ℕ) (db : gorm.Db) → store.sets j (gorm.erase_zones db).1 ≡ store.sets j db
  pub erase_rrsets :
      (j : ℕ) (db : gorm.Db)
      → (gorm.erase_rrsets db).0 ≡ ok tt
      → store.sets j (gorm.erase_rrsets db).1 ≡ []
