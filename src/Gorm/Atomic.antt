-- ===== src/Gorm/Atomic.antt =====
-- What gorm documents of failures: a statement runs in a transaction of its own, and a transaction
-- that ends with an error is rolled back.
use namedor.Common.{ℕ, ◌≡◌}
use namedor.Text.{Text}
use namedor.Model.{Zone, RrSet}
use namedor.Gorm.{Gorm, DbError, Result, ok, err}

pub record IsAtomic (gorm : Gorm) : Type 0 where
  pub create_zone :
      (z : Zone) (db : gorm.Db) (e : DbError)
      → (gorm.create_zone z db).0 ≡ err e
      → (gorm.create_zone z db).1 ≡ db
  pub create_rrset :
      (set : RrSet) (db : gorm.Db) (e : DbError)
      → (gorm.create_rrset set db).0 ≡ err e
      → (gorm.create_rrset set db).1 ≡ db
  pub delete_rrset :
      (zone_id : ℕ) (rid : Text) (db : gorm.Db) (e : DbError)
      → (gorm.delete_rrset zone_id rid db).0 ≡ err e
      → (gorm.delete_rrset zone_id rid db).1 ≡ db
  pub transaction :
      (body : gorm.Db → Result (Unit {0}) × gorm.Db) (db : gorm.Db) (e : DbError)
      → (gorm.transaction body db).0 ≡ err e
      → (gorm.transaction body db).1 ≡ db
  -- one that succeeds has done what its body does
  pub transaction_ok :
      (body : gorm.Db → Result (Unit {0}) × gorm.Db) (db : gorm.Db)
      → (gorm.transaction body db).0 ≡ ok tt
      → gorm.transaction body db ≡ body db
