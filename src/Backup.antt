-- ===== src/Backup.antt =====
-- internal/db/backup.go: the zones in a file. The file and its JSON are parameters: what is read is
-- `none` where the file cannot be read or parsed.
pub mod Laws
pub mod Clear
pub mod Round
pub mod Rounds
pub mod Whole
use namedor.Common.{ℕ, false, not, Option, none, some, List, is_empty, map}
use namedor.Text.{Text, codes, text_eq}
use namedor.Model.{Zone, RrSet, RData}
use namedor.Gorm.{Gorm, Result, ok, err, failed, Tx, ◌>>=◌, ◌>>◌, when, run, read, each}
use namedor.Rest.Sync.{zone_for}

pub record BackupData : Type 0 where
  pub version : Text
  pub zones : List Zone

unfoldable pub clear_ids : RData → RData
clear_ids r = record r { id = 0; rr_set_id = 0 }

unfoldable pub restored_set : ℕ → RrSet → RrSet
unfolding clear_ids
restored_set zone_id rs = record {
  id = 0;
  zone_id = zone_id;
  name = rs.name;
  type = rs.type;
  ttl = rs.ttl;
  records = map clear_ids rs.records;
  deleted = false;
}

module _ (gorm : Gorm) where
  open gorm use {Db}

  -- The contents of the file that ExportZones writes.
  unfoldable pub export_zones : Db → Result BackupData
  export_zones db = elim (gorm.find_zones_with_records db) [
    | err e ↦ err e
    | ok zones ↦ ok (record { version = codes "1.0"; zones = zones })
  ]

  unfoldable pub erase_all : Tx Db (Unit {0})
  erase_all = do gorm.erase_records; gorm.erase_rrsets; gorm.erase_zones

  unfoldable pub delete_sets : ℕ → Tx Db (Unit {0})
  delete_sets zone_id =
      read (gorm.rrset_ids zone_id)
      >>= (λ ids. when (not (is_empty ids)) (gorm.delete_records_of ids))
      >> gorm.delete_rrsets zone_id

  -- One round of the loop of ImportZones.
  unfoldable pub restore_zone : Text → Zone → Tx Db (Unit {0})
  unfolding delete_sets restored_set each
  restore_zone mode zone = zone_for gorm zone.name >>= (λ z.
      when (text_eq mode (codes "merge")) (delete_sets z.id)
      >> each (λ rs. run (gorm.create_rrset (restored_set z.id rs))) zone.rrsets)

  unfoldable pub import_zones : Option BackupData → Text → Tx Db (Unit {0})
  unfolding restore_zone erase_all each
  import_zones none mode db = (err failed, db)
  import_zones (some backup) mode db =
      gorm.transaction
        (when (text_eq mode (codes "replace")) erase_all >> each (restore_zone mode) backup.zones)
        db
