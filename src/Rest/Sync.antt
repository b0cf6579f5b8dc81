-- ===== src/Rest/Sync.antt =====
-- syncExport and syncImport of internal/server/rest/server.go: all zones and templates at once.
pub mod Laws
pub mod Apart
pub mod Replica
pub mod TemplateRow
pub mod Templates
pub mod Full
use namedor.Common.{ℕ, false, not, List, [], is_empty, map}
use namedor.Text.{Text}
use namedor.Model.{Zone, RrSet, RData, Template, TemplateRecord}
use namedor.Gorm.{
  Gorm, not_found, failed, Result, ok, err, Tx, ◌>>=◌, ◌>>◌, pure, when, run, read, each,
}

pub record SyncData : Type 0 where
  pub zones : List Zone
  pub templates : List Template

unfoldable pub clear_id : RData → RData
clear_id r = record r { id = 0 }

-- The set that is made in the zone of the database.
unfoldable pub synced_set : ℕ → RrSet → RrSet
unfolding clear_id
synced_set zone_id rs = record {
  id = 0;
  zone_id = zone_id;
  name = rs.name;
  type = rs.type;
  ttl = rs.ttl;
  records = map clear_id rs.records;
  deleted = false;
}

unfoldable pub synced_record : ℕ → TemplateRecord → TemplateRecord
synced_record template_id rec = record rec { id = 0; template_id = template_id; deleted = false }

module _ (gorm : Gorm) where
  open gorm use {Db}

  unfoldable pub export_data : Db → Result SyncData
  export_data db = elim (gorm.find_zones_with_records db) [
    | err e ↦ err e
    | ok zones ↦ elim (gorm.find_templates db) [
      | err e ↦ err e
      | ok templates ↦ ok (record { zones = zones; templates = templates })
    ]
  ]

  -- The zone of that name, made where there is none.
  unfoldable pub zone_for : Text → Tx Db Zone
  zone_for name db = elim (gorm.first_zone_named name db) [
    | ok z ↦ (ok z, db)
    | err not_found ↦
        gorm.create_zone (record { id = 0; name = name; rrsets = []; deleted = false }) db
    | err failed ↦ (err failed, db)
  ]

  unfoldable pub purge_zone : ℕ → Tx Db (Unit {0})
  purge_zone zone_id =
      read (gorm.rrset_ids zone_id)
      >>= (λ ids. when (not (is_empty ids)) (gorm.purge_records_of ids))
      >> gorm.purge_rrsets zone_id

  unfoldable pub sync_sets : List RrSet → ℕ → Tx Db (Unit {0})
  unfolding each synced_set
  sync_sets sets zone_id = each (λ rs. run (gorm.create_rrset (synced_set zone_id rs))) sets

  unfoldable pub sync_zone : Zone → Tx Db (Unit {0})
  unfolding zone_for purge_zone sync_sets
  sync_zone zone = zone_for zone.name >>= (λ z. purge_zone z.id >> sync_sets zone.rrsets z.id)

  -- The template of that name, made or with the new description.
  unfoldable pub template_for : Template → Tx Db Template
  template_for t db = elim (gorm.first_template_named t.name db) [
    | ok old ↦
        (run (gorm.save_template (record old { description = t.description }))
            >> pure (record old { description = t.description }))
          db
    | err not_found ↦
        gorm.create_template
          (record {
            id = 0;
            name = t.name;
            description = t.description;
            deleted = false;
            records = [];
          })
          db
    | err failed ↦ (err failed, db)
  ]

  unfoldable pub sync_template : Template → Tx Db (Unit {0})
  unfolding template_for each synced_record
  sync_template t = template_for t >>= (λ stored.
      gorm.purge_template_records stored.id
      >> each (λ rec. run (gorm.create_template_record (synced_record stored.id rec))) t.records)

  unfoldable pub import_data : SyncData → Tx Db (Unit {0})
  unfolding sync_zone sync_template each
  import_data d = gorm.transaction (each sync_zone d.zones >> each sync_template d.templates)
