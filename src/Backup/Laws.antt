-- ===== src/Backup/Laws.antt =====
-- A zone that is restored from a file.
use namedor.Common.{ℕ, ◌≡◌, refl, [], ◌++◌, map, ap, ◌∙◌, is_empty, not}
use namedor.Text.{codes, text_eq}
use namedor.Model.{Zone}
use namedor.Gorm.{Gorm, ok, each, run, Tx, ◌>>=◌, ◌>>◌, read, when}
use namedor.Gorm.Store.{IsStore, sets-each, bind_ok}
use namedor.Rest.Sync.{zone_for}
use namedor.Backup.{delete_sets, restored_set, restore_zone}

module _ (gorm : Gorm) (store : IsStore gorm) where
  open gorm use {Db}
  open store use {sets}

  pub sets-delete_sets :
      (zone_id : ℕ) (db : Db)
      → (delete_sets gorm zone_id db).0 ≡ ok tt
      → sets zone_id (delete_sets gorm zone_id db).1 ≡ []
  unfolding delete_sets
  sets-delete_sets zone_id db h =
      let (u, before, after, same) =
        bind_ok
          (read (gorm.rrset_ids zone_id)
            >>= (λ ids. when (not (is_empty ids)) (gorm.delete_records_of ids)))
          (λ _. gorm.delete_rrsets zone_id) db tt h in
      rw (same) (store.delete_rrsets zone_id _ after)

  -- Over a database that keeps IsStore, where the round of ImportZones for a zone succeeds in the mode
  -- merge, the sets of the zone that has or was given that name are those of the file and no other,
  -- in the order of the file and with new numbers, whatever the zone had before.
  sets-restore_zone :
      (zone : Zone) (db : Db)
      → (restore_zone gorm (codes "merge") zone db).0 ≡ ok tt
      → (z : Zone) × ((zone_for gorm zone.name db).0 ≡ ok z)
        × (sets z.id (restore_zone gorm (codes "merge") zone db).1
            ≡ map (restored_set z.id) zone.rrsets)
  unfolding restore_zone restored_set text_eq
  sets-restore_zone zone db h =
      let rest : Zone → Tx Db (Unit {0}) = λ z.
        delete_sets gorm z.id
        >> each (λ rs. run (gorm.create_rrset (restored_set z.id rs))) zone.rrsets in
      let (z, found, after, same) = bind_ok (zone_for gorm zone.name) rest db tt h in
      let db' = (zone_for gorm zone.name db).1 in
      let (u, deleted, created, same') =
        bind_ok (delete_sets gorm z.id)
          (λ _. each (λ rs. run (gorm.create_rrset (restored_set z.id rs))) zone.rrsets) db' tt
          after in
      let filled =
        sets-each gorm store (restored_set z.id) z.id (λ rs. refl) zone.rrsets
          (delete_sets gorm z.id db').1 created in
      (
        z,
        found,
        rw (same, same')
            (filled
              ∙ ap (λ xs. xs ++ map (restored_set z.id) zone.rrsets)
                  (sets-delete_sets z.id db' deleted)),
      )
