-- ===== src/Rest/Sync/Laws.antt =====
-- A slave's copy of a zone.
use namedor.Common.{ℕ, ◌≡◌, refl, List, [], ◌++◌, map, ap, ◌∙◌, is_empty, not}
use namedor.Model.{RrSet}
use namedor.Gorm.{Gorm, ok, ◌>>=◌, read, when}
use namedor.Gorm.Store.{IsStore, sets-each, bind_ok}
use namedor.Rest.Sync.{purge_zone, sync_sets, synced_set}

module _ (gorm : Gorm) (store : IsStore gorm) where
  open gorm use {Db}
  open store use {sets}

  sets-purge_zone :
      (zone_id : ℕ) (db : Db)
      → (purge_zone gorm zone_id db).0 ≡ ok tt
      → sets zone_id (purge_zone gorm zone_id db).1 ≡ []
  unfolding purge_zone
  sets-purge_zone zone_id db h =
      let (u, before, after, same) =
        bind_ok
          (read (gorm.rrset_ids zone_id)
            >>= (λ ids. when (not (is_empty ids)) (gorm.purge_records_of ids)))
          (λ _. gorm.purge_rrsets zone_id) db tt h in
      rw (same) (store.purge_rrsets zone_id _ after)

  -- After the old sets are gone, the new ones are all there is.
  pub sets-synced :
      (zone_id : ℕ) (rrsets : List RrSet) (db : Db)
      → (purge_zone gorm zone_id db).0 ≡ ok tt
      → (sync_sets gorm rrsets zone_id (purge_zone gorm zone_id db).1).0 ≡ ok tt
      → sets zone_id (sync_sets gorm rrsets zone_id (purge_zone gorm zone_id db).1).1
        ≡ map (synced_set zone_id) rrsets
  unfolding sync_sets synced_set
  sets-synced zone_id rrsets db purged created =
      sets-each gorm store (synced_set zone_id) zone_id (λ rs. refl) rrsets
        (purge_zone gorm zone_id db).1 created
      ∙ ap (λ xs. xs ++ map (synced_set zone_id) rrsets) (sets-purge_zone zone_id db purged)
