-- ===== src/Backup/Clear.antt =====
-- The deletion of the sets of a zone, which a round of ImportZones starts with in the mode merge.
use namedor.Common.{
  ℕ, ◌≡◌, ◌≢◌, refl, Bool, true, false, List, [], ◌∙◌, is_empty, not, ◌⊎◌, inl, inr,
}
use namedor.Gorm.{Gorm, ok, Tx, ◌>>=◌, read, when}
use namedor.Gorm.Store.{IsStore, bind_ok}
use namedor.Gorm.Zones.{KeepsZones}
use namedor.Gorm.Restores.{KeepsRestored}
use namedor.Backup.{delete_sets}
use namedor.Backup.Laws.{sets-delete_sets}

module _ (gorm : Gorm) (store : IsStore gorm) (keeps : KeepsZones gorm store)
    (more : KeepsRestored gorm store keeps) where
  open gorm use {Db}
  open store use {sets}
  open keeps use {name_of}

  unlink-name :
      (b : Bool) (ids : List ℕ) (j : ℕ) (db : Db)
      → name_of j (when b (gorm.delete_records_of ids) db).1 ≡ name_of j db
  unlink-name true ids j db = more.name-delete_records_of ids j db
  unlink-name false ids j db = refl

  unlink-sets :
      (b : Bool) (ids : List ℕ) (id j : ℕ) (db : Db)
      → gorm.rrset_ids id db ≡ ok ids
      → j ≢ id
      → sets j (when b (gorm.delete_records_of ids) db).1 ≡ sets j db
  unlink-sets true ids id j db e other = more.sets-delete_records_of ids id j db e other
  unlink-sets false ids id j db e other = refl

  -- The deletion of the sets of a zone leaves all names, and the sets of the others.
  delete_sets-others :
      (id j : ℕ) (db : Db)
      → (delete_sets gorm id db).0 ≡ ok tt
      → (name_of j (delete_sets gorm id db).1 ≡ name_of j db)
        × (((j ≡ id) → ⊥) → sets j (delete_sets gorm id db).1 ≡ sets j db)
  unfolding delete_sets
  delete_sets-others id j db done =
      let unlink : List ℕ → Tx Db (Unit {0}) =
        λ ids. when (not (is_empty ids)) (gorm.delete_records_of ids) in
      let (u, before, after, same) =
        bind_ok (read (gorm.rrset_ids id) >>= unlink) (λ _. gorm.delete_rrsets id) db tt done in
      let (ids, e, unlinked, same') = bind_ok (read (gorm.rrset_ids id)) unlink db u before in
      let b = not (is_empty ids) in
      (
        rw (same, same') (more.name-delete_rrsets id j (unlink ids db).1 ∙ unlink-name b ids j db),
        λ other.
            rw (same, same')
              (more.sets-delete_rrsets id j (unlink ids db).1 other
                ∙ unlink-sets b ids id j db e other),
      )

  -- The part of a round that the mode merge has alone.
  abbrev pub clear : Bool → ℕ → Tx Db (Unit {0})
  clear b id = when b (delete_sets gorm id)

  pub clear-name :
      (b : Bool) (id j : ℕ) (db : Db)
      → (clear b id db).0 ≡ ok tt
      → name_of j (clear b id db).1 ≡ name_of j db
  clear-name true id j db done = (delete_sets-others id j db done).0
  clear-name false id j db done = refl

  pub clear-sets :
      (b : Bool) (id j : ℕ) (db : Db)
      → j ≢ id
      → (clear b id db).0 ≡ ok tt
      → sets j (clear b id db).1 ≡ sets j db
  clear-sets true id j db other done = (delete_sets-others id j db done).1 other
  clear-sets false id j db other done = refl

  pub cleared :
      (b : Bool) (id : ℕ) (db : Db)
      → (b ≡ true) ⊎ (sets id db ≡ [])
      → (clear b id db).0 ≡ ok tt
      → sets id (clear b id db).1 ≡ []
  cleared true id db h done = sets-delete_sets gorm store id db done
  cleared false id db (inl h) done = cc
  cleared false id db (inr h) done = h
