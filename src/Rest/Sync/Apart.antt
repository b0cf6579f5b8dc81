-- ===== src/Rest/Sync/Apart.antt =====
-- The round of one zone leaves the zones of other names alone.
use namedor.Common.{
  ℕ, ◌≡◌, ◌≢◌, ◌⊎◌, refl, Bool, true, false, some, List, [], ◌∷◌, inl, inr, ◌∙◌, sym, is_empty, not,
}
use namedor.Text.{Text}
use namedor.Model.{Zone, RrSet}
use namedor.Gorm.{Gorm, Result, ok, err, each, run, Tx, ◌>>=◌, ◌>>◌, read, when, not_found, failed}
use namedor.Gorm.Store.{IsStore, bind_ok, run_lem}
use namedor.Gorm.Zones.{KeepsZones}
use namedor.Rest.Sync.{zone_for, purge_zone, sync_zone, sync_sets, synced_set}

module _ (gorm : Gorm) (store : IsStore gorm) (keeps : KeepsZones gorm store) where
  open gorm use {Db}
  open store use {sets}
  open keeps use {name_of}

  -- The zone keeps its name and its sets.
  unfoldable pub Same : ℕ → Text → Db → Db → Type 0
  Same j name db db' = (name_of j db' ≡ some name) × (sets j db' ≡ sets j db)

  abbrev fresh : Text → Zone
  fresh name = record { id = 0; name = name; rrsets = []; deleted = false }

  pub zone_for_cases :
      (name : Text) (db : Db)
      → ((y : Zone) × (gorm.first_zone_named name db ≡ ok y) × (zone_for gorm name db ≡ (ok y, db)))
        ⊎ ((zone_for gorm name db ≡ gorm.create_zone (fresh name) db)
            ⊎ (zone_for gorm name db ≡ (err failed, db)))
  unfolding zone_for
  zone_for_cases name db = go (gorm.first_zone_named name db) refl
    where
      go :
          (r : Result Zone)
          → gorm.first_zone_named name db ≡ r
          → ((y : Zone) × (gorm.first_zone_named name db ≡ ok y)
              × (zone_for gorm name db ≡ (ok y, db)))
            ⊎ ((zone_for gorm name db ≡ gorm.create_zone (fresh name) db)
                ⊎ (zone_for gorm name db ≡ (err failed, db)))
      go (ok y) e = inl (y, e, rw (zone_for, e) refl)
      go (err not_found) e = inr (inl (rw (zone_for, e) refl))
      go (err failed) e = inr (inr (rw (zone_for, e) refl))

  pub zone_for-name :
      (name : Text) (z : Zone) (db : Db)
      → (zone_for gorm name db).0 ≡ ok z
      → name_of z.id (zone_for gorm name db).1 ≡ some name
  zone_for-name name z db h = elim (zone_for_cases name db) [
    | inl (y, e, at) ↦
        let same : y ≡ z = cc (rw (at) at h) in
        rw (at, sym same) (keeps.first_zone_named name y db e)
    | inr (inl at) ↦ rw (at) (keeps.create_zone (fresh name) z db (rw (at) at h))
    | inr (inr at) ↦ cc (rw (at) at h)
  ]

  pub zone_for-Same :
      (name n : Text) (j : ℕ) (db : Db)
      → name_of j db ≡ some n
      → Same j n db (zone_for gorm name db).1
  unfolding Same
  zone_for-Same name n j db h = elim (zone_for_cases name db) [
    | inl (y, e, at) ↦ rw (at) (h, refl)
    | inr (inl at) ↦
        rw (at)
          (keeps.name-create_zone (fresh name) j n db h, keeps.sets-create_zone (fresh name) j db)
    | inr (inr at) ↦ rw (at) (h, refl)
  ]

  pub Same-trans : (j : ℕ) (n : Text) (a b c : Db) → Same j n a b → Same j n b c → Same j n a c
  unfolding Same
  Same-trans j n a b c (m, s) (m', s') = (m', s' ∙ s)

  pub Same-name : (j : ℕ) (n : Text) (a b : Db) → Same j n a b → name_of j b ≡ some n
  unfolding Same
  Same-name j n a b s = s.0

  -- A loop that creates sets of one zone leaves the names, and the sets of the others.
  pub create_each-name :
      (f : RrSet → RrSet) (j : ℕ) (rrsets : List RrSet) (db : Db)
      → (each (λ rs. run (gorm.create_rrset (f rs))) rrsets db).0 ≡ ok tt
      → name_of j (each (λ rs. run (gorm.create_rrset (f rs))) rrsets db).1 ≡ name_of j db
  unfolding each
  create_each-name f j [] db done = refl
  create_each-name f j (rs ∷ rrsets) db done =
      let add = run (gorm.create_rrset (f rs)) in
      let (u, first, rest, same) =
        bind_ok add (λ _. each (λ rs. run (gorm.create_rrset (f rs))) rrsets) db tt done in
      let here : name_of j (add db).1 ≡ name_of j db =
        rw (run_lem (gorm.create_rrset (f rs)) db) (keeps.name-create_rrset (f rs) j db) in
      rw (same) (create_each-name f j rrsets (add db).1 rest ∙ here)

  pub create_each-sets :
      (f : RrSet → RrSet) (id j : ℕ)
      → ((rs : RrSet) → (f rs).zone_id ≡ id)
      → (rrsets : List RrSet) (db : Db) → j ≢ id
      → (each (λ rs. run (gorm.create_rrset (f rs))) rrsets db).0 ≡ ok tt
      → sets j (each (λ rs. run (gorm.create_rrset (f rs))) rrsets db).1 ≡ sets j db
  unfolding each
  create_each-sets f id j own [] db other done = refl
  create_each-sets f id j own (rs ∷ rrsets) db other done =
      let add = run (gorm.create_rrset (f rs)) in
      let (u, first, rest, same) =
        bind_ok add (λ _. each (λ rs. run (gorm.create_rrset (f rs))) rrsets) db tt done in
      let apart : j ≢ (f rs).zone_id = λ e. other (e ∙ own rs) in
      let here : sets j (add db).1 ≡ sets j db =
        rw (run_lem (gorm.create_rrset (f rs)) db) (keeps.sets-create_rrset (f rs) j db apart) in
      rw (same) (create_each-sets f id j own rrsets (add db).1 other rest ∙ here)

  pub create_each-Same :
      (f : RrSet → RrSet) (id j : ℕ) (n : Text)
      → ((rs : RrSet) → (f rs).zone_id ≡ id)
      → (rrsets : List RrSet) (db : Db) → j ≢ id
      → name_of j db ≡ some n
      → (each (λ rs. run (gorm.create_rrset (f rs))) rrsets db).0 ≡ ok tt
      → Same j n db (each (λ rs. run (gorm.create_rrset (f rs))) rrsets db).1
  unfolding Same
  create_each-Same f id j n own rrsets db other h done =
      (create_each-name f j rrsets db done ∙ h, create_each-sets f id j own rrsets db other done)

  sync_sets-Same :
      (id j : ℕ) (n : Text) (rrsets : List RrSet) (db : Db)
      → j ≢ id
      → name_of j db ≡ some n
      → (sync_sets gorm rrsets id db).0 ≡ ok tt
      → Same j n db (sync_sets gorm rrsets id db).1
  unfolding sync_sets synced_set
  sync_sets-Same id j n rrsets db = create_each-Same (synced_set id) id j n (λ rs. refl) rrsets db

  when-Same :
      (b : Bool) (ids : List ℕ) (id j : ℕ) (n : Text) (db : Db)
      → gorm.rrset_ids id db ≡ ok ids
      → j ≢ id
      → name_of j db ≡ some n
      → Same j n db (when b (gorm.purge_records_of ids) db).1
  unfolding Same
  when-Same true ids id j n db e other h =
      (keeps.name-purge_records_of ids j db ∙ h, keeps.sets-purge_records_of ids id j db e other)
  when-Same false ids id j n db e other h = (h, refl)

  purge_rrsets-Same :
      (id j : ℕ) (n : Text) (db : Db)
      → j ≢ id
      → name_of j db ≡ some n
      → Same j n db (gorm.purge_rrsets id db).1
  unfolding Same
  purge_rrsets-Same id j n db other h =
      (keeps.name-purge_rrsets id j db ∙ h, keeps.sets-purge_rrsets id j db other)

  purge_zone-Same :
      (id j : ℕ) (n : Text) (db : Db)
      → j ≢ id
      → name_of j db ≡ some n
      → (purge_zone gorm id db).0 ≡ ok tt
      → Same j n db (purge_zone gorm id db).1
  unfolding purge_zone
  purge_zone-Same id j n db other h done =
      let unlink : List ℕ → Tx Db (Unit {0}) =
        λ ids. when (not (is_empty ids)) (gorm.purge_records_of ids) in
      let (u, before, after, same) =
        bind_ok (read (gorm.rrset_ids id) >>= unlink) (λ _. gorm.purge_rrsets id) db tt done in
      let (ids, e, unlinked, same') = bind_ok (read (gorm.rrset_ids id)) unlink db u before in
      let one : Same j n db (unlink ids db).1 =
        when-Same (not (is_empty ids)) ids id j n db e other h in
      rw (same, same')
        (Same-trans j n db (unlink ids db).1 _ one
          (purge_rrsets-Same id j n (unlink ids db).1 other (Same-name j n db _ one)))

  -- The round for a zone leaves a zone of another name alone.
  pub sync_zone-Same :
      (zone : Zone) (j : ℕ) (n : Text) (db : Db)
      → zone.name ≢ n
      → name_of j db ≡ some n
      → (sync_zone gorm zone db).0 ≡ ok tt
      → Same j n db (sync_zone gorm zone db).1
  unfolding sync_zone
  sync_zone-Same zone j n db other h done =
      let (z, found, after, same) =
        bind_ok (zone_for gorm zone.name)
          (λ z. purge_zone gorm z.id >> sync_sets gorm zone.rrsets z.id) db tt done in
      let db1 = (zone_for gorm zone.name db).1 in
      let (u, purged, created, same') =
        bind_ok (purge_zone gorm z.id) (λ _. sync_sets gorm zone.rrsets z.id) db1 tt after in
      let db2 = (purge_zone gorm z.id db1).1 in
      let s1 : Same j n db db1 = zone_for-Same zone.name n j db h in
      let apart : j ≢ z.id = λ e.
        let here : name_of j db1 ≡ some zone.name = rw (e) (zone_for-name zone.name z db found) in
        let there : name_of j db1 ≡ some n = Same-name j n db db1 s1 in other (cc) in
      let s2 : Same j n db1 db2 =
        purge_zone-Same z.id j n db1 apart (Same-name j n db db1 s1) purged in
      let s3 = sync_sets-Same z.id j n zone.rrsets db2 apart (Same-name j n db1 db2 s2) created in
      rw (same, same') (Same-trans j n db db2 _ (Same-trans j n db db1 db2 s1 s2) s3)
