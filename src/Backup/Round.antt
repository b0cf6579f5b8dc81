-- ===== src/Backup/Round.antt =====
-- One round of ImportZones, for its zone and for the others.
use namedor.Common.{
  ℕ, ◌≡◌, ◌≢◌, refl, Bool, true, some, List, [], ◌++◌, map, ap, ◌∙◌, sym, ◌⊎◌, inl, inr, Bool-cases,
  ◌==◌, arith,
}
use namedor.Text.{Text}
use namedor.Model.{Zone, RrSet}
use namedor.Gorm.{Gorm, ok, each, run, Tx, ◌>>=◌, ◌>>◌}
use namedor.Gorm.Store.{IsStore, bind_ok, sets-each}
use namedor.Gorm.Zones.{KeepsZones}
use namedor.Gorm.Restores.{KeepsRestored}
use namedor.Rest.Sync.{zone_for}
use namedor.Rest.Sync.Apart.{
  Same, Same-trans, Same-name, zone_for-Same, zone_for-name, zone_for_cases, create_each-Same,
  create_each-name, create_each-sets,
}
use namedor.Backup.{restored_set}
use namedor.Backup.Clear.{clear, clear-name, clear-sets, cleared}

module _ (gorm : Gorm) (store : IsStore gorm) (keeps : KeepsZones gorm store)
    (more : KeepsRestored gorm store keeps) where
  open gorm use {Db}
  open store use {sets}
  open keeps use {name_of}

  abbrev IsSame : ℕ → Text → Db → Db → Type 0
  IsSame = Same gorm store keeps

  abbrev fill : ℕ → List RrSet → Tx Db (Unit {0})
  fill id = each (λ rs. run (gorm.create_rrset (restored_set id rs)))

  abbrev pub round : Bool → Zone → Tx Db (Unit {0})
  round b zone =
      zone_for gorm zone.name >>= (λ z. clear gorm store keeps more b z.id >> fill z.id zone.rrsets)

  zone_for-names :
      (name : Text) (j : ℕ) (n : Text) (db : Db)
      → name_of j (zone_for gorm name db).1 ≡ some n
      → (n ≡ name) ⊎ (name_of j db ≡ some n)
  zone_for-names name j n db h = elim (zone_for_cases gorm store keeps name db) [
    | inl (y, e, at) ↦ inr (rw (at) at h)
    | inr (inl at) ↦ more.new_zone_name _ j n db (rw (at) at h)
    | inr (inr at) ↦ inr (rw (at) at h)
  ]

  -- Only a zone that is there has sets.
  unfoldable pub IsTidy : Db → Type 0
  IsTidy db = (j : ℕ) → (sets j db ≡ []) ⊎ ((n : Text) × (name_of j db ≡ some n))

  -- A zone of that name is not there yet, or has no sets.
  abbrev pub IsEmpty : Text → Db → Type 0
  IsEmpty name db = (j : ℕ) → name_of j db ≡ some name → sets j db ≡ []

  zone_for-sets :
      (name : Text) (z : Zone) (db : Db)
      → IsEmpty name db
      → IsTidy db
      → (zone_for gorm name db).0 ≡ ok z
      → sets z.id (zone_for gorm name db).1 ≡ []
  unfolding IsTidy
  zone_for-sets name z db none_yet tidy h = elim (zone_for_cases gorm store keeps name db) [
    | inl (y, e, at) ↦
        let same : y ≡ z = cc (rw (at) at h) in
        rw (at, sym same) (none_yet y.id (keeps.first_zone_named name y db e))
    | inr (inl at) ↦
        let unknown = more.new_zone_number _ z db (rw (at) at h) in
        rw (at) (elim (tidy z.id) [
          | inl bare ↦ keeps.sets-create_zone _ z.id db ∙ bare
          | inr (n, known) ↦ cc
        ])
    | inr (inr at) ↦ cc (rw (at) at h)
  ]

  zone_for-others : (name : Text) (j : ℕ) (db : Db) → sets j (zone_for gorm name db).1 ≡ sets j db
  zone_for-others name j db = elim (zone_for_cases gorm store keeps name db) [
    | inl (y, e, at) ↦ rw (at) refl
    | inr (inl at) ↦ rw (at) (keeps.sets-create_zone _ j db)
    | inr (inr at) ↦ rw (at) refl
  ]

  -- What the round leaves of the zone: its name, and the sets of the file, where the old ones are
  -- cleared or there are none.
  pub round-own :
      (b : Bool) (zone : Zone) (db : Db)
      → (b ≡ true) ⊎ (IsEmpty zone.name db × IsTidy db)
      → (round b zone db).0 ≡ ok tt
      → (id : ℕ) × (name_of id (round b zone db).1 ≡ some zone.name)
        × (sets id (round b zone db).1 ≡ map (restored_set id) zone.rrsets)
  round-own b zone db ready done =
      let (z, found, after, same) =
        bind_ok (zone_for gorm zone.name)
          (λ z. clear gorm store keeps more b z.id >> fill z.id zone.rrsets) db tt done in
      let db1 = (zone_for gorm zone.name db).1 in
      let (u, emptied, created, same') =
        bind_ok (clear gorm store keeps more b z.id) (λ _. fill z.id zone.rrsets) db1 tt after in
      let db2 = (clear gorm store keeps more b z.id db1).1 in
      let start : (b ≡ true) ⊎ (sets z.id db1 ≡ []) = elim ready [
        | inl e ↦ inl e
        | inr (h, tidy) ↦ inr (zone_for-sets zone.name z db h tidy found)
      ] in
      let named =
        create_each-name gorm store keeps (restored_set z.id) z.id zone.rrsets db2 created
        ∙ (clear-name gorm store keeps more b z.id z.id db1 emptied
            ∙ zone_for-name gorm store keeps zone.name z db found) in
      let filled =
        sets-each gorm store (restored_set z.id) z.id (λ rs. unfold restored_set in refl)
          zone.rrsets db2 created
        ∙ ap (λ xs. xs ++ map (restored_set z.id) zone.rrsets)
            (cleared gorm store keeps more b z.id db1 start emptied) in
      (z.id, rw (same, same') named, rw (same, same') filled)

  -- A zone of another name stays.
  pub round-Same :
      (b : Bool) (zone : Zone) (j : ℕ) (n : Text) (db : Db)
      → zone.name ≢ n
      → name_of j db ≡ some n
      → (round b zone db).0 ≡ ok tt
      → IsSame j n db (round b zone db).1
  round-Same b zone j n db other h done =
      let (z, found, after, same) =
        bind_ok (zone_for gorm zone.name)
          (λ z. clear gorm store keeps more b z.id >> fill z.id zone.rrsets) db tt done in
      let db1 = (zone_for gorm zone.name db).1 in
      let (u, emptied, created, same') =
        bind_ok (clear gorm store keeps more b z.id) (λ _. fill z.id zone.rrsets) db1 tt after in
      let db2 = (clear gorm store keeps more b z.id db1).1 in
      let s1 : IsSame j n db db1 = zone_for-Same gorm store keeps zone.name n j db h in
      let there = Same-name gorm store keeps j n db db1 s1 in
      let apart : j ≢ z.id = λ e.
        let here : name_of j db1 ≡ some zone.name =
          rw (e) (zone_for-name gorm store keeps zone.name z db found) in
        other (cc) in
      let s2 : IsSame j n db1 db2 =
        unfold Same in
        (
          clear-name gorm store keeps more b z.id j db1 emptied ∙ there,
          clear-sets gorm store keeps more b z.id j db1 apart emptied,
        ) in
      let s3 =
        create_each-Same gorm store keeps (restored_set z.id) z.id j n
          (λ rs. unfold restored_set in refl) zone.rrsets db2 apart
          (Same-name gorm store keeps j n db1 db2 s2) created in
      rw (same, same')
        (Same-trans gorm store keeps j n db db2 _ (Same-trans gorm store keeps j n db db1 db2 s1 s2)
          s3)

  -- No name but that of the zone is new.
  pub round-names :
      (b : Bool) (zone : Zone) (j : ℕ) (n : Text) (db : Db)
      → (round b zone db).0 ≡ ok tt
      → name_of j (round b zone db).1 ≡ some n
      → (n ≡ zone.name) ⊎ (name_of j db ≡ some n)
  round-names b zone j n db done h =
      let (z, found, after, same) =
        bind_ok (zone_for gorm zone.name)
          (λ z. clear gorm store keeps more b z.id >> fill z.id zone.rrsets) db tt done in
      let db1 = (zone_for gorm zone.name db).1 in
      let (u, emptied, created, same') =
        bind_ok (clear gorm store keeps more b z.id) (λ _. fill z.id zone.rrsets) db1 tt after in
      let db2 = (clear gorm store keeps more b z.id db1).1 in
      let filled =
        create_each-name gorm store keeps (restored_set z.id) j zone.rrsets db2 created in
      zone_for-names zone.name j n db (
        sym (clear-name gorm store keeps more b z.id j db1 emptied)
        ∙ (sym filled ∙ rw (same, same') at h))

  pub round-IsTidy :
      (b : Bool) (zone : Zone) (db : Db)
      → (round b zone db).0 ≡ ok tt
      → IsTidy db
      → IsTidy (round b zone db).1
  unfolding IsTidy Same
  round-IsTidy b zone db done tidy j =
      let (z, found, after, same) =
        bind_ok (zone_for gorm zone.name)
          (λ z. clear gorm store keeps more b z.id >> fill z.id zone.rrsets) db tt done in
      let db1 = (zone_for gorm zone.name db).1 in
      let (u, emptied, created, same') =
        bind_ok (clear gorm store keeps more b z.id) (λ _. fill z.id zone.rrsets) db1 tt after in
      let db2 = (clear gorm store keeps more b z.id db1).1 in
      let kept : name_of j (fill z.id zone.rrsets db2).1 ≡ name_of j db1 =
        create_each-name gorm store keeps (restored_set z.id) j zone.rrsets db2 created
        ∙ clear-name gorm store keeps more b z.id j db1 emptied in
      rw (same, same')
        (elim (Bool-cases (j == z.id)) [
          | inl e ↦
              let one : j ≡ z.id = ground arith in
              let here : name_of j db1 ≡ some zone.name =
                rw (one) (zone_for-name gorm store keeps zone.name z db found) in
              inr (zone.name, kept ∙ here)
          | inr e ↦
              let apart : j ≢ z.id = λ one. ground arith in
              let rows =
                create_each-sets gorm store keeps (restored_set z.id) z.id j
                  (λ rs. unfold restored_set in refl) zone.rrsets db2 apart created
                ∙ (clear-sets gorm store keeps more b z.id j db1 apart emptied
                    ∙ zone_for-others zone.name j db) in
              elim (tidy j) [
                | inl bare ↦ inl (rows ∙ bare)
                | inr (n, known) ↦
                    inr (n, kept ∙ (zone_for-Same gorm store keeps zone.name n j db known).0)
              ]
        ])
