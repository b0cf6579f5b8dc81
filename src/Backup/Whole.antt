-- ===== src/Backup/Whole.antt =====
-- All of ImportZones, in both modes.
use namedor.Common.{
  ℕ, ◌≡◌, refl, Bool, true, false, none, some, List, [], ◌∷◌, All, ◌∙◌, ◌⊎◌, inl, inr,
}
use namedor.Text.{Text, codes, text_eq}
use namedor.Model.{Zone}
use namedor.Gorm.{Gorm, DbError, Result-cases, ok, err, Tx, ◌>>◌, when}
use namedor.Gorm.Atomic.{IsAtomic}
use namedor.Gorm.Store.{IsStore, bind_ok}
use namedor.Gorm.Zones.{KeepsZones}
use namedor.Gorm.Restores.{KeepsRestored}
use namedor.Rest.Sync.Replica.{DistinctNames}
use namedor.Backup.{BackupData, restore_zone, erase_all, import_zones}
use namedor.Backup.Rounds.{IsReady, rounds, rounds-IsRestored, rounds-names, IsRestored, InFile}
use namedor.Backup.Round.{IsTidy}

module _ (gorm : Gorm) (store : IsStore gorm) (keeps : KeepsZones gorm store)
    (more : KeepsRestored gorm store keeps) where
  open gorm use {Db}
  open store use {sets}
  open keeps use {name_of}

  -- The database is empty.
  abbrev IsBare : Db → Type 0
  IsBare db = (j : ℕ) → (name_of j db ≡ none) × (sets j db ≡ [])

  erase_all-IsBare : (db : Db) → (erase_all gorm db).0 ≡ ok tt → IsBare (erase_all gorm db).1
  unfolding erase_all
  erase_all-IsBare db done j =
      let (u, before, after, same) =
        bind_ok (gorm.erase_records) (λ _. gorm.erase_rrsets >> gorm.erase_zones) db tt done in
      let db1 = (gorm.erase_records db).1 in
      let (v, rows, zones, same') =
        bind_ok (gorm.erase_rrsets) (λ _. gorm.erase_zones) db1 tt after in
      let db2 = (gorm.erase_rrsets db1).1 in
      rw (same, same')
        (more.erase_zones j db2 zones, more.sets-erase_zones j db2 ∙ more.erase_rrsets j db1 rows)

  abbrev replaces : Text → Bool
  replaces mode = text_eq mode (codes "replace")

  abbrev merges : Text → Bool
  merges mode = text_eq mode (codes "merge")

  All-IsReady :
      (b : Bool) (zones : List Zone) (db : Db)
      → ((zone : Zone) → IsReady gorm store keeps more b db zone)
      → All (IsReady gorm store keeps more b db) zones
  All-IsReady b [] db h = tt
  All-IsReady b (zone ∷ zones) db h = (h zone, All-IsReady b zones db h)

  -- The body of the transaction, after the deletion of everything or without it.
  abbrev body : Text → List Zone → Tx Db (Unit {0})
  body mode zones =
      when (replaces mode) (erase_all gorm) >> rounds gorm store keeps more (merges mode) zones

  import_zones-body :
      (backup : BackupData) (mode : Text) (db : Db)
      → import_zones gorm (some backup) mode db ≡ gorm.transaction (body mode backup.zones) db
  unfolding import_zones restore_zone
  import_zones-body backup mode db = refl

  -- What the deletion leaves.
  erased :
      (b : Bool) (db : Db)
      → (when b (erase_all gorm) db).0 ≡ ok tt
      → (b ≡ false) ⊎ IsBare (when b (erase_all gorm) db).1
  erased true db done = inr (erase_all-IsBare db done)
  erased false db done = inl refl

  -- The zones of the file are there, and in the mode replace no others.
  abbrev pub IsWhole : Text → List Zone → Db → Type 0
  IsWhole mode zones db =
      All (IsRestored gorm store keeps more db) zones
      × ((replaces mode ≡ false)
          ⊎ ((j : ℕ) (n : Text) → name_of j db ≡ some n → InFile gorm store keeps more n zones))

  body-IsWhole :
      (mode : Text) (zones : List Zone) (db : Db)
      → (merges mode ≡ true) ⊎ (replaces mode ≡ true)
      → DistinctNames gorm store keeps zones
      → (body mode zones db).0 ≡ ok tt
      → IsWhole mode zones (body mode zones db).1
  body-IsWhole mode zones db known distinct done =
      let clean = when (replaces mode) (erase_all gorm) in
      let (u, first, rest, same) =
        bind_ok clean (λ _. rounds gorm store keeps more (merges mode) zones) db tt done in
      let db1 = (clean db).1 in
      let gone = erased (replaces mode) db first in
      let ready : (zone : Zone) → IsReady gorm store keeps more (merges mode) db1 zone = λ zone.
        elim known [
          | inl m ↦ inl m
          | inr r ↦ elim gone [
            | inl no_way ↦ cc
            | inr bare ↦ inr ((λ j h. (bare j).1), (unfold IsTidy in λ j. inl (bare j).1))
          ]
        ] in
      let there =
        rounds-IsRestored gorm store keeps more (merges mode) zones db1 distinct
          (All-IsReady (merges mode) zones db1 ready) rest in
      let only : (replaces mode ≡ false)
          ⊎ ((j : ℕ) (n : Text)
              → name_of j (rounds gorm store keeps more (merges mode) zones db1).1 ≡ some n
              → InFile gorm store keeps more n zones) =
        elim gone [
          | inl merge ↦ inl merge
          | inr bare ↦ inr λ j n h.
              elim (rounds-names gorm store keeps more (merges mode) zones j n db1 rest h) [
                | inl there' ↦ there'
                | inr before ↦ let never = (bare j).0 in cc
              ]
        ] in
      rw (same) (there, only)

  -- ImportZones of a file whose zones have different names, in one of the two modes, over a database
  -- that keeps what gorm documents. Either it succeeds, and then each zone of the file is there
  -- under its name with the file's sets and no other, in their order and with new numbers, and in
  -- the mode replace every zone that is there has a name of the file; or it fails and has changed
  -- nothing.
  pub import_zones-IsWhole :
      IsAtomic gorm
      → (backup : BackupData) (mode : Text) (db : Db)
      → (merges mode ≡ true) ⊎ (replaces mode ≡ true)
      → DistinctNames gorm store keeps backup.zones
      → (((import_zones gorm (some backup) mode db).0 ≡ ok tt)
          × IsWhole mode backup.zones (import_zones gorm (some backup) mode db).1)
        ⊎ (((e : DbError) × ((import_zones gorm (some backup) mode db).0 ≡ err e))
            × ((import_zones gorm (some backup) mode db).1 ≡ db))
  import_zones-IsWhole atomic backup mode db known distinct =
      let same = import_zones-body backup mode db in
      elim (Result-cases (import_zones gorm (some backup) mode db).0) [
        | inl (e, failed) ↦
            let stop : (gorm.transaction (body mode backup.zones) db).0 ≡ err e =
              rw (same) at failed in
            inr ((e, failed), rw (same) (atomic.transaction (body mode backup.zones) db e stop))
        | inr (u, done) ↦
            let ran : (gorm.transaction (body mode backup.zones) db).0 ≡ ok tt =
              rw (same) at done in
            let run_body = atomic.transaction_ok (body mode backup.zones) db ran in
            let body_ok : (body mode backup.zones db).0 ≡ ok tt = rw (run_body) at ran in
            inl
              (done, rw (same, run_body) (body-IsWhole mode backup.zones db known distinct body_ok))
      ]
