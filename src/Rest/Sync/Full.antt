-- ===== src/Rest/Sync/Full.antt =====
-- The import of everything: zones, and then templates, in one transaction.
use namedor.Common.{ℕ, ◌≡◌, refl, List, [], ◌∷◌, All, ◌∙◌, inl, inr}
use namedor.Model.{Zone, Template}
use namedor.Gorm.{Gorm, ok, each, run, Tx, ◌>>◌}
use namedor.Gorm.Atomic.{IsAtomic}
use namedor.Gorm.Store.{IsStore, bind_ok, run_lem, bind_keeps, each_keeps}
use namedor.Gorm.Zones.{KeepsZones}
use namedor.Gorm.Templates.{KeepsTemplates}
use namedor.Rest.Sync.{SyncData, sync_zone, template_for, sync_template, synced_record, import_data}
use namedor.Rest.Sync.Replica.{IsCopied, DistinctNames, each-IsCopied}
use namedor.Rest.Sync.TemplateRow.{template_for_cases, store_description_lem}
use namedor.Rest.Sync.Templates.{IsCopiedTemplate, DistinctTemplates, each-IsCopiedTemplate}

module _ (gorm : Gorm) (store : IsStore gorm) (keeps : KeepsZones gorm store)
    (rows : KeepsTemplates gorm store keeps) where
  open gorm use {Db}
  open store use {sets}
  open keeps use {name_of}

  -- Names and sets of the zones are as they were.
  unfoldable SameZones : Db → Db → Type 0
  SameZones db db' = (j : ℕ) → (name_of j db' ≡ name_of j db) × (sets j db' ≡ sets j db)

  SameZones-refl : (db : Db) → SameZones db db
  unfolding SameZones
  SameZones-refl db j = (refl, refl)

  SameZones-trans : (a b c : Db) → SameZones a b → SameZones b c → SameZones a c
  unfolding SameZones
  SameZones-trans a b c h k j = let (m, s) = h j in let (m', s') = k j in (m' ∙ m, s' ∙ s)

  run-SameZones :
      {A : Type 0} (m : Tx Db A)
      → ((db : Db) → SameZones db (m db).1)
      → (db : Db) → SameZones db (run m db).1
  run-SameZones m h db = rw (run_lem m db) (h db)

  template_for-SameZones : (t : Template) (db : Db) → SameZones db (template_for gorm t db).1
  template_for-SameZones t db = elim (template_for_cases gorm store keeps rows t db) [
    | inl (old, found, at) ↦
        rw (at, store_description_lem gorm store keeps rows t old db)
          (unfold SameZones in λ j. rows.zones-save_template _ j db)
    | inr (inl at) ↦ rw (at) (unfold SameZones in λ j. rows.zones-create_template _ j db)
    | inr (inr at) ↦ rw (at) (SameZones-refl db)
  ]

  sync_template-SameZones : (t : Template) (db : Db) → SameZones db (sync_template gorm t db).1
  unfolding sync_template
  sync_template-SameZones t db =
      bind_keeps SameZones SameZones-refl SameZones-trans (template_for gorm t)
        (λ stored.
          gorm.purge_template_records stored.id
          >> each (λ rec. run (gorm.create_template_record (synced_record stored.id rec)))
              t.records)
        (template_for-SameZones t)
        (λ stored.
          bind_keeps SameZones SameZones-refl SameZones-trans
            (gorm.purge_template_records stored.id)
            (λ _.
              each (λ rec. run (gorm.create_template_record (synced_record stored.id rec)))
                t.records)
            (λ s. unfold SameZones in λ j. rows.zones-purge_template_records stored.id j s)
            (λ _.
              each_keeps SameZones SameZones-refl SameZones-trans _
                (λ rec.
                  run-SameZones (gorm.create_template_record (synced_record stored.id rec))
                    (λ s. unfold SameZones in λ j. rows.zones-create_template_record _ j s))
                t.records))
        db

  IsCopied-SameZones :
      (db db' : Db) (zones : List Zone)
      → SameZones db db'
      → All (IsCopied gorm store keeps db) zones
      → All (IsCopied gorm store keeps db') zones
  unfolding SameZones
  IsCopied-SameZones db db' [] same h = tt
  IsCopied-SameZones db db' (z ∷ zones) same ((id, name, rows'), h) =
      let (m, s) = same id in ((id, m ∙ name, s ∙ rows'), IsCopied-SameZones db db' zones same h)

  -- The database holds what the master sent.
  abbrev pub IsReplica : Db → SyncData → Type 0
  IsReplica db d =
      All (IsCopied gorm store keeps db) d.zones
      × All (IsCopiedTemplate gorm store keeps rows db) d.templates

  -- No two zones, and no two templates, have one name.
  abbrev pub HasNames : SyncData → Type 0
  HasNames d =
      DistinctNames gorm store keeps d.zones × DistinctTemplates gorm store keeps rows d.templates

  pub import_data-IsReplica :
      IsAtomic gorm
      → (d : SyncData) (db : Db) → HasNames d
      → (import_data gorm d db).0 ≡ ok tt
      → IsReplica (import_data gorm d db).1 d
  unfolding import_data
  import_data-IsReplica atomic d db (zones_apart, templates_apart) h =
      let body = each (sync_zone gorm) d.zones >> each (sync_template gorm) d.templates in
      let ran = atomic.transaction_ok body db h in
      let body_ok : (body db).0 ≡ ok tt = rw (ran) at h in
      let (u, zones, templates, same) =
        bind_ok (each (sync_zone gorm) d.zones) (λ _. each (sync_template gorm) d.templates) db tt
          body_ok in
      let db1 = (each (sync_zone gorm) d.zones db).1 in
      let first = each-IsCopied gorm store keeps d.zones db zones_apart zones in
      let kept =
        each_keeps SameZones SameZones-refl SameZones-trans (sync_template gorm)
          sync_template-SameZones d.templates db1 in
      rw (ran, same)
        (
          IsCopied-SameZones db1 _ d.zones kept first,
          each-IsCopiedTemplate gorm store keeps rows d.templates db1 templates_apart templates,
        )
