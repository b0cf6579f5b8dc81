-- ===== src/Rest/Sync/Templates.antt =====
-- A slave's copy of the templates.
use namedor.Common.{
  ℕ, ◌≡◌, ◌≢◌, refl, some, List, [], ◌∷◌, ◌++◌, map, All, ◌∙◌, sym, ap, append_assoc, append-nil,
  inl, inr,
}
use namedor.Text.{Text}
use mathlib.Core.Path.{subst}
use namedor.Model.{Template, TemplateRecord}
use namedor.Gorm.{Gorm, Result-cases, ok, each, run, Tx, ◌>>◌}
use namedor.Gorm.Store.{IsStore, bind_ok, run_lem}
use namedor.Gorm.Zones.{KeepsZones}
use namedor.Gorm.Templates.{KeepsTemplates}
use namedor.Rest.Sync.TemplateRow.{
  SameTemplate, template_of-template_for, template_for-SameTemplate,
}
use namedor.Rest.Sync.{template_for, sync_template, synced_record}

module _ (gorm : Gorm) (store : IsStore gorm) (keeps : KeepsZones gorm store)
    (rows : KeepsTemplates gorm store keeps) where
  open gorm use {Db}
  open rows use {template_of, records_of}

  -- The loop over the records of a template.
  abbrev add_records : ℕ → List TemplateRecord → Tx Db (Unit {0})
  add_records id = each (λ rec. run (gorm.create_template_record (synced_record id rec)))

  records_of-add_records :
      (id : ℕ) (records : List TemplateRecord) (db : Db)
      → (add_records id records db).0 ≡ ok tt
      → records_of id (add_records id records db).1
        ≡ records_of id db ++ map (synced_record id) records
  unfolding each synced_record
  records_of-add_records id [] db h = sym (append-nil (records_of id db))
  records_of-add_records id (rec ∷ records) db h =
      let new = synced_record id rec in
      elim (Result-cases (gorm.create_template_record new db).0) [
        | inl (e, stop) ↦ cc (rw (stop) at h)
        | inr (stored, wrote) ↦
            let rest =
              records_of-add_records id records (gorm.create_template_record new db).1
                (rw (wrote) at h) in
            let added = rows.create_template_record new stored db wrote in
            rw (wrote) (
              rest
              ∙ ap (λ xs. xs ++ map (synced_record id) records) added
              ∙ append_assoc (records_of id db) (new ∷ []) (map (synced_record id) records))
      ]

  template_of-add_records :
      (id j : ℕ) (records : List TemplateRecord) (db : Db)
      → (add_records id records db).0 ≡ ok tt
      → template_of j (add_records id records db).1 ≡ template_of j db
  unfolding each synced_record
  template_of-add_records id j [] db h = refl
  template_of-add_records id j (rec ∷ records) db h =
      let new = synced_record id rec in
      let add = run (gorm.create_template_record new) in
      let (u, first, rest, same) = bind_ok add (λ _. add_records id records) db tt h in
      let here : template_of j (add db).1 ≡ template_of j db =
        rw (run_lem (gorm.create_template_record new) db)
          (rows.template_of-create_template_record new j db) in
      rw (same) (template_of-add_records id j records (add db).1 rest ∙ here)

  others-add_records :
      (id j : ℕ) (records : List TemplateRecord) (db : Db)
      → j ≢ id
      → (add_records id records db).0 ≡ ok tt
      → records_of j (add_records id records db).1 ≡ records_of j db
  unfolding each synced_record
  others-add_records id j [] db other h = refl
  others-add_records id j (rec ∷ records) db other h =
      let new = synced_record id rec in
      let add = run (gorm.create_template_record new) in
      let (u, first, rest, same) = bind_ok add (λ _. add_records id records) db tt h in
      let here : records_of j (add db).1 ≡ records_of j db =
        rw (run_lem (gorm.create_template_record new) db)
          (rows.records_of-create_template_record new j db other) in
      rw (same) (others-add_records id j records (add db).1 other rest ∙ here)

  -- The template is there with the description and the records of the master.
  abbrev pub IsCopiedTemplate : Db → Template → Type 0
  IsCopiedTemplate db t =
      (id : ℕ) × (template_of id db ≡ some (t.name, t.description))
      × (records_of id db ≡ map (synced_record id) t.records)

  -- The two steps of a round that follow the choice of the row.
  abbrev refill : Template → Template → Tx Db (Unit {0})
  refill t stored = gorm.purge_template_records stored.id >> add_records stored.id t.records

  refill-template_of :
      (t stored : Template) (j : ℕ) (db : Db)
      → (refill t stored db).0 ≡ ok tt
      → template_of j (refill t stored db).1 ≡ template_of j db
  refill-template_of t stored j db h =
      let (u, purged, added, same) =
        bind_ok (gorm.purge_template_records stored.id) (λ _. add_records stored.id t.records) db tt
          h in
      rw (same) (
        template_of-add_records stored.id j t.records _ added
        ∙ rows.template_of-purge_template_records stored.id j db)

  records_of-refill :
      (t stored : Template) (db : Db)
      → (refill t stored db).0 ≡ ok tt
      → records_of stored.id (refill t stored db).1 ≡ map (synced_record stored.id) t.records
  records_of-refill t stored db h =
      let (u, purged, added, same) =
        bind_ok (gorm.purge_template_records stored.id) (λ _. add_records stored.id t.records) db tt
          h in
      rw (same) (
        records_of-add_records stored.id t.records _ added
        ∙ ap (λ xs. xs ++ map (synced_record stored.id) t.records)
            (rows.purge_template_records stored.id db purged))

  others-refill :
      (t stored : Template) (j : ℕ) (db : Db)
      → j ≢ stored.id
      → (refill t stored db).0 ≡ ok tt
      → records_of j (refill t stored db).1 ≡ records_of j db
  others-refill t stored j db other h =
      let (u, purged, added, same) =
        bind_ok (gorm.purge_template_records stored.id) (λ _. add_records stored.id t.records) db tt
          h in
      rw (same) (
        others-add_records stored.id j t.records _ other added
        ∙ rows.records_of-purge_template_records stored.id j db other)

  sync_template-IsCopied :
      (t : Template) (db : Db)
      → (sync_template gorm t db).0 ≡ ok tt
      → IsCopiedTemplate (sync_template gorm t db).1 t
  unfolding sync_template
  sync_template-IsCopied t db h =
      let (stored, found, after, same) = bind_ok (template_for gorm t) (refill t) db tt h in
      let db1 = (template_for gorm t db).1 in
      (
        stored.id,
        rw (same) (
            refill-template_of t stored stored.id db1 after
            ∙ template_of-template_for gorm store keeps rows t stored db found),
        rw (same) (records_of-refill t stored db1 after),
      )

  sync_template-SameTemplate :
      (t : Template) (j : ℕ) (x : Text × Text) (db : Db)
      → t.name ≢ x.0
      → template_of j db ≡ some x
      → (sync_template gorm t db).0 ≡ ok tt
      → SameTemplate gorm store keeps rows j x db (sync_template gorm t db).1
  unfolding sync_template SameTemplate
  sync_template-SameTemplate t j x db other here h =
      let (stored, found, after, same) = bind_ok (template_for gorm t) (refill t) db tt h in
      let db1 = (template_for gorm t db).1 in
      let (row, records) = template_for-SameTemplate gorm store keeps rows t j x db other here in
      let apart : j ≢ stored.id = λ e.
        let own : template_of j db1 ≡ some (t.name, t.description) =
          rw (e) (template_of-template_for gorm store keeps rows t stored db found) in
        other (cc) in
      rw (same) (
        refill-template_of t stored j db1 after ∙ row,
        others-refill t stored j db1 apart after ∙ records,
      )

  IsCopiedTemplate-Same :
      (t : Template) (templates : List Template) (db : Db)
      → All (λ y. y.name ≢ t.name) templates
      → IsCopiedTemplate db t
      → (each (sync_template gorm) templates db).0 ≡ ok tt
      → IsCopiedTemplate (each (sync_template gorm) templates db).1 t
  unfolding each SameTemplate
  IsCopiedTemplate-Same t [] db apart copied h = copied
  IsCopiedTemplate-Same t (y ∷ templates) db (other, apart) (id, row, records) h =
      let (u, first, rest, same) =
        bind_ok (sync_template gorm y) (λ _. each (sync_template gorm) templates) db tt h in
      let (row', records') =
        sync_template-SameTemplate y id (t.name, t.description) db other row first in
      rw (same) (
        IsCopiedTemplate-Same t templates (sync_template gorm y db).1 apart
          (id, row', records' ∙ records) rest)

  abbrev pub DistinctTemplates : List Template → Type 0
  DistinctTemplates [] = Unit
  DistinctTemplates (t ∷ templates) =
      All (λ y. y.name ≢ t.name) templates × DistinctTemplates templates

  -- The loop over the templates copies each of them.
  pub each-IsCopiedTemplate :
      (templates : List Template) (db : Db)
      → DistinctTemplates templates
      → (each (sync_template gorm) templates db).0 ≡ ok tt
      → All (IsCopiedTemplate (each (sync_template gorm) templates db).1) templates
  unfolding each
  each-IsCopiedTemplate [] db distinct h = tt
  each-IsCopiedTemplate (t ∷ templates) db (apart, distinct) h =
      let (u, first, rest, same) =
        bind_ok (sync_template gorm t) (λ _. each (sync_template gorm) templates) db tt h in
      let db' = (sync_template gorm t db).1 in
      let here =
        IsCopiedTemplate-Same t templates db' apart (sync_template-IsCopied t db first) rest in
      let others = each-IsCopiedTemplate templates db' distinct rest in
      (rw (same) here, subst (λ out. All (IsCopiedTemplate out.1) templates) (sym same) others)
