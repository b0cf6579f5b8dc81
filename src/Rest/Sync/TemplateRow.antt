-- ===== src/Rest/Sync/TemplateRow.antt =====
-- The row of a template, which a round of syncImport finds or makes.
use namedor.Common.{ℕ, false, ◌≡◌, ◌≢◌, refl, some, [], ◌∙◌, sym, ap, ◌⊎◌, inl, inr}
use namedor.Text.{Text}
use namedor.Model.{Template}
use namedor.Gorm.{Gorm, Result, Result-cases, ok, err, not_found, failed, run, Tx, ◌>>◌, pure}
use namedor.Gorm.Store.{IsStore}
use namedor.Gorm.Zones.{KeepsZones}
use namedor.Gorm.Templates.{KeepsTemplates}
use namedor.Rest.Sync.{template_for}

module _ (gorm : Gorm) (store : IsStore gorm) (keeps : KeepsZones gorm store)
    (rows : KeepsTemplates gorm store keeps) where
  open gorm use {Db}
  open rows use {template_of, records_of}

  -- The row and its records stay.
  unfoldable pub SameTemplate : ℕ → Text × Text → Db → Db → Type 0
  SameTemplate j x db db' = (template_of j db' ≡ some x) × (records_of j db' ≡ records_of j db)

  SameTemplate-refl :
      (j : ℕ) (x : Text × Text) (db : Db) → template_of j db ≡ some x → SameTemplate j x db db
  unfolding SameTemplate
  SameTemplate-refl j x db h = (h, refl)

  abbrev described : Template → Template → Template
  described t old = record old { description = t.description }

  abbrev fresh : Template → Template
  fresh t = record {
    id = 0;
    name = t.name;
    description = t.description;
    deleted = false;
    records = [];
  }

  abbrev store_description : Template → Template → Tx Db Template
  store_description t old = run (gorm.save_template (described t old)) >> pure (described t old)

  pub template_for_cases :
      (t : Template) (db : Db)
      → ((old : Template) × (gorm.first_template_named t.name db ≡ ok old)
          × (template_for gorm t db ≡ store_description t old db))
        ⊎ ((template_for gorm t db ≡ gorm.create_template (fresh t) db)
            ⊎ (template_for gorm t db ≡ (err failed, db)))
  unfolding template_for
  template_for_cases t db = go (gorm.first_template_named t.name db) refl
    where
      go :
          (r : Result Template)
          → gorm.first_template_named t.name db ≡ r
          → ((old : Template) × (gorm.first_template_named t.name db ≡ ok old)
              × (template_for gorm t db ≡ store_description t old db))
            ⊎ ((template_for gorm t db ≡ gorm.create_template (fresh t) db)
                ⊎ (template_for gorm t db ≡ (err failed, db)))
      go (ok old) e = inl (old, e, rw (template_for, e) refl)
      go (err not_found) e = inr (inl (rw (template_for, e) refl))
      go (err failed) e = inr (inr (rw (template_for, e) refl))

  pub store_description_lem :
      (t old : Template) (db : Db)
      → (store_description t old db).1 ≡ (gorm.save_template (described t old) db).1
  store_description_lem t old db = elim (Result-cases (gorm.save_template (described t old) db).0) [
    | inl (e, h) ↦ rw (h) refl
    | inr (a, h) ↦ rw (h) refl
  ]

  -- What the round makes is there with the name and the description of the master.
  pub template_of-template_for :
      (t stored : Template) (db : Db)
      → (template_for gorm t db).0 ≡ ok stored
      → template_of stored.id (template_for gorm t db).1 ≡ some (t.name, t.description)
  template_of-template_for t stored db h = elim (template_for_cases t db) [
    | inl (old, found, at) ↦
        let (same, row) = rows.first_template_named t.name old db found in
        let after : (store_description t old db).0 ≡ ok stored = rw (at) at h in
        elim (Result-cases (gorm.save_template (described t old) db).0) [
          | inl (e, stop) ↦ cc (rw (stop) at after)
          | inr (a, wrote) ↦
              let kept : described t old ≡ stored = cc (rw (wrote) at after) in
              let written = rows.save_template (described t old) a db wrote in
              rw (at, sym kept, store_description_lem t old db)
                (written ∙ ap (λ n. some (n, t.description)) same)
        ]
    | inr (inl at) ↦ rw (at) (rows.create_template (fresh t) stored db (rw (at) at h))
    | inr (inr at) ↦ cc (rw (at) at h)
  ]

  -- A template of another name stays.
  pub template_for-SameTemplate :
      (t : Template) (j : ℕ) (x : Text × Text) (db : Db)
      → t.name ≢ x.0
      → template_of j db ≡ some x
      → SameTemplate j x db (template_for gorm t db).1
  template_for-SameTemplate t j x db other h = elim (template_for_cases t db) [
    | inl (old, found, at) ↦
        let (same, row) = rows.first_template_named t.name old db found in
        let apart : j ≢ old.id = λ e.
          let here : template_of j db ≡ some (t.name, old.description) = rw (e) row in other (cc) in
        let (a, b) = rows.others-save_template (described t old) j db apart in
        rw (at, store_description_lem t old db) (unfold SameTemplate in (a ∙ h, b))
    | inr (inl at) ↦ rw (at) (unfold SameTemplate in rows.others-create_template (fresh t) j x db h)
    | inr (inr at) ↦ rw (at) (SameTemplate-refl j x db h)
  ]
