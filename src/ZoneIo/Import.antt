-- ===== src/ZoneIo/Import.antt =====
-- ImportJSON of json.go, and the part of ImportBIND of bind.go after the file has been parsed.
use namedor.Common.{ℕ, List, [], ◌∷◌}
use namedor.Text.{Text, codes, text_eq, to_upper, to_lower}
use namedor.Model.{RrSet}
use namedor.Gorm.{Gorm, ok, err, Tx, ◌>>◌, pure, when, run}
use namedor.Rest.Records.{or_default_ttl}

module _ (gorm : Gorm) where
  open gorm use {Db}

  -- The stored set gets the TTL and the records of the new one.
  unfoldable pub replace_set : RrSet → RrSet → Tx Db (Unit {0})
  replace_set existing rs = do
    gorm.delete_records existing.id
    run (gorm.save_rrset (record existing { ttl = rs.ttl; records = rs.records }))

  -- One round of the loop of ImportJSON.
  unfoldable pub import_set : ℕ → ℕ → RrSet → Tx Db (Unit {0})
  unfolding replace_set
  import_set zone_id default_ttl rs db =
      let rs' = record rs {
        zone_id = zone_id;
        name = to_lower rs.name;
        type = to_upper rs.type;
        ttl = or_default_ttl default_ttl rs.ttl;
      } in
      elim (gorm.first_rrset zone_id rs'.name rs'.type db) [
        | ok existing ↦ replace_set existing rs' db
        | err e ↦ run (gorm.create_rrset rs') db
      ]

  unfoldable pub import_sets : ℕ → ℕ → List RrSet → Tx Db (Unit {0})
  unfolding import_set
  import_sets zone_id default_ttl [] = pure tt
  import_sets zone_id default_ttl (rs ∷ sets) = do
    import_set zone_id default_ttl rs
    import_sets zone_id default_ttl sets

  unfoldable pub import_json : ℕ → List RrSet → Text → ℕ → Tx Db (Unit {0})
  unfolding import_sets
  import_json zone_id sets mode default_ttl = gorm.transaction do
    when (text_eq mode (codes "replace")) (gorm.delete_rrsets zone_id)
    import_sets zone_id default_ttl sets

  -- One round of the second loop of ImportBIND: `existing.ID != 0` after a Find with Limit(1), where
  -- an error is ignored.
  unfoldable pub merge_set : ℕ → RrSet → Tx Db (Unit {0})
  unfolding replace_set
  merge_set zone_id rs db = elim (gorm.first_rrset zone_id rs.name rs.type db) [
    | ok existing ↦ replace_set existing rs db
    | err e ↦ run (gorm.create_rrset rs) db
  ]

  unfoldable pub merge_sets : ℕ → List RrSet → Tx Db (Unit {0})
  unfolding merge_set
  merge_sets zone_id [] = pure tt
  merge_sets zone_id (rs ∷ sets) = do merge_set zone_id rs; merge_sets zone_id sets

  -- The sets come in the order in which Go's map hands them out.
  unfoldable pub import_bind : ℕ → List RrSet → Text → Tx Db (Unit {0})
  unfolding merge_sets
  import_bind zone_id sets mode = gorm.transaction do
    when (text_eq (to_lower mode) (codes "replace")) (gorm.delete_rrsets zone_id)
    merge_sets zone_id sets
