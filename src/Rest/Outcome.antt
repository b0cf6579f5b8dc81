-- ===== src/Rest/Outcome.antt =====
-- All or nothing: a request that is refused or fails changes nothing, and one that succeeds clears
-- the zone cache.
use namedor.Common.{
  ℕ, ℤ, ◌≤◌, ◌<◌, ◌≡◌, refl, ap, Option, none, some, List, arith, inl, inr, ◌⊎◌, is_empty,
  Bool-cases,
}
use namedor.Text.{Text, to_lower, to_upper}
use namedor.Names.{fqdn}
use namedor.Model.{Zone, RrSet}
use namedor.Gorm.{Gorm, DbError, not_found, failed, no_sets, sets_and_records, Result, ok, err}
use namedor.Gorm.Atomic.{IsAtomic}
use namedor.Rest.Sync.{SyncData, import_data}
use namedor.Rest.Records.{RrSetReq}
use namedor.ZoneIo.Import.{import_json, import_bind}
use namedor.Rest.Handlers.{
  Response, reply, conflict, db_failure, RestConfig, World, tell_dns, finish, or_404, create_zone,
  delete_zone, insert_rrset, create_rrset_in, create_rrset, update_rrset_in, update_rrset,
  delete_rrset, Import, json_body, bind_body, other_format, import_into, import_zone, Change,
  post_zone, remove_zone, post_rrset, put_rrset, remove_rrset, post_import, post_sync, sync_import,
  change,
}

module _ (gorm : Gorm) (atomic : IsAtomic gorm) where
  -- An error status and the state as it was, or a success and a cleared zone cache.
  abbrev pub AllOrNothing : World gorm → Response × World gorm → Type 0
  AllOrNothing w out =
      ((400 ≤ out.0.status) × (out.1 ≡ w))
      ⊎ ((out.0.status < 400) × (out.1.dns_server ≡ tell_dns gorm w.dns_server))

  finish_lem :
      {A : Type 0} (w : World gorm) (status : ℕ) (out : Result A × gorm.Db)
      (next : A → gorm.Db → Response × World gorm)
      → 400 ≤ status
      → ((e : DbError) → out.0 ≡ err e → out.1 ≡ w.db)
      → ((a : A) (db : gorm.Db) → AllOrNothing w (next a db))
      → AllOrNothing w (finish gorm w status out next)
  finish_lem w status (ok a, db) next big same good = good a db
  finish_lem w status (err e, db) next big same good =
      let back : db ≡ w.db = same e refl in
      inl (
        big,
        ap {A = gorm.Db} {B = World gorm} (λ d. record { db = d; dns_server = w.dns_server }) back,
      )

  or_404_lem :
      {A : Type 0} (w : World gorm) (what : Text) (r : Result A) (next : A → Response × World gorm)
      → ((a : A) → AllOrNothing w (next a))
      → AllOrNothing w (or_404 gorm w what r next)
  or_404_lem w what (ok a) next good = good a
  or_404_lem w what (err e) next good = inl (omega arith, refl)

  import_json-atomic :
      (zone_id : ℕ) (sets : List RrSet) (mode : Text) (ttl : ℕ) (db : gorm.Db) (e : DbError)
      → (import_json gorm zone_id sets mode ttl db).0 ≡ err e
      → (import_json gorm zone_id sets mode ttl db).1 ≡ db
  unfolding import_json
  import_json-atomic zone_id sets mode ttl db e = atomic.transaction _ db e

  import_bind-atomic :
      (zone_id : ℕ) (sets : List RrSet) (mode : Text) (db : gorm.Db) (e : DbError)
      → (import_bind gorm zone_id sets mode db).0 ≡ err e
      → (import_bind gorm zone_id sets mode db).1 ≡ db
  unfolding import_bind
  import_bind-atomic zone_id sets mode db e = atomic.transaction _ db e

  -- POST /zones, with a database whose failing statements change nothing.
  pub create_zone-AllOrNothing :
      (payload : Option Text) (w : World gorm) → AllOrNothing w (create_zone gorm payload w)
  unfolding create_zone
  create_zone-AllOrNothing none w = inl (omega arith, refl)
  create_zone-AllOrNothing (some name) w = elim (Bool-cases (is_empty name)) [
    | inl e ↦ rw e (inl (omega arith, refl))
    | inr e ↦ rw e (
        finish_lem w 400 _ _ (omega arith) (atomic.create_zone _ w.db)
          (λ z db. inr (omega arith, refl)))
  ]

  -- DELETE /zones/:id
  pub delete_zone-AllOrNothing :
      (id : Text) (w : World gorm) → AllOrNothing w (delete_zone gorm id w)
  unfolding delete_zone
  delete_zone-AllOrNothing id w = or_404_lem w _ (gorm.first_zone no_sets id w.db) _ λ z.
      finish_lem w 500 _ _ (omega arith) (atomic.transaction _ w.db)
        (λ _ db. inr (omega arith, refl))

  module _ (cfg : RestConfig) (now : ℤ) where
    insert_rrset-AllOrNothing :
        (z : Zone) (req : RrSetReq) (w : World gorm)
        → AllOrNothing w (insert_rrset gorm cfg now z req w)
    unfolding insert_rrset
    insert_rrset-AllOrNothing z req w =
        finish_lem w 400 _ _ (omega arith) (atomic.create_rrset _ w.db)
          (λ set db. inr (omega arith, refl))

    create_rrset_in-AllOrNothing :
        (z : Zone) (payload : Option RrSetReq) (w : World gorm)
        → AllOrNothing w (create_rrset_in gorm cfg now z payload w)
    unfolding create_rrset_in
    create_rrset_in-AllOrNothing z none w = inl (omega arith, refl)
    create_rrset_in-AllOrNothing z (some req) w =
        by_lookup (gorm.first_rrset z.id (to_lower (fqdn req.name z.name)) (to_upper req.type) w.db)
      where
        by_lookup :
            (found : Result RrSet)
            → AllOrNothing w (elim found [
              | ok existing ↦ (reply 409 (conflict existing.id), w)
              | err failed ↦ (reply 500 (db_failure failed), w)
              | err not_found ↦ insert_rrset gorm cfg now z req w
            ])
        by_lookup (ok existing) = inl (omega arith, refl)
        by_lookup (err failed) = inl (omega arith, refl)
        by_lookup (err not_found) = insert_rrset-AllOrNothing z req w

    update_rrset_in-AllOrNothing :
        (z : Zone) (set : RrSet) (payload : Option RrSetReq) (w : World gorm)
        → AllOrNothing w (update_rrset_in gorm cfg now z set payload w)
    unfolding update_rrset_in
    update_rrset_in-AllOrNothing z set none w = inl (omega arith, refl)
    update_rrset_in-AllOrNothing z set (some req) w =
        finish_lem w 500 _ _ (omega arith) (atomic.transaction _ w.db)
          (λ _ db. inr (omega arith, refl))

    import_into-AllOrNothing :
        (z : Zone) (mode : Text) (body : Import gorm cfg now) (w : World gorm)
        → AllOrNothing w (import_into gorm cfg now z mode body w)
    unfolding import_into
    import_into-AllOrNothing z mode (json_body none) w = inl (omega arith, refl)
    import_into-AllOrNothing z mode (json_body (some src)) w =
        finish_lem w 500 (import_json gorm z.id src.rrsets mode cfg.default_ttl w.db) _
          (omega arith) (import_json-atomic z.id src.rrsets mode cfg.default_ttl w.db)
          (λ _ db. inr (omega arith, refl))
    import_into-AllOrNothing z mode (bind_body records order parse_error) w =
        finish_lem w 400 _ _ (omega arith) (import_bind-atomic z.id _ mode w.db)
          (λ _ db. inr (omega arith, refl))
    import_into-AllOrNothing z mode other_format w = inl (omega arith, refl)

    sync_import-AllOrNothing :
        (payload : Option SyncData) (w : World gorm)
        → AllOrNothing w (sync_import gorm cfg now payload w)
    unfolding sync_import import_data
    sync_import-AllOrNothing none w = inl (omega arith, refl)
    sync_import-AllOrNothing (some d) w =
        finish_lem w 500 _ _ (omega arith) (atomic.transaction _ w.db)
          (λ _ db. inr (omega arith, refl))

    -- Every request that changes zones or sets is all or nothing, if gorm is atomic as it documents:
    -- either the status is an error and the database and the zone cache are as before, or it is a
    -- success and the zone cache of the DNS server, if there is one, has been cleared. This holds of
    -- creating and deleting zones, of creating, updating, patching and deleting sets, of imports, and
    -- of the import of all data for replication.
    pub change-AllOrNothing :
        (c : Change gorm cfg now) (w : World gorm) → AllOrNothing w (change gorm cfg now c w)
    unfolding change
    change-AllOrNothing (post_zone payload) w = create_zone-AllOrNothing payload w
    change-AllOrNothing (remove_zone id) w = delete_zone-AllOrNothing id w
    change-AllOrNothing (post_rrset id payload) w =
        unfold create_rrset in
        or_404_lem w _ (gorm.first_zone no_sets id w.db) _
          (λ z. create_rrset_in-AllOrNothing z payload w)
    change-AllOrNothing (put_rrset id rid payload) w =
        unfold update_rrset in
        or_404_lem w _ (gorm.first_zone no_sets id w.db) _ λ z.
          or_404_lem w _ (gorm.first_rrset_by_id z.id rid w.db) _
            (λ set. update_rrset_in-AllOrNothing z set payload w)
    change-AllOrNothing (remove_rrset id rid) w =
        unfold delete_rrset in
        or_404_lem w _ (gorm.first_zone no_sets id w.db) _ λ z.
          finish_lem w 500 _ _ (omega arith) (atomic.delete_rrset z.id rid w.db)
            (λ _ db. inr (omega arith, refl))
    change-AllOrNothing (post_import id mode body) w =
        unfold import_zone in
        or_404_lem w _ (gorm.first_zone sets_and_records id w.db) _
          (λ z. import_into-AllOrNothing z _ body w)
    change-AllOrNothing (post_sync payload) w = sync_import-AllOrNothing payload w
