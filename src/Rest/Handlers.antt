-- ===== src/Rest/Handlers.antt =====
-- The handlers of the REST API, one function each. What gin parses of a request is an argument.
use namedor.Common.{
  length, ℕ, ℤ, Bool, false, Option, none, some, List, [], is_empty, if◌then◌else◌,
}
use namedor.Text.{Text, codes, text_eq, to_lower, to_upper}
use namedor.Names.{fqdn}
use namedor.Model.{Zone, RrSet}
use namedor.Gorm.{
  Gorm, DbError, not_found, failed, no_sets, sets_only, sets_and_records, Result, ok, err, ◌>>◌,
  run,
}
use namedor.ZoneCache
use namedor.ZoneCache.{ZoneCache}
use namedor.Soa.{bump_soa_serial, bump_soa_serial_auto}
use namedor.Rest.Records.{RrSetReq, new_set, updated_set}
use namedor.Rest.Sync.{SyncData, export_data, import_data}
use namedor.ZoneIo.Import.{import_json, import_bind}
use namedor.ZoneIo.Bind.{Parsed, group_records, to_bind}

pub data Body : Type 0 where
  nothing : Body
  message : Text → Body
  db_failure : DbError → Body
  conflict : (existing_id : ℕ) → Body
  a_zone : Zone → Body
  zones : List Zone → Body
  a_set : RrSet → Body
  sets : List RrSet → Body
  text : Text → Body
  sync_data : SyncData → Body
  synced : (zones templates : ℕ) → Body

pub record Response : Type 0 where
  pub status : ℕ
  pub body : Body

abbrev pub reply : ℕ → Body → Response
reply status body = record { status = status; body = body }

-- The settings that the handlers read.
pub record RestConfig : Type 0 where
  pub default_ttl : ℕ
  pub auto_soa_on_missing : Bool

module _ (gorm : Gorm) where
  -- The database, and the zone cache of the DNS server, if the REST server has one.
  pub record World : Type 0 where
    pub db : gorm.Db
    pub dns_server : Option ZoneCache

  abbrev pub tell_dns : Option ZoneCache → Option ZoneCache
  tell_dns none = none
  tell_dns (some zc) = some (ZoneCache.invalidate zc)

  -- After a change: the new contents, and the zone cache cleared.
  abbrev pub changed : World → gorm.Db → World
  changed w db = record { db = db; dns_server = tell_dns w.dns_server }

  abbrev pub with_db : World → gorm.Db → World
  with_db w db = record w { db = db }

  -- The end of a handler whose last statement may have failed.
  abbrev pub finish :
      {A : Type 0}
      → World
      → ℕ
      → Result A × gorm.Db
      → (A → gorm.Db → Response × World)
      → Response × World
  finish w status (err e, db) next = (reply status (db_failure e), with_db w db)
  finish w status (ok a, db) next = next a db

  abbrev pub or_404 :
      {A : Type 0} → World → Text → Result A → (A → Response × World) → Response × World
  or_404 w what (err e) next = (reply 404 (message what), w)
  or_404 w what (ok a) next = next a

  abbrev zone_404 : Text
  zone_404 = codes "zone not found"

  abbrev bad_payload : World → Response × World
  bad_payload w = (reply 400 (message (codes "invalid payload")), w)

  unfoldable pub create_zone : Option Text → World → Response × World
  create_zone none w = bad_payload w
  create_zone (some name) w =
      if is_empty name
      then bad_payload w
      else finish w 400
          (gorm.create_zone (record { id = 0; name = to_lower name; rrsets = []; deleted = false })
            w.db)
          (λ z db. (reply 201 (a_zone z), changed w db))

  unfoldable pub list_zones : World → Response × World
  list_zones w = elim (gorm.find_zones w.db) [
    | err e ↦ (reply 500 (db_failure e), w)
    | ok zs ↦ (reply 200 (zones zs), w)
  ]

  unfoldable pub get_zone : Text → World → Response × World
  get_zone id w =
      or_404 w (codes "not found") (gorm.first_zone sets_only id w.db)
        (λ z. (reply 200 (a_zone z), w))

  unfoldable pub delete_zone : Text → World → Response × World
  delete_zone id w = or_404 w (codes "not found") (gorm.first_zone no_sets id w.db) λ z.
      finish w 500 (gorm.transaction (do gorm.delete_rrsets z.id; gorm.delete_zone z.id) w.db)
        (λ _ db. (reply 204 nothing, changed w db))

  -- The formats of exportZone.
  unfoldable pub export_as : Text → Zone → Response
  export_as format z =
      if text_eq format (codes "json")
      then reply 200 (a_zone z)
      else if text_eq format (codes "bind")
      then reply 200 (text (to_bind z))
      else reply 400 (message (codes "unsupported format"))

  unfoldable pub export_zone : Text → Text → World → Response × World
  unfolding export_as
  export_zone id format w =
      or_404 w zone_404 (gorm.first_zone sets_and_records id w.db)
        (λ z. (export_as (to_lower format) z, w))

  unfoldable pub sync_export : World → Response × World
  sync_export w = elim (export_data gorm w.db) [
    | err e ↦ (reply 500 (db_failure e), w)
    | ok d ↦ (reply 200 (sync_data d), w)
  ]

  module _ (cfg : RestConfig) (now : ℤ) where
    abbrev bumped : Zone → gorm.Db → gorm.Db
    bumped z db = bump_soa_serial_auto gorm now z cfg.auto_soa_on_missing db

    -- createRRSet once the key is known to be free.
    unfoldable pub insert_rrset : Zone → RrSetReq → World → Response × World
    insert_rrset z req w =
        finish w 400 (gorm.create_rrset (new_set cfg.default_ttl z req) w.db)
          (λ set db. (reply 201 (a_set set), changed w (bumped z db)))

    unfoldable pub create_rrset_in : Zone → Option RrSetReq → World → Response × World
    unfolding insert_rrset
    create_rrset_in z none w = bad_payload w
    create_rrset_in z (some req) w =
        elim (gorm.first_rrset z.id (to_lower (fqdn req.name z.name)) (to_upper req.type) w.db) [
          | ok existing ↦ (reply 409 (conflict existing.id), w)
          | err failed ↦ (reply 500 (db_failure failed), w)
          | err not_found ↦ insert_rrset z req w
        ]

    unfoldable pub create_rrset : Text → Option RrSetReq → World → Response × World
    unfolding create_rrset_in
    create_rrset id payload w =
        or_404 w zone_404 (gorm.first_zone no_sets id w.db) (λ z. create_rrset_in z payload w)

    unfoldable pub update_rrset_in : Zone → RrSet → Option RrSetReq → World → Response × World
    update_rrset_in z set none w = bad_payload w
    update_rrset_in z set (some req) w =
        let set' = updated_set cfg.default_ttl z req set in
        finish w 500
          (gorm.transaction (do gorm.delete_records set.id; run (gorm.save_rrset set')) w.db)
          (λ _ db. (reply 200 (a_set set'), changed w (bumped z db)))

    -- updateRRSet, and patchRRSet, which calls it. The response has the set as it was handed to Save.
    unfoldable pub update_rrset : Text → Text → Option RrSetReq → World → Response × World
    unfolding update_rrset_in
    update_rrset id rid payload w = or_404 w zone_404 (gorm.first_zone no_sets id w.db) λ z.
        or_404 w (codes "rrset not found") (gorm.first_rrset_by_id z.id rid w.db)
          (λ set. update_rrset_in z set payload w)

    unfoldable pub delete_rrset : Text → Text → World → Response × World
    delete_rrset id rid w = or_404 w zone_404 (gorm.first_zone no_sets id w.db) λ z.
        finish w 500 (gorm.delete_rrset z.id rid w.db)
          (λ _ db. (reply 204 nothing, changed w (bump_soa_serial gorm now z.id db)))

    unfoldable pub list_rrsets : Text → World → Response × World
    list_rrsets id w = elim (gorm.find_rrsets id w.db) [
      | err e ↦ (reply 500 (db_failure e), w)
      | ok found ↦ (reply 200 (sets found), w)
    ]

    -- The bodies of an import: bound JSON, or the records of a zone file up to its end or to its
    -- first error, which nothing reads: `zp.Err()` is only asked after a Next that found a record.
    -- `order` is the order in which Go's map of sets is walked.
    pub data Import : Type 0 where
      json_body : Option Zone → Import
      bind_body :
          (records : List Parsed) (order : List RrSet → List RrSet) (parse_error : Bool) → Import
      other_format : Import

    unfoldable pub import_into : Zone → Text → Import → World → Response × World
    import_into z mode (json_body none) w = (reply 400 (message (codes "invalid json")), w)
    import_into z mode (json_body (some src)) w =
        finish w 500 (import_json gorm z.id src.rrsets mode cfg.default_ttl w.db)
          (λ _ db. (reply 204 nothing, changed w (bumped z db)))
    import_into z mode (bind_body records order parse_error) w =
        finish w 400
          (import_bind gorm z.id (order (group_records z.id cfg.default_ttl records [])) mode w.db)
          (λ _ db. (reply 204 nothing, changed w (bumped z db)))
    import_into z mode other_format w = (reply 400 (message (codes "unsupported format")), w)

    unfoldable pub import_zone : Text → Text → Import → World → Response × World
    unfolding import_into
    import_zone id mode body w =
        or_404 w zone_404 (gorm.first_zone sets_and_records id w.db)
          (λ z. import_into z (to_lower mode) body w)

    unfoldable pub sync_import : Option SyncData → World → Response × World
    sync_import none w = bad_payload w
    sync_import (some d) w =
        finish w 500 (import_data gorm d w.db)
          (λ _ db. (reply 200 (synced (length d.zones) (length d.templates)), changed w db))

    -- The requests of the API that change something; PATCH on a set is PUT.
    pub data Change : Type 0 where
      post_zone : Option Text → Change
      remove_zone : (id : Text) → Change
      post_rrset : (id : Text) → Option RrSetReq → Change
      put_rrset : (id rid : Text) → Option RrSetReq → Change
      remove_rrset : (id rid : Text) → Change
      post_import : (id mode : Text) → Import → Change
      post_sync : Option SyncData → Change

    unfoldable pub change : Change → World → Response × World
    change (post_zone payload) w = create_zone payload w
    change (remove_zone id) w = delete_zone id w
    change (post_rrset id payload) w = create_rrset id payload w
    change (put_rrset id rid payload) w = update_rrset id rid payload w
    change (remove_rrset id rid) w = delete_rrset id rid w
    change (post_import id mode body) w = import_zone id mode body w
    change (post_sync payload) w = sync_import payload w
